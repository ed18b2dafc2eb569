-- ===== src/StatusLadder/Writes.antt =====
-- packages/server/src/domain/status-ladder.ts: what a timer or a manual status writes to the table.
use whaloc.Base.{
  String, List, Option, none, some, inl, inr, ◌⊎◌, ℕ, ◌≡◌, refl, map, Bool-cases, find,
  Option-cases,
}
use whaloc.Shared.Common.{Json}
use whaloc.Shared.Entities.{Message, StatusDelays}
use whaloc.MessageTable.{StatusInput, find_row, write_status, update_status}
use whaloc.StatusLadder.{
  WebhookStatus, ManualStatus, Ladder, has_handle, can_transition, schedule, next_rung, transition,
  announce, climb, status_input, error_of, fire, mark_status, manual, cancel,
}
use whaloc.StatusLadder.ErrorPresets.{MessageErrorCode}

-- the table is as it was, or one update of a status later
abbrev pub Writes : List Message → List Message → Type 0
Writes before after =
    (after ≡ before)
    ⊎ ((now id : String) × (input : StatusInput) × (after ≡ map (write_status now id input) before))

module _ (delays : StatusDelays) (iso : ℕ → String) where
  announce-messages :
      (m : Message) (status : WebhookStatus) (error : Option Json) (updated : Option Message)
      (l : Ladder)
      → (announce delays iso m status error updated l).messages ≡ l.messages
  unfolding announce
  announce-messages m status error none l = refl
  announce-messages m status error (some updated) l = refl

  transition-Writes :
      (now : ℕ) (m : Message) (status : WebhookStatus) (error : Option Json) (l : Ladder)
      → Writes l.messages (transition delays iso now m status error l).0.messages
  unfolding transition update_status
  transition-Writes now m status error l =
      let input = status_input delays iso now status error in
      let (table, updated) = update_status (iso now) m.id input l.messages in
      inr (
        iso now,
        m.id,
        input,
        announce-messages m status error updated (record l { messages = table }),
      )

  next_rung-messages :
      (now : ℕ) (id : String) (status : WebhookStatus) (l : Ladder)
      → (next_rung delays iso now id status l).messages ≡ l.messages
  unfolding next_rung schedule cancel
  next_rung-messages now id WebhookStatus.sent l = refl
  next_rung-messages now id WebhookStatus.delivered l = elim (Option-cases delays.read) [
    | inl never ↦ rw never refl
    | inr (delay, set) ↦ rw set refl
  ]
  next_rung-messages now id WebhookStatus.read l = refl
  next_rung-messages now id WebhookStatus.failed l = refl

  climb-Writes :
      (now : ℕ) (id : String) (status : WebhookStatus) (l : Ladder)
      → Writes l.messages (climb delays iso now id status l).messages
  unfolding climb
  climb-Writes now id status l = elim (Option-cases (find_row id l.messages)) [
    | inl gone ↦ rw (climb, gone) (inl refl)
    | inr (m, found) ↦ elim (Bool-cases (can_transition m.status status)) [
      | inr too_late ↦ rw (climb, found, too_late) (inl refl)
      | inl rises ↦
          rw
            (
              climb,
              found,
              rises,
              next_rung-messages now id status (transition delays iso now m status none l).0,
            )
            (transition-Writes now m status none l)
    ]
  ]

  pub fire-Writes : (now h : ℕ) (l : Ladder) → Writes l.messages (fire delays iso now h l).messages
  unfolding fire
  fire-Writes now h l = elim (Option-cases (find (has_handle h) l.timers)) [
    | inl gone ↦ rw (fire, gone) (inl refl)
    | inr (t, found) ↦ rw (fire, found) (climb-Writes now t.message_id t.status _)
  ]

  pub mark_status-Writes :
      (now : ℕ) (id : String) (status : ManualStatus) (code : Option MessageErrorCode) (l : Ladder)
      → Writes l.messages (mark_status delays iso now id status code l).0.messages
  unfolding mark_status cancel
  mark_status-Writes now id status code l = elim (Option-cases (find_row id l.messages)) [
    | inl gone ↦ rw (mark_status, gone) (inl refl)
    | inr (m, found) ↦ elim (Bool-cases (can_transition m.status (manual status))) [
      | inr too_late ↦ rw (mark_status, found, too_late) (inl refl)
      | inl rises ↦
          rw (mark_status, found, rises)
            (transition-Writes now m (manual status) (error_of status code) (cancel m.id l))
    ]
  ]
