-- ===== src/StatusLadder/Marking.antt =====
-- packages/server/src/domain/status-ladder.ts: what marking a message by hand does.
use whaloc.Base.{
  String, List, [], ◌∷◌, false, Option, none, some, ℕ, ◌≡◌, refl, sym, ap, ◌∙◌, arith, inl, inr,
  Bool-cases, ◌==◌, if◌then◌else◌, key-find_by, get, get-delete, All, map, eq_refl, subst,
}
use whaloc.Shared.Common.{Json}
use whaloc.Shared.Entities.{Message, StatusDelays}
use whaloc.MessageTable.{row_id, find_row, with_status}
use whaloc.MessageTable.Rows.{row-update_status}
use whaloc.StatusLadder.ErrorPresets.{MessageErrorCode}
use whaloc.StatusLadder.{
  Ladder, Timer, WebhookStatus, ManualStatus, status_input, can_transition, manual, cancel,
  announce, transition, mark_row, mark_status, error_of,
}
use whaloc.StatusLadder.Handles.{entry}
use whaloc.StatusLadder.Timers.{IsPaired, mark_row-IsPaired}

-- a message that the map does not know has no live timer
none_of :
    (k : String) (ts : List Timer)
    → get k (map entry ts) ≡ none
    → All (λ t. (t.message_id == k) ≡ false) ts
unfolding get
none_of k [] e = tt
none_of k (t ∷ ts) e = elim (Bool-cases (t.message_id == k)) [
  | inl same ↦ absurd (ground (arith, e, same))
  | inr other ↦ (other, none_of k ts (rw other at e))
]

module _ (delays : StatusDelays) (iso : ℕ → String) where
  -- the row that a mark returns
  abbrev pub marked_row : ℕ → ManualStatus → Option MessageErrorCode → Message → Option Message
  marked_row now status code m =
      if can_transition m.status (manual status)
      then some (
          with_status (iso now) (status_input delays iso now (manual status) (error_of status code))
            m)
      else none

  pub pending-announce :
      (m : Message) (s : WebhookStatus) (error : Option Json) (o : Option Message) (l : Ladder)
      → (announce delays iso m s error o l).pending ≡ l.pending
  unfolding announce
  pending-announce m s error none l = refl
  pending-announce m s error (some u) l = refl

  mark_row-pending :
      (now : ℕ) (status : ManualStatus) (code : Option MessageErrorCode) (m : Message) (l : Ladder)
      → get m.id (mark_row delays iso now status code (some m) l).0.pending ≡ none
  unfolding mark_row cancel transition
  mark_row-pending now status code m l =
      elim (Bool-cases (can_transition m.status (manual status))) [
        | inl up ↦ rw up (
            ap (get m.id) (pending-announce m (manual status) _ _ _)
            ∙ get-delete m.id m.id l.pending
            ∙ rw (eq_refl m.id) refl)
        | inr down ↦ rw down (get-delete m.id m.id l.pending ∙ rw (eq_refl m.id) refl)
      ]

  mark_row-result :
      (now : ℕ) (status : ManualStatus) (code : Option MessageErrorCode) (m : Message) (l : Ladder)
      → find_row m.id l.messages ≡ some m
      → (mark_row delays iso now status code (some m) l).1 ≡ marked_row now status code m
  unfolding mark_row cancel transition
  mark_row-result now status code m l here =
      elim (Bool-cases (can_transition m.status (manual status))) [
        | inl up ↦ rw up (row-update_status _ m.id _ l.messages ∙ rw here refl)
        | inr down ↦ rw down refl
      ]

  -- Where the map and the timers agree, marking a known message returns its new row exactly when it
  -- moves forward, and in either case leaves no live timer of that message.
  pub mark_status-result :
      (now : ℕ) (id : String) (status : ManualStatus) (code : Option MessageErrorCode) (l : Ladder)
      (m : Message)
      → IsPaired l
      → find_row id l.messages ≡ some m
      → ((mark_status delays iso now id status code l).1 ≡ marked_row now status code m)
        × All
            (λ t. (t.message_id == id) ≡ false)
            (mark_status delays iso now id status code l).0.timers
  unfolding mark_status
  mark_status-result now id status code l m p e =
      let named : m.id ≡ id = key-find_by row_id id l.messages m e in
      let here : find_row m.id l.messages ≡ some m =
        subst (λ j. find_row j l.messages ≡ some m) (sym named) e in
      rw e (
        mark_row-result now status code m l here,
        none_of id _ (
            ap (get id) (sym (mark_row-IsPaired delays iso now status code (some m) l p).0)
            ∙ subst (λ j. get j (mark_row delays iso now status code (some m) l).0.pending ≡ none)
                named (mark_row-pending now status code m l)),
      )
