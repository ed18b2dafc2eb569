-- ===== src/StatusLadder/Forward.antt =====
-- packages/server/src/domain/status-ladder.ts: the order of a message's statuses.
use mathlib.Core.Option
use mathlib.Core.Option.{some-injective}
use whaloc.Base.{
  String, List, true, Option, none, some, ℕ, ◌<◌, ◌≡◌, refl, sym, ap, ◌∙◌, arith, ◌⊎◌, inl, inr,
  Bool-cases, eq→path, ◌==◌, if◌then◌else◌, find_by-append, key-find_by, subst, find,
}
use whaloc.Shared.Common.{MessageStatus, Json}
use whaloc.Shared.Entities.{Message, StatusDelays}
use whaloc.MessageTable.{MessageInput, row_id, find_row, insert_row, with_status}
use whaloc.MessageTable.Rows.{find_row-update_status}
use whaloc.StatusLadder.ErrorPresets.{MessageErrorCode}
use whaloc.StatusLadder.{
  Ladder, Timer, WebhookStatus, ManualStatus, Step, as_status, status_order, status_input,
  can_transition, manual, cancel, cancel_all, schedule, announce, transition, next_rung, climb,
  climb_from, fire_timer, fire, on_outbound_accepted, mark_row, mark_status, has_handle,
}

-- the row that a message has become: the same, or one of a later status
abbrev Ahead : String → Message → List Message → Type 0
Ahead k m table =
    (m' : Message) × (find_row k table ≡ some m')
    × ((m' ≡ m) ⊎ (status_order m.status < status_order m'.status))

abbrev Forward : List Message → List Message → Type 0
Forward table table' = (k : String) (m : Message) → find_row k table ≡ some m → Ahead k m table'

same_table : (table : List Message) → Forward table table
same_table table k m e = (m, e, inl refl)

-- What passes the guard is a later status.
order-can_transition :
    (current : MessageStatus) (next : WebhookStatus)
    → can_transition current next ≡ true
    → status_order current < status_order (as_status next)
unfolding can_transition
order-can_transition current next h = ground (arith, h)

insert_row-Forward :
    (now : String) (input : MessageInput) (table : List Message)
    → Forward table (insert_row now input table).0
unfolding insert_row
insert_row-Forward now input table k m e =
    (m, find_by-append row_id k table _ ∙ rw e refl, inl refl)

module _ (delays : StatusDelays) (iso : ℕ → String) where
  messages-announce :
      (m : Message) (s : WebhookStatus) (error : Option Json) (o : Option Message) (l : Ladder)
      → (announce delays iso m s error o l).messages ≡ l.messages
  unfolding announce
  messages-announce m s error none l = refl
  messages-announce m s error (some u) l = refl

  pub find_row-transition :
      (now : ℕ) (m : Message) (s : WebhookStatus) (error : Option Json) (l : Ladder) (k : String)
      → find_row k (transition delays iso now m s error l).0.messages
        ≡ Option.map
            (λ r.
              if m.id == k
              then with_status (iso now) (status_input delays iso now s error) r
              else r)
            (find_row k l.messages)
  unfolding transition
  find_row-transition now m s error l k =
      ap (find_row k) (messages-announce m s error _ _)
      ∙ find_row-update_status (iso now) m.id k (status_input delays iso now s error) l.messages

  -- A transition that the guard let pass moves its own row forward and no other.
  transition-Forward :
      (now : ℕ) (m : Message) (s : WebhookStatus) (error : Option Json) (l : Ladder)
      → find_row m.id l.messages ≡ some m
      → can_transition m.status s ≡ true
      → Forward l.messages (transition delays iso now m s error l).0.messages
  transition-Forward now m s error l here up k r e = elim (Bool-cases (m.id == k)) [
    | inl same ↦ (
      with_status (iso now) (status_input delays iso now s error) r,
      find_row-transition now m s error l k ∙ rw (e, same) refl,
      inr (
          subst (λ (x : Message). status_order x.status < status_order (as_status s))
            (some-injective m r (sym here ∙ ap (λ j. find_row j l.messages) (eq→path same) ∙ e))
            (order-can_transition m.status s up)),
    )
    | inr other ↦ (r, find_row-transition now m s error l k ∙ rw (e, other) refl, inl refl)
  ]

  pub messages-next_rung :
      (now : ℕ) (k : String) (s : WebhookStatus) (l : Ladder)
      → (next_rung delays iso now k s l).messages ≡ l.messages
  unfolding next_rung schedule cancel
  messages-next_rung now k WebhookStatus.sent l = refl
  messages-next_rung now k WebhookStatus.delivered l = go delays.read
    where
      go :
          (o : Option ℕ)
          → (elim o as (λ (x : Option ℕ). Ladder) [
            | none ↦ l
            | some delay ↦ schedule now k WebhookStatus.read delay l
          ]).messages
            ≡ l.messages
      go none = refl
      go (some delay) = refl
  messages-next_rung now k WebhookStatus.read l = refl
  messages-next_rung now k WebhookStatus.failed l = refl

  climb_from-Forward :
      (now : ℕ) (k : String) (s : WebhookStatus) (o : Option Message) (l : Ladder)
      → find_row k l.messages ≡ o
      → Forward l.messages (climb_from delays iso now k s o l).messages
  climb_from-Forward now k s none l e = same_table l.messages
  climb_from-Forward now k s (some m) l e = elim (Bool-cases (can_transition m.status s)) [
    | inl up ↦
        rw (up, messages-next_rung now k s (transition delays iso now m s none l).0)
          (transition-Forward now m s none l
            (subst (λ j. find_row j l.messages ≡ some m) (sym (key-find_by row_id k l.messages m e))
              e)
            up)
    | inr down ↦ rw down (same_table l.messages)
  ]

  fire_timer-Forward :
      (now : ℕ) (o : Option Timer) (l : Ladder)
      → Forward l.messages (fire_timer delays iso now o l).messages
  unfolding fire_timer climb
  fire_timer-Forward now none l = same_table l.messages
  fire_timer-Forward now (some t) l = climb_from-Forward now t.message_id t.status _ _ refl

  mark_row-Forward :
      (now : ℕ) (k : String) (s : ManualStatus) (code : Option MessageErrorCode)
      (o : Option Message) (l : Ladder)
      → find_row k l.messages ≡ o
      → Forward l.messages (mark_row delays iso now s code o l).0.messages
  unfolding mark_row cancel
  mark_row-Forward now k s code none l e = same_table l.messages
  mark_row-Forward now k s code (some m) l e =
      elim (Bool-cases (can_transition m.status (manual s))) [
        | inl up ↦ rw up (
            transition-Forward now m (manual s) _ (cancel m.id l)
              (subst (λ j. find_row j l.messages ≡ some m)
                (sym (key-find_by row_id k l.messages m e)) e)
              up)
        | inr down ↦ rw down (same_table l.messages)
      ]

  Step-Forward : {l l' : Ladder} → Step delays iso l l' → Forward l.messages l'.messages
  unfolding on_outbound_accepted fire mark_status schedule cancel cancel_all
  Step-Forward {l = l} (Step.accepted now input free fresh) = insert_row-Forward _ input l.messages
  Step-Forward {l = l} (Step.fired now h) = fire_timer-Forward now (find (has_handle h) l.timers) l
  Step-Forward {l = l} (Step.marked now id s code) = mark_row-Forward now id s code _ l refl
  Step-Forward {l = l} (Step.cancelled id) = same_table l.messages
  Step-Forward {l = l} Step.all_cancelled = same_table l.messages

  pub data Later (l : Ladder) : Ladder → Type 0 where
    now : Later l l
    after : {l' l'' : Ladder} → Later l l' → Step delays iso l' l'' → Later l l''

  further :
      (k : String) (m m' : Message) (table : List Message)
      → ((m' ≡ m) ⊎ (status_order m.status < status_order m'.status))
      → Ahead k m' table
      → Ahead k m table
  further k m m' table (inl same) step = subst (λ x. Ahead k x table) same step
  further k m m' table (inr less) (m'', found, inl same) = (
    m'',
    found,
    inr (subst (λ (x : Message). status_order m.status < status_order x.status) (sym same) less),
  )
  further k m m' table (inr less) (m'', found, inr more) =
      (m'', found, inr (omega (arith, less, more)))

  -- Whatever sends, timers, marks and cancellations come, a stored message stays stored, and its
  -- row is the same or has a later status.
  pub Later-Forward :
      {l l' : Ladder}
      → Later l l'
      → (k : String) (m : Message) → find_row k l.messages ≡ some m
      → (m' : Message) × (find_row k l'.messages ≡ some m')
        × ((m' ≡ m) ⊎ (status_order m.status < status_order m'.status))
  Later-Forward now k m e = (m, e, inl refl)
  Later-Forward (after {l'' = l''} r s) k m e =
      let (m', found, ahead) = Later-Forward r k m e in
      further k m m' l''.messages ahead (Step-Forward s k m' found)
