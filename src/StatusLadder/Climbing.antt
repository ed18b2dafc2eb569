-- ===== src/StatusLadder/Climbing.antt =====
-- packages/server/src/domain/status-ladder.ts: the rungs of an accepted send.
use mathlib.Core.Option
use whaloc.Base.{
  String, List, [], ◌∷◌, ◌++◌, true, Option, none, some, ℕ, ◌+◌, ◌≤◌, ◌≡◌, refl, sym, ap, ◌∙◌,
  arith, find, get, delete, get-put, get-delete, eq_refl, Option-cases, inl, inr, subst,
}
use whaloc.Shared.Common.{MessageStatus, Json}
use whaloc.Shared.Entities.{Message, StatusDelays}
use whaloc.MessageTable.{find_row, with_status}
use whaloc.StatusLadder.{
  as_status, Ladder, Timer, Effect, WebhookStatus, Step, status_input, can_transition, has_handle,
  stop_timer, cancel, schedule, announce, transition, next_rung, climb, fire_timer, fire,
  on_outbound_accepted,
}
use whaloc.StatusLadder.Handles.{InOrder}
use whaloc.StatusLadder.Timers.{
  IsPaired, drop-Linked, stop-InOrder, Step-IsPaired, schedule-IsPaired, transition-IsPaired,
}
use whaloc.StatusLadder.Marking.{pending-announce}
use whaloc.StatusLadder.Forward.{find_row-transition, messages-next_rung}

bound-InOrder : (lo hi : ℕ) (ts : List Timer) → InOrder lo hi ts → lo ≤ hi
bound-InOrder lo hi [] o = o
bound-InOrder lo hi (t ∷ ts) (a, o) = omega (arith, bound-InOrder (t.handle + 1) hi ts o)

find_last :
    (lo hi : ℕ) (ts : List Timer) (t : Timer)
    → t.handle ≡ hi
    → InOrder lo hi ts
    → find (has_handle hi) (ts ++ t ∷ []) ≡ some t
find_last lo hi [] t e o = ground arith
find_last lo hi (u ∷ ts) t e (a, o) =
    ground (arith, find_last (u.handle + 1) hi ts t e o, bound-InOrder (u.handle + 1) hi ts o)

abbrev timer : ℕ → String → WebhookStatus → ℕ → Timer
timer h id status due = record { handle = h; message_id = id; status = status; due = due }

-- the timer that `schedule` adds
abbrev new_timer : ℕ → String → WebhookStatus → ℕ → Ladder → Timer
new_timer now id status delay l = record {
  handle = l.next_handle;
  message_id = id;
  status = status;
  due = now + delay;
}

find-schedule :
    (now : ℕ) (id : String) (status : WebhookStatus) (delay : ℕ) (l : Ladder)
    → IsPaired l
    → find (has_handle l.next_handle) (schedule now id status delay l).timers
      ≡ some (new_timer now id status delay l)
unfolding schedule cancel
find-schedule now id status delay l (e, d, o) =
    find_last 0 l.next_handle (stop_timer (get id l.pending) l.timers) _ refl
      (stop-InOrder (get id l.pending) l.next_handle l.timers o)

get-schedule :
    (now : ℕ) (id : String) (status : WebhookStatus) (delay : ℕ) (l : Ladder)
    → get id (schedule now id status delay l).pending ≡ some l.next_handle
unfolding schedule
get-schedule now id status delay l = get-put id id l.next_handle _ ∙ rw (eq_refl id) refl

-- the ladder after a timer has gone off, before its climb
abbrev dropped : Timer → Ladder → Ladder
dropped t l = record l {
  timers = stop_timer (some t.handle) l.timers;
  pending = delete t.message_id l.pending;
}

module _ (delays : StatusDelays) (iso : ℕ → String) where
  -- what the webhook of an automatic rung reports: no error
  abbrev pub risen : ℕ → WebhookStatus → Message → Message
  risen now status m = with_status (iso now) (status_input delays iso now status none) m

  -- A live timer whose message is behind applies its rung and queues the next.
  fire-climb :
      (now h : ℕ) (t : Timer) (m : Message) (l : Ladder)
      → find (has_handle h) l.timers ≡ some t
      → find_row t.message_id l.messages ≡ some m
      → can_transition m.status t.status ≡ true
      → fire delays iso now h l
        ≡ next_rung delays iso now t.message_id t.status
            (transition delays iso now m t.status none (dropped t l)).0
  unfolding fire fire_timer climb
  fire-climb now h t m l live here up = rw (live, here, up) refl

  next_handle-announce :
      (m : Message) (s : WebhookStatus) (error : Option Json) (o : Option Message) (l : Ladder)
      → (announce delays iso m s error o l).next_handle ≡ l.next_handle
  unfolding announce
  next_handle-announce m s error none l = refl
  next_handle-announce m s error (some u) l = refl

  -- the message after a rung
  row-fire :
      (now h : ℕ) (t : Timer) (m : Message) (l : Ladder)
      → find (has_handle h) l.timers ≡ some t
      → find_row t.message_id l.messages ≡ some m
      → m.id ≡ t.message_id
      → can_transition m.status t.status ≡ true
      → find_row t.message_id (fire delays iso now h l).messages ≡ some (risen now t.status m)
  row-fire now h t m l live here named up =
      ap (λ x. find_row t.message_id x.messages) (fire-climb now h t m l live here up)
      ∙ ap (find_row t.message_id) (messages-next_rung delays iso now t.message_id t.status _)
      ∙ find_row-transition delays iso now m t.status none (dropped t l) t.message_id
      ∙ rw (here, named, eq_refl t.message_id) refl

  -- the ladder between the transition of a rung and its next timer
  abbrev risen_at : ℕ → Timer → Message → Ladder → Ladder
  risen_at now t m l = (transition delays iso now m t.status none (dropped t l)).0

  next_handle-risen_at :
      (now : ℕ) (t : Timer) (m : Message) (l : Ladder)
      → (risen_at now t m l).next_handle ≡ l.next_handle
  unfolding transition
  next_handle-risen_at now t m l = next_handle-announce m t.status none _ _

  find-next_rung :
      (now : ℕ) (id : String) (status next : WebhookStatus) (delay n : ℕ) (l : Ladder)
      → IsPaired l
      → l.next_handle ≡ n
      → next_rung delays iso now id status l ≡ schedule now id next delay l
      → (find (has_handle n) (next_rung delays iso now id status l).timers
          ≡ some (timer n id next (now + delay)))
        × ((next_rung delays iso now id status l).next_handle ≡ n + 1)
        × (get id (next_rung delays iso now id status l).pending ≡ some n)
  unfolding schedule cancel
  find-next_rung now id status next delay n l p same step =
      subst
        (λ n.
          (find (has_handle n) (next_rung delays iso now id status l).timers
            ≡ some (timer n id next (now + delay)))
          × ((next_rung delays iso now id status l).next_handle ≡ n + 1)
          × (get id (next_rung delays iso now id status l).pending ≡ some n))
        same (rw step (find-schedule now id next delay l p, refl, get-schedule now id next delay l))

  -- the rung of a timer that queues another
  queued-fire :
      (now h due delay : ℕ) (id : String) (status next : WebhookStatus) (m : Message) (l : Ladder)
      → IsPaired l
      → find (has_handle h) l.timers ≡ some (timer h id status due)
      → find_row id l.messages ≡ some m
      → can_transition m.status status ≡ true
      → ((l' : Ladder) → next_rung delays iso now id status l' ≡ schedule now id next delay l')
      → (find (has_handle l.next_handle) (fire delays iso now h l).timers
          ≡ some (timer l.next_handle id next (now + delay)))
        × ((fire delays iso now h l).next_handle ≡ l.next_handle + 1)
        × (get id (fire delays iso now h l).pending ≡ some l.next_handle)
  queued-fire now h due delay id status next m l p live here up step =
      let t = timer h id status due in
      rw (fire-climb now h t m l live here up) (
        find-next_rung now id status next delay l.next_handle (risen_at now t m l)
          (transition-IsPaired delays iso now m status none (dropped t l)
            (drop-Linked h t l p live))
          (next_handle-risen_at now t m l) (step (risen_at now t m l)))

  -- a delivered message waits for nothing when `read` has no delay
  idle-fire :
      (now h due : ℕ) (id : String) (m : Message) (l : Ladder)
      → delays.read ≡ none
      → find (has_handle h) l.timers ≡ some (timer h id WebhookStatus.delivered due)
      → find_row id l.messages ≡ some m
      → can_transition m.status WebhookStatus.delivered ≡ true
      → get id (fire delays iso now h l).pending ≡ none
  unfolding next_rung transition
  idle-fire now h due id m l manual live here up =
      ap (λ x. get id x.pending)
        (fire-climb now h (timer h id WebhookStatus.delivered due) m l live here up)
      ∙ rw manual (
          ap (get id) (pending-announce delays iso m WebhookStatus.delivered none _ _)
          ∙ get-delete id id l.pending
          ∙ rw (eq_refl id) refl)

  module _ (t0 t1 t2 : ℕ) (m : Message) (l : Ladder) (p : IsPaired l)
      (here : find_row m.id l.messages ≡ some m) (new : m.status ≡ MessageStatus.accepted) where
    pub announced : Ladder
    announced = on_outbound_accepted delays iso t0 m l

    pub sent_at : Ladder
    unfolding announced
    sent_at = fire delays iso t1 l.next_handle announced

    abbrev pub delivered_at : Ladder
    delivered_at = fire delays iso t2 (l.next_handle + 1) sent_at

    announced-live :
        (find (has_handle l.next_handle) announced.timers
          ≡ some (timer l.next_handle m.id WebhookStatus.sent (t0 + delays.sent)))
        × IsPaired announced
        × (find_row m.id announced.messages ≡ some m)
        × (announced.next_handle ≡ l.next_handle + 1)
    unfolding announced on_outbound_accepted schedule cancel
    announced-live = (
      find-schedule t0 m.id WebhookStatus.sent delays.sent
          (record l { effects = l.effects ++ Effect.created m ∷ [] }) p,
      schedule-IsPaired t0 m.id WebhookStatus.sent delays.sent
          (record l { effects = l.effects ++ Effect.created m ∷ [] }) p,
      here,
      refl,
    )

    sent-live :
        (find (has_handle (l.next_handle + 1)) sent_at.timers
          ≡ some (timer (l.next_handle + 1) m.id WebhookStatus.delivered (t1 + delays.delivered)))
        × IsPaired sent_at
        × (find_row m.id sent_at.messages ≡ some (risen t1 WebhookStatus.sent m))
        × (sent_at.next_handle ≡ l.next_handle + 2)
    unfolding sent_at can_transition next_rung
    sent-live =
        let (live, paired, stored, next) = announced-live in
        let up : can_transition m.status WebhookStatus.sent ≡ true = rw new refl in
        let (queued, next', _) =
          queued-fire t1 l.next_handle _ delays.delivered m.id WebhookStatus.sent
            WebhookStatus.delivered m announced paired live stored up (λ l'. refl) in
        (
          rw⁻¹ next queued,
          Step-IsPaired delays iso (Step.fired t1 l.next_handle) paired,
          row-fire t1 l.next_handle (timer l.next_handle m.id WebhookStatus.sent _) m announced live
              stored refl up,
          next' ∙ omega (arith, next),
        )

    second : Message
    second = risen t1 WebhookStatus.sent m

    second_up : can_transition second.status WebhookStatus.delivered ≡ true
    unfolding second can_transition as_status
    second_up = refl

    -- From a ladder whose map and timers agree, a stored accepted message that is announced is
    -- delivered when its first two timers have gone off, and its third timer waits exactly when
    -- `read` has a delay.
    pub climbs_to_delivered :
        (find_row m.id delivered_at.messages
          ≡ some (risen t2 WebhookStatus.delivered (risen t1 WebhookStatus.sent m)))
        × (get m.id delivered_at.pending ≡ Option.map (λ d. l.next_handle + 2) delays.read)
    unfolding second next_rung
    climbs_to_delivered =
        let (live, paired, stored, next) = sent-live in
        (
          row-fire t2 (l.next_handle + 1) (timer (l.next_handle + 1) m.id WebhookStatus.delivered _)
              second sent_at live stored refl second_up,
          elim (Option-cases delays.read) [
            | inl manual ↦
                idle-fire t2 (l.next_handle + 1) _ m.id second sent_at manual live stored second_up
                ∙ rw manual refl
            | inr (d, auto) ↦
                let (_, _, kept) =
                  queued-fire t2 (l.next_handle + 1) _ d m.id WebhookStatus.delivered
                    WebhookStatus.read second sent_at paired live stored second_up
                    (λ l'. rw auto refl) in
                kept ∙ ap some next ∙ ap (Option.map (λ x. l.next_handle + 2)) (sym auto)
          ],
        )

    -- From a ladder whose map and timers agree, where `read` has a delay, an announced accepted
    -- message is read when its third timer has gone off.
    pub climbs_to_read :
        (t3 d : ℕ)
        → delays.read ≡ some d
        → find_row m.id (fire delays iso t3 (l.next_handle + 2) delivered_at).messages
          ≡ some (
              risen t3 WebhookStatus.read
                (risen t2 WebhookStatus.delivered (risen t1 WebhookStatus.sent m)))
    unfolding second next_rung can_transition as_status
    climbs_to_read t3 d auto =
        let (live, paired, stored, next) = sent-live in
        let (queued, _, _) =
          queued-fire t2 (l.next_handle + 1) _ d m.id WebhookStatus.delivered WebhookStatus.read
            second sent_at paired live stored second_up (λ l'. rw auto refl) in
        row-fire t3 (l.next_handle + 2) (timer (l.next_handle + 2) m.id WebhookStatus.read (t2 + d))
          (risen t2 WebhookStatus.delivered second) delivered_at (rw⁻¹ next queued)
          climbs_to_delivered.0 refl refl
