-- ===== src/StatusLadder/Timers.antt =====
-- packages/server/src/domain/status-ladder.ts: the pending map and the
-- scheduler's timers.
use whaloc.Base.{
  String, List, [], ◌∷◌, ◌++◌, Option, none, some, ℕ, ◌+◌, ◌≡◌, refl, sym, ap, ◌∙◌, arith, not,
  find, map, Assoc, get, put, delete, HasDistinctKeys, get-delete, put_absent,
  delete-HasDistinctKeys, put-HasDistinctKeys, Bool-cases, inl, inr, eq_refl, subst,
}
use whaloc.Shared.Common.{Json}
use whaloc.Shared.Entities.{Message, StatusDelays}
use whaloc.StatusLadder.ErrorPresets.{MessageErrorCode}
use whaloc.StatusLadder.{
  can_transition, manual, Ladder, Timer, WebhookStatus, ManualStatus, Step, Reach, has_handle,
  stop_timer, cancel, stop_all, cancel_all, schedule, announce, transition, next_rung, climb,
  climb_from, fire_timer, fire, on_outbound_accepted, mark_row, mark_status,
}
use whaloc.StatusLadder.Handles.{
  InOrder, append-InOrder, drop_head, entry, filter-InOrder, get-entry, map-append, stop_timer-get,
}

-- The map lists the live timers, in their order and by the handles they got, one per message.
abbrev pub Linked : Assoc ℕ → List Timer → ℕ → Type 0
Linked pending timers next =
    (pending ≡ map entry timers) × HasDistinctKeys pending × InOrder 0 next timers

abbrev pub IsPaired : Ladder → Type 0
IsPaired l = Linked l.pending l.timers l.next_handle

pub stop-InOrder :
    (o : Option ℕ) (hi : ℕ) (ts : List Timer) → InOrder 0 hi ts → InOrder 0 hi (stop_timer o ts)
unfolding stop_timer
stop-InOrder none hi ts o = o
stop-InOrder (some h) hi ts o = filter-InOrder (λ t. not (has_handle h t)) 0 hi ts o

stop-Linked :
    (k : String) (pending : Assoc ℕ) (ts : List Timer) (next : ℕ)
    → Linked pending ts next
    → Linked (delete k pending) (stop_timer (get k pending) ts) next
stop-Linked k pending ts next (e, d, o) = (
  rw e (sym (stop_timer-get k 0 next ts o (subst HasDistinctKeys e d))),
  delete-HasDistinctKeys k pending d,
  stop-InOrder (get k pending) next ts o,
)

cancel-IsPaired : (k : String) (l : Ladder) → IsPaired l → IsPaired (cancel k l)
unfolding cancel
cancel-IsPaired k l h = stop-Linked k l.pending l.timers l.next_handle h

add-Linked :
    (k : String) (pending : Assoc ℕ) (ts : List Timer) (next : ℕ) (t : Timer)
    → t.message_id ≡ k
    → t.handle ≡ next
    → get k pending ≡ none
    → Linked pending ts next
    → Linked (put k next pending) (ts ++ t ∷ []) (next + 1)
add-Linked k pending ts next t named numbered free (e, d, o) = (
  put_absent k next pending free
      ∙ ap (λ m. m ++ (k, next) ∷ []) e
      ∙ ap (λ x. map entry ts ++ x ∷ []) (rw (named, numbered) refl)
      ∙ sym (map-append ts t),
  put-HasDistinctKeys k next pending d,
  append-InOrder 0 next ts t numbered o,
)

pub schedule-IsPaired :
    (now : ℕ) (k : String) (status : WebhookStatus) (delay : ℕ) (l : Ladder)
    → IsPaired l
    → IsPaired (schedule now k status delay l)
unfolding schedule cancel
schedule-IsPaired now k status delay l h =
    add-Linked k (delete k l.pending) (stop_timer (get k l.pending) l.timers) l.next_handle _ refl
      refl (get-delete k k l.pending ∙ rw (eq_refl k) refl) (cancel-IsPaired k l h)

stop_all-entries :
    (lo hi : ℕ) (ts : List Timer) → InOrder lo hi ts → stop_all (map entry ts) ts ≡ []
unfolding stop_all
stop_all-entries lo hi [] o = refl
stop_all-entries lo hi (t ∷ ts) (a, o) =
    ap (stop_all (map entry ts)) (drop_head t ts (t.handle + 1) hi (omega arith) o)
    ∙ stop_all-entries (t.handle + 1) hi ts o

cancel_all-IsPaired : (l : Ladder) → IsPaired l → IsPaired (cancel_all l)
unfolding cancel_all
cancel_all-IsPaired l (e, d, o) =
    let none_left : stop_all l.pending l.timers ≡ [] =
      ap (λ m. stop_all m l.timers) e ∙ stop_all-entries 0 l.next_handle l.timers o in
    rw none_left (refl, tt, omega arith)

-- a timer that goes off is dropped with its entry
pub drop-Linked :
    (h : ℕ) (t : Timer) (l : Ladder)
    → IsPaired l
    → find (has_handle h) l.timers ≡ some t
    → Linked (delete t.message_id l.pending) (stop_timer (some t.handle) l.timers) l.next_handle
drop-Linked h t l (same, d, o) e =
    subst (λ g. Linked (delete t.message_id l.pending) (stop_timer g l.timers) l.next_handle)
      (ap (get t.message_id) same ∙ get-entry h t l.timers (subst HasDistinctKeys same d) e)
      (stop-Linked t.message_id l.pending l.timers l.next_handle (same, d, o))

module _ (delays : StatusDelays) (iso : ℕ → String) where
  announce-IsPaired :
      (m : Message) (s : WebhookStatus) (error : Option Json) (o : Option Message) (l : Ladder)
      → IsPaired l
      → IsPaired (announce delays iso m s error o l)
  unfolding announce
  announce-IsPaired m s error none l h = h
  announce-IsPaired m s error (some u) l h = h

  pub transition-IsPaired :
      (now : ℕ) (m : Message) (s : WebhookStatus) (error : Option Json) (l : Ladder)
      → IsPaired l
      → IsPaired (transition delays iso now m s error l).0
  unfolding transition
  transition-IsPaired now m s error l h = announce-IsPaired m s error _ _ h

  next_rung-IsPaired :
      (now : ℕ) (k : String) (s : WebhookStatus) (l : Ladder)
      → IsPaired l
      → IsPaired (next_rung delays iso now k s l)
  unfolding next_rung
  next_rung-IsPaired now k WebhookStatus.sent l h = schedule-IsPaired now k _ _ l h
  next_rung-IsPaired now k WebhookStatus.delivered l h = go delays.read
    where
      go :
          (o : Option ℕ)
          → IsPaired (elim o [ none ↦ l | some delay ↦ schedule now k WebhookStatus.read delay l ])
      go none = h
      go (some delay) = schedule-IsPaired now k _ delay l h
  next_rung-IsPaired now k WebhookStatus.read l h = h
  next_rung-IsPaired now k WebhookStatus.failed l h = h

  climb_from-IsPaired :
      (now : ℕ) (k : String) (s : WebhookStatus) (o : Option Message) (l : Ladder)
      → IsPaired l
      → IsPaired (climb_from delays iso now k s o l)
  climb_from-IsPaired now k s none l h = h
  climb_from-IsPaired now k s (some m) l h = elim (Bool-cases (can_transition m.status s)) [
    | inl up ↦ rw up (next_rung-IsPaired now k s _ (transition-IsPaired now m s none l h))
    | inr down ↦ rw down h
  ]

  fire_timer-IsPaired :
      (now h : ℕ) (o : Option Timer) (l : Ladder)
      → find (has_handle h) l.timers ≡ o
      → IsPaired l
      → IsPaired (fire_timer delays iso now o l)
  unfolding fire_timer climb
  fire_timer-IsPaired now h none l e p = p
  fire_timer-IsPaired now h (some t) l e (same, d, o) =
      climb_from-IsPaired now t.message_id t.status _ _ (drop-Linked h t l (same, d, o) e)

  pub mark_row-IsPaired :
      (now : ℕ) (s : ManualStatus) (code : Option MessageErrorCode) (o : Option Message)
      (l : Ladder)
      → IsPaired l
      → IsPaired (mark_row delays iso now s code o l).0
  unfolding mark_row
  mark_row-IsPaired now s code none l h = h
  mark_row-IsPaired now s code (some m) l h =
      elim (Bool-cases (can_transition m.status (manual s))) [
        | inl up ↦ rw up (transition-IsPaired now m (manual s) _ _ (cancel-IsPaired m.id l h))
        | inr down ↦ rw down (cancel-IsPaired m.id l h)
      ]

  pub Step-IsPaired : {l l' : Ladder} → Step delays iso l l' → IsPaired l → IsPaired l'
  unfolding on_outbound_accepted fire mark_status
  Step-IsPaired (Step.accepted now input free fresh) h = schedule-IsPaired now _ _ _ _ h
  Step-IsPaired {l = l} (Step.fired now k) h = fire_timer-IsPaired now k _ l refl h
  Step-IsPaired {l = l} (Step.marked now id s code) h = mark_row-IsPaired now s code _ l h
  Step-IsPaired {l = l} (Step.cancelled id) h = cancel-IsPaired id l h
  Step-IsPaired {l = l} Step.all_cancelled h = cancel_all-IsPaired l h

  -- After any sequence of sends, timers, manual marks and cancellations the pending map lists
  -- exactly the live timers of the scheduler, each under its message and by its handle, and no
  -- message has two.
  pub Reach-IsPaired : {l : Ladder} → Reach delays iso l → IsPaired l
  Reach-IsPaired (Reach.start messages) = (refl, tt, omega arith)
  Reach-IsPaired (Reach.after r s) = Step-IsPaired s (Reach-IsPaired r)
