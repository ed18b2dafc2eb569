-- ===== src/Typing/Steps.antt =====
-- packages/server/src/domain/typing-service.ts: each operation on the linked pair.
use mathlib.Core.Option.{some-injective}
use whaloc.Base.{
  String, [], ◌∷◌, ◌++◌, true, false, Option, none, some, ℕ, ◌+◌, ◌≡◌, refl, sym, ap, ◌∙◌, arith,
  find, eqb, get, put, delete, get-put, Bool-cases, Option-cases, inl, inr, eq→path, eq_refl, ◌⊎◌,
  subst, ◌==◌,
}
use whaloc.Shared.Conversation.{conversation_id}
use whaloc.Typing.{
  Indicator, Task, Service, Outcome, Step, task_is, stop_task, drop, start, clear, cleared, dismiss,
  on_outbound_accepted,
}
use whaloc.Typing.Dismissals.{
  key_of, task_of, IsLinked, find-append, find-append_other, stop_task_idempotent,
  drop_found-IsLinked,
}

-- a service with one more indicator and its task
abbrev raised : String → Indicator → Service → Service
raised k i s = record {
  active = put k i s.active;
  tasks = s.tasks ++ task_of i ∷ [];
  next_handle = s.next_handle + 1;
}

own_task :
    (s : Service) (i : Indicator)
    → IsLinked s
    → i.dismissal ≡ s.next_handle
    → find (task_is i.dismissal) (s.tasks ++ task_of i ∷ []) ≡ some (task_of i)
own_task s i linked numbered =
    find-append i.dismissal s.tasks (task_of i) (linked.fresh i.dismissal (omega (arith, numbered)))
    ∙ ground arith

unused :
    (s : Service) (j : String) (i' : Indicator) (h : ℕ)
    → IsLinked s
    → get j s.active ≡ some i'
    → h ≡ s.next_handle
    → eqb h i'.dismissal ≡ false
unused s j i' h linked at numbered = elim (Bool-cases (eqb h i'.dismissal)) [
  | inl same ↦
      let free : find (task_is i'.dismissal) s.tasks ≡ none =
        linked.fresh i'.dismissal (ground (arith, same, numbered)) in
      absurd (cc (free, (linked.backed j i' at).0))
  | inr other ↦ other
]

still_at :
    (s : Service) (k j : String) (i i' : Indicator)
    → get k s.active ≡ none
    → get j s.active ≡ some i'
    → get j (put k i s.active) ≡ some i'
still_at s k j i i' free at = elim (Bool-cases (k == j)) [
  | inl same ↦ absurd (cc (subst (λ x. get x s.active ≡ none) (eq→path same) free, at))
  | inr other ↦ get-put k j i s.active ∙ rw other at
]

raised-IsLinked :
    (s : Service) (k : String) (i : Indicator)
    → IsLinked s
    → get k s.active ≡ none
    → i.dismissal ≡ s.next_handle
    → key_of (task_of i) ≡ k
    → IsLinked (raised k i s)
raised-IsLinked s k i linked free numbered named = record {
  backed = λ j i' e. raised-backed j i' e (Bool-cases (k == j));
  owned = λ h t e. raised-owned h t e (Bool-cases (eqb i.dismissal h));
  fresh = λ h le.
      find-append_other h s.tasks (task_of i) (ground (arith, numbered, le))
      ∙ linked.fresh h (omega (arith, le));
}
  where
    raised-backed :
        (j : String) (i' : Indicator)
        → get j (put k i s.active) ≡ some i'
        → ((k == j) ≡ true) ⊎ ((k == j) ≡ false)
        → (find (task_is i'.dismissal) (s.tasks ++ task_of i ∷ []) ≡ some (task_of i'))
          × (key_of (task_of i') ≡ j)
    raised-backed j i' e (inl same) =
        subst
          (λ (x : Indicator).
            (find (task_is x.dismissal) (s.tasks ++ task_of i ∷ []) ≡ some (task_of x))
            × (key_of (task_of x) ≡ j))
          (some-injective i i' (sym (get-put k j i s.active ∙ rw same refl) ∙ e))
          (own_task s i linked numbered, named ∙ eq→path same)
    raised-backed j i' e (inr other) =
        let at : get j s.active ≡ some i' = sym (get-put k j i s.active ∙ rw other refl) ∙ e in
        (
          find-append_other i'.dismissal s.tasks (task_of i)
                (unused s j i' i.dismissal linked at numbered)
              ∙ (linked.backed j i' at).0,
          (linked.backed j i' at).1,
        )

    raised-owned :
        (h : ℕ) (t : Task)
        → find (task_is h) (s.tasks ++ task_of i ∷ []) ≡ some t
        → (eqb i.dismissal h ≡ true) ⊎ (eqb i.dismissal h ≡ false)
        → (i' : Indicator) × (get (key_of t) (put k i s.active) ≡ some i') × (i'.dismissal ≡ h)
    raised-owned h t e (inl same) =
        let handle : i.dismissal ≡ h = ground (arith, same) in
        let one : task_of i ≡ t = some-injective _ t (
          sym (own_task s i linked numbered)
          ∙ ap (λ d. find (task_is d) (s.tasks ++ task_of i ∷ [])) handle
          ∙ e) in
        (
          i,
          subst (λ x. get (key_of x) (put k i s.active) ≡ some i) one
              (ap (λ q. get q (put k i s.active)) named
                ∙ get-put k k i s.active
                ∙ rw (eq_refl k) refl),
          handle,
        )
    raised-owned h t e (inr other) =
        let (i', at, handle) =
          linked.owned h t (sym (find-append_other h s.tasks (task_of i) other) ∙ e) in
        (i', still_at s k (key_of t) i i' free at, handle)

start-IsLinked :
    (iso : ℕ → String) (ttl now : ℕ) (p c : String) (s : Service)
    → IsLinked s
    → IsLinked (start iso ttl now p c s).0.service
unfolding start drop
start-IsLinked iso ttl now p c s linked =
    let (linked', free) =
      drop_found-IsLinked s (conversation_id p c) (get (conversation_id p c) s.active) linked
        refl in
    raised-IsLinked (drop (conversation_id p c) s).0 (conversation_id p c) _ linked' free refl refl

service-clear :
    (iso : ℕ → String) (p c : String) (s : Service)
    → (clear iso p c s).service ≡ (drop (conversation_id p c) s).0
unfolding clear
service-clear iso p c s = go (drop (conversation_id p c) s)
  where
    go : (d : Service × Option Indicator) → (cleared iso p c d).service ≡ d.0
    go (s', none) = refl
    go (s', some i) = refl

clear-IsLinked :
    (iso : ℕ → String) (p c : String) (s : Service)
    → IsLinked s
    → IsLinked (clear iso p c s).service
unfolding drop
clear-IsLinked iso p c s linked =
    subst IsLinked (sym (service-clear iso p c s))
      (drop_found-IsLinked s (conversation_id p c) (get (conversation_id p c) s.active) linked
        refl).0

-- A task that runs takes its indicator down, as `clear` does.
pub dismiss-clear :
    (iso : ℕ → String) (h : ℕ) (t : Task) (s : Service)
    → IsLinked s
    → find (task_is h) s.tasks ≡ some t
    → dismiss iso h s ≡ clear iso t.phone_number_id t.contact_wa_id s
unfolding dismiss clear drop
dismiss-clear iso h t s linked found =
    let (i, at, handle) = linked.owned h t found in
    let one : task_of i ≡ t =
      some-injective _ t (
        sym (linked.backed (key_of t) i at).0
        ∙ ap (λ d. find (task_is d) s.tasks) handle
        ∙ found) in
    let same : stop_task i.dismissal (stop_task t.handle s.tasks) ≡ stop_task i.dismissal s.tasks =
      ap (λ (x : Task). stop_task i.dismissal (stop_task x.handle s.tasks)) (sym one)
      ∙ stop_task_idempotent i.dismissal s.tasks in
    rw (found, at)
      (ap
        (λ ts.
          cleared iso t.phone_number_id t.contact_wa_id
            (record s { tasks = ts; active = delete (key_of t) s.active }, some i))
        same)

dismiss-IsLinked :
    (iso : ℕ → String) (h : ℕ) (s : Service) → IsLinked s → IsLinked (dismiss iso h s).service
unfolding dismiss
dismiss-IsLinked iso h s linked = elim (Option-cases (find (task_is h) s.tasks)) [
  | inl absent ↦ rw absent linked
  | inr (t, found) ↦
      subst (λ (o : Outcome). IsLinked o.service) (sym (dismiss-clear iso h t s linked found))
        (clear-IsLinked iso t.phone_number_id t.contact_wa_id s linked)
]

-- What a step leaves is linked.
pub Step-IsLinked :
    (iso : ℕ → String) (ttl : ℕ) {s : Service} {o : Outcome}
    → Step iso ttl s o
    → IsLinked s
    → IsLinked o.service
unfolding on_outbound_accepted
Step-IsLinked iso ttl {s = s} (Step.started now p c) linked =
    start-IsLinked iso ttl now p c s linked
Step-IsLinked iso ttl {s = s} (Step.taken_down p c) linked = clear-IsLinked iso p c s linked
Step-IsLinked iso ttl {s = s} (Step.timed_out h) linked = dismiss-IsLinked iso h s linked
Step-IsLinked iso ttl {s = s} (Step.message_sent m) linked =
    clear-IsLinked iso m.phone_number_id m.contact_wa_id s linked
