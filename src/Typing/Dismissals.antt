-- ===== src/Typing/Dismissals.antt =====
-- packages/server/src/domain/typing-service.ts: indicators and their scheduled
-- dismissals.
use mathlib.Core.Option.{some-injective}
use whaloc.Base.{
  String, List, [], ◌∷◌, ◌++◌, Bool, true, false, Option, none, some, ℕ, ◌≤◌, ◌≡◌, refl, sym, ap,
  ◌∙◌, arith, find, eqb, get, delete, get-delete, Bool-cases, inl, inr, eq→path, eq_refl, eq_iff,
  Assoc, if◌then◌else◌, ◌==◌,
}
use whaloc.Shared.Conversation.{conversation_id}
use whaloc.Typing.{Indicator, Task, Service, task_is, stop_task, drop_found}

abbrev pub key_of : Task → String
key_of t = conversation_id t.phone_number_id t.contact_wa_id

-- the task that dismisses an indicator
abbrev pub task_of : Indicator → Task
task_of i = record {
  handle = i.dismissal;
  phone_number_id = i.phone_number_id;
  contact_wa_id = i.contact_wa_id;
  due = i.expires_at;
}

-- Every indicator has its task, due when it expires; every task is that of an indicator.
pub record IsLinked (s : Service) : Type 0 where
  pub backed :
      (k : String) (i : Indicator)
      → get k s.active ≡ some i
      → (find (task_is i.dismissal) s.tasks ≡ some (task_of i)) × (key_of (task_of i) ≡ k)
  pub owned :
      (h : ℕ) (t : Task)
      → find (task_is h) s.tasks ≡ some t
      → (i : Indicator) × (get (key_of t) s.active ≡ some i) × (i.dismissal ≡ h)
  pub fresh : (h : ℕ) → s.next_handle ≤ h → find (task_is h) s.tasks ≡ none

find-stop_task :
    (h j : ℕ) (ts : List Task)
    → find (task_is j) (stop_task h ts) ≡ (if eqb h j then none else find (task_is j) ts)
unfolding stop_task
find-stop_task h j [] = ground arith
find-stop_task h j (t ∷ ts) = ground (arith, find-stop_task h j ts)

pub stop_task_idempotent : (h : ℕ) (ts : List Task) → stop_task h (stop_task h ts) ≡ stop_task h ts
unfolding stop_task
stop_task_idempotent h [] = refl
stop_task_idempotent h (t ∷ ts) = ground (arith, stop_task_idempotent h ts)

pub find-append :
    (h : ℕ) (ts : List Task) (t : Task)
    → find (task_is h) ts ≡ none
    → find (task_is h) (ts ++ t ∷ []) ≡ (if task_is h t then some t else none)
find-append h [] t e = ground arith
find-append h (u ∷ ts) t e = ground (arith, find-append h ts t)

pub find-append_other :
    (h : ℕ) (ts : List Task) (t : Task)
    → task_is h t ≡ false
    → find (task_is h) (ts ++ t ∷ []) ≡ find (task_is h) ts
find-append_other h [] t e = ground (arith, e)
find-append_other h (u ∷ ts) t e = ground (arith, find-append_other h ts t e)

-- two indicators of different keys have different tasks
other_task :
    (s : Service) (k j : String) (i i' : Indicator)
    → IsLinked s
    → get k s.active ≡ some i
    → get j s.active ≡ some i'
    → i.dismissal ≡ i'.dismissal
    → k ≡ j
other_task s k j i i' linked at at' same =
    let (task, named) = linked.backed k i at in
    let (task', named') = linked.backed j i' at' in
    let one : task_of i ≡ task_of i' =
      some-injective _ _ (sym task ∙ ap (λ h. find (task_is h) s.tasks) same ∙ task') in
    sym named ∙ ap key_of one ∙ named'

-- what is still there after a key or a handle is gone
get-delete-some :
    (k j : String) (m : Assoc Indicator) (i : Indicator)
    → get j (delete k m) ≡ some i
    → ((k == j) ≡ false) × (get j m ≡ some i)
get-delete-some k j m i e = elim (Bool-cases (k == j)) [
  | inl gone ↦ absurd (ground (arith, e, get-delete k j m, gone))
  | inr there ↦ (there, ground (arith, e, get-delete k j m, there))
]

find-stop_task-some :
    (h j : ℕ) (ts : List Task) (t : Task)
    → find (task_is j) (stop_task h ts) ≡ some t
    → (eqb h j ≡ false) × (find (task_is j) ts ≡ some t)
find-stop_task-some h j ts t e = elim (Bool-cases (eqb h j)) [
  | inl gone ↦ absurd (ground (arith, e, find-stop_task h j ts, gone))
  | inr there ↦ (there, ground (arith, e, find-stop_task h j ts, there))
]

-- the task of another indicator outlives this one
kept_task :
    (s : Service) (k j : String) (i i' : Indicator)
    → IsLinked s
    → get k s.active ≡ some i
    → get j s.active ≡ some i'
    → (k == j) ≡ false
    → find (task_is i'.dismissal) (stop_task i.dismissal s.tasks) ≡ some (task_of i')
kept_task s k j i i' linked at at' there = elim (Bool-cases (eqb i.dismissal i'.dismissal)) [
  | inl same ↦
      let one : k ≡ j = other_task s k j i i' linked at at' (ground (arith, same)) in
      absurd (ground (arith, there, (eq_iff k j).1 one))
  | inr different ↦
      find-stop_task i.dismissal i'.dismissal s.tasks ∙ rw different (linked.backed j i' at').0
]

-- the indicator of another task outlives this one
kept_indicator :
    (s : Service) (k j : String) (h : ℕ) (i i' : Indicator)
    → get k s.active ≡ some i
    → get j s.active ≡ some i'
    → i'.dismissal ≡ h
    → eqb i.dismissal h ≡ false
    → get j (delete k s.active) ≡ some i'
kept_indicator s k j h i i' at at' same kept = elim (Bool-cases (k == j)) [
  | inl gone ↦
      let one : i ≡ i' =
        some-injective i i' (sym at ∙ ap (λ x. get x s.active) (eq→path gone) ∙ at') in
      let named : i.dismissal ≡ h = ap (λ (x : Indicator). x.dismissal) one ∙ same in
      absurd (ground (arith, kept, named))
  | inr there ↦ get-delete k j s.active ∙ rw there at'
]

gone_or_none : (b : Bool) (o : Option Task) → o ≡ none → (if b then none else o) ≡ none
gone_or_none true o e = refl
gone_or_none false o e = e

-- After an indicator is dropped the rest is linked.
dropped-IsLinked :
    (s : Service) (k : String) (i : Indicator)
    → IsLinked s
    → get k s.active ≡ some i
    → IsLinked (drop_found k (some i) s).0
dropped-IsLinked s k i linked at = record {
  backed = λ j i' e.
      let (there, at') = get-delete-some k j s.active i' e in
      (kept_task s k j i i' linked at at' there, (linked.backed j i' at').1);
  owned = λ h t e.
      let (kept, there) = find-stop_task-some i.dismissal h s.tasks t e in
      let (i', at', same) = linked.owned h t there in
      (i', kept_indicator s k (key_of t) h i i' at at' same kept, same);
  fresh = λ h le.
      find-stop_task i.dismissal h s.tasks
      ∙ gone_or_none (eqb i.dismissal h) (find (task_is h) s.tasks) (linked.fresh h le);
}

pub drop_found-IsLinked :
    (s : Service) (k : String) (o : Option Indicator)
    → IsLinked s
    → get k s.active ≡ o
    → IsLinked (drop_found k o s).0 × (get k (drop_found k o s).0.active ≡ none)
drop_found-IsLinked s k none linked at = (linked, at)
drop_found-IsLinked s k (some i) linked at =
    (dropped-IsLinked s k i linked at, get-delete k k s.active ∙ rw (eq_refl k) refl)
