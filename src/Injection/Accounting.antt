-- ===== src/Injection/Accounting.antt =====
-- packages/server/src/domain/injection-service.ts: the counters of a rule, its countdown and its
-- cadence.
use mathlib.Core.Option.{some-injective}
use native.Mathlib.Nat.{div-add-mod}
use whaloc.Base.{
  String, [], ◌∷◌, Bool, true, false, Option, none, some, get_or, ℕ, ◌+◌, ◌-◌, ◌*◌, ◌%◌, ◌≤◌, ◌&&◌,
  ◌≡◌, refl, arith, if◌then◌else◌, find_by, IsDistinct, inl, inr, Bool-cases, Option-cases, subst,
  sym, ◌∙◌, ap, append-IsDistinct, filter-IsDistinct, find_by-remove, find_by-append_new, ◌++◌,
  ◌==◌,
}
use whaloc.Shared.Common.{InjectionTarget}
use whaloc.Shared.Entities.{InjectionTrigger, always, next, every}
use whaloc.Injection.Rules.{
  InjectionRuleRecord, RuleRequest, Table, rule_id, initial_remaining, insert, delete_by_id,
}
use whaloc.Injection.{counters_after, is_next, is_armed, fires_now, matches_target, evaluate_rules}
use whaloc.Injection.Visits.{touched, is_rule}
use whaloc.Injection.Evaluation.{
  rule_after, chosen_rule, find_by-evaluate_rules, find_by-none-evaluate_rules,
  fires_now-chosen_rule, evaluate_rules-IsDistinct,
}

-- What the counters of a trigger say of one another.
abbrev pub Adds : InjectionTrigger → ℕ → ℕ → Option ℕ → Type 0
Adds always seen matches remaining = (matches ≤ seen) × (remaining ≡ none)
Adds (next count) seen matches remaining =
    (matches ≤ seen) × (r : ℕ) × (remaining ≡ some r) × (matches + r ≡ count)
Adds (every nth) seen matches remaining = (matches * nth ≤ seen) × (remaining ≡ none)

-- A rule never matched more often than it saw; a countdown and its matches make up the count; an
-- `every nth` rule matched at most once for each `nth` requests.
abbrev pub IsAccounted : InjectionRuleRecord → Type 0
IsAccounted r = Adds r.trigger r.seen r.matches r.remaining

cadence : (m n s : ℕ) → m * n ≤ s → (s + 1) % n ≡ 0 → (m + 1) * n ≤ s + 1
cadence m n s h e = grind (arith, div-add-mod (s + 1) n)

touched-Adds :
    (t : InjectionTrigger) (fires : Bool) (seen matches : ℕ) (remaining : Option ℕ)
    → (fires ≡ true → is_armed t (seen + 1) remaining ≡ true)
    → Adds t seen matches remaining
    → Adds t
        (seen + 1)
        (if fires then matches + 1 else matches)
        (if fires && is_next t then some (get_or remaining 0 - 1) else remaining)
unfolding is_armed
touched-Adds always fires seen matches remaining armed (few, none_left) = ground arith
touched-Adds (next count) true seen matches remaining armed (few, r, left, sum) =
    (omega arith, r - 1, rw left refl, ground (arith, armed refl))
touched-Adds (next count) false seen matches remaining armed (few, r, left, sum) =
    (omega arith, r, left, sum)
touched-Adds (every nth) true seen matches remaining armed (few, none_left) =
    (cadence matches nth seen few (ground (arith, armed refl)), none_left)
touched-Adds (every nth) false seen matches remaining armed (few, none_left) =
    (omega arith, none_left)

module _ (stamp : String → String) where
  touched-IsAccounted :
      (fires : Bool) (r : InjectionRuleRecord)
      → (fires ≡ true → fires_now r ≡ true)
      → IsAccounted r
      → IsAccounted (touched stamp fires r)
  unfolding counters_after
  touched-IsAccounted fires r armed h =
      touched-Adds r.trigger fires r.seen r.matches r.remaining armed h

  rule_after-IsAccounted :
      (target : Option InjectionTarget) (chosen : Option InjectionRuleRecord)
      (r : InjectionRuleRecord)
      → (is_rule chosen r.id ≡ true → fires_now r ≡ true)
      → IsAccounted r
      → IsAccounted (rule_after stamp target chosen r)
  rule_after-IsAccounted target chosen r armed h = elim (Bool-cases (matches_target target r)) [
    | inl hit ↦ rw hit (touched-IsAccounted (is_rule chosen r.id) r armed h)
    | inr miss ↦ rw miss h
  ]

-- The ids are distinct and the counters of every rule add up.
pub record IsSound (table : Table) : Type 0 where
  pub distinct : IsDistinct rule_id table
  pub accounted :
      (k : String) (r : InjectionRuleRecord) → find_by rule_id k table ≡ some r → IsAccounted r

module _ (stamp : String → String) (target : Option InjectionTarget) (table : Table) where
  row-IsAccounted :
      IsSound table
      → (k : String) (r' : InjectionRuleRecord)
      → find_by rule_id k (evaluate_rules stamp target table).table ≡ some r'
      → IsAccounted r'
  row-IsAccounted sound k r' e = elim (Option-cases (find_by rule_id k table)) [
    | inl absent ↦
        absurd (cc (find_by-none-evaluate_rules stamp target table sound.distinct k absent))
    | inr (r, found) ↦
        subst IsAccounted
          (some-injective _ _
            (sym (find_by-evaluate_rules stamp target table sound.distinct k r found) ∙ e))
          (rule_after-IsAccounted stamp target (chosen_rule stamp target table) r
            (fires_now-chosen_rule stamp target table sound.distinct k r found)
            (sound.accounted k r found))
  ]

  evaluate_rules-IsSound : IsSound table → IsSound (evaluate_rules stamp target table).table
  evaluate_rules-IsSound sound = record {
    distinct = evaluate_rules-IsDistinct stamp target table sound.distinct;
    accounted = row-IsAccounted sound;
  }

-- What happens to the table: a rule is created under an id that is free, a rule is deleted, a
-- request of any class is evaluated, everything is wiped.
pub data Step (table : Table) : Table → Type 0 where
  create :
      (id now : String) (request : RuleRequest)
      → find_by rule_id id table ≡ none
      → Step table (insert id now request table).0
  delete : (id : String) → Step table (delete_by_id id table)
  request :
      (stamp : String → String) (target : Option InjectionTarget)
      → Step table (evaluate_rules stamp target table).table
  wipe : Step table []

pub data Reach : Table → Type 0 where
  empty : Reach []
  after : {t u : Table} → Reach t → Step t u → Reach u

new-IsAccounted :
    (id now : String) (r : RuleRequest) (table : Table) → IsAccounted (insert id now r table).1
unfolding insert
new-IsAccounted id now r table = go r.trigger
  where
    go : (t : InjectionTrigger) → Adds t 0 0 (initial_remaining t)
    go always = (omega arith, refl)
    go (next count) = (omega arith, count, refl, omega arith)
    go (every nth) = (omega arith, refl)

-- a row of a table that one rule was appended to
appended-IsAccounted :
    (t : Table) (rule x : InjectionRuleRecord) (k : String)
    → find_by rule_id rule.id t ≡ none
    → IsAccounted rule
    → (find_by rule_id k t ≡ some x → IsAccounted x)
    → find_by rule_id k (t ++ rule ∷ []) ≡ some x
    → IsAccounted x
appended-IsAccounted t rule x k free new old e = elim (Bool-cases (rule.id == k)) [
  | inl same ↦ subst IsAccounted (some-injective rule x (sym (by same) ∙ e)) new
  | inr other ↦ old (sym (by other) ∙ e)
]
  where
    by :
        {b : Bool}
        → (rule.id == k) ≡ b
        → find_by rule_id k (t ++ rule ∷ []) ≡ (if b then some rule else find_by rule_id k t)
    by h =
        find_by-append_new rule_id k t rule free
        ∙ ap (λ c. if c then some rule else find_by rule_id k t) h

Step-IsSound : {t u : Table} → Step t u → IsSound t → IsSound u
unfolding insert delete_by_id
Step-IsSound {t = t} (create id now r free) sound = record {
  distinct = append-IsDistinct rule_id t _ sound.distinct free;
  accounted = λ k x e.
      appended-IsAccounted t _ x k free (new-IsAccounted id now r t) (sound.accounted k x) e;
}
Step-IsSound {t = t} (delete id) sound = record {
  distinct = filter-IsDistinct rule_id _ t sound.distinct;
  accounted = λ k x e. sound.accounted k x (ground (arith, e, find_by-remove rule_id id k t));
}
Step-IsSound {t = t} (request stamp target) sound = evaluate_rules-IsSound stamp target t sound
Step-IsSound wipe sound = record { distinct = tt; accounted = λ k x e. absurd (ground (arith, e)) }

-- After any sequence of creations under free ids, deletions, wipes and evaluated requests the rule
-- ids are distinct, no rule matched more often than it saw, the matches and the countdown of a
-- `next` rule make up its count, and an `every nth` rule matched at most once for each nth
-- requests.
pub Reach-IsSound : {t : Table} → Reach t → IsSound t
Reach-IsSound empty = record { distinct = tt; accounted = λ k x e. absurd (ground (arith, e)) }
Reach-IsSound (after r s) = Step-IsSound s (Reach-IsSound r)
