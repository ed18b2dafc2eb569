-- ===== src/Injection/Evaluation.antt =====
-- packages/server/src/domain/injection-service.ts: one request against the rules, which rule
-- answers, and what every rule counts.
use mathlib.Core.Option
use mathlib.Core.Option.{some-injective}
use whaloc.Base.{
  String, true, false, Option, none, some, ◌≡◌, refl, ◌∙◌, ap, sym, inl, inr, Bool-cases, eq→path,
  if◌then◌else◌, find, find_by, IsDistinct, filter-IsDistinct, to_sorted-IsDistinct,
  find_by-to_sorted, key-find_by, All-filter, All-map, find_by_own, All-find, find_by-filter,
  keep_if, ◌⊎◌,
}
use whaloc.Shared.Common.{InjectionTarget}
use whaloc.Injection.Rules.{InjectionRuleRecord, Table, rule_id, list, creation_order}
use whaloc.Injection.{fires_now, matches_target, start, matching, evaluate_rules}
use whaloc.Injection.Visits.{
  is_rule, touched, row_after, IsPresent, fired-visit_all, fires_in, row-visit_all,
  visit_all-IsDistinct,
}

module _ (stamp : String → String) where
  -- A rule after a request: untouched, or with its counters advanced, firing or not.
  abbrev pub rule_after :
      Option InjectionTarget
      → Option InjectionRuleRecord
      → InjectionRuleRecord
      → InjectionRuleRecord
  rule_after target chosen r =
      if matches_target target r then touched stamp (is_rule chosen r.id) r else r

  -- the first rule in creation order that matches the request and that its trigger arms
  abbrev pub chosen_rule : Option InjectionTarget → Table → Option InjectionRuleRecord
  chosen_rule target table = find fires_now (matching stamp target table)

  module _ (target : Option InjectionTarget) (table : Table) (d : IsDistinct rule_id table) where
    list-IsDistinct : IsDistinct rule_id (list table)
    list-IsDistinct = unfold list in to_sorted-IsDistinct rule_id creation_order table d

    find_by-list : (k : String) → find_by rule_id k (list table) ≡ find_by rule_id k table
    find_by-list k = unfold list in find_by-to_sorted rule_id creation_order table k d

    matching-IsDistinct : IsDistinct rule_id (matching stamp target table)
    matching-IsDistinct =
        unfold matching in
        filter-IsDistinct rule_id (matches_target target) (list table) list-IsDistinct

    matching-IsPresent : IsPresent stamp (matching stamp target table) table
    matching-IsPresent =
        unfold matching in
        All-filter (λ r. find_by rule_id r.id table ≡ some r) (matches_target target) (list table)
          (All-map (λ r. find_by rule_id r.id (list table) ≡ some r)
            (λ r. find_by rule_id r.id table ≡ some r) (λ r e. sym (find_by-list r.id) ∙ e)
            (list table) (find_by_own rule_id (list table) list-IsDistinct))

    find_by-matching :
        (k : String) (r : InjectionRuleRecord)
        → find_by rule_id k table ≡ some r
        → find_by rule_id k (matching stamp target table)
          ≡ (if matches_target target r then some r else none)
    find_by-matching k r e =
        unfold matching in
        find_by-filter rule_id k (matches_target target) (list table) list-IsDistinct
        ∙ ap (keep_if rule_id (matches_target target)) (find_by-list k ∙ e)

    -- With distinct ids, the rule that answers a request is the first in creation order that
    -- matches it and is armed, already counted; without such a rule none answers.
    pub fired-evaluate_rules :
        (evaluate_rules stamp target table).fired
        ≡ Option.map (touched stamp true) (chosen_rule target table)
    unfolding evaluate_rules
    fired-evaluate_rules =
        fired-visit_all stamp (matching stamp target table) (start stamp table) matching-IsDistinct
          matching-IsPresent

    -- With distinct ids, every rule that matches the request counts it, only the first armed one in
    -- creation order counts a match and runs its countdown, and a rule that does not match stays as
    -- it is.
    pub find_by-evaluate_rules :
        (k : String) (r : InjectionRuleRecord)
        → find_by rule_id k table ≡ some r
        → find_by rule_id k (evaluate_rules stamp target table).table
          ≡ some (rule_after target (chosen_rule target table) r)
    unfolding evaluate_rules
    find_by-evaluate_rules k r e =
        row-visit_all stamp (matching stamp target table) (start stamp table) k matching-IsDistinct
          matching-IsPresent
        ∙ rw (find_by-matching k r e, e) (row_form (Bool-cases (matches_target target r)))
      where
        same_id : r.id ≡ k
        same_id = key-find_by rule_id k table r e

        row_form :
            (matches_target target r ≡ true) ⊎ (matches_target target r ≡ false)
            → row_after stamp
                (fires_in stamp none (matching stamp target table) k)
                (if matches_target target r then some r else none)
                (some r)
              ≡ some (rule_after target (chosen_rule target table) r)
        row_form (inl hit) = rw (hit, same_id) refl
        row_form (inr miss) = rw miss refl

    chosen_is :
        (c : Option InjectionRuleRecord) (r : InjectionRuleRecord)
        → chosen_rule target table ≡ c
        → find_by rule_id r.id table ≡ some r
        → is_rule c r.id ≡ true
        → fires_now r ≡ true
    chosen_is none r e found h = cc
    chosen_is (some x) r e found h =
        let (present, fires) =
          All-find (λ y. find_by rule_id y.id table ≡ some y) fires_now
            (matching stamp target table) x matching-IsPresent e in
        let same : x ≡ r =
          some-injective x r
            (sym present ∙ ap (λ j. find_by rule_id j table) (eq→path h) ∙ found) in
        rw (← same) fires

    -- the chosen rule is armed
    pub fires_now-chosen_rule :
        (k : String) (r : InjectionRuleRecord)
        → find_by rule_id k table ≡ some r
        → is_rule (chosen_rule target table) r.id ≡ true
        → fires_now r ≡ true
    fires_now-chosen_rule k r found =
        chosen_is (chosen_rule target table) r refl
          (ap (λ j. find_by rule_id j table) (key-find_by rule_id k table r found) ∙ found)

    -- no request makes a rule
    pub find_by-none-evaluate_rules :
        (k : String)
        → find_by rule_id k table ≡ none
        → find_by rule_id k (evaluate_rules stamp target table).table ≡ none
    unfolding evaluate_rules
    find_by-none-evaluate_rules k e =
        row-visit_all stamp (matching stamp target table) (start stamp table) k matching-IsDistinct
          matching-IsPresent
        ∙ rw (absent, e) refl
      where
        absent : find_by rule_id k (matching stamp target table) ≡ none
        absent =
            unfold matching in
            find_by-filter rule_id k (matches_target target) (list table) list-IsDistinct
            ∙ ap (keep_if rule_id (matches_target target)) (find_by-list k ∙ e)

  pub evaluate_rules-IsDistinct :
      (target : Option InjectionTarget) (table : Table)
      → IsDistinct rule_id table
      → IsDistinct rule_id (evaluate_rules stamp target table).table
  unfolding evaluate_rules
  evaluate_rules-IsDistinct target table d =
      visit_all-IsDistinct stamp (matching stamp target table) (start stamp table) d
