-- ===== src/Injection/Visits.antt =====
-- packages/server/src/domain/injection-service.ts: the loop over the rules that a request touches.
use mathlib.Core.Option
use mathlib.Core.Option.{some-injective}
use whaloc.Base.{
  String, List, [], ◌∷◌, Bool, true, false, not, ◌&&◌, Option, none, some, ◌==◌, ◌≡◌, refl, ◌∙◌, ap,
  sym, subst, inl, inr, arith, eq_iff, Bool-cases, eq→path, if◌then◌else◌, is_some, find, find_by,
  IsDistinct, All,
}
use whaloc.Injection.Rules.{
  InjectionRuleRecord, Table, rule_id, write, update_counters, find_by-update_counters,
  row-update_counters, update_counters-IsDistinct,
}
use whaloc.Injection.{Progress, fires_now, counters_after, settle, visit, visit_all}

-- the rule is the chosen one
abbrev pub is_rule : Option InjectionRuleRecord → String → Bool
is_rule none k = false
is_rule (some r) k = r.id == k

module _ (stamp : String → String) where
  -- a rule as a request leaves it
  abbrev pub touched : Bool → InjectionRuleRecord → InjectionRuleRecord
  touched fires r = write (stamp r.id) (counters_after fires r) r

  abbrev first_fired :
      Option InjectionRuleRecord → List InjectionRuleRecord → Option InjectionRuleRecord
  first_fired (some x) ms = some x
  first_fired none ms = Option.map (touched true) (find fires_now ms)

  -- what the row of `k` becomes
  abbrev pub row_after :
      Bool → Option InjectionRuleRecord → Option InjectionRuleRecord → Option InjectionRuleRecord
  row_after fires none row = row
  row_after fires (some r) row = some (touched fires r)

  abbrev pub IsPresent : List InjectionRuleRecord → Table → Type 0
  IsPresent ms table = All (λ r. find_by rule_id r.id table ≡ some r) ms

  table-settle :
      (fires : Bool) (u : Option InjectionRuleRecord) (p : Progress)
      → (settle stamp fires u p).table ≡ p.table
  unfolding settle
  table-settle fires none p = refl
  table-settle fires (some r) p = refl

  fired-settle :
      (fires : Bool) (u : Option InjectionRuleRecord) (p : Progress) (x : InjectionRuleRecord)
      → u ≡ some x
      → (settle stamp fires u p).fired ≡ (if fires then some x else p.fired)
  unfolding settle
  fired-settle fires none p x e = cc
  fired-settle fires (some r) p x e = ground arith

  map_if :
      (f : InjectionRuleRecord → InjectionRuleRecord) (b : Bool) (o : Option InjectionRuleRecord)
      (x : InjectionRuleRecord)
      → (b ≡ true → o ≡ some x)
      → Option.map (λ r. if b then f r else r) o ≡ (if b then some (f x) else o)
  map_if f true o x h = rw (h refl)
  map_if f false none x h = refl
  map_if f false (some r) x h = refl

  fires_for : InjectionRuleRecord → Progress → Bool
  fires_for m p = not (is_some p.fired) && fires_now m

  find_by-visit :
      (m : InjectionRuleRecord) (p : Progress) (k : String)
      → find_by rule_id m.id p.table ≡ some m
      → find_by rule_id k (visit stamp m p).table
        ≡ (if m.id == k then some (touched (fires_for m p) m) else find_by rule_id k p.table)
  unfolding visit fires_for
  find_by-visit m p k here = rw table-settle (
      find_by-update_counters m.id (stamp m.id) k (counters_after (fires_for m p) m) p.table
      ∙ map_if (write (stamp m.id) (counters_after (fires_for m p) m)) (m.id == k)
          (find_by rule_id k p.table) m
          (λ same. ap (λ j. find_by rule_id j p.table) (sym (eq→path same)) ∙ here))

  fired_form :
      (b : Bool) (m : InjectionRuleRecord) (o : Option InjectionRuleRecord)
      → (if b then some (touched b m) else o) ≡ (if b then some (touched true m) else o)
  fired_form true m o = refl
  fired_form false m o = refl

  fired-visit :
      (m : InjectionRuleRecord) (p : Progress)
      → find_by rule_id m.id p.table ≡ some m
      → (visit stamp m p).fired ≡ (if fires_for m p then some (touched true m) else p.fired)
  unfolding visit fires_for
  fired-visit m p here =
      fired-settle (fires_for m p)
        (update_counters m.id (stamp m.id) (counters_after (fires_for m p) m) p.table).1
        (record p {
          table = (update_counters m.id (stamp m.id) (counters_after (fires_for m p) m) p.table).0;
        })
        (touched (fires_for m p) m)
        (row-update_counters m.id (stamp m.id) (counters_after (fires_for m p) m) p.table
          ∙ ap (Option.map (write (stamp m.id) (counters_after (fires_for m p) m))) here)
      ∙ fired_form (fires_for m p) m p.fired

  IsPresent-visit :
      (m : InjectionRuleRecord) (ms : List InjectionRuleRecord) (p : Progress)
      → find_by rule_id m.id p.table ≡ some m
      → find_by rule_id m.id ms ≡ none
      → IsPresent ms p.table
      → IsPresent ms (visit stamp m p).table
  IsPresent-visit m [] p here new h = tt
  IsPresent-visit m (r ∷ ms) p here new (there, h) = (
    ground (arith, find_by-visit m p r.id here, there, eq_iff m.id r.id, eq_iff r.id m.id),
    IsPresent-visit m ms p here (ground (arith, new)) h,
  )

  -- the rule that fires, given the one that fired before
  pub fired-visit_all :
      (ms : List InjectionRuleRecord) (p : Progress)
      → IsDistinct rule_id ms
      → IsPresent ms p.table
      → (visit_all stamp ms p).fired ≡ first_fired p.fired ms
  unfolding visit_all
  fired-visit_all [] p d h = first_nil p.fired
    where
      first_nil : (o : Option InjectionRuleRecord) → o ≡ first_fired o []
      first_nil none = refl
      first_nil (some x) = refl
  fired-visit_all (m ∷ ms) p (new, d) (here, h) =
      fired-visit_all ms (visit stamp m p) d (IsPresent-visit m ms p here new h)
      ∙ rw (fired-visit m p here) (unfold fires_for in first_cons p.fired)
    where
      first_cons :
          (o : Option InjectionRuleRecord)
          → first_fired (if not (is_some o) && fires_now m then some (touched true m) else o) ms
            ≡ first_fired o (m ∷ ms)
      first_cons none = ground arith
      first_cons (some x) = refl

  is_rule_absent :
      (k : String) (ms : List InjectionRuleRecord)
      → find_by rule_id k ms ≡ none
      → is_rule (find fires_now ms) k ≡ false
  is_rule_absent k [] h = refl
  is_rule_absent k (m ∷ ms) h = ground (arith, is_rule_absent k ms)

  abbrev pub fires_in : Option InjectionRuleRecord → List InjectionRuleRecord → String → Bool
  fires_in fired ms k = not (is_some fired) && is_rule (find fires_now ms) k

  -- every row, given the rule that fired before
  pub row-visit_all :
      (ms : List InjectionRuleRecord) (p : Progress) (k : String)
      → IsDistinct rule_id ms
      → IsPresent ms p.table
      → find_by rule_id k (visit_all stamp ms p).table
        ≡ row_after (fires_in p.fired ms k) (find_by rule_id k ms) (find_by rule_id k p.table)
  unfolding visit_all
  row-visit_all [] p k d h = refl
  row-visit_all (m ∷ ms) p k (new, d) (here, h) =
      row-visit_all ms (visit stamp m p) k d (IsPresent-visit m ms p here new h)
      ∙ rw (fired-visit m p here, find_by-visit m p k here)
          (unfold fires_for in
            elim (Bool-cases (m.id == k)) [
              | inl same ↦ here_at same
              | inr other ↦ later_at p.fired other
            ])
    where
      here_at :
          (m.id == k) ≡ true
          → row_after
              (fires_in
                (if not (is_some p.fired) && fires_now m then some (touched true m) else p.fired)
                ms
                k)
              (find_by rule_id k ms)
              (if m.id == k
                then some (touched (not (is_some p.fired) && fires_now m) m)
                else find_by rule_id k p.table)
            ≡ row_after
                (fires_in p.fired (m ∷ ms) k)
                (find_by rule_id k (m ∷ ms))
                (find_by rule_id k p.table)
      here_at same =
          let absent : find_by rule_id k ms ≡ none =
            subst (λ j. find_by rule_id j ms ≡ none) (eq→path same) new in
          rw (absent, same) (ground (arith, is_rule_absent k ms absent))

      later_at :
          (o : Option InjectionRuleRecord)
          → (m.id == k) ≡ false
          → row_after
              (fires_in (if not (is_some o) && fires_now m then some (touched true m) else o) ms k)
              (find_by rule_id k ms)
              (if m.id == k
                then some (touched (not (is_some o) && fires_now m) m)
                else find_by rule_id k p.table)
            ≡ row_after
                (fires_in o (m ∷ ms) k)
                (find_by rule_id k (m ∷ ms))
                (find_by rule_id k p.table)
      later_at none other = rw other (ground arith)
      later_at (some x) other = rw other refl

  visit-IsDistinct :
      (m : InjectionRuleRecord) (p : Progress)
      → IsDistinct rule_id p.table
      → IsDistinct rule_id (visit stamp m p).table
  unfolding visit
  visit-IsDistinct m p d =
      rw table-settle (update_counters-IsDistinct m.id (stamp m.id) _ p.table d)

  pub visit_all-IsDistinct :
      (ms : List InjectionRuleRecord) (p : Progress)
      → IsDistinct rule_id p.table
      → IsDistinct rule_id (visit_all stamp ms p).table
  unfolding visit_all
  visit_all-IsDistinct [] p d = d
  visit_all-IsDistinct (m ∷ ms) p d =
      visit_all-IsDistinct ms (visit stamp m p) (visit-IsDistinct m p d)
