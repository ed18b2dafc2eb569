-- ===== src/Injection.antt =====
-- packages/server/src/domain/injection-service.ts: deterministic error injection, with the rules'
-- table of db/repositories/injection-rule-repository.ts.
pub mod Rules
pub mod Response
pub mod Visits
pub mod Evaluation
pub mod Accounting
pub mod Endpoint
mod Tests
use mathlib.Core.Option
use whaloc.Base.{
  String, List, [], ◌∷◌, ◌++◌, Bool, true, false, not, ◌&&◌, ◌||◌, Option, none, some, get_or, ℕ,
  ◌+◌, ◌-◌, ◌%◌, ◌==◌, eqb, ltb, if◌then◌else◌, is_some, filter, first,
}
use whaloc.Shared.Common.{InjectionTarget, graph_all, ChangeEvent}
use whaloc.Shared.Entities.{InjectionTrigger, always, next, every, WabaState}
use whaloc.GraphError.{GraphApiError}
use Rules.{
  InjectionRuleRecord, RuleRequest, Counters, Table, same_target, insert, find_by_id, list,
  update_counters, delete_by_id,
}
use Response.{injection_response}

-- an `injection.changed` event
pub record Change : Type 0 where
  pub rule : InjectionRuleRecord
  pub event : ChangeEvent

unfoldable pub is_armed : InjectionTrigger → ℕ → Option ℕ → Bool
is_armed always seen remaining = true
is_armed (next count) seen remaining = ltb 0 (get_or remaining 0)
is_armed (every nth) seen remaining = eqb (seen % nth) 0

abbrev pub is_next : InjectionTrigger → Bool
is_next (next count) = true
is_next _ = false

-- `create`: the new table, the rule and its announcement
pub create : String → String → RuleRequest → Table → Table × InjectionRuleRecord × Change
create id now request table =
    let (table', rule) = insert id now request table in
    (table', rule, record { rule = rule; event = ChangeEvent.created })

-- `delete`; `none` is the 404 of an unknown id
pub delete : String → Table → Option (Table × InjectionRuleRecord × Change)
delete id table = elim (find_by_id id table) [
  | none ↦ none
  | some rule ↦
      some (delete_by_id id table, rule, record { rule = rule; event = ChangeEvent.deleted })
]

-- `rule.target === target`, false for a request in no class
abbrev some_target : Option InjectionTarget → InjectionTarget → Bool
some_target none t = false
some_target (some class) t = same_target t class

abbrev pub matches_target : Option InjectionTarget → InjectionRuleRecord → Bool
matches_target target rule = same_target rule.target graph_all || some_target target rule.target

abbrev pub fires_now : InjectionRuleRecord → Bool
fires_now rule = is_armed rule.trigger (rule.seen + 1) rule.remaining

-- What one request writes back to a rule that it touched.
unfoldable pub counters_after : Bool → InjectionRuleRecord → Counters
counters_after fires rule = record {
  seen = rule.seen + 1;
  matches = if fires then rule.matches + 1 else rule.matches;
  remaining =
      if fires && is_next rule.trigger then some (get_or rule.remaining 0 - 1) else rule.remaining;
}

pub record Progress : Type 0 where
  pub table : Table
  pub fired : Option InjectionRuleRecord
  pub announced : List Change

-- `stamp` is the clock's reading when a rule is written.
module _ (stamp : String → String) where
  settle : Bool → Option InjectionRuleRecord → Progress → Progress
  settle fires none p = p
  settle fires (some updated) p = record p {
    fired = if fires then some updated else p.fired;
    announced = p.announced ++ record { rule = updated; event = ChangeEvent.updated } ∷ [];
  }

  -- one round of the loop over the matching rules
  visit : InjectionRuleRecord → Progress → Progress
  visit rule p =
      let fires = not (is_some p.fired) && fires_now rule in
      let (table', updated) =
        update_counters rule.id (stamp rule.id) (counters_after fires rule) p.table in
      settle fires updated (record p { table = table' })

  pub visit_all : List InjectionRuleRecord → Progress → Progress
  visit_all [] p = p
  visit_all (rule ∷ rules) p = visit_all rules (visit rule p)

  abbrev pub start : Table → Progress
  start table = record { table = table; fired = none; announced = [] }

  -- the rules that a request touches, in creation order
  pub matching : Option InjectionTarget → Table → List InjectionRuleRecord
  matching target table = filter (matches_target target) (list table)

  unfoldable pub evaluate_rules : Option InjectionTarget → Table → Progress
  unfolding visit_all visit settle matching
  evaluate_rules target table = visit_all (matching target table) (start table)

  -- `evaluate`: the state after it and the error to answer with, if a rule fired
  pub evaluate :
      Option InjectionTarget
      → List WabaState
      → Table
      → Progress × Option (InjectionRuleRecord × GraphApiError)
  evaluate target wabas table =
      let p = evaluate_rules target table in
      (p, Option.map (λ rule. (rule, injection_response rule (first wabas))) p.fired)
