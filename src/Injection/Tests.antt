-- ===== src/Injection/Tests.antt =====
-- packages/server/src/domain/injection-service.ts: concrete requests against injection rules.
use whaloc.Base.{String, [], Option, some, none, false, ◌≡◌, refl, find_by}
use whaloc.Shared.Common.{InjectionTarget, InjectionPreset}
use whaloc.Shared.Entities.{InjectionTrigger}
use whaloc.Injection.Rules.{InjectionRuleRecord, RuleRequest, Table, rule_id, insert}
use whaloc.Injection.{evaluate_rules}
use whaloc.Injection.Evaluation.{rule_after, chosen_rule, find_by-evaluate_rules}
use whaloc.Injection.Endpoint.{RequestShape}
use whaloc.Injection.Accounting.{Reach, Step, IsSound, Reach-IsSound}

abbrev now : String → String
now id = "2026-01-02T00:00:00.000Z"

abbrev sends : RuleRequest
sends = record {
  target = InjectionTarget.messages_send;
  trigger = InjectionTrigger.next 1;
  preset = InjectionPreset.rate_limit_429;
  retry_after_seconds = none;
  regain_access_minutes = none;
  custom = none;
}

abbrev all_calls : RuleRequest
all_calls = record sends { target = InjectionTarget.graph_all; trigger = InjectionTrigger.every 2 }

abbrev armed : Table
unfolding insert
armed =
    (insert "r2" "2026-01-01T00:00:01.000Z" all_calls
      (insert "r1" "2026-01-01T00:00:00.000Z" sends []).0).0

abbrev send : Option InjectionTarget
send = some InjectionTarget.messages_send

abbrev first_rule : InjectionRuleRecord
unfolding insert
first_rule = (insert "r1" "2026-01-01T00:00:00.000Z" sends []).1

find_by-evaluate_rules_example :
    find_by rule_id "r1" (evaluate_rules now send armed).table
    ≡ some (rule_after now send (chosen_rule now send armed) first_rule)
unfolding insert
find_by-evaluate_rules_example =
    find_by-evaluate_rules now send armed (refl, (refl, tt)) "r1" first_rule refl

Reach-IsSound_example :
    IsSound (evaluate_rules now send (insert "r1" "2026-01-01T00:00:00.000Z" sends []).0).table
Reach-IsSound_example = Reach-IsSound (
    Reach.after (Reach.after Reach.empty (Step.create "r1" "2026-01-01T00:00:00.000Z" sends refl))
      (Step.request now send))

abbrev request : RequestShape
request = record { method = "post"; path = "/123/messages"; has_phone_number_id = false }
