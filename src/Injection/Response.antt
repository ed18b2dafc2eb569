-- ===== src/Injection/Response.antt =====
-- packages/server/src/domain/injection-presets.ts: the failure that a rule answers with.
use mathlib.Core.Option
use whaloc.Base.{String, Option, none, some, ℕ, get_or}
use whaloc.Shared.Common.{
  rate_limit_429, throughput_131056, spam_rate_4, server_error_500, custom, InjectionPreset,
}
use whaloc.Shared.Entities.{InjectionCustomResponse, WabaState}
use whaloc.GraphError.{
  GraphApiError, ThrottleHeaders, new_error, rate_limit_error, pair_rate_limit_error,
  application_rate_limit_error, unknown_server_error,
}
use whaloc.Injection.Rules.{InjectionRuleRecord}

abbrev pub default_retry_after_seconds : ℕ
default_retry_after_seconds = 60

abbrev pub default_regain_access_minutes : ℕ
default_regain_access_minutes = 15

-- The usage header is left off when there is no WABA to key it by.
throttle_headers : Option String → ℕ → ℕ → ThrottleHeaders
throttle_headers waba_id retry_after_seconds regain_access_minutes = record {
  retry_after = retry_after_seconds;
  usage = Option.map (λ id. (id, regain_access_minutes)) waba_id;
}

custom_error : InjectionCustomResponse → GraphApiError
custom_error c = new_error c.message (record {
  code = c.code;
  http_status = some c.http_status;
  subcode = c.subcode;
  details = c.details;
  kind = c.kind;
  headers = none;
})

headers_of : InjectionRuleRecord → Option WabaState → ThrottleHeaders
unfolding throttle_headers
headers_of rule waba =
    throttle_headers (Option.map (λ w. w.id) waba)
      (get_or rule.retry_after_seconds default_retry_after_seconds)
      (get_or rule.regain_access_minutes default_regain_access_minutes)

answer : InjectionPreset → InjectionRuleRecord → Option WabaState → GraphApiError
unfolding custom_error headers_of new_error rate_limit_error pair_rate_limit_error
    application_rate_limit_error unknown_server_error
answer rate_limit_429 rule waba = rate_limit_error (headers_of rule waba)
answer throughput_131056 rule waba = pair_rate_limit_error
answer spam_rate_4 rule waba = application_rate_limit_error (headers_of rule waba)
answer server_error_500 rule waba = unknown_server_error
answer custom rule waba = elim rule.custom [ none ↦ unknown_server_error | some c ↦ custom_error c ]

-- the preset's error; `waba` is the first one that the server knows
unfoldable pub injection_response : InjectionRuleRecord → Option WabaState → GraphApiError
unfolding answer
injection_response rule waba = answer rule.preset rule waba
