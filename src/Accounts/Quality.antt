-- ===== src/Accounts/Quality.antt =====
-- packages/server/src/domain/webhook-payloads.ts and phone-number-service.ts: the webhook that a
-- change of quality sends.
use whaloc.Base.{String, ℕ, ◌/◌, Bool, Option, none, some}
use whaloc.Shared.Common.{
  Json, str, nat, arr, obj, Fields, field, end, cons, nil, QualityRating, green, yellow, red,
  ThroughputLevel, high, standard,
}
use whaloc.Database.PhoneNumbers.{PhoneNumberRecord}
use whaloc.Accounts.Format.{phone_number_digits}

pub data QualityEvent : Type 0 where
  onboarding upgrade downgrade flagged unflagged : QualityEvent
  throughput_upgrade throughput_downgrade : QualityEvent

pub data MessagingLimit : Type 0 where
  tier_50 tier_250 tier_1k tier_10k tier_100k tier_unlimited : MessagingLimit

abbrev event_name : QualityEvent → String
event_name onboarding = "ONBOARDING"
event_name upgrade = "UPGRADE"
event_name downgrade = "DOWNGRADE"
event_name flagged = "FLAGGED"
event_name unflagged = "UNFLAGGED"
event_name throughput_upgrade = "THROUGHPUT_UPGRADE"
event_name throughput_downgrade = "THROUGHPUT_DOWNGRADE"

abbrev limit_name : MessagingLimit → String
limit_name tier_50 = "TIER_50"
limit_name tier_250 = "TIER_250"
limit_name tier_1k = "TIER_1K"
limit_name tier_10k = "TIER_10K"
limit_name tier_100k = "TIER_100K"
limit_name tier_unlimited = "TIER_UNLIMITED"

-- `PhoneNumberQualityRequest`
pub record QualityRequest : Type 0 where
  pub quality_rating : Option QualityRating
  pub throughput_level : Option ThroughputLevel
  pub emit_webhook : Bool
  pub event : Option QualityEvent
  pub current_limit : Option MessagingLimit

abbrev event_of : Option ThroughputLevel → Option QualityRating → QualityEvent
event_of (some high) rating = throughput_upgrade
event_of (some standard) rating = throughput_downgrade
event_of none (some green) = unflagged
event_of none (some yellow) = downgrade
event_of none (some red) = flagged
event_of none _ = onboarding

unfoldable pub default_event : QualityRequest → QualityEvent
default_event request = event_of request.throughput_level request.quality_rating

abbrev limit_of : ThroughputLevel → MessagingLimit
limit_of high = tier_unlimited
limit_of standard = tier_1k

unfoldable pub default_limit : PhoneNumberRecord → MessagingLimit
default_limit number = limit_of number.throughput_level

-- `...(o !== undefined && { key: o })`
abbrev optional : String → Option Json → Fields → Fields
optional key none rest = rest
optional key (some value) rest = field key value rest

-- the two limits differ, or there is no old one to send
abbrev pub old_limit : MessagingLimit → MessagingLimit → Option Json
old_limit tier_unlimited tier_unlimited = none
old_limit tier_1k tier_1k = none
old_limit previous current = some (str (limit_name previous))

-- `phoneNumberQualityValue`; the limit of the portfolio is the current one
unfoldable pub phone_number_quality_value :
    PhoneNumberRecord → QualityEvent → MessagingLimit → Option Json → Json
phone_number_quality_value number event current old = obj (
    field "display_phone_number" (str (phone_number_digits number.display_phone_number)) (
      field "event" (str (event_name event)) (
        optional "old_limit" old (
          field "current_limit" (str (limit_name current))
            (field "max_daily_conversations_per_business" (str (limit_name current)) end)))))

-- `webhookEnvelope` with a time, in milliseconds
unfoldable pub webhook_envelope : String → String → Json → ℕ → Json
webhook_envelope waba_id webhook_field value now = obj (
    field "object" (str "whatsapp_business_account") (
      field "entry"
        (arr (
          cons
            (obj (
              field "id" (str waba_id) (
                field "time" (nat (now / 1000)) (
                  field "changes"
                    (arr (
                      cons (obj (field "value" value (field "field" (str webhook_field) end))) nil))
                    end))))
            nil))
        end))
