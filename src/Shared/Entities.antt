-- ===== src/Shared/Entities.antt =====
-- packages/shared/src/control-plane: the records. An optional or nullable field is an `Option`;
-- an object that the code only carries is a `Json`.
use whaloc.Base.{String, List, Bool, Option, ℕ, Assoc}
use whaloc.Shared.Common.{
  Json, MessageDirection, MessageStatus, MessageType, TemplateStatus, TemplateCategory,
  TemplateParameterFormat, QualityRating, ThroughputLevel, PhoneNumberStatus,
  CodeVerificationStatus, NameStatus, InjectionTarget, InjectionPreset,
}

pub record TemplateSnapshot : Type 0 where
  pub parameter_format : TemplateParameterFormat
  pub components : List Json

pub record Message : Type 0 where
  pub id : String
  pub direction : MessageDirection
  pub phone_number_id : String
  pub contact_wa_id : String
  pub kind : MessageType
  pub payload : Json
  pub status : MessageStatus
  pub error : Option Json
  pub biz_opaque_callback_data : Option String
  pub template_snapshot : Option TemplateSnapshot
  pub reply_to : Option String
  pub timestamp : String
  pub created_at : String
  pub updated_at : String

pub record Contact : Type 0 where
  pub wa_id : String
  pub profile_name : String
  pub user_id : Option String
  pub created_at : String
  pub updated_at : String

pub record Conversation : Type 0 where
  pub id : String
  pub phone_number_id : String
  pub contact_wa_id : String
  pub contact : Option Contact
  pub message_count : ℕ
  pub last_message_at : String
  pub last_message : Option Message

pub record PhoneNumber : Type 0 where
  pub id : String
  pub waba_id : String
  pub display_phone_number : String
  pub verified_name : String
  pub quality_rating : QualityRating
  pub throughput_level : ThroughputLevel
  pub status : PhoneNumberStatus
  pub code_verification_status : CodeVerificationStatus
  pub name_status : NameStatus
  pub pending_verification : Option Json
  pub business_profile : Json
  pub created_at : String

-- `wabaSchema`, as the `waba.changed` event carries it
pub record Waba : Type 0 where
  pub id : String
  pub name : String
  pub subscribed_at : Option String
  pub created_at : String

-- `wabaStateSchema`: a WABA with its numbers
pub record WabaState : Type 0 where
  pub id : String
  pub name : String
  pub subscribed_at : Option String
  pub phone_numbers : List PhoneNumber

pub record StatusDelays : Type 0 where
  pub sent : ℕ
  pub delivered : ℕ
  pub read : Option ℕ

pub record BehaviorState : Type 0 where
  pub status_delays : StatusDelays
  pub template_auto_approve_ms : Option ℕ
  pub strict_tokens : Bool
  pub media_ttl_seconds : Option ℕ

pub record WebhookState : Type 0 where
  pub url : Option String
  pub app_secret_configured : Bool
  pub verify_token_configured : Bool
  pub verify_on_start : Bool
  pub last_handshake : Option Json

pub record AppIdentity : Type 0 where
  pub id : String
  pub name : String

pub record StateResponse : Type 0 where
  pub public_url : String
  pub app : AppIdentity
  pub wabas : List WabaState
  pub behavior : BehaviorState
  pub webhook : WebhookState

pub record Template : Type 0 where
  pub id : String
  pub waba_id : String
  pub name : String
  pub language : String
  pub category : TemplateCategory
  pub parameter_format : TemplateParameterFormat
  pub components : List Json
  pub status : TemplateStatus
  pub rejected_reason : Option String
  pub quality_score : Option QualityRating
  pub created_at : String
  pub updated_at : String

pub record TypingIndicator : Type 0 where
  pub phone_number_id : String
  pub contact_wa_id : String
  pub expires_at : Option String

pub record TokenState : Type 0 where
  pub id : String
  pub masked : String
  pub last4 : String
  pub expired : Bool
  pub expired_at : Option String

pub data InjectionTrigger : Type 0 where
  always : InjectionTrigger
  next every : ℕ → InjectionTrigger

pub record InjectionCustomResponse : Type 0 where
  pub http_status : ℕ
  pub code : ℕ
  pub subcode : Option ℕ
  pub message : String
  pub details : Option String
  pub kind : Option String

pub record InjectionRule : Type 0 where
  pub id : String
  pub target : InjectionTarget
  pub trigger : InjectionTrigger
  pub preset : InjectionPreset
  pub retry_after_seconds : Option ℕ
  pub regain_access_minutes : Option ℕ
  pub custom : Option InjectionCustomResponse
  pub seen : ℕ
  pub matches : ℕ
  pub remaining : Option ℕ
  pub exhausted : Bool
  pub created_at : String
  pub updated_at : String

pub record WebhookDelivery : Type 0 where
  pub id : String
  pub event_type : String
  pub url : String
  pub request_body : String
  pub request_headers : Assoc String
  pub response_status : Option ℕ
  pub response_body : Option String
  pub error : Option String
  pub attempt : ℕ
  pub duration_ms : Option ℕ
  pub skipped : Bool
  pub created_at : String

pub record MessageErrorPreset : Type 0 where
  pub code : ℕ
  pub title : String
  pub message : String
  pub details : String
