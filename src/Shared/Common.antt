-- ===== src/Shared/Common.antt =====
-- packages/shared/src/control-plane/common.ts and messages.ts, injection.ts: the enumerations.
use whaloc.Base.{String, Bool, ℕ}

-- A JSON value, where the code only carries it: a number is `nat`, or its literal.
mutual
  pub data Json : Type 0 where
    null : Json
    bool : Bool → Json
    num : String → Json
    nat : ℕ → Json
    str : String → Json
    arr : Items → Json
    obj : Fields → Json

  pub data Items : Type 0 where
    nil : Items
    cons : Json → Items → Items

  pub data Fields : Type 0 where
    end : Fields
    field : String → Json → Fields → Fields

pub data MessageDirection : Type 0 where
  inbound outbound : MessageDirection

pub data MessageStatus : Type 0 where
  accepted sent delivered read failed : MessageStatus

pub data MessageType : Type 0 where
  text template image video audio document sticker interactive : MessageType
  location reaction contacts button unsupported unknown : MessageType

pub data TemplateStatus : Type 0 where
  pending approved rejected paused disabled : TemplateStatus

pub data TemplateCategory : Type 0 where
  authentication marketing utility : TemplateCategory

pub data TemplateParameterFormat : Type 0 where
  positional named : TemplateParameterFormat

pub data QualityRating : Type 0 where
  green yellow red unknown : QualityRating

pub data ThroughputLevel : Type 0 where
  standard high : ThroughputLevel

pub data PhoneNumberStatus : Type 0 where
  banned connected deleted disconnected flagged migrated pending : PhoneNumberStatus
  rate_limited restricted unknown unverified : PhoneNumberStatus

pub data CodeVerificationStatus : Type 0 where
  expired not_verified verified : CodeVerificationStatus

pub data NameStatus : Type 0 where
  approved available_without_review declined expired non_exists : NameStatus
  nothing pending_review : NameStatus

pub data ChangeEvent : Type 0 where
  created updated deleted : ChangeEvent

pub data InjectionTarget : Type 0 where
  messages_send media_upload media_resolve media_download : InjectionTarget
  templates_create templates_list graph_all : InjectionTarget

pub data InjectionPreset : Type 0 where
  rate_limit_429 throughput_131056 spam_rate_4 server_error_500 custom : InjectionPreset
