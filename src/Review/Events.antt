-- ===== src/Review/Events.antt =====
-- packages/server/src/domain/template-lifecycle.ts: what a review announces.
use whaloc.Base.{String, ℕ, Option, none}
use whaloc.Shared.Common.{QualityRating}
use whaloc.Shared.Entities.{Template}

pub data TemplateEvent : Type 0 where
  approved rejected pending paused disabled deleted : TemplateEvent

pub record TemplateRejectionInfo : Type 0 where
  pub reason : String
  pub recommendation : String

pub record TemplateOtherInfo : Type 0 where
  pub title : String
  pub description : String

abbrev pub first_pause_info : TemplateOtherInfo
first_pause_info = record {
  title = "FIRST_PAUSE";
  description = "Your WhatsApp message template has been paused due to negative customer feedback.";
}

abbrev pub disabled_info : TemplateOtherInfo
disabled_info = record {
  title = "DISABLED";
  description =
      "Your WhatsApp message template has been disabled due to negative customer feedback.";
}

abbrev pub default_rejection_info : TemplateRejectionInfo
default_rejection_info = record {
  reason =
      "Your template has parameters placed next to each other (like {{1}}{{2}}) without text or punctuation between them.";
  recommendation =
      "Separate parameters with descriptive text and ensure each parameter is clearly contextualized.";
}

-- what an announcement adds; a reason that is `some none` is null
pub record Details : Type 0 where
  pub reason : Option (Option String)
  pub rejection_info : Option TemplateRejectionInfo
  pub other_info : Option TemplateOtherInfo
  pub disabled_at : Option ℕ

abbrev pub plain : Details
plain = record { reason = none; rejection_info = none; other_info = none; disabled_at = none }

-- an event to the control plane with its webhook right after
pub data Effect : Type 0 where
  announced : Template → TemplateEvent → Details → Effect
  quality_announced : Template → Option QualityRating → QualityRating → Effect
