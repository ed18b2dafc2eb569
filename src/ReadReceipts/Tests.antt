-- ===== src/ReadReceipts/Tests.antt =====
-- A run of a read receipt.
use whaloc.Base.{String, ℕ, [], ◌∷◌, none, some, inr, true, ◌≡◌, refl}
use whaloc.Shared.Common.{
  obj, QualityRating, ThroughputLevel, PhoneNumberStatus, CodeVerificationStatus, NameStatus,
  MessageDirection, MessageStatus, MessageType,
}
use whaloc.Shared.Common.Fields.{end}
use whaloc.Shared.Entities.{Message, TypingIndicator}
use whaloc.Database.PhoneNumbers.{PhoneNumberRow, find_by_id, to_record}
use whaloc.MessageTable.{update_status}
use whaloc.Typing.{start, drop}
use whaloc.ReadReceipts.{
  MarkReadRequest, Desk, MarkReadResult, Effect, mark_read, mark_row, resolve_inbound,
}
use whaloc.ReadReceipts.Twice.{IsRead, mark_read-IsRead}

abbrev line : PhoneNumberRow
line = record {
  id = "20";
  waba_id = "10";
  display_phone_number = "+1 631-555-0000";
  verified_name = "Acme";
  quality_rating = QualityRating.green;
  throughput_level = ThroughputLevel.standard;
  status = PhoneNumberStatus.connected;
  code_verification_status = CodeVerificationStatus.verified;
  name_status = NameStatus.approved;
  verification_code = none;
  verification_code_method = none;
  verification_code_language = none;
  business_profile = obj end;
  created_at = "a";
}

abbrev question : Message
question = record {
  id = "wamid.q";
  direction = MessageDirection.inbound;
  phone_number_id = "20";
  contact_wa_id = "5";
  kind = MessageType.text;
  payload = obj end;
  status = MessageStatus.delivered;
  error = none;
  biz_opaque_callback_data = none;
  template_snapshot = none;
  reply_to = none;
  timestamp = "b";
  created_at = "b";
  updated_at = "b";
}

abbrev desk : Desk
desk = record {
  phone_numbers = line ∷ [];
  messages = question ∷ [];
  typing = record { active = []; tasks = []; next_handle = 0 };
}

abbrev request : MarkReadRequest
request = record { message_id = "wamid.q"; typing_indicator = true }

abbrev iso : ℕ → String
iso time = "c"

abbrev seen : Message
seen = record question { status = MessageStatus.read; updated_at = "c" }

abbrev indicator : TypingIndicator
indicator = record { phone_number_id = "20"; contact_wa_id = "5"; expires_at = some "c" }

abbrev done : MarkReadResult
done = record {
  desk = record desk {
    messages = seen ∷ [];
    typing = (start iso 25 100 "20" "5" desk.typing).0.service;
  };
  effects =
      Effect.status_changed seen MessageStatus.delivered ∷ Effect.typing_changed indicator ∷ [];
  message = seen;
  indicator = some indicator;
}

reads : mark_read iso 25 100 "20" request desk ≡ inr done
unfolding mark_read mark_row resolve_inbound find_by_id to_record update_status start drop
reads = refl

mark_read-IsRead_example : IsRead iso 25 "20" request desk done
mark_read-IsRead_example = mark_read-IsRead iso 25 100 "20" request desk done reads
