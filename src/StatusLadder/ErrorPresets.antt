-- ===== src/StatusLadder/ErrorPresets.antt =====
-- packages/server/src/domain/message-error-presets.ts: the failures a `failed` status can carry.
use whaloc.Base.{String, List, [], ◌∷◌, Option, get_or, map}
use whaloc.Shared.Common.{Json, Fields}
use whaloc.Shared.Entities.{MessageErrorPreset}

-- `MESSAGE_ERROR_CODES`
pub data MessageErrorCode : Type 0 where
  code_131049 code_131026 code_131047 code_130472 : MessageErrorCode

abbrev message_error_codes : List MessageErrorCode
message_error_codes = code_131049 ∷ code_131026 ∷ code_131047 ∷ code_130472 ∷ []

-- `MESSAGE_ERROR_PRESETS`
abbrev message_error_presets : MessageErrorCode → MessageErrorPreset
message_error_presets code_131049 = record {
  code = 131049;
  title = "This message was not delivered to maintain healthy ecosystem engagement.";
  message = "This message was not delivered to maintain healthy ecosystem engagement.";
  details =
      "In order to maintain a healthy ecosystem engagement, the message failed to be delivered.";
}
message_error_presets code_131026 = record {
  code = 131026;
  title = "Message undeliverable";
  message = "Message undeliverable";
  details =
      "Unable to deliver message. Reasons can include: the recipient phone number is not a WhatsApp phone number, the recipient has not accepted our new Terms of Service and Privacy Policy, or the recipient is using an old WhatsApp version.";
}
message_error_presets code_131047 = record {
  code = 131047;
  title = "Re-engagement message";
  message = "Re-engagement message";
  details = "More than 24 hours have passed since the recipient last replied to the sender number.";
}
message_error_presets code_130472 = record {
  code = 130472;
  title = "User's number is part of an experiment";
  message = "User's number is part of an experiment";
  details =
      "Message failed to send because this user's phone number is part of an experiment. Learn more in the documentation.";
}

abbrev pub message_error_preset : Option MessageErrorCode → MessageErrorPreset
message_error_preset code = message_error_presets (get_or code code_131049)

abbrev error_docs_href : String
error_docs_href = "/documentation/business-messaging/whatsapp/support/error-codes"

abbrev object : List (String × Json) → Fields
object [] = Fields.end
object ((name, value) ∷ rest) = Fields.field name value (object rest)

abbrev pub message_error_node : MessageErrorPreset → Json
message_error_node preset = Json.obj (
    object (
      ("code", Json.nat preset.code)
      ∷ ("title", Json.str preset.title)
      ∷ ("message", Json.str preset.message)
      ∷ ("error_data", Json.obj (object (("details", Json.str preset.details) ∷ [])))
      ∷ ("href", Json.str error_docs_href)
      ∷ []))

-- every preset, for the error picker
abbrev pub list_message_error_presets : List MessageErrorPreset
list_message_error_presets = map message_error_presets message_error_codes
