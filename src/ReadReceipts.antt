-- ===== src/ReadReceipts.antt =====
-- packages/server/src/domain/read-receipt-service.ts: the business reads a message of a user.
pub mod Twice
mod Tests
use whaloc.Base.{
  String, ℕ, List, [], ◌∷◌, ◌++◌, Bool, true, false, Option, none, some, ◌⊎◌, inr, ◌==◌, ◌&&◌,
  require, or_raise, ◌>>=◌, ◌>>◌,
}
use whaloc.Shared.Common.{MessageDirection, MessageStatus, PhoneNumberStatus}
use whaloc.Shared.Entities.{Message, TypingIndicator}
use whaloc.GraphError.{
  GraphApiError, unknown_object_error, invalid_parameter_error, phone_number_not_registered_error,
}
use whaloc.Database.PhoneNumbers.{PhoneNumberRow, find_by_id}
use whaloc.MessageTable.{StatusInput, find_row, update_status}
use whaloc.Typing.{Service, start}

-- `MarkReadRequest`
pub record MarkReadRequest : Type 0 where
  pub message_id : String
  pub typing_indicator : Bool

pub data Effect : Type 0 where
  status_changed : Message → MessageStatus → Effect
  typing_changed : TypingIndicator → Effect

pub record Desk : Type 0 where
  pub phone_numbers : List PhoneNumberRow
  pub messages : List Message
  pub typing : Service

-- `MarkReadResult`, with the desk afterwards and what was announced
pub record MarkReadResult : Type 0 where
  pub desk : Desk
  pub effects : List Effect
  pub message : Message
  pub indicator : Option TypingIndicator

abbrev pub is_connected : PhoneNumberStatus → Bool
is_connected PhoneNumberStatus.connected = true
is_connected _ = false

abbrev pub is_inbound : MessageDirection → Bool
is_inbound MessageDirection.inbound = true
is_inbound _ = false

abbrev pub is_read : MessageStatus → Bool
is_read MessageStatus.read = true
is_read _ = false

-- `#resolveInbound`
unfoldable pub resolve_inbound : String → String → List Message → GraphApiError ⊎ Message
resolve_inbound phone_number_id message_id table = do
  message ← or_raise (find_row message_id table) (unknown_object_error message_id)
  require (message.phone_number_id == phone_number_id) (unknown_object_error message_id)
  require (is_inbound message.direction) (
      invalid_parameter_error
        "Param message_id must be the id of a message received from the user, not one sent to them")
  inr message

abbrev pub read_input : String → StatusInput
read_input time = record { status = MessageStatus.read; error = none; updated_at = some time }

abbrev pub moved : Message → Option Message → List Message → List Message × List Effect × Message
moved message none table = (table, [], message)
moved message (some updated) table = (table, status_changed updated message.status ∷ [], updated)

-- `#markRead`; the table, what is announced and the message
unfoldable pub mark_row : String → Message → List Message → List Message × List Effect × Message
mark_row time message table = elim (is_read message.status) [
  | true ↦ (table, [], message)
  | false ↦
      let (table', updated) = update_status time message.id (read_input time) table in
      moved message updated table'
]

-- the indicator of the request is raised, with what that announces
abbrev pub typed :
    (ℕ → String)
    → ℕ
    → ℕ
    → Bool
    → String
    → String
    → Service
    → Service × List Effect × Option TypingIndicator
typed iso ttl now false phone_number_id contact_wa_id service = (service, [], none)
typed iso ttl now true phone_number_id contact_wa_id service =
    let (outcome, indicator) = start iso ttl now phone_number_id contact_wa_id service in
    (outcome.service, typing_changed indicator ∷ [], some indicator)

-- `iso` prints a time the way `toISOString` does; `ttl` is how long an indicator shows
unfoldable pub mark_read :
    (ℕ → String) → ℕ → ℕ → String → MarkReadRequest → Desk → GraphApiError ⊎ MarkReadResult
mark_read iso ttl now phone_number_id request desk = do
  number ←
      or_raise (find_by_id phone_number_id desk.phone_numbers)
        (unknown_object_error phone_number_id)
  require (is_connected number.status)
      (phone_number_not_registered_error number.display_phone_number)
  inbound ← resolve_inbound phone_number_id request.message_id desk.messages
  let (table, effects, message) = mark_row (iso now) inbound desk.messages
  let (typing, raised, indicator) =
      typed iso ttl now request.typing_indicator phone_number_id message.contact_wa_id desk.typing
  inr (record {
    desk = record desk { messages = table; typing = typing };
    effects = effects ++ raised;
    message = message;
    indicator = indicator;
  })
