-- ===== src/Chats/Sends.antt =====
-- packages/server/src/domain/message-service.ts: sending a message. Of what listens for accepted
-- sends, the status ladder is called here, and the typing indicators are not in the state.
use whaloc.Base.{
  String, List, Option, none, some, ◌⊎◌, inl, inr, ℕ, require, or_raise, raise, ◌>>=◌, ◌>>◌,
}
use whaloc.Shared.Common.{MessageDirection, MessageStatus}
use whaloc.Shared.Entities.{Contact, Message, Template, TemplateSnapshot, StatusDelays}
use whaloc.Failure.{Failure}
use whaloc.GraphError.{GraphApiError, unknown_object_error, phone_number_not_registered_error}
use whaloc.Database.PhoneNumbers.{find_by_id}
use whaloc.Templates.Table.{find_by_name_and_language}
use whaloc.SendValidation.{assert_template_is_sendable, assert_template_parameters}
use whaloc.MessageTable.{MessageInput, insert_row, find_row}
use whaloc.StatusLadder.{on_outbound_accepted}
use whaloc.ReadReceipts.{is_connected}
use whaloc.Contacts.{find_contact, insert_contact}
use whaloc.Chats.{Chats}
use whaloc.Chats.Requests.{SendContent, SendMessageRequest, type_of, message_payload_of}
use whaloc.Chats.Recipients.{resolve_recipient}

pub record SendMessageResult : Type 0 where
  pub input : String
  pub wa_id : String
  pub message : Message

-- a failure of the Graph API
abbrev pub graph {ℓ} : {A : Type ℓ} → GraphApiError ⊎ A → Failure ⊎ A
graph (inl e) = inl (Failure.graph e)
graph (inr a) = inr a

abbrev pub snapshot_of : Template → TemplateSnapshot
snapshot_of t = record { parameter_format = t.parameter_format; components = t.components }

unfoldable pub sendable_template_snapshot :
    String → SendContent → List Template → Failure ⊎ Option TemplateSnapshot
sendable_template_snapshot waba_id (SendContent.node type value) table = inr none
sendable_template_snapshot waba_id (SendContent.template t) table = do
  found ← graph (
      assert_template_is_sendable (find_by_name_and_language waba_id t.name t.language_code table)
        t.name t.language_code)
  graph (assert_template_parameters found t.components)
  inr (some (snapshot_of found))

-- `insert` of a contact that is new; without a user id, only its number can be taken
abbrev ensure_row : String → String → List Contact → Option Contact → List Contact
ensure_row now wa_id table (some found) = table
ensure_row now wa_id table none =
    elim (insert_contact now
      (record { wa_id = wa_id; profile_name = wa_id; user_id = none; created_at = none }) table) [
        | none ↦ table
        | some (table', row) ↦ table'
      ]

unfoldable pub ensure_contact : String → String → List Contact → List Contact
unfolding insert_contact
ensure_contact now wa_id table = ensure_row now wa_id table (find_contact wa_id table)

-- what `send` reads before it writes: input, number and snapshot
pub record Checked : Type 0 where
  pub input : String
  pub wa_id : String
  pub snapshot : Option TemplateSnapshot

unfoldable pub check_send : String → SendMessageRequest → Chats → Failure ⊎ Checked
unfolding resolve_recipient sendable_template_snapshot
check_send phone_number_id request c = do
  number ←
      or_raise (find_by_id phone_number_id c.phone_numbers)
        (Failure.graph (unknown_object_error phone_number_id))
  require (is_connected number.status)
      (Failure.graph (phone_number_not_registered_error number.display_phone_number))
  (input, wa_id) ← resolve_recipient request.to request.recipient c.contacts
  snapshot ← sendable_template_snapshot number.waba_id request.content c.templates
  inr (record { input = input; wa_id = wa_id; snapshot = snapshot })

abbrev pub message_input : String → String → SendMessageRequest → Checked → MessageInput
message_input id phone_number_id request checked = record {
  id = id;
  direction = MessageDirection.outbound;
  phone_number_id = phone_number_id;
  contact_wa_id = checked.wa_id;
  kind = type_of request.content;
  payload = message_payload_of request.content;
  status = some MessageStatus.accepted;
  reply_to = request.context_message_id;
  biz_opaque_callback_data = request.biz_opaque_callback_data;
  template_snapshot = checked.snapshot;
  timestamp = none;
  created_at = none;
}

-- `iso` prints a time; `wamid` is the draw of `createWamid`. An id that is taken is refused by the
-- key of the table, when the contact is already there.
module _ (delays : StatusDelays) (iso : ℕ → String) (wamid : String → String) where
  unfoldable pub store :
      ℕ → String → SendMessageRequest → Checked → Chats → Chats × (Failure ⊎ SendMessageResult)
  unfolding ensure_contact
  store now phone_number_id request checked c =
      let ensured = record c { contacts = ensure_contact (iso now) checked.wa_id c.contacts } in
      let input = message_input (wamid checked.wa_id) phone_number_id request checked in
      elim (find_row input.id c.ladder.messages) [
        | some taken ↦ (ensured, raise Failure.constraint)
        | none ↦
            let (table, row) = insert_row (iso now) input c.ladder.messages in
            (
              record ensured {
                ladder =
                    on_outbound_accepted delays iso now row
                      (record (c.ladder) { messages = table });
              },
              inr (record { input = checked.input; wa_id = checked.wa_id; message = row }),
            )
      ]

  abbrev pub after_check :
      ℕ
      → String
      → SendMessageRequest
      → Chats
      → Failure ⊎ Checked
      → Chats × (Failure ⊎ SendMessageResult)
  after_check now phone_number_id request c (inl e) = (c, raise e)
  after_check now phone_number_id request c (inr checked) =
      store now phone_number_id request checked c

  unfoldable pub send :
      ℕ → String → SendMessageRequest → Chats → Chats × (Failure ⊎ SendMessageResult)
  unfolding check_send store
  send now phone_number_id request c =
      after_check now phone_number_id request c (check_send phone_number_id request c)
