-- ===== src/MessageTable.antt =====
-- packages/server/src/db/repositories/message-repository.ts: the table of messages. A row is kept
-- as the record that it decodes to; `MessageRecord` has the fields of the shared Message.
pub mod Rows
pub mod Conversations
use whaloc.Base.{
  String, List, [], ◌∷◌, ◌++◌, Option, none, some, get_or, ◌==◌, if◌then◌else◌, find_by, map,
}
use whaloc.Shared.Common.{Json, MessageDirection, MessageStatus, accepted, MessageType}
use whaloc.Shared.Entities.{Message, TemplateSnapshot}

-- `InsertMessageInput`
pub record MessageInput : Type 0 where
  pub id : String
  pub direction : MessageDirection
  pub phone_number_id : String
  pub contact_wa_id : String
  pub kind : MessageType
  pub payload : Json
  pub status : Option MessageStatus
  pub reply_to : Option String
  pub biz_opaque_callback_data : Option String
  pub template_snapshot : Option TemplateSnapshot
  pub timestamp : Option String
  pub created_at : Option String

-- `UpdateMessageStatusInput`: an error that is `some none` clears the column.
pub record StatusInput : Type 0 where
  pub status : MessageStatus
  pub error : Option (Option Json)
  pub updated_at : Option String

abbrev pub row_id : Message → String
row_id m = m.id

-- the row that `insert` writes; `now` is the clock
unfoldable pub new_row : String → MessageInput → Message
new_row now input =
    let created = get_or input.created_at now in
    record {
      id = input.id;
      direction = input.direction;
      phone_number_id = input.phone_number_id;
      contact_wa_id = input.contact_wa_id;
      kind = input.kind;
      payload = input.payload;
      status = get_or input.status accepted;
      error = none;
      reply_to = input.reply_to;
      biz_opaque_callback_data = input.biz_opaque_callback_data;
      template_snapshot = input.template_snapshot;
      timestamp = get_or input.timestamp created;
      created_at = created;
      updated_at = created;
    }

unfoldable pub insert_row : String → MessageInput → List Message → List Message × Message
insert_row now input table = let row = new_row now input in (table ++ row ∷ [], row)

abbrev pub find_row : String → List Message → Option Message
find_row id table = find_by row_id id table

abbrev pub with_status : String → StatusInput → Message → Message
with_status now input m = record m {
  status = input.status;
  error = get_or input.error m.error;
  updated_at = get_or input.updated_at now;
}

abbrev pub write_status : String → String → StatusInput → Message → Message
write_status now id input m = if m.id == id then with_status now input m else m

-- `updateStatus`: the table, and the row as it is afterwards
unfoldable pub update_status :
    String → String → StatusInput → List Message → List Message × Option Message
update_status now id input table =
    let table' = map (write_status now id input) table in (table', find_row id table')
