-- ===== src/Chats/Requests.antt =====
-- packages/server/src/domain/send-message-request.ts: the request to send a message.
use whaloc.Base.{String, List, [], ◌∷◌, Option, none, some}
use whaloc.Shared.Common.{Json, Items, Fields, MessageType}
use whaloc.Shared.Common.Json.{arr, obj, str}

pub record TemplatePayload : Type 0 where
  pub name : String
  pub language_code : String
  pub policy : Option String
  pub components : Option (List Json)

-- the types of `typedRequestSchema` but `template`
pub data NodeType : Type 0 where
  text image video audio document sticker interactive location reaction contacts : NodeType

-- what a request has under its type: for a template the fields that are read
pub data SendContent : Type 0 where
  template : TemplatePayload → SendContent
  node : NodeType → Json → SendContent

-- `SendMessageRequest`
pub record SendMessageRequest : Type 0 where
  pub to : Option String
  pub recipient : Option String
  pub context_message_id : Option String
  pub biz_opaque_callback_data : Option String
  pub content : SendContent

abbrev as_type : NodeType → MessageType × String
as_type NodeType.text = (MessageType.text, "text")
as_type NodeType.image = (MessageType.image, "image")
as_type NodeType.video = (MessageType.video, "video")
as_type NodeType.audio = (MessageType.audio, "audio")
as_type NodeType.document = (MessageType.document, "document")
as_type NodeType.sticker = (MessageType.sticker, "sticker")
as_type NodeType.interactive = (MessageType.interactive, "interactive")
as_type NodeType.location = (MessageType.location, "location")
as_type NodeType.reaction = (MessageType.reaction, "reaction")
as_type NodeType.contacts = (MessageType.contacts, "contacts")

abbrev with_field : String → Option Json → Fields → Fields
with_field key none fields = fields
with_field key (some value) fields = Fields.field key value fields

abbrev items_from : List Json → Items
items_from [] = Items.nil
items_from (v ∷ vs) = Items.cons v (items_from vs)

abbrev text_node : Option String → Option Json
text_node none = none
text_node (some s) = some (str s)

abbrev array_node : Option (List Json) → Option Json
array_node none = none
array_node (some vs) = some (arr (items_from vs))

-- the object that `templatePayloadSchema` leaves of a template
abbrev template_node : TemplatePayload → Json
template_node t = obj (
    Fields.field "name" (str t.name) (
      Fields.field "language"
        (obj (
          Fields.field "code" (str t.language_code)
            (with_field "policy" (text_node t.policy) Fields.end)))
        (with_field "components" (array_node t.components) Fields.end)))

abbrev pub type_of : SendContent → MessageType
type_of (SendContent.template t) = MessageType.template
type_of (SendContent.node type value) = (as_type type).0

unfoldable pub message_payload_of : SendContent → Json
message_payload_of (SendContent.template t) =
    obj (Fields.field "template" (template_node t) Fields.end)
message_payload_of (SendContent.node type value) =
    obj (Fields.field (as_type type).1 value Fields.end)
