-- ===== src/Chats/Tests.antt =====
-- A send of a template to someone new, and the number change of someone who wrote.
use mathlib.Core.Option
use whaloc.Base.{
  subst, eq_iff, ◌≢◌, false, List, String, ℕ, [], ◌∷◌, none, some, inl, inr, ◌≡◌, ◌≤◌, Bool-cases,
  refl, map, if◌then◌else◌, ◌==◌, arith, to_sorted, put, delete, get, All, is_some, true,
}
use whaloc.Shared.Common.{
  obj, str, QualityRating, ThroughputLevel, PhoneNumberStatus, CodeVerificationStatus, NameStatus,
  MessageDirection, MessageStatus, MessageType, TemplateStatus, TemplateCategory,
  TemplateParameterFormat,
}
use whaloc.Shared.Common.{Fields}
use whaloc.Shared.Entities.{Contact, Message, Template, StatusDelays}
use whaloc.Database.PhoneNumbers.{PhoneNumberRow, find_by_id, to_record}
use whaloc.Templates.Table.{find_by_name_and_language}
use whaloc.SendValidation.{
  assert_template_is_sendable, assert_template_parameters, assert_component,
}
use whaloc.SendValidation.Parts.{
  text_parameters_of, assert_parameter_objects, assert_header_format, assert_button_parameters,
  header_format, upper_type,
}
use whaloc.JsonObject.{string_field, as_json_object, object_at}
use whaloc.Placeholders.{
  template_placeholders, placeholder_component_of, is_text_component, extract_placeholders,
}
use whaloc.MessageTable.{insert_row, new_row}
use whaloc.MessageTable.Conversations.{list_conversations, count_row}
use whaloc.StatusLadder.{Effect, WebhookStatus, on_outbound_accepted, schedule, cancel, stop_timer}
use whaloc.Contacts.{insert_contact, change_wa_id, find_contact, move_message}
use whaloc.Contacts.Keys.{holders}
use whaloc.Chats.{Chats, Notice, NumberChange, change_number, write_move, targets_of}
use whaloc.Chats.Recipients.{resolve_recipient}
use whaloc.Chats.Requests.{SendMessageRequest, SendContent, message_payload_of}
use whaloc.Chats.Sends.{
  SendMessageResult, send, store, check_send, ensure_contact, sendable_template_snapshot,
  snapshot_of,
}
use whaloc.Chats.Links.{IsLinked}
use whaloc.Chats.Calls.{IsLinkedIn}
use whaloc.Chats.History.{history, change_number-history}
use whaloc.Shared.Conversation.{conversation_id}
use Prim.Native.String.{compare}
use whaloc.Store.State.{AppState, WsEvent, initial_state}
use whaloc.Store.Reducer.{apply_ws_event}
use whaloc.Chats.Loaded.{renumbered}
use whaloc.Chats.Mirroring.{Mirrors}
use whaloc.Chats.Client.{IsWhole, change_number-Mirrors}
use whaloc.Chats.Stored.{Accepted, send-Accepted}
use whaloc.Chats.Steps.{Step, Reach, Reach-IsLinkedIn}

abbrev line : PhoneNumberRow
line = record {
  id = "20";
  waba_id = "10";
  display_phone_number = "+1 631-555-0000";
  verified_name = "Acme";
  quality_rating = QualityRating.green;
  throughput_level = ThroughputLevel.standard;
  status = PhoneNumberStatus.connected;
  code_verification_status = CodeVerificationStatus.verified;
  name_status = NameStatus.approved;
  verification_code = none;
  verification_code_method = none;
  verification_code_language = none;
  business_profile = obj Fields.end;
  created_at = "a";
}

abbrev greeting : Template
greeting = record {
  id = "5";
  waba_id = "10";
  name = "hello";
  language = "en";
  category = TemplateCategory.utility;
  parameter_format = TemplateParameterFormat.positional;
  components =
      obj (Fields.field "type" (str "BODY") (Fields.field "text" (str "Hi") Fields.end)) ∷ [];
  status = TemplateStatus.approved;
  rejected_reason = none;
  quality_score = none;
  created_at = "a";
  updated_at = "a";
}

abbrev ann : Contact
ann = record {
  wa_id = "55";
  profile_name = "Ann";
  user_id = some "US.1";
  created_at = "a";
  updated_at = "a";
}

abbrev question : Message
question = record {
  id = "wamid.q";
  direction = MessageDirection.inbound;
  phone_number_id = "20";
  contact_wa_id = "55";
  kind = MessageType.text;
  payload = obj Fields.end;
  status = MessageStatus.delivered;
  error = none;
  biz_opaque_callback_data = none;
  template_snapshot = none;
  reply_to = none;
  timestamp = "b";
  created_at = "b";
  updated_at = "b";
}

abbrev chats : Chats
chats = record {
  phone_numbers = line ∷ [];
  templates = greeting ∷ [];
  contacts = ann ∷ [];
  ladder = record {
    messages = question ∷ [];
    pending = [];
    timers = [];
    next_handle = 0;
    effects = [];
  };
  notices = [];
}

abbrev iso : ℕ → String
iso now = "c"

abbrev draw : ℕ → String → String
draw n wa_id = "wamid.n"

abbrev fresh : String → String
fresh wa_id = "wamid.f"

abbrev delays : StatusDelays
delays = record { sent = 5; delivered = 6; read = none }

abbrev change : NumberChange
change = record { wa_id = "66"; phone_number_id = none }

abbrev moved : Contact
moved = record ann { wa_id = "66"; updated_at = "c" }

abbrev moved_chats : Chats
moved_chats = record chats {
  contacts = moved ∷ [];
  ladder = record (chats.ladder) { messages = record question { contact_wa_id = "66" } ∷ [] };
  notices =
      Notice.contact_changed moved (some "55")
      ∷ Notice.number_changed (to_record line) moved "55" "wamid.n" 7
      ∷ [];
}

moves : change_number iso draw 7 "55" change chats ≡ inr (moved_chats, moved)
unfolding change_number targets_of list_conversations count_row find_by_id to_record to_sorted
    write_move change_wa_id
moves = refl

one_holder : (user_id : String) → holders user_id (ann ∷ []) ≤ 1
one_holder user_id = elim (Bool-cases ("US.1" == user_id)) [
  | inl same ↦ rw same (omega arith)
  | inr other ↦ rw other (omega arith)
]

linked : IsLinked chats.contacts chats.ladder.messages
linked = record {
  keys = record { numbers = (refl, tt); user_ids = one_holder };
  ids = (refl, tt);
  owners = (refl, tt);
}

abbrev request : SendMessageRequest
request = record {
  to = some "+1 (650) 555";
  recipient = none;
  context_message_id = none;
  biz_opaque_callback_data = some "order 7";
  content =
      SendContent.template
        (record { name = "hello"; language_code = "en"; policy = none; components = none });
}

abbrev newcomer : Contact
newcomer = record {
  wa_id = "1650555";
  profile_name = "1650555";
  user_id = none;
  created_at = "c";
  updated_at = "c";
}

abbrev welcome : Message
welcome = record {
  id = "wamid.f";
  direction = MessageDirection.outbound;
  phone_number_id = "20";
  contact_wa_id = "1650555";
  kind = MessageType.template;
  payload = message_payload_of request.content;
  status = MessageStatus.accepted;
  error = none;
  biz_opaque_callback_data = some "order 7";
  template_snapshot = some (snapshot_of greeting);
  reply_to = none;
  timestamp = "c";
  created_at = "c";
  updated_at = "c";
}

abbrev welcomed_chats : Chats
welcomed_chats = record moved_chats {
  contacts = moved ∷ newcomer ∷ [];
  ladder = record {
    messages = record question { contact_wa_id = "66" } ∷ welcome ∷ [];
    pending = ("wamid.f", 0) ∷ [];
    timers =
        record { handle = 0; message_id = "wamid.f"; status = WebhookStatus.sent; due = 12 } ∷ [];
    next_handle = 1;
    effects = Effect.created welcome ∷ [];
  };
}

abbrev answer : SendMessageResult
answer = record { input = "+1 (650) 555"; wa_id = "1650555"; message = welcome }

sends : send delays iso fresh 7 "20" request moved_chats ≡ (welcomed_chats, inr answer)
unfolding send check_send store ensure_contact insert_contact resolve_recipient
    sendable_template_snapshot find_by_name_and_language find_by_id to_record
    assert_template_is_sendable assert_template_parameters assert_component text_parameters_of
    assert_parameter_objects assert_header_format assert_button_parameters header_format upper_type
    string_field as_json_object object_at template_placeholders placeholder_component_of
    is_text_component extract_placeholders insert_row new_row on_outbound_accepted schedule cancel
    stop_timer put delete get
sends = refl

change_number-history_example :
    ((p k : String)
      → history p k moved_chats ≡ (
          if "66" == k
          then map (move_message "55" "66") (history p "55" chats)
          else if "55" == k
          then []
          else history p k chats))
    × ((k : String)
        → find_contact k moved_chats.contacts ≡ (
            if "66" == k
            then some moved
            else if "55" == k
            then none
            else find_contact k chats.contacts))
    × ((before : Contact) × (find_contact "55" chats.contacts ≡ some before)
        × (moved ≡ record before { wa_id = "66"; updated_at = "c" }))
change_number-history_example =
    change_number-history iso draw 7 "55" change chats moved_chats moved linked moves

send-Accepted_example : Accepted delays iso 7 "20" request moved_chats welcomed_chats answer
send-Accepted_example =
    send-Accepted delays iso fresh 7 "20" request moved_chats welcomed_chats answer sends

steps : Reach delays iso chats (send delays iso fresh 7 "20" request moved_chats).0
steps =
    Reach.after
      (Reach.after Reach.here (Step.number_changed draw 7 "55" change moved_chats moved moves))
      (Step.sent fresh 7 "20" request)

Reach-IsLinkedIn_example : IsLinkedIn (send delays iso fresh 7 "20" request moved_chats).0
Reach-IsLinkedIn_example = Reach-IsLinkedIn delays iso chats _ linked steps

abbrev client : AppState
client = record initial_state {
  messages = ("20:55", question ∷ []) ∷ [];
  contacts = some (ann ∷ []);
}

filled : (t : String) → (t == "") ≡ false → t ≢ ""
filled t other e = cc ((eq_iff t "").1 e, other)

loaded : Mirrors client chats
unfolding conversation_id get
loaded = record {
  messages = (
    record {
      phone_number_id = "20";
      wa_id = "55";
      here = refl;
      no_colon = (omega arith, (omega arith, tt));
      some_number = filled "20" refl;
      some_wa_id = filled "55" refl;
      owner = refl;
      rows = ((refl, refl, refl), tt);
    },
    tt,
  );
  keys = (refl, tt);
  contacts = λ known e k.
      let same : ann ∷ [] ≡ known = ground (arith, e) in
      subst (λ l. find_contact k l ≡ find_contact k (ann ∷ [])) same refl;
}

whole : IsWhole client chats ("20", "55")
unfolding conversation_id get
whole = record {
  no_colon = (omega arith, (omega arith, tt));
  ms = question ∷ [];
  loaded = refl;
  all = (refl, tt);
}

change_number-Mirrors_example :
    let client' = apply_ws_event compare client (WsEvent.contact_changed moved (some "55")) in
    ((rest : List Notice) × (moved_chats.notices ≡ Notice.contact_changed moved (some "55") ∷ rest))
    × Mirrors client' moved_chats
    × (get (conversation_id "20" "66") client'.messages
        ≡ Option.map (renumbered "66") (get (conversation_id "20" "55") client.messages))
    × (is_some client'.contacts ≡ true)
    × All (IsWhole client' moved_chats) (("20", "66") ∷ [])
change_number-Mirrors_example =
    change_number-Mirrors compare iso draw 7 "55" change chats moved_chats moved client "20" "66"
      (("20", "55") ∷ []) (filled "66" refl) linked moves loaded (omega arith, (omega arith, tt))
      (whole, tt)
