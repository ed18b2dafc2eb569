-- ===== src/Store/Tests.antt =====
-- packages/web/src/store/reducer.ts: concrete runs of the client's store.
use Prim.Native.String.{compare}
use mathlib.Core.Option
use whaloc.Base.{
  String, List, [], ◌∷◌, ◌++◌, none, some, get_or, ◌≤◌, ◌≡◌, refl, arith, true, false, find_by,
  IsDistinct, get,
}
use whaloc.Shared.Common.{
  null, MessageDirection, MessageStatus, MessageType, QualityRating, ThroughputLevel,
  PhoneNumberStatus, CodeVerificationStatus, NameStatus, InjectionTarget, InjectionPreset,
}
use whaloc.Shared.Entities.{
  Message, Conversation, PhoneNumber, WabaState, InjectionRule, InjectionTrigger, WebhookDelivery,
}
use whaloc.Shared.Conversation.{conversation_id}
use whaloc.Store.State.{AppState, initial_state, Toast, ToastKind, WsEvent, Action, older}
use whaloc.Store.Messages.{merge_page, status_rank}
use whaloc.Store.Messages.Merging.{rank_in, merge_page_comm}
use whaloc.Store.Fold.{conversation_key}
use whaloc.Store.Reducer.{apply_ws_event, reducer, delivery_key}
use whaloc.Store.Reducer.Histories.{
  HasDistinctHistories, history, reducer-HasDistinctHistories, reducer-rank_in,
}
use whaloc.Store.Reducer.Collections.{log_of, older_page-log_of}
use whaloc.Store.Reducer.Preview.{preview_follows_frame}

abbrev hello : Message
hello = record {
  id = "wamid.a";
  direction = MessageDirection.outbound;
  phone_number_id = "1";
  contact_wa_id = "5";
  kind = MessageType.text;
  payload = null;
  status = MessageStatus.read;
  error = none;
  biz_opaque_callback_data = none;
  template_snapshot = none;
  reply_to = none;
  timestamp = "2026-01-01T00:00:02.000Z";
  created_at = "2026-01-01T00:00:02.000Z";
  updated_at = "2026-01-01T00:00:02.000Z";
}

-- the frame that comes late
abbrev delivered : Message
delivered = record hello { status = MessageStatus.delivered }

abbrev thread : Conversation
thread = record {
  id = "1:5";
  phone_number_id = "1";
  contact_wa_id = "5";
  contact = none;
  message_count = 1;
  last_message_at = "2026-01-01T00:00:02.000Z";
  last_message = some hello;
}

abbrev chat : AppState
chat = record initial_state {
  conversations = some (thread ∷ []);
  messages = ("1:5", hello ∷ []) ∷ [];
  typing = ("1:5", "2026-01-01T00:00:20.000Z") ∷ [];
}

abbrev late : Action
late = Action.ws_event (WsEvent.message_status_changed delivered)

abbrev chat_distinct : HasDistinctHistories chat
chat_distinct = ((refl, tt), tt)

reducer-rank_in_example :
    rank_in "wamid.a" (history "1:5" chat)
    ≤ rank_in "wamid.a" (history "1:5" (reducer compare chat late))
reducer-rank_in_example = reducer-rank_in compare chat late "1:5" "wamid.a" chat_distinct tt

reducer-HasDistinctHistories_example : HasDistinctHistories (reducer compare chat late)
reducer-HasDistinctHistories_example = reducer-HasDistinctHistories compare chat late chat_distinct

merge_page_comm_example :
    rank_in "wamid.a" (merge_page (merge_page [] (hello ∷ [])) (delivered ∷ []))
    ≡ rank_in "wamid.a" (merge_page (merge_page [] (delivered ∷ [])) (hello ∷ []))
merge_page_comm_example = merge_page_comm "wamid.a" [] (hello ∷ []) (delivered ∷ []) tt

preview_follows_frame_example :
    let after = apply_ws_event compare chat (WsEvent.message_status_changed delivered) in
    (Option.bind after.conversations (find_by conversation_key "1:5")
      ≡ some (record thread { last_message = some delivered }))
    × (rank_in "wamid.a" (get_or (get "1:5" after.messages) []) ≡ rank_in "wamid.a" (hello ∷ []))
unfolding conversation_id status_rank get
preview_follows_frame_example =
    preview_follows_frame compare chat delivered (thread ∷ []) thread (hello ∷ []) refl refl refl
      refl (refl, tt) (omega arith)

abbrev received : Message
received = record hello { id = "wamid.c"; direction = MessageDirection.inbound }

abbrev toast : Toast
toast = record { id = "t"; kind = ToastKind.info; message = "copied" }

abbrev line : PhoneNumber
line = record {
  id = "11";
  waba_id = "1";
  display_phone_number = "+55 11";
  verified_name = "Shop";
  quality_rating = QualityRating.green;
  throughput_level = ThroughputLevel.standard;
  status = PhoneNumberStatus.connected;
  code_verification_status = CodeVerificationStatus.verified;
  name_status = NameStatus.approved;
  pending_verification = none;
  business_profile = null;
  created_at = "2026-01-01T00:00:00.000Z";
}

abbrev shop : WabaState
shop = record { id = "1"; name = "Shop"; subscribed_at = none; phone_numbers = line ∷ [] }

abbrev limit : InjectionRule
limit = record {
  id = "r1";
  target = InjectionTarget.graph_all;
  trigger = InjectionTrigger.next 3;
  preset = InjectionPreset.rate_limit_429;
  retry_after_seconds = none;
  regain_access_minutes = none;
  custom = none;
  seen = 0;
  matches = 0;
  remaining = some 3;
  exhausted = false;
  created_at = "2026-01-01T00:00:00.000Z";
  updated_at = "2026-01-01T00:00:00.000Z";
}

abbrev attempt : WebhookDelivery
attempt = record {
  id = "d1";
  event_type = "messages";
  url = "";
  request_body = "{}";
  request_headers = [];
  response_status = none;
  response_body = none;
  error = none;
  attempt = 1;
  duration_ms = none;
  skipped = true;
  created_at = "2026-01-01T00:00:00.000Z";
}

abbrev logged : AppState
logged = record chat { deliveries = some (attempt ∷ []) }

older_page-log_of_example :
    let after =
      log_of (reducer compare logged (Action.deliveries_loaded (attempt ∷ []) none older)) in
    IsDistinct delivery_key after
    × ((new : List WebhookDelivery) × (after ≡ log_of logged ++ new))
    × ((k : String)
        → find_by delivery_key k after ≡ (elim (find_by delivery_key k (log_of logged)) [
          | none ↦ find_by delivery_key k (attempt ∷ [])
          | some d ↦ some d
        ]))
older_page-log_of_example =
    older_page-log_of compare logged (attempt ∷ []) none (refl, tt) (refl, tt)
