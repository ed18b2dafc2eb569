-- ===== src/Store/State.antt =====
-- packages/web/src/store/types.ts: the state of the client and the actions on it.
use whaloc.Base.{String, List, [], Option, none, ℕ, Assoc}
use whaloc.Shared.Common.{ChangeEvent}
use whaloc.Shared.Entities.{
  Message, Contact, Conversation, PhoneNumber, Waba, StateResponse, Template, TypingIndicator,
  TokenState, InjectionRule, WebhookDelivery, MessageErrorPreset,
}

pub data Phase : Type 0 where
  loading ready failed : Phase

pub data ConnectionStatus : Type 0 where
  connecting opened closed : ConnectionStatus

pub data ToastKind : Type 0 where
  error info : ToastKind

pub record Toast : Type 0 where
  pub id : String
  pub kind : ToastKind
  pub message : String

-- `{ from, to }`
pub record ConversationMove : Type 0 where
  pub source : String
  pub target : String

pub record AppState : Type 0 where
  pub phase : Phase
  pub load_error : Option String
  pub server : Option StateResponse
  pub waba_id : Option String
  pub phone_number_id : Option String
  pub contacts : Option (List Contact)
  pub conversations : Option (List Conversation)
  pub active_conversation_id : Option String
  pub conversation_moved : Option ConversationMove
  pub messages : Assoc (List Message)
  pub messages_before : Assoc (Option String)
  pub unread : Assoc ℕ
  pub typing : Assoc String
  pub templates : Option (List Template)
  pub injection_rules : Option (List InjectionRule)
  pub tokens : Option (List TokenState)
  pub deliveries : Option (List WebhookDelivery)
  pub deliveries_before : Option String
  pub error_presets : List MessageErrorPreset
  pub connection : ConnectionStatus
  pub toasts : List Toast

abbrev pub initial_state : AppState
initial_state = record {
  phase = Phase.loading;
  load_error = none;
  server = none;
  waba_id = none;
  phone_number_id = none;
  contacts = none;
  conversations = none;
  active_conversation_id = none;
  conversation_moved = none;
  messages = [];
  messages_before = [];
  unread = [];
  typing = [];
  templates = none;
  injection_rules = none;
  tokens = none;
  deliveries = none;
  deliveries_before = none;
  error_presets = [];
  connection = ConnectionStatus.connecting;
  toasts = [];
}

-- The payloads that a client reads of `WsEvent` (packages/shared/src/ws-events.ts).
pub data WsEvent : Type 0 where
  message_created message_status_changed : Message → WsEvent
  typing_changed : TypingIndicator → WsEvent
  template_changed : Template → WsEvent
  webhook_delivery : WebhookDelivery → WsEvent
  -- with `previousWaId`
  contact_changed : Contact → Option String → WsEvent
  waba_changed : Waba → ChangeEvent → WsEvent
  phone_number_changed : PhoneNumber → ChangeEvent → WsEvent
  injection_changed : InjectionRule → ChangeEvent → WsEvent
  token_changed : TokenState → WsEvent
  state_reset state_imported : StateResponse → WsEvent

pub data DeliveriesMode : Type 0 where
  latest older : DeliveriesMode

pub data Action : Type 0 where
  bootstrap_loaded :
      StateResponse → List Contact → List MessageErrorPreset → List InjectionRule → Action
  bootstrap_failed : String → Action
  state_loaded : StateResponse → Action
  scope_selected : Option String → Option String → Action
  contacts_loaded : List Contact → Action
  conversations_loaded : List Conversation → Action
  conversation_opened : Option String → Action
  messages_loaded : String → List Message → Option String → Action
  typing_loaded : List TypingIndicator → Action
  templates_loaded : List Template → Action
  injection_rules_loaded : List InjectionRule → Action
  tokens_loaded : List TokenState → Action
  deliveries_loaded : List WebhookDelivery → Option String → DeliveriesMode → Action
  connection_changed : ConnectionStatus → Action
  ws_event : WsEvent → Action
  toast_pushed : Toast → Action
  toast_dismissed : String → Action
