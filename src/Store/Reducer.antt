-- ===== src/Store/Reducer.antt =====
-- packages/web/src/store/reducer.ts: the events of the WebSocket and the reducer.
pub mod Histories
pub mod Collections
pub mod Preview
use Prim.Native.Nat.{Ordering}
use mathlib.Core.Option
use whaloc.Base.{
  String, List, [], ◌∷◌, ◌++◌, Bool, true, false, not, Option, none, some, get_or, map, ◌==◌,
  if◌then◌else◌, Assoc, get, put, from_entries, filter, filter_keys, remove, any, has_key,
  to_sorted, same_text, take_last, delete,
}
use whaloc.Shared.Common.{ChangeEvent}
use whaloc.Shared.Entities.{
  Message, Contact, Conversation, StateResponse, Template, TokenState, InjectionRule,
  TypingIndicator, WebhookDelivery,
}
use whaloc.Shared.Conversation.{conversation_id}
use whaloc.Store.State.{
  Phase, Toast, AppState, initial_state, DeliveriesMode, latest, older, WsEvent, Action,
}
use whaloc.Store.Scope.{Scope, resolve_scope, is_same_scope}
use whaloc.Store.Messages.{merge_page}
use whaloc.Store.Fold.{
  created, status, rule_key, without_typing, upsert_message, count_unread, upsert_by,
  upsert_injection_rule, with_valid_tokens, scope_in, enter_scope, with_server, is_deleted,
  apply_waba_change, apply_phone_number_change,
}
use whaloc.Store.Moved.{with_moved_contact}

abbrev pub template_key : Template → String
template_key t = t.id

abbrev pub delivery_key : WebhookDelivery → String
delivery_key d = d.id

abbrev pub toast_key : Toast → String
toast_key t = t.id

set_typing : Assoc String → String → Option String → Assoc String
set_typing typing id none = without_typing typing id
set_typing typing id (some expires_at) = put id expires_at typing

change_rules : InjectionRule → ChangeEvent → List InjectionRule → List InjectionRule
change_rules rule change rules =
    if is_deleted change then remove rule_key rule.id rules else upsert_injection_rule rules rule

abbrev replace_token : TokenState → TokenState → TokenState
replace_token token c = if c.id == token.id then token else c

abbrev refresh_contact : Contact → Conversation → Conversation
refresh_contact contact c =
    if c.contact_wa_id == contact.wa_id then record c { contact = some contact } else c

-- What a reset or an import leaves of the client's state.
abbrev wiped : AppState → StateResponse → AppState
wiped state server = record initial_state {
  phase = Phase.ready;
  server = some server;
  waba_id = state.waba_id;
  phone_number_id = state.phone_number_id;
  error_presets = state.error_presets;
  connection = state.connection;
  toasts = state.toasts;
}

indicator_entries : List TypingIndicator → List (String × String)
indicator_entries [] = []
indicator_entries (t ∷ ts) = elim t.expires_at [
  | none ↦ indicator_entries ts
  | some expires_at ↦
      (conversation_id t.phone_number_id t.contact_wa_id, expires_at) ∷ indicator_entries ts
]

known_deliveries : DeliveriesMode → Option (List WebhookDelivery) → List WebhookDelivery
known_deliveries older deliveries = get_or deliveries []
known_deliveries latest deliveries = []

append_new : List WebhookDelivery → List WebhookDelivery → List WebhookDelivery
append_new known page = known ++ filter (λ d. not (any (has_key delivery_key d.id) known)) page

is_open : Option String → String → Bool
is_open conversation id = same_text (some id) conversation

-- `contacts.localeCompare` orders by the browser's locale: it is the parameter `locale_compare`.
module _ (locale_compare : String → String → Ordering) where
  edit_contact : AppState → Contact → AppState
  edit_contact state contact = record state {
    contacts =
        Option.map
          (λ cs.
            to_sorted (λ a b. locale_compare a.wa_id b.wa_id)
              (upsert_by (λ c. c.wa_id == contact.wa_id) contact cs))
          state.contacts;
    conversations = Option.map (map (refresh_contact contact)) state.conversations;
  }

  change_contact : AppState → Contact → Option String → AppState
  change_contact state contact none = edit_contact state contact
  change_contact state contact (some previous) =
      if previous == contact.wa_id
      then edit_contact state contact
      else with_moved_contact state contact previous

  unfoldable pub apply_ws_event : AppState → WsEvent → AppState
  unfolding set_typing change_rules edit_contact change_contact
  apply_ws_event state (WsEvent.message_created message) =
      let id = conversation_id message.phone_number_id message.contact_wa_id in
      record (upsert_message state message created) { unread = count_unread state message id }
  apply_ws_event state (WsEvent.message_status_changed message) =
      upsert_message state message status
  apply_ws_event state (WsEvent.typing_changed typing) =
      let id = conversation_id typing.phone_number_id typing.contact_wa_id in
      record state { typing = set_typing state.typing id typing.expires_at }
  apply_ws_event state (WsEvent.template_changed template) = record state {
    templates = Option.map (upsert_by (has_key template_key template.id) template) state.templates;
  }
  apply_ws_event state (WsEvent.webhook_delivery delivery) = record state {
    deliveries = Option.map (λ ds. delivery ∷ ds) state.deliveries;
  }
  apply_ws_event state (WsEvent.contact_changed contact previous) =
      change_contact state contact previous
  apply_ws_event state (WsEvent.waba_changed waba event) = apply_waba_change state waba event
  apply_ws_event state (WsEvent.phone_number_changed n event) =
      apply_phone_number_change state n event
  apply_ws_event state (WsEvent.injection_changed rule change) = record state {
    injection_rules = Option.map (change_rules rule change) state.injection_rules;
  }
  apply_ws_event state (WsEvent.token_changed token) = record state {
    tokens = Option.map (map (replace_token token)) state.tokens;
  }
  apply_ws_event state (WsEvent.state_imported server) = with_server (wiped state server) server
  apply_ws_event state (WsEvent.state_reset server) =
      with_server
        (record (wiped state server) {
          injection_rules = some [];
          tokens = with_valid_tokens state.tokens;
        })
        server

  unfoldable pub reducer : AppState → Action → AppState
  unfolding apply_ws_event indicator_entries known_deliveries append_new is_open
  reducer state (Action.bootstrap_loaded server contacts presets rules) =
      let scope = resolve_scope (some server) (scope_in state) in
      record state {
        phase = Phase.ready;
        load_error = none;
        server = some server;
        contacts = some contacts;
        error_presets = presets;
        injection_rules = some rules;
        waba_id = scope.waba_id;
        phone_number_id = scope.phone_number_id;
      }
  reducer state (Action.bootstrap_failed message) = record state {
    phase = Phase.failed;
    load_error = some message;
  }
  reducer state (Action.state_loaded server) = with_server state server
  reducer state (Action.scope_selected waba_id phone_number_id) =
      let scope : Scope = record { waba_id = waba_id; phone_number_id = phone_number_id } in
      if is_same_scope scope (scope_in state) then state else enter_scope state scope
  reducer state (Action.contacts_loaded contacts) = record state { contacts = some contacts }
  reducer state (Action.conversations_loaded conversations) = record state {
    conversations = some conversations;
  }
  reducer state (Action.conversation_opened id) = record state {
    active_conversation_id = id;
    conversation_moved = none;
    unread = filter_keys (λ k. not (is_open id k)) state.unread;
  }
  reducer state (Action.messages_loaded id page before) = record state {
    messages = put id (merge_page (get_or (get id state.messages) []) page) state.messages;
    messages_before = put id before state.messages_before;
  }
  reducer state (Action.typing_loaded indicators) = record state {
    typing = from_entries (indicator_entries indicators);
  }
  reducer state (Action.templates_loaded templates) = record state { templates = some templates }
  reducer state (Action.injection_rules_loaded rules) = record state {
    injection_rules = some rules;
  }
  reducer state (Action.tokens_loaded tokens) = record state { tokens = some tokens }
  reducer state (Action.deliveries_loaded page before mode) = record state {
    deliveries = some (append_new (known_deliveries mode state.deliveries) page);
    deliveries_before = before;
  }
  reducer state (Action.connection_changed connection) = record state { connection = connection }
  reducer state (Action.ws_event event) = apply_ws_event state event
  reducer state (Action.toast_pushed toast) = record state {
    toasts = take_last 4 (state.toasts ++ toast ∷ []);
  }
  reducer state (Action.toast_dismissed id) = record state {
    toasts = remove toast_key id state.toasts;
  }
