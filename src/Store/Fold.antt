-- ===== src/Store/Fold.antt =====
-- packages/web/src/store/reducer.ts: the helpers that fold one resource into the state.
use mathlib.Core.Option
use whaloc.Base.{
  String, List, [], ◌∷◌, ◌++◌, Bool, true, false, not, ◌&&◌, ◌||◌, Option, none, some, get_or, map,
  ◌==◌, if◌then◌else◌, ℕ, ◌+◌, Assoc, get, put, delete, is_some, find, find_by, find_index?,
  has_key, place, remove, any, same_text,
}
use whaloc.Shared.Common.{MessageDirection, inbound, outbound, ChangeEvent}
use whaloc.Shared.Entities.{
  Message, Contact, Conversation, PhoneNumber, Waba, WabaState, StateResponse, TokenState,
  InjectionRule,
}
use whaloc.Shared.Conversation.{conversation_id}
use whaloc.Store.State.{AppState}
use whaloc.Store.Scope.{Scope, resolve_scope, is_same_scope}
use whaloc.Store.Messages.{insert_message, merge_into}

pub data UpsertKind : Type 0 where
  created status : UpsertKind

abbrev pub conversation_key : Conversation → String
conversation_key c = c.id

abbrev pub rule_key : InjectionRule → String
rule_key r = r.id

abbrev pub number_key : PhoneNumber → String
number_key n = n.id

abbrev pub waba_key : WabaState → String
waba_key w = w.id

-- the object itself when there is no indicator
unfoldable pub without_typing : Assoc String → String → Assoc String
without_typing typing id = if is_some (get id typing) then delete id typing else typing

-- `conversation.lastMessage?.id === message.id`
abbrev pub is_last : Option Message → String → Bool
is_last none id = false
is_last (some m) id = m.id == id

unfoldable pub refresh_preview : Message → String → Conversation → Conversation
refresh_preview message id c =
    if c.id == id && is_last c.last_message message.id
    then record c { last_message = some message }
    else c

abbrev is_status : UpsertKind → Bool
is_status status = true
is_status created = false

abbrev contact_of : Option Conversation → Option Contact
contact_of none = none
contact_of (some c) = c.contact

abbrev count_of : Option Conversation → ℕ
count_of none = 0
count_of (some c) = c.message_count

abbrev last_of : Option Conversation → Option Message
last_of none = none
last_of (some c) = c.last_message

-- `a ?? b` on nullable values
abbrev or_else {ℓ} : {A : Type ℓ} → Option A → Option A → Option A
or_else none b = b
or_else (some a) b = some a

find_contact : Option (List Contact) → String → Option Contact
find_contact none wa_id = none
find_contact (some contacts) wa_id = find (λ c. c.wa_id == wa_id) contacts

on_top : AppState → Message → String → Option Conversation → Conversation
unfolding find_contact
on_top state message id existing = record {
  id = id;
  phone_number_id = message.phone_number_id;
  contact_wa_id = message.contact_wa_id;
  contact = or_else (contact_of existing) (find_contact state.contacts message.contact_wa_id);
  message_count = count_of existing + 1;
  last_message_at = message.timestamp;
  last_message = some message;
}

fold_conversations :
    AppState → Message → String → UpsertKind → List Conversation → List Conversation
unfolding refresh_preview on_top
fold_conversations state message id kind conversations =
    let existing = find_by conversation_key id conversations in
    if is_status kind || is_last (last_of existing) message.id
    then map (refresh_preview message id) conversations
    else on_top state message id existing ∷ remove conversation_key id conversations

unfoldable pub with_conversation_of :
    AppState → Message → String → UpsertKind → Option (List Conversation)
unfolding fold_conversations
with_conversation_of state message id kind =
    Option.map (fold_conversations state message id kind) state.conversations

abbrev drops_typing : UpsertKind → MessageDirection → Bool
drops_typing created outbound = true
drops_typing _ _ = false

abbrev pub merge_loaded :
    Assoc (List Message) → String → Message → Option (List Message) → Assoc (List Message)
merge_loaded messages id message none = messages
merge_loaded messages id message (some loaded) =
    put id (insert_message loaded (merge_into loaded message)) messages

unfoldable pub upsert_message : AppState → Message → UpsertKind → AppState
upsert_message state message kind =
    let id = conversation_id message.phone_number_id message.contact_wa_id in
    record state {
      messages = merge_loaded state.messages id message (get id state.messages);
      conversations = with_conversation_of state message id kind;
      typing =
          if drops_typing kind message.direction
          then without_typing state.typing id
          else state.typing;
    }

abbrev pub is_inbound : MessageDirection → Bool
is_inbound inbound = true
is_inbound outbound = false

unfoldable pub count_unread : AppState → Message → String → Assoc ℕ
count_unread state message id =
    if not (is_inbound message.direction) || same_text (some id) state.active_conversation_id
    then state.unread
    else put id (get_or (get id state.unread) 0 + 1) state.unread

-- `upsertBy`: a new item goes to the front
abbrev pub upsert_by {ℓ} : {A : Type ℓ} → (A → Bool) → A → List A → List A
upsert_by is_match item items = place (find_index? is_match items) item items (item ∷ items)

-- `upsertPhoneNumber` and `upsertInjectionRule`: a new item goes to the end
unfoldable pub upsert_phone_number : List PhoneNumber → PhoneNumber → List PhoneNumber
upsert_phone_number numbers n =
    place (find_index? (has_key number_key n.id) numbers) n numbers (numbers ++ n ∷ [])

unfoldable pub upsert_injection_rule : List InjectionRule → InjectionRule → List InjectionRule
upsert_injection_rule rules rule =
    place (find_index? (has_key rule_key rule.id) rules) rule rules (rules ++ rule ∷ [])

abbrev pub revive : TokenState → TokenState
revive token = record token { expired = false; expired_at = none }

unfoldable pub with_valid_tokens : Option (List TokenState) → Option (List TokenState)
with_valid_tokens tokens = Option.map (map revive) tokens

abbrev pub scope_in : AppState → Scope
scope_in state = record { waba_id = state.waba_id; phone_number_id = state.phone_number_id }

-- The new scope; another number drops the conversation list and the open conversation.
unfoldable pub enter_scope : AppState → Scope → AppState
enter_scope state scope =
    let moved = record state { waba_id = scope.waba_id; phone_number_id = scope.phone_number_id } in
    if same_text scope.phone_number_id state.phone_number_id
    then moved
    else record moved { conversations = none; active_conversation_id = none }

unfoldable pub with_server : AppState → StateResponse → AppState
with_server state server =
    let scope = resolve_scope (some server) (scope_in state) in
    if is_same_scope scope (scope_in state)
    then record state { server = some server }
    else enter_scope (record state { server = some server }) scope

abbrev pub is_deleted : ChangeEvent → Bool
is_deleted ChangeEvent.deleted = true
is_deleted _ = false

rename_waba : Waba → WabaState → WabaState
rename_waba waba w =
    if w.id == waba.id then record w { name = waba.name; subscribed_at = waba.subscribed_at } else w

unfoldable pub change_wabas : List WabaState → Waba → ChangeEvent → List WabaState
unfolding rename_waba
change_wabas wabas waba event =
    if is_deleted event
    then remove waba_key waba.id wabas
    else if any (has_key waba_key waba.id) wabas
    then map (rename_waba waba) wabas
    else wabas
      ++ record {
        id = waba.id;
        name = waba.name;
        subscribed_at = waba.subscribed_at;
        phone_numbers = [];
      }
        ∷ []

unfoldable pub apply_waba_change : AppState → Waba → ChangeEvent → AppState
apply_waba_change state waba event = elim state.server [
  | none ↦ state
  | some server ↦ with_server state (record server { wabas = change_wabas server.wabas waba event })
]

unfoldable pub change_numbers : PhoneNumber → ChangeEvent → WabaState → WabaState
change_numbers n event w =
    if w.id == n.waba_id
    then record w {
      phone_numbers =
          if is_deleted event
          then remove number_key n.id w.phone_numbers
          else upsert_phone_number w.phone_numbers n;
    }
    else w

unfoldable pub apply_phone_number_change : AppState → PhoneNumber → ChangeEvent → AppState
apply_phone_number_change state n event = elim state.server [
  | none ↦ state
  | some server ↦
      with_server state (record server { wabas = map (change_numbers n event) server.wabas })
]
