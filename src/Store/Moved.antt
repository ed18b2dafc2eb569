-- ===== src/Store/Moved.antt =====
-- packages/web/src/store/reducer.ts: a contact that moved to a new number.
use mathlib.Core.Option
use whaloc.Base.{
  String, List, Option, none, some, get_or, map, ◌==◌, not, filter, if◌then◌else◌, Assoc,
  from_entries,
}
use whaloc.Shared.Entities.{Message, Contact, Conversation}
use whaloc.Shared.Conversation.{conversation_id, parse_conversation_id}
use whaloc.Store.State.{AppState}
use whaloc.Store.Fold.{upsert_by}

moved_parts : Contact → String → Option (String × String) → Option String
moved_parts contact previous none = none
moved_parts contact previous (some (phone_number_id, contact_wa_id)) =
    if contact_wa_id == previous then some (conversation_id phone_number_id contact.wa_id) else none

-- where a conversation goes, if it is one of the contact's
unfoldable pub moved_id : Contact → String → String → Option String
unfolding moved_parts
moved_id contact previous id = moved_parts contact previous (parse_conversation_id id)

abbrev pub re_key {ℓ} : {V : Type ℓ} → (String → Option String) → String × V → String × V
re_key moved (id, v) = (get_or (moved id) id, v)

unfoldable pub re_key_by {ℓ} : {V : Type ℓ} → Assoc V → (String → Option String) → Assoc V
re_key_by entries moved = from_entries (map (re_key moved) entries)

unfoldable pub move_message : Contact → String → Message → Message
move_message contact previous m =
    if m.contact_wa_id == previous then record m { contact_wa_id = contact.wa_id } else m

abbrev pub move_history : Contact → String → String × List Message → String × List Message
move_history contact previous (id, loaded) =
    (get_or (moved_id contact previous id) id, map (move_message contact previous) loaded)

move_conversation : Contact → String → Conversation → Conversation
move_conversation contact previous c = elim (moved_id contact previous c.id) [
  | none ↦ c
  | some moved ↦ record c { id = moved; contact_wa_id = contact.wa_id; contact = some contact }
]

-- an open conversation that moves is followed
unfoldable pub follow : Contact → String → Option String → AppState → AppState
follow contact previous none state = state
follow contact previous (some active) state = elim (moved_id contact previous active) [
  | none ↦ state
  | some target ↦ record state {
    active_conversation_id = some target;
    conversation_moved = some (record { source = active; target = target });
  }
]

unfoldable pub with_moved_contact : AppState → Contact → String → AppState
unfolding move_message move_conversation follow
with_moved_contact state contact previous =
    let moved = moved_id contact previous in
    let known = Option.map (filter (λ c. not (c.wa_id == previous))) state.contacts in
    follow contact previous state.active_conversation_id (record state {
      contacts = Option.map (upsert_by (λ c. c.wa_id == contact.wa_id) contact) known;
      conversations = Option.map (map (move_conversation contact previous)) state.conversations;
      messages = from_entries (map (move_history contact previous) state.messages);
      messages_before = re_key_by state.messages_before moved;
      unread = re_key_by state.unread moved;
      typing = re_key_by state.typing moved;
    })
