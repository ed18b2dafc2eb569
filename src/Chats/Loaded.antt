-- ===== src/Chats/Loaded.antt =====
-- packages/web/src/store/reducer.ts: the loaded histories of a client, when a contact moves.
use mathlib.Core.Option
use whaloc.Base.{
  String, List, [], ◌∷◌, true, false, none, some, get_or, inl, inr, ◌≡◌, ◌≢◌, refl, ◌∙◌, ap, subst,
  arith, ◌==◌, if◌then◌else◌, is_some, map, All, Assoc, AllEntries, find_by-map, Bool-cases,
}
use whaloc.Shared.Entities.{Contact, Message}
use whaloc.Shared.Conversation.{conversation_id}
use whaloc.Shared.Conversation.Laws.{NoColon, parse_conversation_id-conversation_id}
use whaloc.MessageTable.{row_id, find_row}
use whaloc.Contacts.{find_contact}
use whaloc.Contacts
use whaloc.Store.Moved.{moved_id, move_history, move_message}

-- a row of the server in the conversation of two parts
abbrev pub IsRow : List Message → String → String → Message → Type 0
IsRow table p k m = (find_row m.id table ≡ some m) × (m.phone_number_id ≡ p) × (m.contact_wa_id ≡ k)

-- a history that is loaded under an id: the id is that of a conversation with a contact of the
-- server, and each message is the server's row in that conversation
pub record IsLoaded (contacts : List Contact) (table : List Message) (id : String)
    (ms : List Message) : Type 0 where
  pub phone_number_id : String
  pub wa_id : String
  pub here : conversation_id phone_number_id wa_id ≡ id
  pub no_colon : NoColon phone_number_id
  pub some_number : phone_number_id ≢ ""
  pub some_wa_id : wa_id ≢ ""
  pub owner : is_some (find_contact wa_id contacts) ≡ true
  pub rows : All (IsRow table phone_number_id wa_id) ms

-- where a conversation of two plain parts goes
pub moved_id-conversation_id :
    (contact : Contact) (previous p w : String)
    → NoColon p
    → p ≢ ""
    → w ≢ ""
    → moved_id contact previous (conversation_id p w)
      ≡ (if w == previous then some (conversation_id p contact.wa_id) else none)
unfolding moved_id
moved_id-conversation_id contact previous p w no_colon hp hw =
    rw (parse_conversation_id-conversation_id p w no_colon hp hw) refl

abbrev pub renumber : String → Message → Message
renumber next m = record m { contact_wa_id = next }

-- the messages of a contact under a new number
abbrev pub renumbered : String → List Message → List Message
renumbered next ms = map (renumber next) ms

pub moved_rows :
    (w p k : String) (moved : Contact) (table : List Message) (ms : List Message)
    → All (IsRow table p k) ms
    → (map (move_message moved w) ms ≡ (if k == w then renumbered moved.wa_id ms else ms))
      × All
          (IsRow
            (map (Contacts.move_message w moved.wa_id) table)
            p
            (if k == w then moved.wa_id else k))
          (map (move_message moved w) ms)
unfolding move_message
moved_rows w p k moved table [] h = (ground arith, tt)
moved_rows w p k moved table (m ∷ ms) ((row, number, contact), h) =
    let (list, rest) = moved_rows w p k moved table ms h in
    let found : find_row m.id (map (Contacts.move_message w moved.wa_id) table)
        ≡ some (Contacts.move_message w moved.wa_id m) =
      find_by-map row_id (Contacts.move_message w moved.wa_id) (λ n. ground arith) m.id table
      ∙ ap (Option.map (Contacts.move_message w moved.wa_id)) row in
    elim (Bool-cases (k == w)) [
      | inl theirs ↦
          let mine : (m.contact_wa_id == w) ≡ true = rw contact theirs in
          rw (theirs, mine)
            (
              ap (λ ms. renumber moved.wa_id m ∷ ms) (rw theirs at list),
              ((rw mine at found, number, refl), rest),
            )
      | inr other ↦
          let away : (m.contact_wa_id == w) ≡ false = rw contact other in
          rw (other, away)
            (ap (λ ms. m ∷ ms) (rw other at list), ((rw away at found, number, contact), rest))
    ]

-- a history that is loaded goes where its conversation goes
moved-IsLoaded :
    (w : String) (moved : Contact) (contacts contacts' : List Contact) (table : List Message)
    (id : String) (ms : List Message)
    → moved.wa_id ≢ ""
    → is_some (find_contact moved.wa_id contacts') ≡ true
    → ((k : String)
        → (k == w) ≡ false
        → is_some (find_contact k contacts) ≡ true
        → is_some (find_contact k contacts') ≡ true)
    → IsLoaded contacts table id ms
    → IsLoaded contacts'
        (map (Contacts.move_message w moved.wa_id) table)
        (get_or (moved_id moved w id) id)
        (map (move_message moved w) ms)
moved-IsLoaded w moved contacts contacts' table id ms plain there kept h =
    let p = h.phone_number_id in
    let k = h.wa_id in
    let (_, rows) = moved_rows w p k moved table ms h.rows in
    let goes = moved_id-conversation_id moved w p k h.no_colon h.some_number h.some_wa_id in
    elim (Bool-cases (k == w)) [
      | inl theirs ↦ record {
        phone_number_id = p;
        wa_id = moved.wa_id;
        here =
            subst (λ i. conversation_id p moved.wa_id ≡ get_or (moved_id moved w i) i) h.here
              (rw (goes, theirs) refl);
        no_colon = h.no_colon;
        some_number = h.some_number;
        some_wa_id = plain;
        owner = there;
        rows = rw theirs at rows;
      }
      | inr other ↦ record {
        phone_number_id = p;
        wa_id = k;
        here =
            subst (λ i. conversation_id p k ≡ get_or (moved_id moved w i) i) h.here
              (rw (goes, other) refl);
        no_colon = h.no_colon;
        some_number = h.some_number;
        some_wa_id = h.some_wa_id;
        owner = kept k other h.owner;
        rows = rw other at rows;
      }
    ]

pub moved_entries :
    (w : String) (moved : Contact) (contacts contacts' : List Contact) (table : List Message)
    (entries : Assoc (List Message))
    → moved.wa_id ≢ ""
    → is_some (find_contact moved.wa_id contacts') ≡ true
    → ((k : String)
        → (k == w) ≡ false
        → is_some (find_contact k contacts) ≡ true
        → is_some (find_contact k contacts') ≡ true)
    → AllEntries (IsLoaded contacts table) entries
    → AllEntries
        (IsLoaded contacts' (map (Contacts.move_message w moved.wa_id) table))
        (map (move_history moved w) entries)
moved_entries w moved contacts contacts' table [] plain there kept h = tt
moved_entries w moved contacts contacts' table ((id, ms) ∷ entries) plain there kept (here, h) = (
  moved-IsLoaded w moved contacts contacts' table id ms plain there kept here,
  moved_entries w moved contacts contacts' table entries plain there kept h,
)
