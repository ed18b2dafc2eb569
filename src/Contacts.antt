-- ===== src/Contacts.antt =====
-- packages/server/src/db/repositories/contact-repository.ts: the table of contacts, with the keys of
-- the schema. A row is kept as the record that it decodes to, the shared Contact.
pub mod Keys
use whaloc.Base.{
  String, List, [], ◌∷◌, ◌++◌, Bool, true, false, not, ◌&&◌, ◌||◌, Option, none, some, get_or, ◌==◌,
  if◌then◌else◌, is_some, same_text, find, find_by, remove, filter, any, map,
}
use whaloc.Shared.Entities.{Contact, Message}
use whaloc.Database.{order_by_creation}

pub record InsertContactInput : Type 0 where
  pub wa_id : String
  pub profile_name : String
  pub user_id : Option String
  pub created_at : Option String

-- a user id that is `some none` is cleared
pub record UpdateContactInput : Type 0 where
  pub profile_name : Option String
  pub user_id : Option (Option String)
  pub updated_at : Option String

abbrev pub wa_id_of : Contact → String
wa_id_of c = c.wa_id

abbrev pub find_contact : String → List Contact → Option Contact
find_contact wa_id table = find_by wa_id_of wa_id table

abbrev pub has_user_id : String → Contact → Bool
has_user_id user_id c = same_text c.user_id (some user_id)

abbrev pub find_by_user_id : String → List Contact → Option Contact
find_by_user_id user_id table = find (has_user_id user_id) table

-- the unique index on user ids: null is different from null
abbrev pub is_held : Option String → List Contact → Bool
is_held none table = false
is_held (some user_id) table = any (has_user_id user_id) table

abbrev pub new_contact : String → InsertContactInput → Contact
new_contact now input =
    let timestamp = get_or input.created_at now in
    record {
      wa_id = input.wa_id;
      profile_name = input.profile_name;
      user_id = input.user_id;
      created_at = timestamp;
      updated_at = timestamp;
    }

-- `none` is a key that is taken
unfoldable pub insert_contact :
    String → InsertContactInput → List Contact → Option (List Contact × Contact)
insert_contact now input table =
    if is_some (find_contact input.wa_id table) || is_held input.user_id table
    then none
    else (let row = new_contact now input in some (table ++ row ∷ [], row))

unfoldable pub list_contacts : List Contact → List Contact
list_contacts table = order_by_creation (λ c. c.created_at) wa_id_of table

abbrev pub patched_contact : String → UpdateContactInput → Contact → Contact
patched_contact now input c = record c {
  profile_name = get_or input.profile_name c.profile_name;
  user_id = get_or input.user_id c.user_id;
  updated_at = get_or input.updated_at now;
}

abbrev pub write_contact : String → String → UpdateContactInput → Contact → Contact
write_contact now wa_id input c = if c.wa_id == wa_id then patched_contact now input c else c

abbrev pub others_of : String → List Contact → List Contact
others_of wa_id table = remove wa_id_of wa_id table

-- a user id that another contact has, for a contact that is there
abbrev pub is_refused : String → UpdateContactInput → List Contact → Bool
is_refused wa_id input table =
    is_some (find_contact wa_id table)
    && is_held (get_or input.user_id none) (others_of wa_id table)

-- `none` is an update that the unique index refuses
unfoldable pub update_contact :
    String → String → UpdateContactInput → List Contact → Option (List Contact × Option Contact)
update_contact now wa_id input table =
    if not (is_some input.profile_name) && not (is_some input.user_id)
    then some (table, find_contact wa_id table)
    else if is_refused wa_id input table
    then none
    else (let table' = map (write_contact now wa_id input) table in
        some (table', find_contact wa_id table'))

abbrev pub moved_contact : String → String → Contact → Contact
moved_contact now next c = record c { wa_id = next; updated_at = now }

abbrev pub move_message : String → String → Message → Message
move_message wa_id next m =
    if m.contact_wa_id == wa_id then record m { contact_wa_id = next } else m

-- `changeWaId`, one transaction at `now`, which is its `updatedAt` where one is given; `none` is a
-- new key that is taken
unfoldable pub change_wa_id :
    String
    → String
    → String
    → List Contact
    → List Message
    → Option (List Contact × List Message × Option Contact)
change_wa_id now wa_id next contacts messages = elim (find_contact wa_id contacts) [
  | none ↦ some (contacts, messages, none)
  | some existing ↦
      if is_some (find_contact next contacts)
      then none
      else (let row = moved_contact now next existing in
          some (
            others_of wa_id contacts ++ row ∷ [],
            map (move_message wa_id next) messages,
            some row,
          ))
]
