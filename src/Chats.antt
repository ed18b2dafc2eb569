-- ===== src/Chats.antt =====
-- packages/server/src/domain/contact-service.ts: contacts as the control plane manages them, on the
-- tables that a send writes too.
pub mod Recipients
pub mod Requests
pub mod Sends
pub mod Moves
pub mod Links
pub mod History
pub mod Calls
pub mod Sending
pub mod Accepted
pub mod Stored
pub mod Loaded
pub mod LoadedIds
pub mod Mirroring
pub mod Client
pub mod Steps
mod Tests
use Prim.Native.String.{◌++◌ as ◌++ˢ◌}
use whaloc.Base.{
  String, List, [], ◌∷◌, ◌++◌, Bool, true, not, Option, none, some, ◌⊎◌, inr, ℕ, ◌+◌, ◌==◌,
  if◌then◌else◌, is_some, require, or_raise, raise, ◌>>=◌, ◌>>◌, get_or,
}
use whaloc.Shared.Entities.{Contact, Message, Template}
use whaloc.Failure.{Failure}
use whaloc.ControlPlaneError.{control_not_found, control_bad_request, control_conflict}
use whaloc.Database.PhoneNumbers.{PhoneNumberRow, PhoneNumberRecord, find_by_id}
use whaloc.MessageTable.Conversations.{ConversationSummary, list_conversations}
use whaloc.StatusLadder.{Ladder}
use whaloc.Contacts.{
  InsertContactInput, UpdateContactInput, find_contact, find_by_user_id, insert_contact,
  update_contact, change_wa_id,
}

-- What the contact service announces: an event to the control plane with the number that the
-- contact left, and a webhook job, here the parts that its payload is built of.
pub data Notice : Type 0 where
  contact_changed : Contact → Option String → Notice
  number_changed : PhoneNumberRecord → Contact → String → String → ℕ → Notice

-- the messages are those of the ladder
pub record Chats : Type 0 where
  pub phone_numbers : List PhoneNumberRow
  pub templates : List Template
  pub contacts : List Contact
  pub ladder : Ladder
  pub notices : List Notice

pub record ContactCreateRequest : Type 0 where
  pub wa_id : String
  pub profile_name : String
  pub user_id : Option String

pub record ContactUpdateRequest : Type 0 where
  pub profile_name : Option String
  pub user_id : Option (Option String)

abbrev pub insert_input : ContactCreateRequest → InsertContactInput
insert_input request = record {
  wa_id = request.wa_id;
  profile_name = request.profile_name;
  user_id = request.user_id;
  created_at = none;
}

abbrev pub update_input : ContactUpdateRequest → UpdateContactInput
update_input request = record {
  profile_name = request.profile_name;
  user_id = request.user_id;
  updated_at = none;
}

-- `ContactNumberChangeRequest`
pub record NumberChange : Type 0 where
  pub wa_id : String
  pub phone_number_id : Option String

abbrev notify : List Notice → Chats → Chats
notify notices c = record c { notices = c.notices ++ notices }

-- the owner of a user id that is not the contact itself
abbrev is_other : Option String → Contact → Bool
is_other none owner = true
is_other (some wa_id) owner = not (owner.wa_id == wa_id)

abbrev assert_owner : String → Option String → Option Contact → Failure ⊎ Unit {0}
assert_owner user_id wa_id none = inr tt
assert_owner user_id wa_id (some owner) = require (not (is_other wa_id owner)) (
    Failure.control (
      control_conflict
        ("the business-scoped user id " ++ˢ user_id ++ˢ " belongs to contact " ++ˢ owner.wa_id)
        (some "user_id_taken")))

unfoldable pub assert_user_id_is_free :
    Option String → Option String → List Contact → Failure ⊎ Unit {0}
assert_user_id_is_free none wa_id contacts = inr tt
assert_user_id_is_free (some user_id) wa_id contacts =
    assert_owner user_id wa_id (find_by_user_id user_id contacts)

abbrev contact_exists : String → Failure
contact_exists wa_id = Failure.control (
    control_conflict ("a contact with wa_id " ++ˢ wa_id ++ˢ " already exists")
      (some "contact_exists"))

unfoldable pub create : String → ContactCreateRequest → Chats → Failure ⊎ (Chats × Contact)
unfolding assert_user_id_is_free insert_contact
create now request c = do
  require (not (is_some (find_contact request.wa_id c.contacts))) (contact_exists request.wa_id)
  assert_user_id_is_free request.user_id none c.contacts
  (contacts, contact) ←
      or_raise (insert_contact now (insert_input request) c.contacts) Failure.constraint
  inr (
    notify (Notice.contact_changed contact none ∷ []) (record c { contacts = contacts }),
    contact,
  )

abbrev pub announce_update : Option Contact → Chats → Chats × Option Contact
announce_update none c = (c, none)
announce_update (some contact) c =
    (notify (Notice.contact_changed contact none ∷ []) c, some contact)

abbrev update_found :
    String
    → String
    → ContactUpdateRequest
    → Chats
    → Option Contact
    → Failure ⊎ (Chats × Option Contact)
update_found now wa_id request c none = inr (c, none)
update_found now wa_id request c (some found) = do
  assert_user_id_is_free (get_or request.user_id none) (some wa_id) c.contacts
  (contacts, contact) ←
      or_raise (update_contact now wa_id (update_input request) c.contacts) Failure.constraint
  inr (announce_update contact (record c { contacts = contacts }))

unfoldable pub update :
    String → String → ContactUpdateRequest → Chats → Failure ⊎ (Chats × Option Contact)
unfolding assert_user_id_is_free update_contact
update now wa_id request c = update_found now wa_id request c (find_contact wa_id c.contacts)

abbrev add_target :
    Bool → Option PhoneNumberRecord → List PhoneNumberRecord → List PhoneNumberRecord
add_target b none targets = targets
add_target b (some number) targets = if b then number ∷ targets else targets

abbrev pub targets_in :
    String → List PhoneNumberRow → List ConversationSummary → List PhoneNumberRecord
targets_in wa_id numbers [] = []
targets_in wa_id numbers (s ∷ ss) =
    add_target (s.contact_wa_id == wa_id) (find_by_id s.phone_number_id numbers)
      (targets_in wa_id numbers ss)

unfoldable pub targets_of : String → Option String → Chats → Failure ⊎ List PhoneNumberRecord
unfolding list_conversations find_by_id
targets_of wa_id none c =
    inr (targets_in wa_id c.phone_numbers (list_conversations none c.ladder.messages))
targets_of wa_id (some id) c = do
  number ← or_raise (find_by_id id c.phone_numbers) (
      Failure.control
        (control_not_found ("no phone number with id " ++ˢ id) (some "unknown_phone_number")))
  inr (number ∷ [])

-- `wamid` gives the ids that `createWamid` draws, in their order.
abbrev pub number_changes :
    (ℕ → String → String) → ℕ → ℕ → Contact → String → List PhoneNumberRecord → List Notice
number_changes wamid now n contact previous [] = []
number_changes wamid now n contact previous (number ∷ numbers) =
    Notice.number_changed number contact previous (wamid n previous) now
    ∷ number_changes wamid now (n + 1) contact previous numbers

-- the tables after a move, which found the contact; `none` cannot be, as it was read before
abbrev announce_move :
    (ℕ → String → String)
    → ℕ
    → String
    → List PhoneNumberRecord
    → Chats
    → Option Contact
    → Failure ⊎ (Chats × Contact)
announce_move wamid now previous targets c none = raise Failure.constraint
announce_move wamid now previous targets c (some moved) = inr (
  notify
      (Notice.contact_changed moved (some previous)
        ∷ number_changes wamid now 0 moved previous targets)
      c,
  moved,
)

-- what follows the checks
unfoldable pub write_move :
    (ℕ → String)
    → (ℕ → String → String)
    → ℕ
    → String
    → String
    → List PhoneNumberRecord
    → Chats
    → Failure ⊎ (Chats × Contact)
unfolding change_wa_id
write_move iso wamid now wa_id next targets c = do
  (contacts, messages, moved) ←
      or_raise (change_wa_id (iso now) wa_id next c.contacts c.ladder.messages) Failure.constraint
  announce_move wamid now wa_id targets
      (record c { contacts = contacts; ladder = record (c.ladder) { messages = messages } }) moved

unfoldable pub change_number :
    (ℕ → String)
    → (ℕ → String → String)
    → ℕ
    → String
    → NumberChange
    → Chats
    → Failure ⊎ (Chats × Contact)
unfolding targets_of write_move
change_number iso wamid now wa_id request c = do
  contact ← or_raise (find_contact wa_id c.contacts) (
      Failure.control
        (control_not_found ("no contact with wa_id " ++ˢ wa_id) (some "unknown_contact")))
  require (not (request.wa_id == wa_id)) (
      Failure.control (
        control_bad_request ("contact " ++ˢ wa_id ++ˢ " is already on that number")
          (some "unchanged_number")))
  require (not (is_some (find_contact request.wa_id c.contacts))) (contact_exists request.wa_id)
  targets ← targets_of wa_id request.phone_number_id c
  write_move iso wamid now wa_id request.wa_id targets c
