-- ===== src/Chats/Calls.antt =====
-- packages/server/src/domain/contact-service.ts, message-service.ts and status-ladder.ts on the same
-- tables: each call keeps them linked.
use whaloc.Base.{
  String, List, true, not, Option, none, some, inl, inr, ◌≡◌, subst, arith, is_some, get_or,
  All-map, All-map_of, Option-cases, require, or_raise, >>=-returns, or_raise-returns,
  inr_injective, map-IsDistinct,
}
use whaloc.Shared.Entities.{Contact, Message}
use whaloc.Failure.{Failure}
use whaloc.MessageTable.{StatusInput, row_id, write_status}
use whaloc.StatusLadder.Writes.{Writes}
use whaloc.Contacts.{InsertContactInput, find_contact, new_contact, insert_contact, update_contact}
use whaloc.Contacts.Keys.{insert_contact-returns, insert_contact-HasKeys, update_contact-HasKeys}
use whaloc.Chats.{
  ContactCreateRequest, ContactUpdateRequest, insert_input, update_input, Chats, create, update,
  assert_user_id_is_free, announce_update,
}
use whaloc.Chats.Links.{IsLinked, has_contact, keep-HasOwners, append-keeps}

abbrev pub IsLinkedIn : Chats → Type 0
IsLinkedIn c = IsLinked c.contacts c.ladder.messages

-- a contact more
pub insert-IsLinked :
    (now : String) (input : InsertContactInput) (contacts : List Contact) (messages : List Message)
    {out : List Contact × Contact}
    → IsLinked contacts messages
    → insert_contact now input contacts ≡ some out
    → IsLinked out.0 messages
insert-IsLinked now input contacts messages {out} linked h =
    let (same, _, _) = insert_contact-returns now input contacts h in
    record {
      keys = insert_contact-HasKeys now input contacts linked.keys h;
      ids = linked.ids;
      owners =
          keep-HasOwners contacts out.0 messages
            (λ k there. rw same (append-keeps contacts (new_contact now input) k there))
            linked.owners;
    }

pub create-IsLinked :
    (now : String) (request : ContactCreateRequest) (c c' : Chats) (contact : Contact)
    → create now request c ≡ inr (c', contact)
    → IsLinkedIn c
    → IsLinkedIn c'
unfolding create
create-IsLinked now request c c' contact h linked =
    let (_, _, h1) =
      >>=-returns (require (not (is_some (find_contact request.wa_id c.contacts))) _) _ h in
    let (_, _, h2) = >>=-returns (assert_user_id_is_free request.user_id none c.contacts) _ h1 in
    let (out, wrote, h3) =
      >>=-returns
        (or_raise (insert_contact now (insert_input request) c.contacts) Failure.constraint) _ h2 in
    subst (λ o. IsLinkedIn o.0) (inr_injective h3)
      (insert-IsLinked now (insert_input request) c.contacts c.ladder.messages linked
        (or_raise-returns _ _ wrote))

announced-IsLinked :
    (contact : Option Contact) (c : Chats) → IsLinkedIn c → IsLinkedIn (announce_update contact c).0
announced-IsLinked none c linked = linked
announced-IsLinked (some contact) c linked = linked

pub update-IsLinked :
    (now w : String) (request : ContactUpdateRequest) (c c' : Chats) (contact : Option Contact)
    → update now w request c ≡ inr (c', contact)
    → IsLinkedIn c
    → IsLinkedIn c'
unfolding update
update-IsLinked now w request c c' contact h linked =
    elim (Option-cases (find_contact w c.contacts)) [
      | inl absent ↦ subst (λ o. IsLinkedIn o.0) (inr_injective (rw (update, absent) at h)) linked
      | inr (e, found) ↦
          let (_, _, h1) =
            >>=-returns (assert_user_id_is_free (get_or request.user_id none) (some w) c.contacts) _
              (rw (update, found) at h) in
          let (out, wrote, h2) =
            >>=-returns
              (or_raise (update_contact now w (update_input request) c.contacts) Failure.constraint)
              _ h1 in
          let (keys, same) =
            update_contact-HasKeys now w (update_input request) c.contacts linked.keys
              (or_raise-returns _ _ wrote) in
          subst (λ o. IsLinkedIn o.0) (inr_injective h2)
            (announced-IsLinked out.1 (record c { contacts = out.0 })
              (record {
                keys = keys;
                ids = linked.ids;
                owners =
                    keep-HasOwners c.contacts out.0 c.ladder.messages (λ k there. rw (same k) there)
                      linked.owners;
              }))
    ]

write_status-contact :
    (now id : String) (input : StatusInput) (m : Message)
    → (write_status now id input m).contact_wa_id ≡ m.contact_wa_id
write_status-contact now id input m = ground arith

pub Writes-IsLinked :
    (contacts : List Contact) (messages messages' : List Message)
    → Writes messages messages'
    → IsLinked contacts messages
    → IsLinked contacts messages'
Writes-IsLinked contacts messages messages' (inl same) linked = rw same linked
Writes-IsLinked contacts messages messages' (inr (now, id, input, same)) linked = rw same (record {
  keys = linked.keys;
  ids = map-IsDistinct row_id (write_status now id input) (λ m. ground arith) messages linked.ids;
  owners =
      All-map_of (λ m. has_contact contacts m ≡ true) (write_status now id input) messages
        (All-map (λ m. has_contact contacts m ≡ true) _
          (λ m owner. rw (write_status-contact now id input m) owner) messages linked.owners);
})
