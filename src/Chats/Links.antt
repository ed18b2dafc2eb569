-- ===== src/Chats/Links.antt =====
-- packages/server/src/domain/contact-service.ts and message-service.ts: every message has its
-- contact.
use whaloc.Base.{
  String, List, [], ◌∷◌, ◌++◌, Bool, true, false, none, some, inl, inr, ◌≡◌, refl, ◌∙◌, subst,
  arith, ◌==◌, if◌then◌else◌, is_some, map, All, All-map, IsDistinct, Bool-cases, Option-cases,
  eq→path, eq_comm, eq_refl, find_by-append, find_by-remove, map-IsDistinct,
}
use whaloc.Shared.Entities.{Contact, Message}
use whaloc.MessageTable.{row_id}
use whaloc.Contacts.{wa_id_of, find_contact, others_of, moved_contact, move_message}
use whaloc.Contacts.Keys.{HasKeys, change-HasKeys}
use whaloc.Chats.{Chats, NumberChange}
use whaloc.Chats.Moves.{Moves}

abbrev pub has_contact : List Contact → Message → Bool
has_contact contacts m = is_some (find_contact m.contact_wa_id contacts)

abbrev pub HasOwners : List Contact → List Message → Type 0
HasOwners contacts messages = All (λ m. has_contact contacts m ≡ true) messages

-- the keys of both tables are distinct, and the contact of each message is there
pub record IsLinked (contacts : List Contact) (messages : List Message) : Type 0 where
  pub keys : HasKeys contacts
  pub ids : IsDistinct row_id messages
  pub owners : HasOwners contacts messages

-- who had a contact has one
pub keep-HasOwners :
    (contacts contacts' : List Contact) (messages : List Message)
    → ((k : String)
        → is_some (find_contact k contacts) ≡ true
        → is_some (find_contact k contacts') ≡ true)
    → HasOwners contacts messages
    → HasOwners contacts' messages
keep-HasOwners contacts contacts' messages kept owners =
    All-map _ _ (λ m h. kept m.contact_wa_id h) messages owners

pub append-keeps :
    (contacts : List Contact) (row : Contact) (k : String)
    → is_some (find_contact k contacts) ≡ true
    → is_some (find_contact k (contacts ++ row ∷ [])) ≡ true
append-keeps contacts row k h =
    rw (find_by-append wa_id_of k contacts row) (elim (Option-cases (find_contact k contacts)) [
      | inl gone ↦ absurd (cc (rw gone at h))
      | inr (e, found) ↦ rw found refl
    ])

-- the table of contacts after a move, by number
pub find_contact-move :
    (k w : String) (contacts : List Contact) (moved : Contact)
    → (moved.wa_id == w) ≡ false
    → find_contact moved.wa_id contacts ≡ none
    → find_contact k (others_of w contacts ++ moved ∷ [])
      ≡ (if moved.wa_id == k then some moved else if w == k then none else find_contact k contacts)
find_contact-move k w contacts moved other free =
    rw
      (find_by-append wa_id_of k (others_of w contacts) moved, find_by-remove wa_id_of w k contacts)
      (elim (Bool-cases (moved.wa_id == k)) [
        | inl here ↦
            let new = subst (λ j. find_contact j contacts ≡ none) (eq→path here) free in
            let away : (w == k) ≡ false =
              eq_comm w k ∙ subst (λ j. (j == w) ≡ false) (eq→path here) other in
            rw (away, new) (ground (arith, here))
        | inr there ↦ ground (arith, there)
      ])

move-HasOwners :
    (w next : String) (contacts contacts' : List Contact) (messages : List Message)
    → is_some (find_contact next contacts') ≡ true
    → ((k : String)
        → (w == k) ≡ false
        → is_some (find_contact k contacts) ≡ true
        → is_some (find_contact k contacts') ≡ true)
    → HasOwners contacts messages
    → HasOwners contacts' (map (move_message w next) messages)
move-HasOwners w next contacts contacts' [] there kept owners = tt
move-HasOwners w next contacts contacts' (m ∷ ms) there kept (owner, owners) = (
  elim (Bool-cases (m.contact_wa_id == w)) [
    | inl theirs ↦ rw theirs there
    | inr other ↦ rw other (kept m.contact_wa_id (eq_comm w m.contact_wa_id ∙ other) owner)
  ],
  move-HasOwners w next contacts contacts' ms there kept owners,
)

pub Moves-IsLinked :
    {now w : String} {request : NumberChange} {c c' : Chats} {moved : Contact}
    → Moves now w request c c' moved
    → IsLinked c.contacts c.ladder.messages
    → IsLinked c'.contacts c'.ladder.messages
Moves-IsLinked {now} {w} {request} {c} {c'} {moved} h linked =
    let next = request.wa_id in
    let row : moved ≡ moved_contact now next h.before = h.row in
    let lookup : (k : String)
        → find_contact k (others_of w c.contacts ++ moved ∷ [])
          ≡ (if next == k then some moved else if w == k then none else find_contact k c.contacts) =
      λ k.
        rw row
          (find_contact-move k w c.contacts (moved_contact now next h.before) h.other h.free) in
    rw (h.contacts, h.messages)
      (record {
        keys = rw row (change-HasKeys now w next c.contacts h.before linked.keys h.found h.free);
        ids =
            map-IsDistinct row_id (move_message w next) (λ m. ground arith) c.ladder.messages
              linked.ids;
        owners =
            move-HasOwners w next c.contacts (others_of w c.contacts ++ moved ∷ [])
              c.ladder.messages (rw (lookup next, eq_refl next) refl)
              (λ k away held.
                rw (lookup k, away)
                  (elim (Bool-cases (next == k)) [
                    | inl at_next ↦ rw at_next refl
                    | inr not_next ↦ rw not_next held
                  ]))
              linked.owners;
      })
