-- ===== src/Chats/History.antt =====
-- packages/server/src/domain/contact-service.ts: what a number change does to the conversations.
use whaloc.Base.{
  String, List, [], ◌∷◌, true, false, none, some, inl, inr, ℕ, ◌≡◌, subst, arith, ◌==◌,
  if◌then◌else◌, is_some, map, filter, All, All-map, Bool-cases, eq_iff, eq→path,
}
use whaloc.Shared.Entities.{Contact, Message}
use whaloc.MessageTable.Conversations.{is_in}
use whaloc.Contacts.{find_contact, moved_contact, move_message}
use whaloc.Chats.{Chats, NumberChange, change_number}
use whaloc.Chats.Moves.{change_number-Moves}
use whaloc.Chats.Links.{IsLinked, HasOwners, has_contact, find_contact-move}

abbrev pub history : String → String → Chats → List Message
history phone_number_id wa_id c = filter (is_in phone_number_id wa_id) c.ladder.messages

-- a number without a contact has no messages
no_messages :
    (next : String) (contacts : List Contact) (messages : List Message)
    → find_contact next contacts ≡ none
    → HasOwners contacts messages
    → All (λ m. (m.contact_wa_id == next) ≡ false) messages
no_messages next contacts messages free owners =
    All-map (λ m. has_contact contacts m ≡ true) (λ m. (m.contact_wa_id == next) ≡ false)
      (λ m owner. elim (Bool-cases (m.contact_wa_id == next)) [
        | inr other ↦ other
        | inl same ↦ absurd (
            cc (
              rw free at
                (subst (λ k. is_some (find_contact k contacts) ≡ true) (eq→path same) owner)))
      ])
      messages owners

history-move_message :
    (p w next k : String) (messages : List Message)
    → All (λ m. (m.contact_wa_id == next) ≡ false) messages
    → filter (is_in p k) (map (move_message w next) messages) ≡ (
        if next == k
        then map (move_message w next) (filter (is_in p w) messages)
        else if w == k
        then []
        else filter (is_in p k) messages)
history-move_message p w next k [] h = ground arith
history-move_message p w next k (m ∷ ms) (other, h) = ground (
  arith,
  other,
  history-move_message p w next k ms h,
  eq_iff m.contact_wa_id w,
  eq_iff m.contact_wa_id k,
  eq_iff m.contact_wa_id next,
  eq_iff next k,
  eq_iff w k,
)

-- Where every message has its contact and keys are distinct, a number change that is not refused
-- moves the conversations: with each business number, the new number has the messages that the old
-- one had, in their order and under the new number, the old number has none, and no other
-- conversation changes. The contact is found under the new number and no longer under the old one,
-- with the name, user id and time of creation that it had; no other contact changes.
pub change_number-history :
    (iso : ℕ → String) (wamid : ℕ → String → String) (now : ℕ) (w : String) (request : NumberChange)
    (c c' : Chats) (moved : Contact)
    → IsLinked c.contacts c.ladder.messages
    → change_number iso wamid now w request c ≡ inr (c', moved)
    → ((p k : String)
        → history p k c' ≡ (
            if request.wa_id == k
            then map (move_message w request.wa_id) (history p w c)
            else if w == k
            then []
            else history p k c))
      × ((k : String)
          → find_contact k c'.contacts ≡ (
              if request.wa_id == k
              then some moved
              else if w == k
              then none
              else find_contact k c.contacts))
      × ((before : Contact) × (find_contact w c.contacts ≡ some before)
          × (moved ≡ record before { wa_id = request.wa_id; updated_at = iso now }))
change_number-history iso wamid now w request c c' moved linked e =
    let h = change_number-Moves iso wamid now w request c c' moved e in
    let next = request.wa_id in
    (
      λ p k. rw h.messages (
          history-move_message p w next k c.ladder.messages
            (no_messages next c.contacts c.ladder.messages h.free linked.owners)),
      λ k.
          rw (h.contacts, h.row)
            (find_contact-move k w c.contacts (moved_contact (iso now) next h.before) h.other
              h.free),
      (h.before, h.found, h.row),
    )
