-- ===== src/Chats/Sending.antt =====
-- packages/server/src/domain/message-service.ts: a send keeps the tables linked.
use whaloc.Base.{
  String, List, [], ◌∷◌, ◌++◌, true, none, some, if◌then◌else◌, ◌==◌, eq_refl, eq→path,
  find_by-append, ◌⊎◌, inl, inr, ℕ, ◌≡◌, refl, Bool-cases, sym, ap, subst, is_some, All-append,
  Option-cases, append-IsDistinct,
}
use whaloc.Shared.Entities.{Contact, Message, StatusDelays}
use whaloc.Failure.{Failure}
use whaloc.MessageTable.{row_id, find_row, insert_row, new_row}
use whaloc.StatusLadder.{on_outbound_accepted, schedule, cancel}
use whaloc.Contacts.{InsertContactInput, wa_id_of, find_contact, new_contact, insert_contact}
use whaloc.Chats.{Chats}
use whaloc.Chats.Sends.{
  Checked, send, store, check_send, after_check, ensure_contact, message_input,
}
use whaloc.Chats.Requests.{SendMessageRequest}
use whaloc.Chats.Links.{IsLinked}
use whaloc.Chats.Calls.{IsLinkedIn, insert-IsLinked}

abbrev pub plain_input : String → InsertContactInput
plain_input w = record { wa_id = w; profile_name = w; user_id = none; created_at = none }

plain_insert :
    (now w : String) (contacts : List Contact)
    → find_contact w contacts ≡ none
    → insert_contact now (plain_input w) contacts
      ≡ some (contacts ++ new_contact now (plain_input w) ∷ [], new_contact now (plain_input w))
unfolding insert_contact
plain_insert now w contacts new = rw (insert_contact, new) refl

pub ensure_contact-new :
    (now w : String) (contacts : List Contact)
    → find_contact w contacts ≡ none
    → ensure_contact now w contacts ≡ contacts ++ new_contact now (plain_input w) ∷ []
unfolding ensure_contact
ensure_contact-new now w contacts new =
    rw (ensure_contact, new)
      (ap (elim [ none ↦ contacts | some (table, row) ↦ table ]) (plain_insert now w contacts new))

pub ensure_contact-known :
    (now w : String) (contacts : List Contact) (e : Contact)
    → find_contact w contacts ≡ some e
    → ensure_contact now w contacts ≡ contacts
unfolding ensure_contact
ensure_contact-known now w contacts e found = rw (ensure_contact, found) refl

-- an ensured contact is there, beside the others
pub find-ensure_contact :
    (now w k : String) (contacts : List Contact)
    → find_contact k (ensure_contact now w contacts) ≡ (elim (find_contact k contacts) [
      | some e ↦ some e
      | none ↦ if w == k then some (new_contact now (plain_input w)) else none
    ])
find-ensure_contact now w k contacts = elim (Option-cases (find_contact w contacts)) [
  | inr (e, found) ↦
      rw (ensure_contact-known now w contacts e found)
        (elim (Option-cases (find_contact k contacts)) [
          | inr (f, there) ↦ rw there refl
          | inl gone ↦ elim (Bool-cases (w == k)) [
            | inr other ↦ rw (gone, other) refl
            | inl same ↦
                absurd (
                  cc (found, subst (λ j. find_contact j contacts ≡ none) (sym (eq→path same)) gone))
          ]
        ])
  | inl new ↦
      rw (ensure_contact-new now w contacts new)
        (find_by-append wa_id_of k contacts (new_contact now (plain_input w)))
]

pub there-ensure_contact :
    (now w : String) (contacts : List Contact)
    → is_some (find_contact w (ensure_contact now w contacts)) ≡ true
there-ensure_contact now w contacts =
    rw (find-ensure_contact now w w contacts) (elim (Option-cases (find_contact w contacts)) [
      | inr (e, found) ↦ rw found refl
      | inl new ↦ rw (new, eq_refl w) refl
    ])

ensure_contact-IsLinked :
    (now w : String) (contacts : List Contact) (messages : List Message)
    → IsLinked contacts messages
    → IsLinked (ensure_contact now w contacts) messages
ensure_contact-IsLinked now w contacts messages linked =
    elim (Option-cases (find_contact w contacts)) [
      | inr (e, found) ↦ rw (ensure_contact-known now w contacts e found) linked
      | inl new ↦ rw (ensure_contact-new now w contacts new) (
          insert-IsLinked now (plain_input w) contacts messages linked
            (plain_insert now w contacts new))
    ]

store-IsLinked :
    (delays : StatusDelays) (iso : ℕ → String) (wamid : String → String) (now : ℕ) (p : String)
    (request : SendMessageRequest) (checked : Checked) (c : Chats)
    → IsLinkedIn c
    → IsLinkedIn (store delays iso wamid now p request checked c).0
unfolding store insert_row on_outbound_accepted schedule cancel new_row
store-IsLinked delays iso wamid now p request checked c linked =
    let w = checked.wa_id in
    let ensured = ensure_contact-IsLinked (iso now) w c.contacts c.ladder.messages linked in
    elim (Option-cases (find_row (wamid w) c.ladder.messages)) [
      | inr (m, taken) ↦ rw (store, taken) ensured
      | inl free ↦
          let row = new_row (iso now) (message_input (wamid w) p request checked) in
          rw (store, free)
            (record {
              keys = ensured.keys;
              ids = append-IsDistinct row_id c.ladder.messages row ensured.ids free;
              owners =
                  All-append _ c.ladder.messages (row ∷ []) ensured.owners
                    (there-ensure_contact (iso now) w c.contacts, tt);
            })
    ]

pub send-IsLinked :
    (delays : StatusDelays) (iso : ℕ → String) (wamid : String → String) (now : ℕ) (p : String)
    (request : SendMessageRequest) (c : Chats)
    → IsLinkedIn c
    → IsLinkedIn (send delays iso wamid now p request c).0
unfolding send
send-IsLinked delays iso wamid now p request c linked = go (check_send p request c)
  where
    go : (o : Failure ⊎ Checked) → IsLinkedIn (after_check delays iso wamid now p request c o).0
    go (inl e) = linked
    go (inr checked) = store-IsLinked delays iso wamid now p request checked c linked
