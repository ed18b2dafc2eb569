-- ===== src/Chats/Client.antt =====
-- packages/web/src/store/reducer.ts on an event of packages/server/src/domain/contact-service.ts: the
-- client follows a contact that moves.
use Prim.Native.Nat.{Ordering}
use mathlib.Core.Option
use whaloc.Base.{
  String, List, [], ◌∷◌, ◌++◌, true, false, ◌&&◌, none, some, inl, inr, ℕ, ◌≡◌, ◌≢◌, refl, sym, ◌∙◌,
  ap, subst, arith, ◌==◌, if◌then◌else◌, is_some, map, filter, All, AllEntries-get, get,
  find_by-map, Bool-cases, eq_comm, eq_refl, eq→path,
}
use whaloc.Shared.Entities.{Contact, Message}
use whaloc.Shared.Conversation.{conversation_id}
use whaloc.Shared.Conversation.Laws.{NoColon, conversation_id-eq}
use whaloc.MessageTable.{row_id, find_row}
use whaloc.MessageTable.Conversations.{is_in}
use whaloc.Contacts.{find_contact}
use whaloc.Contacts
use whaloc.Store.State.{AppState, WsEvent}
use whaloc.Store.Moved.{with_moved_contact}
use whaloc.Store.Reducer.{apply_ws_event}
use whaloc.Chats.{Chats, Notice, NumberChange, change_number}
use whaloc.Chats.Moves.{change_number-Moves}
use whaloc.Chats.Links.{IsLinked}
use whaloc.Chats.Loaded.{IsLoaded, renumber, renumbered}
use whaloc.Chats.LoadedIds.{not_next}
use whaloc.Chats.History.{history, change_number-history}
use whaloc.Chats.Mirroring.{
  Mirrors, with_moved-Mirrors, get-with_moved_contact, with_moved_contact-contacts,
}

-- the messages of a conversation are all among those of a history
abbrev pub HasAll : List Message → List Message → Type 0
HasAll ms messages = All (λ m. find_row m.id ms ≡ some m) messages

-- The client has loaded a conversation to its end: each message of it that the server has.
pub record IsWhole (s : AppState) (c : Chats) (conversation : String × String) : Type 0 where
  pub no_colon : NoColon conversation.0
  pub ms : List Message
  pub loaded : get (conversation_id conversation.0 conversation.1) s.messages ≡ some ms
  pub all : HasAll ms (history conversation.0 conversation.1 c)

-- which conversation it is after a contact has moved
abbrev pub after_move : String → String → String × String → String × String
after_move previous next (phone_number_id, wa_id) =
    (phone_number_id, if wa_id == previous then next else wa_id)

HasAll-renumbered :
    (p w next : String) (ms table : List Message)
    → HasAll ms (filter (is_in p w) table)
    → HasAll (renumbered next ms) (map (Contacts.move_message w next) (filter (is_in p w) table))
HasAll-renumbered p w next ms [] h = tt
HasAll-renumbered p w next ms (m ∷ table) h = elim (Bool-cases (is_in p w m)) [
  | inr out ↦ rw out (HasAll-renumbered p w next ms table (rw out at h))
  | inl here ↦
      let (found, rest) = rw here at h in
      let mine : (m.contact_wa_id == w) ≡ true = ground (arith, here) in
      rw (here, mine)
        (
          find_by-map row_id (renumber next) (λ n. refl) m.id ms
              ∙ ap (Option.map (renumber next)) found,
          HasAll-renumbered p w next ms table rest,
        )
]

-- a loaded conversation is one with a contact
loaded-other :
    (p k next : String) (s : AppState) (c : Chats) (ms : List Message)
    → NoColon p
    → Mirrors s c
    → find_contact next c.contacts ≡ none
    → get (conversation_id p k) s.messages ≡ some ms
    → (k == next) ≡ false
loaded-other p k next s c ms no_colon mirrors free loaded =
    let at =
      AllEntries-get (IsLoaded c.contacts c.ladder.messages) (conversation_id p k) s.messages ms
        mirrors.messages loaded in
    let same : (at.phone_number_id == p && at.wa_id == k) ≡ true =
      sym (conversation_id-eq at.phone_number_id at.wa_id p k at.no_colon no_colon)
      ∙ rw (at.here, eq_refl (conversation_id p k)) refl in
    let here : (at.wa_id == k) ≡ true = ground (arith, same) in
    subst (λ j. (j == next) ≡ false) (eq→path here)
      (not_next at.wa_id next c.contacts free at.owner)

-- a conversation that is loaded to its end is so after a move, wherever it went
moved-IsWhole :
    (w next p k : String) (s s' : AppState) (c c' : Chats)
    → Mirrors s c
    → find_contact next c.contacts ≡ none
    → ((p k : String)
        → NoColon p
        → get (conversation_id p k) s'.messages ≡ (
            if next == k
            then Option.map (renumbered next) (get (conversation_id p w) s.messages)
            else if w == k
            then none
            else get (conversation_id p k) s.messages))
    → ((p k : String)
        → history p k c' ≡ (
            if next == k
            then map (Contacts.move_message w next) (history p w c)
            else if w == k
            then []
            else history p k c))
    → IsWhole s c (p, k)
    → IsWhole s' c' (after_move w next (p, k))
moved-IsWhole w next p k s s' c c' mirrors free lookups histories whole =
    elim (Bool-cases (k == w)) [
      | inl theirs ↦
          let k≡w : k ≡ w = eq→path theirs in
          let at : get (conversation_id p w) s.messages ≡ some whole.ms =
            subst (λ j. get (conversation_id p j) s.messages ≡ some whole.ms) k≡w whole.loaded in
          let all : HasAll whole.ms (history p w c) =
            subst (λ j. HasAll whole.ms (history p j c)) k≡w whole.all in
          rw theirs (record {
            no_colon = whole.no_colon;
            ms = renumbered next whole.ms;
            loaded =
                lookups p next whole.no_colon
                ∙ rw (eq_refl next) (ap (Option.map (renumbered next)) at);
            all =
                rw (histories p next, eq_refl next)
                  (HasAll-renumbered p w next whole.ms c.ladder.messages all);
          })
      | inr other ↦
          let away : (next == k) ≡ false =
            eq_comm next k
            ∙ loaded-other p k next s c whole.ms whole.no_colon mirrors free whole.loaded in
          let left : (w == k) ≡ false = eq_comm w k ∙ other in
          rw other (record {
            no_colon = whole.no_colon;
            ms = whole.ms;
            loaded = lookups p k whole.no_colon ∙ rw (away, left) whole.loaded;
            all = rw (histories p k, away, left) whole.all;
          })
    ]

moved-AllWhole :
    (w next : String) (s s' : AppState) (c c' : Chats) (conversations : List (String × String))
    → ((p k : String) → IsWhole s c (p, k) → IsWhole s' c' (after_move w next (p, k)))
    → All (IsWhole s c) conversations
    → All (IsWhole s' c') (map (after_move w next) conversations)
moved-AllWhole w next s s' c c' [] move h = tt
moved-AllWhole w next s s' c c' ((p, k) ∷ conversations) move (whole, h) =
    (move p k whole, moved-AllWhole w next s s' c c' conversations move h)

-- Where every message has its contact and keys are distinct on the server, and a client has loaded
-- what the server has (each history that of one conversation with a contact and of rows of the
-- server in it, no two of one conversation, phone number ids not empty and without a colon,
-- numbers not empty, and the contacts, if they are loaded, those of the server): a number change
-- to a number that is not empty, if it is not refused, announces the contact with the number that
-- it left, and the client that receives this mirrors the server in the same way again. With each
-- business number, whose id has no colon, the client then has for the new number the messages that
-- it had for the old one, in their order and under the new number, none for the old number, and
-- what it had for any other; contacts that were loaded stay loaded. Each conversation of which it
-- had every message of the server, it has whole again where it has gone.
pub change_number-Mirrors :
    (lc : String → String → Ordering) (iso : ℕ → String) (wamid : ℕ → String → String) (now : ℕ)
    (w : String) (request : NumberChange) (c c' : Chats) (moved : Contact) (s : AppState)
    (p k : String) (conversations : List (String × String))
    → request.wa_id ≢ ""
    → IsLinked c.contacts c.ladder.messages
    → change_number iso wamid now w request c ≡ inr (c', moved)
    → Mirrors s c
    → NoColon p
    → All (IsWhole s c) conversations
    → let s' = apply_ws_event lc s (WsEvent.contact_changed moved (some w)) in
      ((rest : List Notice) × (c'.notices
          ≡ c.notices ++ Notice.contact_changed moved (some w) ∷ rest))
      × Mirrors s' c'
      × (get (conversation_id p k) s'.messages ≡ (
          if request.wa_id == k
          then Option.map (renumbered request.wa_id) (get (conversation_id p w) s.messages)
          else if w == k
          then none
          else get (conversation_id p k) s.messages))
      × (is_some s'.contacts ≡ is_some s.contacts)
      × All (IsWhole s' c') (map (after_move w request.wa_id) conversations)
unfolding apply_ws_event
change_number-Mirrors lc iso wamid now w request c c' moved s p k conversations plain linked e
      mirrors no_colon whole =
    let h = change_number-Moves iso wamid now w request c c' moved e in
    let same : moved.wa_id ≡ request.wa_id = ap (λ x. x.wa_id) h.row in
    let leaves : (w == moved.wa_id) ≡ false = eq_comm w moved.wa_id ∙ rw same h.other in
    let lookups = λ (p : String) (k : String) (no_colon : NoColon p).
      get-with_moved_contact w request.wa_id p k c moved s same no_colon (rw same h.free) mirrors in
    let (histories, _, _) = change_number-history iso wamid now w request c c' moved linked e in
    rw leaves (
      h.announced,
      with_moved-Mirrors (iso now) w request c c' moved s plain h mirrors,
      lookups p k no_colon,
      with_moved_contact-contacts w moved s,
      moved-AllWhole w request.wa_id s (with_moved_contact s moved w) c c' conversations
          (λ p k.
            moved-IsWhole w request.wa_id p k s (with_moved_contact s moved w) c c' mirrors h.free
              lookups histories)
          whole,
    )
