-- ===== src/Chats/Mirroring.antt =====
-- packages/web/src/store/reducer.ts on an event of packages/server/src/domain/contact-service.ts: the
-- client follows a contact that moves and still mirrors the server.
use mathlib.Core.Option
use whaloc.Base.{
  String, List, [], ◌∷◌, ◌++◌, true, false, not, Option, none, some, inl, inr, ◌≡◌, ◌≢◌, refl, sym,
  ◌∙◌, ap, subst, arith, ◌==◌, if◌then◌else◌, is_some, map, filter, AllEntries, get,
  HasDistinctKeys, from_entries, AllEntries-from_entries, get-from_entries,
  from_entries-HasDistinctKeys, find_by-place, find_by-remove, Bool-cases, Option-cases, eq_comm,
  eq_refl,
}
use whaloc.Shared.Entities.{Contact}
use whaloc.Shared.Conversation.{conversation_id}
use whaloc.Shared.Conversation.Laws.{NoColon}
use whaloc.Contacts.{wa_id_of, find_contact, others_of}
use whaloc.Store.State.{AppState}
use whaloc.Store.Fold.{upsert_by}
use whaloc.Store.Moved.{moved_id, move_history, follow, with_moved_contact}
use whaloc.Chats.{Chats, NumberChange}
use whaloc.Chats.Moves.{Moves}
use whaloc.Chats.Links.{find_contact-move}
use whaloc.Chats.Loaded.{IsLoaded, renumbered, moved_entries}
use whaloc.Chats.LoadedIds.{get-move_history, move_history-HasDistinctKeys}

-- Whatever the client has loaded, it has from the server: every history is that of a conversation
-- with a contact of the server and has rows of the server in that conversation only, no two are of
-- one conversation, and the contacts, if they are loaded, are those of the server.
pub record Mirrors (s : AppState) (c : Chats) : Type 0 where
  pub messages : AllEntries (IsLoaded c.contacts c.ladder.messages) s.messages
  pub keys : HasDistinctKeys s.messages
  pub contacts :
      (known : List Contact)
      → s.contacts ≡ some known
      → (k : String) → find_contact k known ≡ find_contact k c.contacts

follow-messages :
    (contact : Contact) (previous : String) (active : Option String) (s : AppState)
    → ((follow contact previous active s).messages ≡ s.messages)
      × ((follow contact previous active s).contacts ≡ s.contacts)
unfolding follow
follow-messages contact previous none s = (refl, refl)
follow-messages contact previous (some active) s =
    elim (Option-cases (moved_id contact previous active)) [
      | inl stays ↦ rw (follow, stays) (refl, refl)
      | inr (target, moves) ↦ rw (follow, moves) (refl, refl)
    ]

moved_known :
    (w k : String) (moved : Contact) (known contacts : List Contact)
    → find_contact k known ≡ find_contact k contacts
    → find_contact k
        (upsert_by (λ c. c.wa_id == moved.wa_id) moved (filter (λ c. not (c.wa_id == w)) known))
      ≡ (if moved.wa_id == k then some moved else if w == k then none else find_contact k contacts)
moved_known w k moved known contacts same =
    find_by-place wa_id_of k moved (filter (λ c. not (c.wa_id == w)) known) _ (λ absent. refl)
    ∙ rw (find_by-remove wa_id_of w k known, same) refl

-- the contacts that are known after a move, if any are
known_after :
    (w : String) (moved : Contact) (loaded : Option (List Contact)) (known contacts : List Contact)
    → Option.map
        (upsert_by (λ c. c.wa_id == moved.wa_id) moved)
        (Option.map (filter (λ c. not (c.wa_id == w))) loaded)
      ≡ some known
    → ((old : List Contact)
        → loaded ≡ some old
        → (k : String) → find_contact k old ≡ find_contact k contacts)
    → (k : String)
    → find_contact k known
      ≡ (if moved.wa_id == k then some moved else if w == k then none else find_contact k contacts)
known_after w moved none known contacts e same k = absurd (ground (arith, e))
known_after w moved (some old) known contacts e same k =
    let made : upsert_by (λ c. c.wa_id == moved.wa_id) moved (filter (λ c. not (c.wa_id == w)) old)
        ≡ known =
      ground (arith, e) in
    subst
      (λ l. find_contact k l ≡ (
        if moved.wa_id == k then some moved else if w == k then none else find_contact k contacts))
      made (moved_known w k moved old contacts (same old refl k))

-- who has a contact after a move
kept_contact :
    (w k : String) (moved : Contact) (contacts : List Contact)
    → (moved.wa_id == w) ≡ false
    → find_contact moved.wa_id contacts ≡ none
    → (k == w) ≡ false
    → is_some (find_contact k contacts) ≡ true
    → is_some (find_contact k (others_of w contacts ++ moved ∷ [])) ≡ true
kept_contact w k moved contacts other free away owner =
    rw (find_contact-move k w contacts moved other free, eq_comm w k, away)
      (elim (Bool-cases (moved.wa_id == k)) [
        | inl here ↦ rw here refl
        | inr there ↦ rw there owner
      ])

pub with_moved-Mirrors :
    (now w : String) (request : NumberChange) (c c' : Chats) (moved : Contact) (s : AppState)
    → request.wa_id ≢ ""
    → Moves now w request c c' moved
    → Mirrors s c
    → Mirrors (with_moved_contact s moved w) c'
unfolding with_moved_contact
with_moved-Mirrors now w request c c' moved s plain h mirrors =
    let same : moved.wa_id ≡ request.wa_id = ap (λ x. x.wa_id) h.row in
    let (messages, contacts) = follow-messages moved w s.active_conversation_id _ in
    let other : (moved.wa_id == w) ≡ false = rw same h.other in
    let free : find_contact moved.wa_id c.contacts ≡ none = rw same h.free in
    record {
      messages =
          rw (messages, h.messages, h.contacts, ← same)
            (AllEntries-from_entries _ (map (move_history moved w) s.messages) (
              moved_entries w moved c.contacts (others_of w c.contacts ++ moved ∷ [])
                c.ladder.messages s.messages (rw same plain)
                (rw
                  (find_contact-move moved.wa_id w c.contacts moved other free, eq_refl moved.wa_id)
                  refl)
                (λ k away owner. kept_contact w k moved c.contacts other free away owner)
                mirrors.messages));
      keys = rw messages (from_entries-HasDistinctKeys (map (move_history moved w) s.messages));
      contacts = λ known e k.
          known_after w moved s.contacts known c.contacts (sym contacts ∙ e) mirrors.contacts k
          ∙ rw h.contacts (sym (find_contact-move k w c.contacts moved other free));
    }

-- what is loaded after a move
with_moved_contact-loaded :
    (w : String) (moved : Contact) (s : AppState)
    → ((with_moved_contact s moved w).messages
        ≡ from_entries (map (move_history moved w) s.messages))
      × ((with_moved_contact s moved w).contacts
          ≡ Option.map
              (upsert_by (λ c. c.wa_id == moved.wa_id) moved)
              (Option.map (filter (λ c. not (c.wa_id == w))) s.contacts))
unfolding with_moved_contact
with_moved_contact-loaded w moved s = follow-messages moved w s.active_conversation_id _

-- the histories that are loaded after a move, by conversation
pub get-with_moved_contact :
    (w next p k : String) (c : Chats) (moved : Contact) (s : AppState)
    → moved.wa_id ≡ next
    → NoColon p
    → find_contact moved.wa_id c.contacts ≡ none
    → Mirrors s c
    → get (conversation_id p k) (with_moved_contact s moved w).messages ≡ (
        if next == k
        then Option.map (renumbered next) (get (conversation_id p w) s.messages)
        else if w == k
        then none
        else get (conversation_id p k) s.messages)
get-with_moved_contact w next p k c moved s same no_colon free mirrors =
    subst
      (λ n. get (conversation_id p k) (with_moved_contact s moved w).messages ≡ (
        if n == k
        then Option.map (renumbered n) (get (conversation_id p w) s.messages)
        else if w == k
        then none
        else get (conversation_id p k) s.messages))
      same
      (ap (get (conversation_id p k)) (with_moved_contact-loaded w moved s).0
        ∙ get-from_entries (conversation_id p k) (map (move_history moved w) s.messages) (
            move_history-HasDistinctKeys w moved c.contacts c.ladder.messages s.messages free
              mirrors.messages mirrors.keys)
        ∙ get-move_history w p k moved c.contacts c.ladder.messages s.messages no_colon free
            mirrors.messages)

-- a list of contacts that is loaded stays so
pub with_moved_contact-contacts :
    (w : String) (moved : Contact) (s : AppState)
    → is_some (with_moved_contact s moved w).contacts ≡ is_some s.contacts
with_moved_contact-contacts w moved s =
    ap is_some (with_moved_contact-loaded w moved s).1 ∙ (elim (Option-cases s.contacts) [
      | inl unloaded ↦ rw unloaded refl
      | inr (old, known) ↦ rw known refl
    ])
