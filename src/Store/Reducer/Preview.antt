-- ===== src/Store/Reducer/Preview.antt =====
-- packages/web/src/store/reducer.ts: the preview of a conversation and its typing bubble.
use Prim.Native.Nat.{Ordering}
use mathlib.Core.Option
use whaloc.Base.{
  String, List, [], ◌∷◌, Option, none, some, get_or, ◌<◌, ◌≡◌, refl, inl, inr, arith, true, ◌==◌,
  eq_iff, eq_refl, Bool-cases, Option-cases, eq→path, get, get-put, get-delete, map, find_by,
  if◌then◌else◌, Assoc,
}
use whaloc.Shared.Entities.{Message, Conversation, TypingIndicator}
use whaloc.Shared.Conversation.{conversation_id}
use whaloc.Store.State.{AppState, WsEvent}
use whaloc.Store.Messages.Merging.{rank_in, rank_of, rank_in-absorb, HasDistinctIds}
use whaloc.Store.Fold.{
  conversation_key, is_last, refresh_preview, without_typing, upsert_message, with_conversation_of,
}
use whaloc.Store.Reducer.{apply_ws_event, set_typing}

get-without_typing :
    (typing : Assoc String) (id j : String)
    → get j (without_typing typing id) ≡ (if id == j then none else get j typing)
unfolding without_typing
get-without_typing typing id j = elim (Option-cases (get id typing)) [
  | inl absent ↦ rw absent (elim (Bool-cases (id == j)) [
    | inl same ↦ rw same (rw (← eq→path same) absent)
    | inr other ↦ rw other refl
  ])
  | inr (t, found) ↦ rw found (get-delete id j typing)
]

-- a frame about typing sets one bubble
pub get-typing_changed :
    (lc : (String → String → Ordering)) (s : AppState) (t : TypingIndicator) (k : String)
    → get k (apply_ws_event lc s (WsEvent.typing_changed t)).typing ≡ (
        if conversation_id t.phone_number_id t.contact_wa_id == k
        then t.expires_at
        else get k s.typing)
unfolding apply_ws_event set_typing
get-typing_changed lc s t k = go t.expires_at
  where
    go :
        (o : Option String)
        → get k (set_typing s.typing (conversation_id t.phone_number_id t.contact_wa_id) o)
          ≡ (if conversation_id t.phone_number_id t.contact_wa_id == k then o else get k s.typing)
    go none = get-without_typing s.typing (conversation_id t.phone_number_id t.contact_wa_id) k
    go (some at) = get-put (conversation_id t.phone_number_id t.contact_wa_id) k at s.typing

module _ (lc : String → String → Ordering) (s : AppState) (m : Message) where
  abbrev owner : String
  owner = conversation_id m.phone_number_id m.contact_wa_id

  find_by-refresh_preview :
      (cs : List Conversation) (c : Conversation)
      → find_by conversation_key owner cs ≡ some c
      → is_last c.last_message m.id ≡ true
      → find_by conversation_key owner (map (refresh_preview m owner) cs)
        ≡ some (record c { last_message = some m })
  unfolding refresh_preview
  find_by-refresh_preview [] c found last = cc
  find_by-refresh_preview (d ∷ ds) c found last =
      ground (arith, find_by-refresh_preview ds c, eq_iff d.id owner)

  abbrev after : AppState
  after = apply_ws_event lc s (WsEvent.message_status_changed m)

  -- A status frame that is behind the loaded history and is about the last message of a listed
  -- conversation still replaces the preview of that conversation, while the history keeps the
  -- further status.
  pub preview_follows_frame :
      (cs : List Conversation) (c : Conversation) (ms : List Message)
      → s.conversations ≡ some cs
      → find_by conversation_key owner cs ≡ some c
      → is_last c.last_message m.id ≡ true
      → get owner s.messages ≡ some ms
      → HasDistinctIds ms
      → rank_of (some m) < rank_in m.id ms
      → (Option.bind after.conversations (find_by conversation_key owner)
          ≡ some (record c { last_message = some m }))
        × (rank_in m.id (get_or (get owner after.messages) []) ≡ rank_in m.id ms)
  unfolding apply_ws_event upsert_message with_conversation_of Option.bind
  preview_follows_frame cs c ms listed found last loaded d behind = (
    rw listed (find_by-refresh_preview cs c found last),
    rw (loaded, get-put, eq_refl owner) (omega (arith, rank_in-absorb m.id ms m d, own_rank)),
  )
    where
      own_rank : (if m.id == m.id then rank_of (some m) else 0) ≡ rank_of (some m)
      own_rank = rw (eq_refl m.id)
