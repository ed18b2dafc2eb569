-- ===== src/Store/Reducer/Histories.antt =====
-- packages/web/src/store/reducer.ts: the loaded histories under the reducer.
use Prim.Native.Nat.{Ordering}
use whaloc.Base.{
  String, List, [], ◌∷◌, Option, none, some, get_or, ◌≤◌, ◌≡◌, refl, inl, inr, arith, ◌==◌, eq_iff,
  Bool-cases, Option-cases, eq→path, Assoc, get, get-put, AllValues, AllValues-get, AllValues-put,
  AllValues-from_entries, map, find_by, from_entries,
}
use whaloc.Shared.Entities.{Message, Contact, StateResponse, Waba, PhoneNumber}
use whaloc.Shared.Common.{ChangeEvent}
use whaloc.Shared.Conversation.{conversation_id}
use whaloc.Store.State.{AppState, WsEvent, Action}
use whaloc.Store.Messages.{message_id, merge_page}
use whaloc.Store.Messages.Merging.{
  HasDistinctIds, rank_in, absorb, absorb-HasDistinctIds, rank_in-absorb, merge_page-HasDistinctIds,
  rank_in-merge_page,
}
use whaloc.Store.Fold.{
  UpsertKind, upsert_message, enter_scope, with_server, apply_waba_change,
  apply_phone_number_change,
}
use whaloc.Store.Moved.{move_message, move_history, with_moved_contact}
use whaloc.Store.Reducer.{apply_ws_event, reducer}

-- No loaded history holds an id twice.
abbrev pub HasDistinctHistories : AppState → Type 0
HasDistinctHistories s = AllValues HasDistinctIds s.messages

-- A history as the chat view reads it.
abbrev pub history : String → AppState → List Message
history id s = get_or (get id s.messages) []

history-HasDistinctIds :
    (id : String) (s : AppState) → HasDistinctHistories s → HasDistinctIds (history id s)
history-HasDistinctIds id s h = elim (Option-cases (get id s.messages)) [
  | inl absent ↦ rw absent tt
  | inr (ms, found) ↦ rw found (AllValues-get HasDistinctIds id s.messages ms h found)
]

messages-with_server :
    (s : AppState) (server : StateResponse) → (with_server s server).messages ≡ s.messages
unfolding with_server enter_scope
messages-with_server s server = ground arith

-- Histories after a frame about one message.
module _ (s : AppState) (m : Message) (kind : UpsertKind) where
  abbrev owner : String
  owner = conversation_id m.phone_number_id m.contact_wa_id

  upsert_message-HasDistinctHistories :
      HasDistinctHistories s → HasDistinctHistories (upsert_message s m kind)
  unfolding upsert_message
  upsert_message-HasDistinctHistories h = elim (Option-cases (get owner s.messages)) [
    | inl absent ↦ rw absent h
    | inr (ms, found) ↦ rw found (
        AllValues-put HasDistinctIds owner (absorb ms m) s.messages
          (absorb-HasDistinctIds ms m (AllValues-get HasDistinctIds owner s.messages ms h found)) h)
  ]

  rank_in-upsert_message :
      (id k : String)
      → HasDistinctHistories s
      → rank_in k (history id s) ≤ rank_in k (history id (upsert_message s m kind))
  unfolding upsert_message
  rank_in-upsert_message id k h = elim (Option-cases (get owner s.messages)) [
    | inl absent ↦ rw absent (omega arith)
    | inr (ms, found) ↦ rw found (
        rw (get-put owner id (absorb ms m) s.messages) (elim (Bool-cases (owner == id)) [
          | inl same ↦
              rw (same, ← eq→path same, found)
                (omega (
                  arith,
                  rank_in-absorb k ms m (AllValues-get HasDistinctIds owner s.messages ms h found),
                ))
          | inr other ↦ rw other (omega arith)
        ]))
  ]

move_message-id : (c : Contact) (p : String) (m : Message) → (move_message c p m).id ≡ m.id
unfolding move_message
move_message-id c p m = ground arith

find_by-move_message :
    (c : Contact) (p k : String) (ms : List Message)
    → find_by message_id k ms ≡ none
    → find_by message_id k (map (move_message c p) ms) ≡ none
find_by-move_message c p k [] h = refl
find_by-move_message c p k (m ∷ ms) h =
    ground (arith, move_message-id c p m, find_by-move_message c p k ms)

move_messages-HasDistinctIds :
    (c : Contact) (p : String) (ms : List Message)
    → HasDistinctIds ms
    → HasDistinctIds (map (move_message c p) ms)
move_messages-HasDistinctIds c p [] h = tt
move_messages-HasDistinctIds c p (m ∷ ms) (new, h) =
    rw (move_message-id c p m)
      (find_by-move_message c p m.id ms new, move_messages-HasDistinctIds c p ms h)

move_histories :
    (c : Contact) (p : String) (hs : Assoc (List Message))
    → AllValues HasDistinctIds hs
    → AllValues HasDistinctIds (map (move_history c p) hs)
move_histories c p [] h = tt
move_histories c p ((id, ms) ∷ hs) (d, h) =
    (move_messages-HasDistinctIds c p ms d, move_histories c p hs h)

messages-apply_waba_change :
    (s : AppState) (w : Waba) (e : ChangeEvent) → (apply_waba_change s w e).messages ≡ s.messages
unfolding apply_waba_change
messages-apply_waba_change s w e = elim (Option-cases s.server) [
  | inl unknown ↦ rw (unknown, apply_waba_change) refl
  | inr (server, known) ↦ rw (known, apply_waba_change) (messages-with_server s _)
]

messages-apply_phone_number_change :
    (s : AppState) (n : PhoneNumber) (e : ChangeEvent)
    → (apply_phone_number_change s n e).messages ≡ s.messages
unfolding apply_phone_number_change
messages-apply_phone_number_change s n e = elim (Option-cases s.server) [
  | inl unknown ↦ rw (unknown, apply_phone_number_change) refl
  | inr (server, known) ↦ rw (known, apply_phone_number_change) (messages-with_server s _)
]

messages-with_moved_contact :
    (s : AppState) (c : Contact) (p : String)
    → (with_moved_contact s c p).messages ≡ from_entries (map (move_history c p) s.messages)
unfolding with_moved_contact
messages-with_moved_contact s c p = ground arith

-- An event that keeps the ids of the conversations: no reset, no import, and no contact that
-- moves to another number.
abbrev pub KeepsConversations : WsEvent → Type 0
KeepsConversations (WsEvent.contact_changed c (some p)) = p ≡ c.wa_id
KeepsConversations (WsEvent.state_reset server) = ⊥
KeepsConversations (WsEvent.state_imported server) = ⊥
KeepsConversations _ = Unit

abbrev pub IsKeeping : Action → Type 0
IsKeeping (Action.ws_event e) = KeepsConversations e
IsKeeping _ = Unit

module _ (lc : String → String → Ordering) where
  contact_changed-HasDistinctHistories :
      (s : AppState) (c : Contact) (p : Option String)
      → HasDistinctHistories s
      → HasDistinctHistories (apply_ws_event lc s (WsEvent.contact_changed c p))
  unfolding apply_ws_event
  contact_changed-HasDistinctHistories s c none h = h
  contact_changed-HasDistinctHistories s c (some p) h = elim (Bool-cases (p == c.wa_id)) [
    | inl same ↦ rw same h
    | inr other ↦ rw other (
        rw messages-with_moved_contact
          (AllValues-from_entries HasDistinctIds _ (move_histories c p s.messages h)))
  ]

  apply_ws_event-HasDistinctHistories :
      (s : AppState) (e : WsEvent)
      → HasDistinctHistories s
      → HasDistinctHistories (apply_ws_event lc s e)
  unfolding apply_ws_event
  apply_ws_event-HasDistinctHistories s (WsEvent.message_created m) h =
      upsert_message-HasDistinctHistories s m UpsertKind.created h
  apply_ws_event-HasDistinctHistories s (WsEvent.message_status_changed m) h =
      upsert_message-HasDistinctHistories s m UpsertKind.status h
  apply_ws_event-HasDistinctHistories s (WsEvent.contact_changed c p) h =
      contact_changed-HasDistinctHistories s c p h
  apply_ws_event-HasDistinctHistories s (WsEvent.waba_changed w e) h =
      rw messages-apply_waba_change h
  apply_ws_event-HasDistinctHistories s (WsEvent.phone_number_changed n e) h =
      rw messages-apply_phone_number_change h
  apply_ws_event-HasDistinctHistories s (WsEvent.state_reset server) h = rw messages-with_server tt
  apply_ws_event-HasDistinctHistories s (WsEvent.state_imported server) h =
      rw messages-with_server tt
  apply_ws_event-HasDistinctHistories s _ h = h

  messages-scope_selected :
      (s : AppState) (w n : Option String)
      → (reducer lc s (Action.scope_selected w n)).messages ≡ s.messages
  unfolding reducer enter_scope
  messages-scope_selected s w n = ground arith

  -- Every action keeps the ids of the messages in each loaded history distinct.
  pub reducer-HasDistinctHistories :
      (s : AppState) (a : Action) → HasDistinctHistories s → HasDistinctHistories (reducer lc s a)
  unfolding reducer
  reducer-HasDistinctHistories s (Action.state_loaded server) h = rw messages-with_server h
  reducer-HasDistinctHistories s (Action.scope_selected w n) h = rw messages-scope_selected h
  reducer-HasDistinctHistories s (Action.messages_loaded id page before) h =
      AllValues-put HasDistinctIds id (merge_page (history id s) page) s.messages
        (merge_page-HasDistinctIds (history id s) page (history-HasDistinctIds id s h)) h
  reducer-HasDistinctHistories s (Action.ws_event e) h = apply_ws_event-HasDistinctHistories s e h
  reducer-HasDistinctHistories s _ h = h

  contact_changed-history :
      (s : AppState) (c : Contact) (p : Option String)
      → KeepsConversations (WsEvent.contact_changed c p)
      → (apply_ws_event lc s (WsEvent.contact_changed c p)).messages ≡ s.messages
  unfolding apply_ws_event
  contact_changed-history s c none keep = refl
  contact_changed-history s c (some p) keep = rw ((eq_iff p c.wa_id).1 keep) refl

  apply_ws_event-rank_in :
      (s : AppState) (e : WsEvent) (id k : String)
      → HasDistinctHistories s
      → KeepsConversations e
      → rank_in k (history id s) ≤ rank_in k (history id (apply_ws_event lc s e))
  unfolding apply_ws_event
  apply_ws_event-rank_in s (WsEvent.message_created m) id k h keep =
      rank_in-upsert_message s m UpsertKind.created id k h
  apply_ws_event-rank_in s (WsEvent.message_status_changed m) id k h keep =
      rank_in-upsert_message s m UpsertKind.status id k h
  apply_ws_event-rank_in s (WsEvent.contact_changed c p) id k h keep =
      rw (contact_changed-history s c p keep) (omega arith)
  apply_ws_event-rank_in s (WsEvent.waba_changed w e) id k h keep =
      rw messages-apply_waba_change (omega arith)
  apply_ws_event-rank_in s (WsEvent.phone_number_changed n e) id k h keep =
      rw messages-apply_phone_number_change (omega arith)
  apply_ws_event-rank_in s (WsEvent.state_reset server) id k h keep = absurd keep
  apply_ws_event-rank_in s (WsEvent.state_imported server) id k h keep = absurd keep
  apply_ws_event-rank_in s _ id k h keep = omega arith

  messages_loaded-rank_in :
      (s : AppState) (id : String) (page : List Message) (before : Option String) (j k : String)
      → HasDistinctHistories s
      → rank_in k (history j s)
        ≤ rank_in k (history j (reducer lc s (Action.messages_loaded id page before)))
  unfolding reducer
  messages_loaded-rank_in s id page before j k h =
      rw (get-put id j (merge_page (history id s) page) s.messages) (elim (Bool-cases (id == j)) [
        | inl same ↦
            rw (same, ← eq→path same)
              (omega
                (arith, rank_in-merge_page k (history id s) page (history-HasDistinctIds id s h)))
        | inr other ↦ rw other (omega arith)
      ])

  -- With distinct ids in every history, no action but a reset, an import or a contact that moves
  -- takes a message of a loaded history back to an earlier status or drops it.
  pub reducer-rank_in :
      (s : AppState) (a : Action) (id k : String)
      → HasDistinctHistories s
      → IsKeeping a
      → rank_in k (history id s) ≤ rank_in k (history id (reducer lc s a))
  unfolding reducer
  reducer-rank_in s (Action.state_loaded server) id k h keep = rw messages-with_server (omega arith)
  reducer-rank_in s (Action.scope_selected w n) id k h keep =
      rw messages-scope_selected (omega arith)
  reducer-rank_in s (Action.messages_loaded j page before) id k h keep =
      messages_loaded-rank_in s j page before id k h
  reducer-rank_in s (Action.ws_event e) id k h keep = apply_ws_event-rank_in s e id k h keep
  reducer-rank_in s _ id k h keep = omega arith
