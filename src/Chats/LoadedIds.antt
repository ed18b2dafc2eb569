-- ===== src/Chats/LoadedIds.antt =====
-- packages/web/src/store/reducer.ts: the ids under which histories are loaded, when a contact moves.
use mathlib.Core.Option
use whaloc.Base.{
  String, List, [], ◌∷◌, true, false, ◌&&◌, none, get_or, inl, inr, ◌≡◌, ◌≢◌, sym, ap, subst, arith,
  ◌==◌, if◌then◌else◌, is_some, map, Assoc, AllEntries, get, HasDistinctKeys, Bool-cases, eq_comm,
  eq_refl, eq_iff, eq→path,
}
use whaloc.Shared.Entities.{Contact, Message}
use whaloc.Shared.Conversation.{conversation_id}
use whaloc.Shared.Conversation.Laws.{NoColon, conversation_id-eq}
use whaloc.Contacts.{find_contact}
use whaloc.Store.Moved.{moved_id, move_history}
use whaloc.Chats.Loaded.{IsLoaded, renumbered, moved_id-conversation_id, moved_rows}

-- nothing is loaded for a number without a contact
pub not_next :
    (k next : String) (contacts : List Contact)
    → find_contact next contacts ≡ none
    → is_some (find_contact k contacts) ≡ true
    → (k == next) ≡ false
not_next k next contacts free owner = elim (Bool-cases (k == next)) [
  | inr other ↦ other
  | inl same ↦
      absurd (
        cc
          (rw free at (subst (λ j. is_some (find_contact j contacts) ≡ true) (eq→path same) owner)))
]

-- which conversation a moved one is
moved_id-eq :
    (w q j p k : String) (moved : Contact)
    → NoColon q
    → q ≢ ""
    → j ≢ ""
    → NoColon p
    → (get_or (moved_id moved w (conversation_id q j)) (conversation_id q j) == conversation_id p k)
      ≡ (q == p && (if j == w then moved.wa_id else j) == k)
moved_id-eq w q j p k moved no_colon hq hj plain =
    let goes = moved_id-conversation_id moved w q j no_colon hq hj in
    elim (Bool-cases (j == w)) [
      | inl theirs ↦ rw (goes, theirs) (conversation_id-eq q moved.wa_id p k no_colon plain)
      | inr other ↦ rw (goes, other) (conversation_id-eq q j p k no_colon plain)
    ]

-- what is loaded for a conversation after a move
pub get-move_history :
    (w p k : String) (moved : Contact) (contacts : List Contact) (table : List Message)
    (entries : Assoc (List Message))
    → NoColon p
    → find_contact moved.wa_id contacts ≡ none
    → AllEntries (IsLoaded contacts table) entries
    → get (conversation_id p k) (map (move_history moved w) entries) ≡ (
        if moved.wa_id == k
        then Option.map (renumbered moved.wa_id) (get (conversation_id p w) entries)
        else if w == k
        then none
        else get (conversation_id p k) entries)
unfolding get
get-move_history w p k moved contacts table [] no_colon free h = ground arith
get-move_history w p k moved contacts table ((id, ms) ∷ entries) no_colon free (here, h) =
    let q = here.phone_number_id in
    let j = here.wa_id in
    let next = moved.wa_id in
    let later = get-move_history w p k moved contacts table entries no_colon free h in
    let is_at : (k : String) → (id == conversation_id p k) ≡ (q == p && j == k) = λ k.
      subst (λ i. (i == conversation_id p k) ≡ (q == p && j == k)) here.here
        (conversation_id-eq q j p k here.no_colon no_colon) in
    let goes_to : (get_or (moved_id moved w id) id == conversation_id p k)
        ≡ (q == p && (if j == w then next else j) == k) =
      subst
        (λ i.
          (get_or (moved_id moved w i) i == conversation_id p k)
          ≡ (q == p && (if j == w then next else j) == k))
        here.here
        (moved_id-eq w q j p k moved here.no_colon here.some_number here.some_wa_id no_colon) in
    let list = (moved_rows w q j moved table ms here.rows).0 in
    let away = not_next j next contacts free here.owner in
    rw (goes_to, is_at w, is_at k, list, later)
      (ground (arith, away, eq_iff j w, eq_iff j k, eq_iff next k, eq_iff w k, eq_iff j next))

pub move_history-HasDistinctKeys :
    (w : String) (moved : Contact) (contacts : List Contact) (table : List Message)
    (entries : Assoc (List Message))
    → find_contact moved.wa_id contacts ≡ none
    → AllEntries (IsLoaded contacts table) entries
    → HasDistinctKeys entries
    → HasDistinctKeys (map (move_history moved w) entries)
move_history-HasDistinctKeys w moved contacts table [] free h d = tt
move_history-HasDistinctKeys w moved contacts table ((id, ms) ∷ entries) free (here, h) (new, d) =
    let q = here.phone_number_id in
    let j = here.wa_id in
    let next = moved.wa_id in
    let absent : get (conversation_id q j) entries ≡ none =
      subst (λ i. get i entries ≡ none) (sym here.here) new in
    let at =
      λ (k : String). get-move_history w q k moved contacts table entries here.no_colon free h in
    let goes =
      moved_id-conversation_id moved w q j here.no_colon here.some_number here.some_wa_id in
    (
      subst (λ i. get (get_or (moved_id moved w i) i) (map (move_history moved w) entries) ≡ none)
          here.here
          (elim (Bool-cases (j == w)) [
            | inl theirs ↦
                rw (goes, theirs, at next, eq_refl next)
                  (ap (Option.map (renumbered next)) (rw (eq→path theirs) at absent))
            | inr other ↦
                rw
                  (
                    goes,
                    other,
                    at j,
                    eq_comm next j,
                    not_next j next contacts free here.owner,
                    eq_comm w j,
                    other,
                  )
                  absent
          ]),
      move_history-HasDistinctKeys w moved contacts table entries free h d,
    )
