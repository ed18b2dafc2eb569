-- ===== src/Store/Messages/Merging.antt =====
-- packages/web/src/store/reducer.ts: ids, order and statuses of a history that is merged.
use whaloc.Base.{
  String, List, [], ◌∷◌, ◌++◌, Option, none, some, ℕ, suc, max, ◌≡◌, refl, ◌∙◌, inl, inr, arith,
  ◌==◌, if◌then◌else◌, find_by, IsDistinct, find_by-append_new, append-IsDistinct, find_by-place,
  place-IsDistinct, find_by-to_sorted, to_sorted-IsDistinct, Option-cases, Bool-cases, eq→path,
  key-find_by,
}
use whaloc.Shared.Entities.{Message}
use whaloc.Store.Messages.{
  status_rank, compare_messages, message_id, insert_message, merge_status, merge_into, merge_page,
}

-- No two messages of a history have one id.
abbrev pub HasDistinctIds : List Message → Type 0
HasDistinctIds ms = IsDistinct message_id ms

pub find_by-insert_message :
    (k : String) (ms : List Message) (m : Message)
    → HasDistinctIds ms
    → find_by message_id k (insert_message ms m)
      ≡ (if m.id == k then some m else find_by message_id k ms)
unfolding insert_message
find_by-insert_message k ms m d = find_by-place message_id k m ms _ λ new.
    find_by-to_sorted message_id compare_messages (ms ++ m ∷ []) k
      (append-IsDistinct message_id ms m d new)
    ∙ find_by-append_new message_id k ms m new

pub insert_message-HasDistinctIds :
    (ms : List Message) (m : Message) → HasDistinctIds ms → HasDistinctIds (insert_message ms m)
unfolding insert_message
insert_message-HasDistinctIds ms m d = place-IsDistinct message_id m ms _ d λ new.
    to_sorted-IsDistinct message_id compare_messages (ms ++ m ∷ [])
      (append-IsDistinct message_id ms m d new)

-- How far a message got, counted from 1; 0 for none.
abbrev pub rank_of : Option Message → ℕ
rank_of none = 0
rank_of (some m) = suc (status_rank m.status)

abbrev pub rank_in : String → List Message → ℕ
rank_in k ms = rank_of (find_by message_id k ms)

merge_status-rank :
    (a b : Message) → rank_of (some (merge_status a b)) ≡ max (rank_of (some a)) (rank_of (some b))
unfolding merge_status
merge_status-rank a b = ground arith

merge_status-id : (a b : Message) → a.id ≡ b.id → (merge_status a b).id ≡ b.id
unfolding merge_status
merge_status-id a b h = ground arith

id-merge_into : (ms : List Message) (m : Message) → (merge_into ms m).id ≡ m.id
unfolding merge_into
id-merge_into ms m = elim (Option-cases (find_by message_id m.id ms)) [
  | inl absent ↦ rw (absent, merge_into) refl
  | inr (c, found) ↦
      rw (found, merge_into) (merge_status-id c m (key-find_by message_id m.id ms c found))
]

rank-merge_into :
    (ms : List Message) (m : Message)
    → rank_of (some (merge_into ms m)) ≡ max (rank_in m.id ms) (rank_of (some m))
unfolding merge_into
rank-merge_into ms m = elim (Option-cases (find_by message_id m.id ms)) [
  | inl absent ↦ rw (absent, merge_into) (ground arith)
  | inr (c, found) ↦ rw (found, merge_into) (merge_status-rank c m)
]

-- What one frame adds to the rank of a message.
abbrev pub rank_at : String → Message → ℕ
rank_at k m = if m.id == k then rank_of (some m) else 0

abbrev pub absorb : List Message → Message → List Message
absorb ms m = insert_message ms (merge_into ms m)

pub absorb-HasDistinctIds :
    (ms : List Message) (m : Message) → HasDistinctIds ms → HasDistinctIds (absorb ms m)
absorb-HasDistinctIds ms m d = insert_message-HasDistinctIds ms (merge_into ms m) d

-- Folding one message in raises its own rank to its status, if that is further, and no other's.
pub rank_in-absorb :
    (k : String) (ms : List Message) (m : Message)
    → HasDistinctIds ms
    → rank_in k (absorb ms m) ≡ max (rank_in k ms) (rank_at k m)
rank_in-absorb k ms m d =
    rw (find_by-insert_message k ms (merge_into ms m) d, id-merge_into ms m)
      (elim (Bool-cases (m.id == k)) [
        | inl same ↦ rw same (rank-merge_into ms m ∙ rw (eq→path same) refl)
        | inr other ↦ rw other (omega arith)
      ])

-- The furthest that a page takes a message.
abbrev pub peak : String → List Message → ℕ
peak k [] = 0
peak k (m ∷ page) = max (rank_at k m) (peak k page)

pub merge_page-HasDistinctIds :
    (ms page : List Message) → HasDistinctIds ms → HasDistinctIds (merge_page ms page)
unfolding merge_page
merge_page-HasDistinctIds ms [] d = d
merge_page-HasDistinctIds ms (m ∷ page) d =
    merge_page-HasDistinctIds (absorb ms m) page (absorb-HasDistinctIds ms m d)

-- After a page is merged into a history with distinct ids, each message has the furthest status
-- that the history or the page knew of it.
pub rank_in-merge_page :
    (k : String) (ms page : List Message)
    → HasDistinctIds ms
    → rank_in k (merge_page ms page) ≡ max (rank_in k ms) (peak k page)
unfolding merge_page
rank_in-merge_page k ms [] d = omega arith
rank_in-merge_page k ms (m ∷ page) d = omega (
  arith,
  rank_in-absorb k ms m d,
  rank_in-merge_page k (absorb ms m) page (absorb-HasDistinctIds ms m d),
)

-- Merging two pages into a history with distinct ids gives every message the same status rank in
-- either order.
pub merge_page_comm :
    (k : String) (ms p q : List Message)
    → HasDistinctIds ms
    → rank_in k (merge_page (merge_page ms p) q) ≡ rank_in k (merge_page (merge_page ms q) p)
merge_page_comm k ms p q d = omega (
  arith,
  rank_in-merge_page k ms p d,
  rank_in-merge_page k ms q d,
  rank_in-merge_page k (merge_page ms p) q (merge_page-HasDistinctIds ms p d),
  rank_in-merge_page k (merge_page ms q) p (merge_page-HasDistinctIds ms q d),
)
