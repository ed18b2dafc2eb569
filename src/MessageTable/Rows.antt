-- ===== src/MessageTable/Rows.antt =====
-- packages/server/src/db/repositories/message-repository.ts: what a write does to each row.
use mathlib.Core.Option
use whaloc.Base.{
  String, List, [], ◌∷◌, Bool, ◌==◌, if◌then◌else◌, map, ◌≡◌, refl, ◌∙◌, ap, arith, eq_iff, eq_refl,
}
use whaloc.Shared.Entities.{Message}
use whaloc.MessageTable.{StatusInput, find_row, with_status, write_status, update_status}

find_row-write_status :
    (now id k : String) (input : StatusInput) (table : List Message)
    → find_row k (map (write_status now id input) table)
      ≡ Option.map (λ m. if id == k then with_status now input m else m) (find_row k table)
find_row-write_status now id k input [] = refl
find_row-write_status now id k input (m ∷ table) =
    ground (
      arith,
      find_row-write_status now id k input table,
      eq_iff m.id k,
      eq_iff m.id id,
      eq_iff id k,
    )

-- An update writes one row.
pub find_row-update_status :
    (now id k : String) (input : StatusInput) (table : List Message)
    → find_row k (update_status now id input table).0
      ≡ Option.map (λ m. if id == k then with_status now input m else m) (find_row k table)
unfolding update_status
find_row-update_status now id k input table = find_row-write_status now id k input table

pub row-update_status :
    (now id : String) (input : StatusInput) (table : List Message)
    → (update_status now id input table).1 ≡ Option.map (with_status now input) (find_row id table)
unfolding update_status
row-update_status now id input table =
    find_row-write_status now id id input table
    ∙ ap
        (λ (b : Bool).
          Option.map (λ m. if b then with_status now input m else m) (find_row id table))
        (eq_refl id)
