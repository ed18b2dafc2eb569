-- ===== src/Accounts/Uniqueness.antt =====
-- packages/server/src/domain/phone-number-service.ts: ids and digits are those of one number.
use whaloc.Base.{
  String, List, [], ◌∷◌, Bool, false, not, ◌&&◌, Option, none, some, inl, inr, ◌≡◌, refl, ◌==◌,
  Bool-cases, Option-cases, map, has_key, find_by, All, IsDistinct, arith, eq_comm, eq→path,
  find-Fails, map-All, to_sorted-All, Fails-find, map-IsDistinct, append-IsDistinct,
  filter-IsDistinct,
}
use whaloc.Database.{order_by_creation, by_creation}
use whaloc.Database.PhoneNumbers.{
  PhoneNumberRow, PhoneNumberRecord, UpdatePhoneNumberInput, to_record, row_id, find_row, new_row,
  patched, write, list,
}
use whaloc.Database.Tables.{Tables}
use whaloc.Accounts.Steps.{Reaches}
use whaloc.Accounts.Steps.Reaches.{here, after}
use whaloc.Accounts.Calls.{run-Change}
use whaloc.Accounts.Format.{phone_number_digits}
use whaloc.Accounts.Rows.{find_by_digits, holds_digits}
use whaloc.Accounts.Changes.{IsFree, IsFreeFor, Change}
use whaloc.Accounts.Changes.Change.{added, written, removed}

abbrev pub digits_of : PhoneNumberRow → String
digits_of row = phone_number_digits row.display_phone_number

-- no two numbers have one id, and no two have the same digits
pub record IsUnique (rows : List PhoneNumberRow) : Type 0 where
  pub ids : IsDistinct row_id rows
  pub digits : IsDistinct digits_of rows

-- what a search for digits that finds nothing says of every row
pub free-All :
    (except_id : Option String) (rows : List PhoneNumberRow) (display : String)
    → IsFree except_id rows display
    → All (λ r. holds_digits (phone_number_digits display) except_id (to_record r) ≡ false) rows
unfolding find_by_digits list order_by_creation
free-All except_id rows display free =
    let p : PhoneNumberRecord → Bool = holds_digits (phone_number_digits display) except_id in
    let sorted = find-Fails p (list rows) free in
    let mapped = map-All (λ r. p r ≡ false) to_record _ sorted in
    to_sorted-All (λ r. p (to_record r) ≡ false) (by_creation (λ r. r.created_at) row_id) rows
      mapped

free-absent :
    (rows : List PhoneNumberRow) (display : String)
    → IsFree none rows display
    → find_by digits_of (phone_number_digits display) rows ≡ none
unfolding to_record
free-absent rows display free =
    Fails-find (has_key digits_of (phone_number_digits display)) rows
      (free-All none rows display free)

module _ (id : String) (input : UpdatePhoneNumberInput) where
  pub id-write : (r : PhoneNumberRow) → (write id input r).id ≡ r.id
  unfolding patched
  id-write r = ground arith

  -- no row of that id, nothing to write
  write_absent :
      (rows : List PhoneNumberRow) → find_row id rows ≡ none → map (write id input) rows ≡ rows
  write_absent [] h = refl
  write_absent (r ∷ rows) h = ground (arith, write_absent rows)

  kept_digits :
      input.display_phone_number ≡ none
      → (r : PhoneNumberRow) → digits_of (write id input r) ≡ digits_of r
  unfolding patched
  kept_digits h r = ground (arith, h)

  new_digits :
      (display : String)
      → input.display_phone_number ≡ some display
      → (r : PhoneNumberRow) → digits_of (patched input r) ≡ phone_number_digits display
  unfolding patched
  new_digits display h r = rw h refl

  -- other rows do not have the new digits
  abbrev Others : String → List PhoneNumberRow → Type 0
  Others d rows = All (λ r. (not (r.id == id) && digits_of r == d) ≡ false) rows

  absent_write :
      (display e : String) (rows : List PhoneNumberRow)
      → input.display_phone_number ≡ some display
      → (phone_number_digits display == e) ≡ false
      → find_by digits_of e rows ≡ none
      → find_by digits_of e (map (write id input) rows) ≡ none
  absent_write display e [] h other absent = refl
  absent_write display e (r ∷ rows) h other absent =
      ground (arith, absent_write display e rows h other, new_digits display h r, absent)

  Others-absent :
      (d : String) (rows : List PhoneNumberRow)
      → find_row id rows ≡ none
      → Others d rows
      → find_by digits_of d rows ≡ none
  Others-absent d [] gone h = refl
  Others-absent d (r ∷ rows) gone (other, others) = ground (arith, Others-absent d rows, other)

  write-IsDistinct :
      (display : String) (rows : List PhoneNumberRow)
      → input.display_phone_number ≡ some display
      → IsDistinct row_id rows
      → IsDistinct digits_of rows
      → Others (phone_number_digits display) rows
      → IsDistinct digits_of (map (write id input) rows)
  write-IsDistinct display [] h ids digits others = tt
  write-IsDistinct display (r ∷ rows) h (new, ids) (fresh, digits) (other, others) =
      elim (Bool-cases (r.id == id)) [
        | inl own ↦
            let gone : find_row id rows ≡ none = rw (eq→path own) at new in
            rw (own, write_absent rows gone)
              (rw (new_digits display h r)
                (Others-absent (phone_number_digits display) rows gone others, digits))
        | inr not_own ↦ rw not_own (
          absent_write display (digits_of r) rows h
              (ground (arith, other, eq_comm (digits_of r) (phone_number_digits display))) fresh,
          write-IsDistinct display rows h ids digits others,
        )
      ]

  written-IsUnique :
      (rows : List PhoneNumberRow)
      → IsFreeFor id rows input.display_phone_number
      → IsUnique rows
      → IsUnique (map (write id input) rows)
  unfolding to_record
  written-IsUnique rows free u = record {
    ids = map-IsDistinct row_id (write id input) id-write rows u.ids;
    digits = elim (Option-cases input.display_phone_number) [
      | inl same ↦ map-IsDistinct digits_of (write id input) (kept_digits same) rows u.digits
      | inr (display, e) ↦
          write-IsDistinct display rows e u.ids u.digits
            (free-All (some id) rows display (rw e at free))
    ];
  }

Change-IsUnique :
    (rows rows' : List PhoneNumberRow) → Change rows rows' → IsUnique rows → IsUnique rows'
unfolding new_row
Change-IsUnique rows rows' (added now input new free legal) u = record {
  ids = append-IsDistinct row_id rows (new_row now input) u.ids new;
  digits =
      append-IsDistinct digits_of rows (new_row now input) u.digits
        (free-absent rows input.display_phone_number free);
}
Change-IsUnique rows rows' (written id input free legal) u = written-IsUnique id input rows free u
Change-IsUnique rows rows' (removed id) u = record {
  ids = filter-IsDistinct row_id (λ r. not (r.id == id)) rows u.ids;
  digits = filter-IsDistinct digits_of (λ r. not (r.id == id)) rows u.digits;
}

-- From tables in which no two phone numbers have one id or the same digits, calls of the service
-- lead to such tables only, whatever the formatting of the numbers and whoever makes the calls.
pub Reaches-IsUnique :
    (derive : String → String) (t u : Tables)
    → Reaches derive t u
    → IsUnique t.phone_numbers
    → IsUnique u.phone_numbers
Reaches-IsUnique derive t u here h = h
Reaches-IsUnique derive t u (after {u = v} call done before e) h =
    Change-IsUnique v.phone_numbers done.tables.phone_numbers (run-Change derive call v done e)
      (Reaches-IsUnique derive t v before h)
