-- ===== src/Accounts/Cascades.antt =====
-- packages/server/src/domain/waba-service.ts: the walk over the numbers of an account, beside the
-- cascades of the schema.
use mathlib.Core.Option
use whaloc.Base.{
  String, List, [], ◌∷◌, ◌++◌, false, not, ◌&&◌, none, some, inl, inr, ◌≡◌, refl, ap, ◌∙◌, ◌==◌,
  Bool-cases, filter, find_by_own, All, All-of, All-map, All-filter, All-to_sorted, All-map_of,
  IsDistinct, filter-IsDistinct, to_sorted-IsDistinct, filter-filter, filter-eq, any-to_sorted,
  any-filter, any-map, any-filter-false, map-IsDistinct_of, arith, eq_iff,
}
use whaloc.Shared.Common.{ChangeEvent}
use whaloc.Shared.Entities.{Message, Template}
use whaloc.Database.{order_by_creation}
use whaloc.Database.Wabas.{WabaRecord, find_waba}
use whaloc.Database.PhoneNumbers.{
  PhoneNumberRow, PhoneNumberRecord, to_record, row_id, find_row, find_by_id, is_of_waba,
  list_by_waba_id,
}
use whaloc.Database.Media.{MediaRecord}
use whaloc.Database.Tables.{Tables, delete_templates_of, delete_waba, belongs_to}
use whaloc.Accounts.{waba_changed}
use whaloc.Accounts.Wabas.{delete_account}
use whaloc.Accounts.Deletion.{has_any, without, numbers_effects, number_id, deletes}

module _ (id : String) (rows : List PhoneNumberRow) (d : IsDistinct row_id rows) where
  listed-IsDistinct : IsDistinct number_id (list_by_waba_id id rows)
  unfolding list_by_waba_id order_by_creation to_record
  listed-IsDistinct =
      map-IsDistinct_of number_id to_record _
        (to_sorted-IsDistinct row_id _ _ (filter-IsDistinct row_id (is_of_waba id) rows d))

  listed_known : All (λ n. find_by_id n.id rows ≡ some n) (list_by_waba_id id rows)
  unfolding list_by_waba_id order_by_creation to_record find_by_id
  listed_known =
      All-map_of (λ n. find_by_id n.id rows ≡ some n) to_record _
        (All-to_sorted (λ r. find_by_id r.id rows ≡ some (to_record r)) _ _
          (All-filter _ (is_of_waba id) rows (
            All-map _ _ (λ r found. ap (Option.map to_record) found) rows
              (find_by_own row_id rows d))))

  has_any-listed : (k : String) → has_any (list_by_waba_id id rows) k ≡ belongs_to id rows k
  unfolding list_by_waba_id order_by_creation to_record
  has_any-listed k =
      any-map (λ n. n.id == k) to_record _
      ∙ any-to_sorted _ (λ r. r.id == k) (filter (is_of_waba id) rows)
      ∙ any-filter (λ r. r.id == k) (is_of_waba id) rows

-- an id that no row has is not one of the account's
absent_stranger :
    (id k : String) (rows : List PhoneNumberRow)
    → find_row k rows ≡ none
    → belongs_to id rows k ≡ false
absent_stranger id k [] h = refl
absent_stranger id k (r ∷ rows) h = ground (arith, absent_stranger id k rows)

stranger :
    (id k : String) (rows : List PhoneNumberRow) (row : PhoneNumberRow)
    → IsDistinct row_id rows
    → find_row k rows ≡ some row
    → is_of_waba id row ≡ false
    → belongs_to id rows k ≡ false
stranger id k [] row d found other = refl
stranger id k (r ∷ rows) row (new, d) found other = elim (Bool-cases (r.id == k)) [
  | inl same ↦
      let mine : r ≡ row = ground (arith, found, same) in
      let not_mine : is_of_waba id r ≡ false = ap (is_of_waba id) mine ∙ other in
      let rest = absent_stranger id k rows (ground (arith, new, same, eq_iff r.id k)) in
      rw (not_mine, rest) refl
  | inr later ↦ rw later (ground (arith, stranger id k rows row d, found, later))
]

module _ (id : String) (t : Tables) (d : IsDistinct row_id t.phone_numbers) where
  abbrev numbers : List PhoneNumberRecord
  numbers = list_by_waba_id id t.phone_numbers

  -- every row that the walk takes is of the account
  rows-left :
      filter (λ r. not (is_of_waba id r)) (filter (λ r. not (has_any numbers r.id)) t.phone_numbers)
      ≡ filter (λ r. not (is_of_waba id r)) t.phone_numbers
  rows-left =
      filter-filter _ _ t.phone_numbers
      ∙ filter-eq (λ r. not (has_any numbers r.id) && not (is_of_waba id r))
          (λ r. not (is_of_waba id r)) t.phone_numbers
          (All-map _ _ left t.phone_numbers (find_by_own row_id t.phone_numbers d))
    where
      left :
          (r : PhoneNumberRow)
          → find_row r.id t.phone_numbers ≡ some r
          → (not (has_any numbers r.id) && not (is_of_waba id r)) ≡ not (is_of_waba id r)
      left r found = ground (
        arith,
        has_any-listed id t.phone_numbers d r.id,
        stranger id r.id t.phone_numbers r d found,
      )

  module _ {A : Type 0} (number_of : A → String) where
    -- what hangs off the numbers goes with them, and nothing is left for the cascade
    items-left :
        (xs : List A)
        → filter
            (λ x. not (
              belongs_to id
                (filter (λ r. not (has_any numbers r.id)) t.phone_numbers)
                (number_of x)))
            (filter (λ x. not (has_any numbers (number_of x))) xs)
          ≡ filter (λ x. not (belongs_to id t.phone_numbers (number_of x))) xs
    items-left xs =
        filter-filter _ _ xs
        ∙ filter-eq
            (λ x.
              not (has_any numbers (number_of x))
              && not (
                  belongs_to id (filter (λ r. not (has_any numbers r.id)) t.phone_numbers)
                    (number_of x)))
            (λ x. not (belongs_to id t.phone_numbers (number_of x))) xs (All-of _ left xs)
      where
        left :
            (x : A)
            → (not (has_any numbers (number_of x))
                && not (
                    belongs_to id
                      (filter (λ r. not (has_any numbers r.id)) t.phone_numbers)
                      (number_of x)))
              ≡ not (belongs_to id t.phone_numbers (number_of x))
        left x = ground (
          arith,
          has_any-listed id t.phone_numbers d (number_of x),
          any-filter-false (λ r. is_of_waba id r && r.id == number_of x)
              (λ r. not (has_any numbers r.id)) t.phone_numbers,
        )

  tables-left : delete_waba id (delete_templates_of id (without numbers t)) ≡ delete_waba id t
  unfolding delete_waba delete_templates_of without
  tables-left =
      rw
        (
          rows-left,
          items-left (λ (m : MediaRecord). m.phone_number_id) t.media,
          items-left (λ (m : Message). m.phone_number_id) t.messages,
          filter-filter (λ (x : Template). not (x.waba_id == id)) (λ x. not (x.waba_id == id))
              t.templates,
          filter-eq (λ (x : Template). not (x.waba_id == id) && not (x.waba_id == id))
              (λ x. not (x.waba_id == id)) t.templates (All-of _ (λ x. ground arith) t.templates),
        )
        refl

  -- Where no two numbers have one id, the deletion of a known account never fails. It leaves the
  -- tables that the cascades of the schema alone would leave, and it announces every number of the
  -- account, in the order of the listing, each after the deletion of the bytes of its media, and the
  -- account last.
  pub delete_account-eq-delete_waba :
      (waba : WabaRecord)
      → find_waba id t.wabas ≡ some waba
      → delete_account id t
        ≡ inr (record {
          tables = delete_waba id t;
          effects =
              numbers_effects t (list_by_waba_id id t.phone_numbers)
              ++ waba_changed waba ChangeEvent.deleted ∷ [];
          result = waba;
        })
  unfolding delete_account
  delete_account-eq-delete_waba waba found =
      rw
        (
          found,
          deletes numbers t (listed-IsDistinct id t.phone_numbers d)
              (listed_known id t.phone_numbers d),
          tables-left,
        )
        refl
