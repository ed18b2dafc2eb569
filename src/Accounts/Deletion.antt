-- ===== src/Accounts/Deletion.antt =====
-- packages/server/src/domain/waba-service.ts: the deletion of an account.
use mathlib.Core.Option
use whaloc.Base.{
  String, List, [], ◌∷◌, ◌++◌, Bool, false, not, ◌&&◌, none, some, inr, ◌≡◌, refl, ap, ◌∙◌, ◌==◌,
  any, filter, find_by, find_by-remove, All, All-of, IsDistinct, filter-filter, filter-eq,
  filter_kept, arith, eq_iff, eq_comm,
}
use whaloc.Shared.Common.{ChangeEvent}
use whaloc.Shared.Entities.{Message}
use whaloc.Database.{order_by_creation}
use whaloc.Database.PhoneNumbers.{PhoneNumberRow, PhoneNumberRecord, to_record, row_id, find_by_id}
use whaloc.Database.Media.{MediaRecord, media_of_number}
use whaloc.Database.Tables.{Tables, delete_phone_number}
use whaloc.Accounts.{Effect, phone_number_changed}
use whaloc.Accounts.PhoneNumbers.{delete, delete_objects}
use whaloc.Accounts.Wabas.{delete_numbers}

abbrev pub has_any : List PhoneNumberRecord → String → Bool
has_any numbers id = any (λ n. n.id == id) numbers

-- the tables without the numbers and what hangs off them
unfoldable pub without : List PhoneNumberRecord → Tables → Tables
without numbers t = record t {
  phone_numbers = filter (λ r. not (has_any numbers r.id)) t.phone_numbers;
  media = filter (λ m. not (has_any numbers m.phone_number_id)) t.media;
  messages = filter (λ m. not (has_any numbers m.phone_number_id)) t.messages;
}

-- what the deletion of a number announces
abbrev pub number_effects : Tables → PhoneNumberRecord → List Effect
number_effects t number =
    delete_objects (media_of_number number.id t.media)
    ++ phone_number_changed number ChangeEvent.deleted ∷ []

abbrev pub numbers_effects : Tables → List PhoneNumberRecord → List Effect
numbers_effects t [] = []
numbers_effects t (number ∷ numbers) = number_effects t number ++ numbers_effects t numbers

module _ {A : Type 0} (number_of : A → String) where
  kept_without : (xs : List A) → filter (λ x. not (has_any [] (number_of x))) xs ≡ xs
  kept_without xs = filter_kept _ xs (All-of _ (λ x. refl) xs)

  gone_after :
      (number : PhoneNumberRecord) (numbers : List PhoneNumberRecord) (xs : List A)
      → filter
          (λ x. not (has_any numbers (number_of x)))
          (filter (λ x. not (number_of x == number.id)) xs)
        ≡ filter (λ x. not (has_any (number ∷ numbers) (number_of x))) xs
  gone_after number numbers xs =
      filter-filter _ _ xs
      ∙ filter-eq (λ x. not (number_of x == number.id) && not (has_any numbers (number_of x))) _ xs
          (All-of _ (λ x. ground (arith, eq_comm (number_of x) number.id)) xs)

without-nil : (t : Tables) → without [] t ≡ t
unfolding without
without-nil t =
    rw
      (
        kept_without (λ (r : PhoneNumberRow). r.id) t.phone_numbers,
        kept_without (λ (m : MediaRecord). m.phone_number_id) t.media,
        kept_without (λ (m : Message). m.phone_number_id) t.messages,
      )
      refl

without-cons :
    (number : PhoneNumberRecord) (numbers : List PhoneNumberRecord) (t : Tables)
    → without numbers (delete_phone_number number.id t) ≡ without (number ∷ numbers) t
unfolding without delete_phone_number
without-cons number numbers t =
    rw
      (
        gone_after (λ (r : PhoneNumberRow). r.id) number numbers t.phone_numbers,
        gone_after (λ (m : MediaRecord). m.phone_number_id) number numbers t.media,
        gone_after (λ (m : Message). m.phone_number_id) number numbers t.messages,
      )
      refl

-- every number of the list is in the table, as it is listed
abbrev pub AreKnown : Tables → List PhoneNumberRecord → Type 0
AreKnown t numbers = All (λ n. find_by_id n.id t.phone_numbers ≡ some n) numbers

abbrev pub number_id : PhoneNumberRecord → String
number_id n = n.id

module _ (number : PhoneNumberRecord) (t : Tables) where
  find_by_id-delete :
      (k : String)
      → (k == number.id) ≡ false
      → find_by_id k (delete_phone_number number.id t).phone_numbers ≡ find_by_id k t.phone_numbers
  unfolding find_by_id delete_phone_number
  find_by_id-delete k other =
      ap (Option.map to_record)
        (find_by-remove row_id number.id k t.phone_numbers ∙ rw (eq_comm number.id k ∙ other) refl)

  media_of-delete :
      (k : String)
      → (k == number.id) ≡ false
      → media_of_number k (delete_phone_number number.id t).media ≡ media_of_number k t.media
  unfolding media_of_number delete_phone_number
  media_of-delete k other = ap (order_by_creation _ _) (
      filter-filter _ _ t.media
      ∙ filter-eq (λ m. not (m.phone_number_id == number.id) && m.phone_number_id == k) _ t.media
          (All-of _
            (λ m. ground (
              arith,
              other,
              eq_iff m.phone_number_id number.id,
              eq_iff m.phone_number_id k,
              eq_iff k number.id,
            ))
            t.media))

  later_known :
      (numbers : List PhoneNumberRecord)
      → find_by number_id number.id numbers ≡ none
      → AreKnown t numbers
      → AreKnown (delete_phone_number number.id t) numbers
        × (numbers_effects (delete_phone_number number.id t) numbers ≡ numbers_effects t numbers)
  later_known [] new h = (tt, refl)
  later_known (n ∷ numbers) new (known, h) =
      let other : (n.id == number.id) ≡ false = ground (arith, new) in
      let (rest, effects) = later_known numbers (ground (arith, new)) h in
      ((find_by_id-delete n.id other ∙ known, rest), rw (media_of-delete n.id other, effects) refl)

pub deletes :
    (numbers : List PhoneNumberRecord) (t : Tables)
    → IsDistinct number_id numbers
    → AreKnown t numbers
    → delete_numbers numbers t ≡ inr (without numbers t, numbers_effects t numbers)
unfolding delete_numbers delete
deletes [] t d h = rw (without-nil t) refl
deletes (number ∷ numbers) t (new, d) (known, h) =
    let (rest, effects) = later_known number t numbers new h in
    rw
      (
        known,
        deletes numbers (delete_phone_number number.id t) d rest,
        without-cons number numbers t,
        effects,
      )
      refl
