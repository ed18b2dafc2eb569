-- ===== src/Accounts/Rows.antt =====
-- packages/server/src/domain/phone-number-service.ts: what the calls share: the writes of a
-- row, and the search for the digits of a number.
use Prim.Native.String.{◌++◌ as ◌++ˢ◌}
use whaloc.Base.{
  String, List, [], ◌∷◌, Bool, not, ◌&&◌, Option, none, some, ◌⊎◌, inr, ◌==◌, if◌then◌else◌,
  is_some, same_text, find, raise, require, or_raise, ◌>>=◌,
}
use whaloc.Shared.Common.{ChangeEvent, created, updated}
use whaloc.GraphError.{unknown_object_error}
use whaloc.ControlPlaneError.{control_not_found, control_bad_request, control_conflict}
use whaloc.Database.PhoneNumbers.{
  PhoneNumberRow, PhoneNumberRecord, InsertPhoneNumberInput, UpdatePhoneNumberInput, insert, update,
  list,
}
use whaloc.Database.Tables.{Tables}
use whaloc.Accounts.{Failure, graph, control, constraint, phone_number_changed, Outcome, Call}
use whaloc.Accounts.Format.{phone_number_digits}

abbrev pub outcome :
    Tables → List PhoneNumberRow → PhoneNumberRecord → ChangeEvent → Outcome PhoneNumberRecord
outcome t rows number event = record {
  tables = record t { phone_numbers = rows };
  effects = phone_number_changed number event ∷ [];
  result = number;
}

abbrev pub unknown_object : String → Failure
unknown_object id = graph (unknown_object_error id)

abbrev pub unknown_phone_number : String → Failure
unknown_phone_number id =
    control (control_not_found ("no phone number with id " ++ˢ id) (some "unknown_phone_number"))

abbrev pub no_change : UpdatePhoneNumberInput
no_change = record {
  display_phone_number = none;
  verified_name = none;
  quality_rating = none;
  throughput_level = none;
  status = none;
  code_verification_status = none;
  name_status = none;
  pending_verification = none;
  business_profile = none;
}

-- `#patch` and `#patchControl`: they differ in the error of an unknown number
unfoldable pub patch : Failure → String → UpdatePhoneNumberInput → Tables → Call PhoneNumberRecord
patch missing id input t = do
  (rows, found) ← or_raise (update id input t.phone_numbers) constraint
  number ← or_raise found missing
  inr (outcome t rows number updated)

unfoldable pub insert_into : String → InsertPhoneNumberInput → Tables → Call PhoneNumberRecord
insert_into now input t = do
  (rows, number) ← or_raise (insert now input t.phone_numbers) constraint
  inr (outcome t rows number created)

abbrev pub holds_digits : String → Option String → PhoneNumberRecord → Bool
holds_digits digits except_id candidate =
    not (same_text (some candidate.id) except_id)
    && phone_number_digits candidate.display_phone_number == digits

-- `#findByDigits`
unfoldable pub find_by_digits :
    String → Option String → List PhoneNumberRow → Option PhoneNumberRecord
find_by_digits digits except_id rows = find (holds_digits digits except_id) (list rows)

-- `#digitsOrThrow`
unfoldable pub digits_or_throw : String → Failure ⊎ String
digits_or_throw display =
    let digits = phone_number_digits display in
    if digits == ""
    then raise (
        control (
          control_bad_request (display ++ˢ " has no digits to dial") (some "invalid_phone_number")))
    else inr digits

-- `#assertDigitsAreFree`
unfoldable pub assert_digits_are_free :
    String → Option String → List PhoneNumberRow → Failure ⊎ Unit {0}
assert_digits_are_free digits except_id rows =
    require (not (is_some (find_by_digits digits except_id rows))) (
      control (
        control_conflict (digits ++ˢ " is already registered on another phone number")
          (some "duplicate_phone_number")))
