-- ===== src/Accounts/Changes.antt =====
-- packages/server/src/domain/phone-number-service.ts: the changes that a call may make to the
-- rows.
use whaloc.Base.{String, List, [], ◌∷◌, ◌++◌, Option, none, some, inr, ◌≡◌, sym, subst, map, remove}
use whaloc.Shared.Common.{PhoneNumberStatus, CodeVerificationStatus}
use whaloc.Database.PhoneNumbers.{
  PhoneNumberRow, PhoneNumberRecord, InsertPhoneNumberInput, UpdatePhoneNumberInput, row_id,
  find_row, new_row, patched, write,
}
use whaloc.Database.Tables.{Tables}
use whaloc.Accounts.{Failure, Outcome}
use whaloc.Accounts.Format.{phone_number_digits}
use whaloc.Accounts.Rows.{patch, insert_into, find_by_digits}
use whaloc.Accounts.Writes.{patch-returns, insert_into-returns}

-- a number that is connected has a confirmed code
abbrev pub IsLegal : PhoneNumberRow → Type 0
IsLegal row =
    row.status ≡ PhoneNumberStatus.connected
    → row.code_verification_status ≡ CodeVerificationStatus.verified

-- no other number holds the digits of a display number
abbrev pub IsFree : Option String → List PhoneNumberRow → String → Type 0
IsFree except_id rows display = find_by_digits (phone_number_digits display) except_id rows ≡ none

abbrev pub IsFreeFor : String → List PhoneNumberRow → Option String → Type 0
IsFreeFor id rows none = Unit
IsFreeFor id rows (some display) = IsFree (some id) rows display

pub data Change : List PhoneNumberRow → List PhoneNumberRow → Type 0 where
  added :
      {rows : List PhoneNumberRow} (now : String) (input : InsertPhoneNumberInput)
      → find_row input.id rows ≡ none
      → IsFree none rows input.display_phone_number
      → IsLegal (new_row now input)
      → Change rows (rows ++ new_row now input ∷ [])
  written :
      {rows : List PhoneNumberRow} (id : String) (input : UpdatePhoneNumberInput)
      → IsFreeFor id rows input.display_phone_number
      → ((row : PhoneNumberRow)
          → find_row id rows ≡ some row
          → IsLegal row
          → IsLegal (patched input row))
      → Change rows (map (write id input) rows)
  removed : {rows : List PhoneNumberRow} (id : String) → Change rows (remove row_id id rows)

pub patch-Change :
    (missing : Failure) (id : String) (input : UpdatePhoneNumberInput) (t : Tables)
    (o : Outcome PhoneNumberRecord)
    → patch missing id input t ≡ inr o
    → IsFreeFor id t.phone_numbers input.display_phone_number
    → ((row : PhoneNumberRow)
        → find_row id t.phone_numbers ≡ some row
        → IsLegal row
        → IsLegal (patched input row))
    → Change t.phone_numbers o.tables.phone_numbers
patch-Change missing id input t o e free legal =
    subst (λ (u : Tables). Change t.phone_numbers u.phone_numbers)
      (sym (patch-returns missing id input t o e).0) (Change.written id input free legal)

pub insert-Change :
    (now : String) (input : InsertPhoneNumberInput) (t : Tables) (o : Outcome PhoneNumberRecord)
    → insert_into now input t ≡ inr o
    → IsFree none t.phone_numbers input.display_phone_number
    → IsLegal (new_row now input)
    → Change t.phone_numbers o.tables.phone_numbers
insert-Change now input t o e free legal =
    let (same, new) = insert_into-returns now input t o e in
    subst (λ (u : Tables). Change t.phone_numbers u.phone_numbers) (sym same)
      (Change.added now input new free legal)
