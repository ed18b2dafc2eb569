-- ===== src/Accounts/Format.antt =====
-- packages/server/src/domain/phone-number-format.ts and phone-number-requests.ts: the digits of a
-- phone number.
use Prim.Native.Char.{code}
use Prim.Native.String.{String, [], ◌∷◌, ◌++◌}
use whaloc.Base.{
  Bool, true, false, ◌&&◌, Option, none, some, leb, if◌then◌else◌, is_digit, behind, is_some,
  text_length,
}

-- `replaceAll(/\D/g, "")`
abbrev pub phone_number_digits : String → String
phone_number_digits [] = []
phone_number_digits (c ∷ s) =
    let rest = phone_number_digits s in if is_digit (code c) then c ∷ rest else rest

unfoldable pub format_display_phone_number : String → String
format_display_phone_number digits = "+" ++ digits

abbrev pub all_digits : String → Bool
all_digits [] = true
all_digits (c ∷ s) = is_digit (code c) && all_digits s

-- `E164_PATTERN`: /^[1-9]\d{6,14}$/
abbrev pub is_e164 : String → Bool
is_e164 [] = false
is_e164 (c ∷ s) =
    (leb b'1' (code c) && leb (code c) b'9')
    && (all_digits s && (leb 6 (text_length s) && leb (text_length s) 14))

-- `GraphPhoneNumberCreateRequest`
pub record CreateRequest : Type 0 where
  pub phone_number : String
  pub verified_name : String
  pub cc : Option String
  pub migrate_phone_number : Option Bool
  pub preverified_id : Option String

abbrev with_code : Option String → String → String
with_code none number = number
with_code (some cc) number = if is_some (behind cc number) then number else cc ++ number

-- the country code is put in front where it is missing
unfoldable pub e164_digits : CreateRequest → String
e164_digits request = with_code request.cc request.phone_number
