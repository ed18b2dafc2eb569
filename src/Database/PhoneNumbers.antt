-- ===== src/Database/PhoneNumbers.antt =====
-- packages/server/src/db/repositories/phone-number-repository.ts: the table of phone numbers. The
-- columns are those of the schema; the JSON of a business profile is kept as its value.
use whaloc.Base.{
  String, List, [], ◌∷◌, ◌++◌, Bool, false, ◌&&◌, ◌||◌, Option, none, some, get_or, ◌==◌,
  if◌then◌else◌, is_some, find, find_by, filter, map, any, not,
}
use mathlib.Core.Option
use whaloc.Shared.Common.{
  Json, obj, QualityRating, ThroughputLevel, PhoneNumberStatus, CodeVerificationStatus, NameStatus,
}
use whaloc.Shared.Common.Fields.{end}
use whaloc.Database.{order_by_creation}

pub data VerificationCodeMethod : Type 0 where
  sms voice : VerificationCodeMethod

pub record PendingVerification : Type 0 where
  pub code : String
  pub method : VerificationCodeMethod
  pub language : String

-- `PhoneNumberTable`
pub record PhoneNumberRow : Type 0 where
  pub id : String
  pub waba_id : String
  pub display_phone_number : String
  pub verified_name : String
  pub quality_rating : QualityRating
  pub throughput_level : ThroughputLevel
  pub status : PhoneNumberStatus
  pub code_verification_status : CodeVerificationStatus
  pub name_status : NameStatus
  pub verification_code : Option String
  pub verification_code_method : Option VerificationCodeMethod
  pub verification_code_language : Option String
  pub business_profile : Json
  pub created_at : String

pub record PhoneNumberRecord : Type 0 where
  pub id : String
  pub waba_id : String
  pub display_phone_number : String
  pub verified_name : String
  pub quality_rating : QualityRating
  pub throughput_level : ThroughputLevel
  pub status : PhoneNumberStatus
  pub code_verification_status : CodeVerificationStatus
  pub name_status : NameStatus
  pub pending_verification : Option PendingVerification
  pub business_profile : Json
  pub created_at : String

pub record InsertPhoneNumberInput : Type 0 where
  pub id : String
  pub waba_id : String
  pub display_phone_number : String
  pub verified_name : String
  pub quality_rating : Option QualityRating
  pub throughput_level : Option ThroughputLevel
  pub status : Option PhoneNumberStatus
  pub code_verification_status : Option CodeVerificationStatus
  pub name_status : Option NameStatus
  pub created_at : Option String

-- a pending verification that is `some none` is cleared
pub record UpdatePhoneNumberInput : Type 0 where
  pub display_phone_number : Option String
  pub verified_name : Option String
  pub quality_rating : Option QualityRating
  pub throughput_level : Option ThroughputLevel
  pub status : Option PhoneNumberStatus
  pub code_verification_status : Option CodeVerificationStatus
  pub name_status : Option NameStatus
  pub pending_verification : Option (Option PendingVerification)
  pub business_profile : Option Json

abbrev pub default_status : PhoneNumberStatus
default_status = PhoneNumberStatus.connected

abbrev pub default_code_verification_status : CodeVerificationStatus
default_code_verification_status = CodeVerificationStatus.verified

abbrev pub default_name_status : NameStatus
default_name_status = NameStatus.approved

-- the columns of a pending verification
abbrev pub VerificationColumns : Type 0
VerificationColumns = Option String × Option VerificationCodeMethod × Option String

abbrev pub to_pending_verification : VerificationColumns → Option PendingVerification
to_pending_verification (some code, some method, language) =
    some (record { code = code; method = method; language = get_or language "" })
to_pending_verification (some code, none, language) = none
to_pending_verification (none, method, language) = none

abbrev pub verification_columns : Option PendingVerification → VerificationColumns
verification_columns none = (none, none, none)
verification_columns (some p) = (some p.code, some p.method, some p.language)

abbrev pub columns_of : PhoneNumberRow → VerificationColumns
columns_of row =
    (row.verification_code, row.verification_code_method, row.verification_code_language)

unfoldable pub to_record : PhoneNumberRow → PhoneNumberRecord
to_record row = record {
  id = row.id;
  waba_id = row.waba_id;
  display_phone_number = row.display_phone_number;
  verified_name = row.verified_name;
  quality_rating = row.quality_rating;
  throughput_level = row.throughput_level;
  status = row.status;
  code_verification_status = row.code_verification_status;
  name_status = row.name_status;
  pending_verification = to_pending_verification (columns_of row);
  business_profile = row.business_profile;
  created_at = row.created_at;
}

abbrev pub row_id : PhoneNumberRow → String
row_id row = row.id

abbrev pub find_row : String → List PhoneNumberRow → Option PhoneNumberRow
find_row id table = find_by row_id id table

-- `findById`
unfoldable pub find_by_id : String → List PhoneNumberRow → Option PhoneNumberRecord
find_by_id id table = Option.map to_record (find_row id table)

-- the index of the schema on an account and a display number
abbrev pub has_natural_key : String → String → PhoneNumberRow → Bool
has_natural_key waba_id display row = row.waba_id == waba_id && row.display_phone_number == display

unfoldable pub find_by_display_phone_number :
    String → String → List PhoneNumberRow → Option PhoneNumberRecord
find_by_display_phone_number waba_id display table =
    Option.map to_record (find (has_natural_key waba_id display) table)

-- the row that `insert` writes; `now` is the clock
unfoldable pub new_row : String → InsertPhoneNumberInput → PhoneNumberRow
new_row now input =
    let (code, method, language) = verification_columns none in
    record {
      id = input.id;
      waba_id = input.waba_id;
      display_phone_number = input.display_phone_number;
      verified_name = input.verified_name;
      quality_rating = get_or input.quality_rating QualityRating.green;
      throughput_level = get_or input.throughput_level ThroughputLevel.standard;
      status = get_or input.status default_status;
      code_verification_status =
          get_or input.code_verification_status default_code_verification_status;
      name_status = get_or input.name_status default_name_status;
      verification_code = code;
      verification_code_method = method;
      verification_code_language = language;
      business_profile = obj end;
      created_at = get_or input.created_at now;
    }

-- `none` is a write that the primary key or the index refuses
unfoldable pub insert :
    String
    → InsertPhoneNumberInput
    → List PhoneNumberRow
    → Option (List PhoneNumberRow × PhoneNumberRecord)
insert now input table =
    if is_some (find_row input.id table)
      || any (has_natural_key input.waba_id input.display_phone_number) table
    then none
    else (let row = new_row now input in some (table ++ row ∷ [], to_record row))

-- `updateTable(…).set(patch)` on one row
unfoldable pub patched : UpdatePhoneNumberInput → PhoneNumberRow → PhoneNumberRow
patched input row =
    let (code, method, language) =
      get_or (Option.map verification_columns input.pending_verification) (columns_of row) in
    record row {
      display_phone_number = get_or input.display_phone_number row.display_phone_number;
      verified_name = get_or input.verified_name row.verified_name;
      quality_rating = get_or input.quality_rating row.quality_rating;
      throughput_level = get_or input.throughput_level row.throughput_level;
      status = get_or input.status row.status;
      code_verification_status = get_or input.code_verification_status row.code_verification_status;
      name_status = get_or input.name_status row.name_status;
      verification_code = code;
      verification_code_method = method;
      verification_code_language = language;
      business_profile = get_or input.business_profile row.business_profile;
    }

abbrev pub write : String → UpdatePhoneNumberInput → PhoneNumberRow → PhoneNumberRow
write id input row = if row.id == id then patched input row else row

-- a row that keeps the index from giving a number this display number
abbrev pub is_in_the_way : PhoneNumberRow → String → PhoneNumberRow → Bool
is_in_the_way own display row = not (row.id == own.id) && has_natural_key own.waba_id display row

abbrev pub is_refused : Option String → Option PhoneNumberRow → List PhoneNumberRow → Bool
is_refused (some display) (some own) table = any (is_in_the_way own display) table
is_refused _ _ table = false

-- `none` is a write that the index refuses. An empty patch leaves every row as it is, so it needs
-- no test of its own.
unfoldable pub update :
    String
    → UpdatePhoneNumberInput
    → List PhoneNumberRow
    → Option (List PhoneNumberRow × Option PhoneNumberRecord)
unfolding find_by_id
update id input table =
    if is_refused input.display_phone_number (find_row id table) table
    then none
    else (let table' = map (write id input) table in some (table', find_by_id id table'))

unfoldable pub list : List PhoneNumberRow → List PhoneNumberRecord
list table = map to_record (order_by_creation (λ r. r.created_at) row_id table)

abbrev pub is_of_waba : String → PhoneNumberRow → Bool
is_of_waba waba_id row = row.waba_id == waba_id

unfoldable pub list_by_waba_id : String → List PhoneNumberRow → List PhoneNumberRecord
list_by_waba_id waba_id table =
    map to_record (order_by_creation (λ r. r.created_at) row_id (filter (is_of_waba waba_id) table))
