-- ===== src/Accounts/Tests.antt =====
-- Runs of the account and phone number services on small tables.
use whaloc.Base.{String, [], ◌∷◌, ◌++◌, to_sorted, none, some, inl, inr, ◌≡◌, ◌≢◌, refl, All}
use whaloc.Shared.Common.{
  obj, QualityRating, ThroughputLevel, PhoneNumberStatus, CodeVerificationStatus, NameStatus,
  ChangeEvent,
}
use whaloc.Shared.Common.Fields.{end}
use whaloc.Database.Wabas.{WabaRecord}
use whaloc.Database.PhoneNumbers.{
  VerificationCodeMethod, PhoneNumberRow, PhoneNumberRecord, insert, update, list, find_by_id,
  new_row, patched, to_record, list_by_waba_id,
}
use whaloc.Database.Media.{MediaRecord}
use whaloc.Database.{order_by_creation}
use whaloc.Database.Tables.{Tables, delete_waba}
use whaloc.GraphError.{phone_number_already_exists_error}
use whaloc.Accounts.{graph, constraint, waba_changed, phone_number_changed, Outcome}
use whaloc.Accounts.Format.{CreateRequest, e164_digits, format_display_phone_number}
use whaloc.Accounts.PhoneNumbers.{RequestCodeRequest, add_to_waba, verify_code}
use whaloc.Accounts.Rows.{patch, insert_into, find_by_digits, outcome}
use whaloc.Accounts.Wabas.{delete_account}
use whaloc.Accounts.Steps.{NumberCall, Reaches, run}
use whaloc.Accounts.Changes.{IsLegal}
use whaloc.Accounts.Uniqueness.{IsUnique, Reaches-IsUnique}
use whaloc.Accounts.Ladder.{
  Reaches-IsLegal, onboard, IsOnboarded, onboard-IsOnboarded, used_code, verify_code_once,
}
use whaloc.Accounts.Keys.{run_allowed}
use whaloc.Accounts.Deletion.{numbers_effects}
use whaloc.Accounts.Cascades.{delete_account-eq-delete_waba}

abbrev acme : WabaRecord
acme = record { id = "10"; name = "Acme"; subscribed_at = none; created_at = "a" }

-- seeded: connected from the start
abbrev seeded : PhoneNumberRow
seeded = record {
  id = "20";
  waba_id = "10";
  display_phone_number = "+1 631-555-0000";
  verified_name = "Acme";
  quality_rating = QualityRating.green;
  throughput_level = ThroughputLevel.standard;
  status = PhoneNumberStatus.connected;
  code_verification_status = CodeVerificationStatus.verified;
  name_status = NameStatus.approved;
  verification_code = none;
  verification_code_method = none;
  verification_code_language = none;
  business_profile = obj end;
  created_at = "a";
}

abbrev picture : MediaRecord
picture = record {
  id = "30";
  phone_number_id = "20";
  mime_type = "image/png";
  sha256 = "00";
  file_size = 4;
  storage_key = "key";
  url_token = "token";
  created_at = "b";
}

abbrev start : Tables
start = record {
  wabas = acme ∷ [];
  phone_numbers = seeded ∷ [];
  media = picture ∷ [];
  messages = [];
  templates = [];
}

start-IsUnique : IsUnique start.phone_numbers
start-IsUnique = record { ids = (refl, tt); digits = (refl, tt) }

abbrev request : CreateRequest
request = record {
  phone_number = "6315550001";
  verified_name = "Second";
  cc = some "1";
  migrate_phone_number = none;
  preverified_id = none;
}

abbrev added_row : PhoneNumberRow
added_row = record {
  id = "21";
  waba_id = "10";
  display_phone_number = "+16315550001";
  verified_name = "Second";
  quality_rating = QualityRating.unknown;
  throughput_level = ThroughputLevel.standard;
  status = PhoneNumberStatus.unverified;
  code_verification_status = CodeVerificationStatus.not_verified;
  name_status = NameStatus.pending_review;
  verification_code = none;
  verification_code_method = none;
  verification_code_language = none;
  business_profile = obj end;
  created_at = "c";
}

abbrev added_record : PhoneNumberRecord
added_record = record {
  id = "21";
  waba_id = "10";
  display_phone_number = "+16315550001";
  verified_name = "Second";
  quality_rating = QualityRating.unknown;
  throughput_level = ThroughputLevel.standard;
  status = PhoneNumberStatus.unverified;
  code_verification_status = CodeVerificationStatus.not_verified;
  name_status = NameStatus.pending_review;
  pending_verification = none;
  business_profile = obj end;
  created_at = "c";
}

abbrev grown : Tables
grown = record start { phone_numbers = seeded ∷ added_row ∷ [] }

abbrev done : Outcome PhoneNumberRecord
done = record {
  tables = grown;
  effects = phone_number_changed added_record ChangeEvent.created ∷ [];
  result = added_record;
}

adds : add_to_waba "c" "21" "10" request start ≡ inr done
unfolding add_to_waba find_by_digits list insert_into insert new_row to_record e164_digits
    format_display_phone_number order_by_creation to_sorted
adds = refl

-- the number that is there already, in another spelling
taken :
    add_to_waba "c" "21" "10" (record request { phone_number = "16315550000" }) start
    ≡ inl (graph phone_number_already_exists_error)
unfolding add_to_waba find_by_digits list to_record e164_digits order_by_creation to_sorted
taken = refl

abbrev code_of : String → String
code_of id = "123456"

grows : Reaches code_of start grown
grows = Reaches.after (NumberCall.adding "c" "21" "10" request) done Reaches.here adds

Reaches-IsUnique_example : IsUnique grown.phone_numbers
Reaches-IsUnique_example = Reaches-IsUnique code_of start grown grows start-IsUnique

Reaches-IsLegal_example : All IsLegal grown.phone_numbers
Reaches-IsLegal_example = Reaches-IsLegal code_of start grown grows start-IsUnique ((λ c. refl), tt)

abbrev sms : RequestCodeRequest
sms = record { code_method = VerificationCodeMethod.sms; language = "en_US" }

onboard-IsOnboarded_example :
    (o : Outcome PhoneNumberRecord) × (onboard code_of "21" sms grown ≡ inr o)
    × IsOnboarded o.result
onboard-IsOnboarded_example = onboard-IsOnboarded code_of "21" sms grown added_row refl

abbrev asked : Tables
asked = record start {
  phone_numbers =
      record added_row {
        verification_code = some "123456";
        verification_code_method = some VerificationCodeMethod.sms;
        verification_code_language = some "en_US";
      }
      ∷ [];
}

abbrev confirmed : Outcome PhoneNumberRecord
confirmed =
    outcome asked
      (record added_row {
        status = PhoneNumberStatus.pending;
        code_verification_status = CodeVerificationStatus.verified;
      }
        ∷ [])
      (record added_record {
        status = PhoneNumberStatus.pending;
        code_verification_status = CodeVerificationStatus.verified;
      })
      ChangeEvent.updated

confirms : verify_code "21" "123456" asked ≡ inr confirmed
unfolding verify_code find_by_id to_record patch update patched
confirms = refl

verify_code_once_example : verify_code "21" "123456" confirmed.tables ≡ inl (graph used_code)
verify_code_once_example = verify_code_once "21" "123456" "123456" asked confirmed confirms

run_allowed_example : run code_of (NumberCall.adding "c" "21" "10" request) start ≢ inl constraint
run_allowed_example = run_allowed code_of (NumberCall.adding "c" "21" "10" request) start refl

delete_account-eq-delete_waba_example :
    delete_account "10" start
    ≡ inr (record {
      tables = delete_waba "10" start;
      effects =
          numbers_effects start (list_by_waba_id "10" start.phone_numbers)
          ++ waba_changed acme ChangeEvent.deleted ∷ [];
      result = acme;
    })
delete_account-eq-delete_waba_example =
    delete_account-eq-delete_waba "10" start (refl, tt) acme refl
