-- ===== src/Accounts/PhoneNumbers.antt =====
-- packages/server/src/domain/phone-number-service.ts: the registration ladder of the Graph API and
-- the management of the control plane.
use Prim.Native.String.{◌++◌ as ◌++ˢ◌}
use whaloc.Base.{
  String, ℕ, List, [], ◌∷◌, ◌++◌, Bool, true, false, not, Option, none, some, get_or, ◌⊎◌, inr,
  ◌==◌, if◌then◌else◌, is_some, map, require, or_raise, ◌>>=◌, ◌>>◌,
}
use whaloc.Shared.Common.{
  QualityRating, ThroughputLevel, PhoneNumberStatus, CodeVerificationStatus, NameStatus, deleted,
}
use whaloc.GraphError.{
  invalid_parameter_error, invalid_phone_number_error, phone_number_already_exists_error,
  phone_number_not_verified_error,
}
use whaloc.ControlPlaneError.{control_not_found}
use whaloc.Database.Wabas.{find_waba}
use whaloc.Database.PhoneNumbers.{
  VerificationCodeMethod, PendingVerification, PhoneNumberRow, PhoneNumberRecord,
  InsertPhoneNumberInput, UpdatePhoneNumberInput, find_by_id,
}
use whaloc.Database.Media.{MediaRecord, media_of_number}
use whaloc.Database.Tables.{Tables, delete_phone_number}
use whaloc.Accounts.{
  Failure, graph, control, Effect, phone_number_changed, webhook, object_deleted, Call,
}
use whaloc.Accounts.Rows.{
  unknown_object, unknown_phone_number, no_change, patch, insert_into, find_by_digits,
  digits_or_throw, assert_digits_are_free,
}
use whaloc.Accounts.Format.{CreateRequest, format_display_phone_number, is_e164, e164_digits}
use whaloc.Accounts.Quality.{
  QualityRequest, default_event, default_limit, old_limit, phone_number_quality_value,
  webhook_envelope,
}
use whaloc.Accounts.Registry.{assert_id_is_free}

abbrev pub first_status : Bool → PhoneNumberStatus
first_status true = PhoneNumberStatus.pending
first_status false = PhoneNumberStatus.unverified

abbrev pub first_verification : Bool → CodeVerificationStatus
first_verification true = CodeVerificationStatus.verified
first_verification false = CodeVerificationStatus.not_verified

-- the number that a Graph request adds; `fresh` is the id that was minted
abbrev pub added_input : String → String → CreateRequest → InsertPhoneNumberInput
added_input fresh waba_id request =
    let is_preverified = is_some request.preverified_id in
    record {
      id = fresh;
      waba_id = waba_id;
      display_phone_number = format_display_phone_number (e164_digits request);
      verified_name = request.verified_name;
      quality_rating = some QualityRating.unknown;
      throughput_level = none;
      status = some (first_status is_preverified);
      code_verification_status = some (first_verification is_preverified);
      name_status = some NameStatus.pending_review;
      created_at = none;
    }

unfoldable pub add_to_waba :
    String → String → String → CreateRequest → Tables → Call PhoneNumberRecord
add_to_waba now fresh waba_id request t = do
  require (is_some (find_waba waba_id t.wabas)) (unknown_object waba_id)
  require (is_e164 request.phone_number) (graph invalid_phone_number_error)
  let digits = e164_digits request
  require (is_e164 digits) (graph invalid_phone_number_error)
  require (not (is_some (find_by_digits digits none t.phone_numbers)))
      (graph phone_number_already_exists_error)
  insert_into now (added_input fresh waba_id request) t

-- `RequestCodeRequest`
pub record RequestCodeRequest : Type 0 where
  pub code_method : VerificationCodeMethod
  pub language : String

-- `derive` is `deriveVerificationCode`, a digest of the id
abbrev pub pending_of : (String → String) → String → RequestCodeRequest → PendingVerification
pending_of derive id request = record {
  code = derive id;
  method = request.code_method;
  language = request.language;
}

abbrev pub pending_patch : PendingVerification → UpdatePhoneNumberInput
pending_patch pending = record no_change { pending_verification = some (some pending) }

unfoldable pub request_code :
    (String → String) → String → RequestCodeRequest → Tables → Call PhoneNumberRecord
request_code derive id request t = do
  require (is_some (find_by_id id t.phone_numbers)) (unknown_object id)
  patch (unknown_object id) id (pending_patch (pending_of derive id request)) t

abbrev next_status : PhoneNumberStatus → Option PhoneNumberStatus
next_status PhoneNumberStatus.unverified = some PhoneNumberStatus.pending
next_status _ = none

abbrev pub verified_patch : PhoneNumberStatus → UpdatePhoneNumberInput
verified_patch status = record no_change {
  code_verification_status = some CodeVerificationStatus.verified;
  pending_verification = some none;
  status = next_status status;
}

unfoldable pub verify_code : String → String → Tables → Call PhoneNumberRecord
verify_code id code t = do
  number ← or_raise (find_by_id id t.phone_numbers) (unknown_object id)
  pending ← or_raise number.pending_verification (
      graph (
        invalid_parameter_error
          "Param code has no verification to confirm: request one with POST /{phone-number-id}/request_code"))
  require (pending.code == code) (
      graph (
        invalid_parameter_error
          "Param code is not the verification code sent to this phone number"))
  patch (unknown_object id) id (verified_patch number.status) t

abbrev pub is_verified : CodeVerificationStatus → Bool
is_verified CodeVerificationStatus.verified = true
is_verified _ = false

abbrev pub registered_patch : UpdatePhoneNumberInput
registered_patch = record no_change {
  status = some PhoneNumberStatus.connected;
  name_status = some NameStatus.approved;
}

unfoldable pub register : String → Tables → Call PhoneNumberRecord
register id t = do
  number ← or_raise (find_by_id id t.phone_numbers) (unknown_object id)
  require (is_verified number.code_verification_status) (graph phone_number_not_verified_error)
  patch (unknown_object id) id registered_patch t

abbrev pub deregistered_patch : UpdatePhoneNumberInput
deregistered_patch = record no_change { status = some PhoneNumberStatus.disconnected }

unfoldable pub deregister : String → Tables → Call PhoneNumberRecord
deregister id t = do
  require (is_some (find_by_id id t.phone_numbers)) (unknown_object id)
  patch (unknown_object id) id deregistered_patch t

-- `PhoneNumberCreateRequest`
pub record PhoneNumberCreateRequest : Type 0 where
  pub waba_id : String
  pub id : Option String
  pub display_phone_number : String
  pub verified_name : String
  pub quality_rating : Option QualityRating
  pub throughput_level : Option ThroughputLevel

abbrev pub created_input : String → PhoneNumberCreateRequest → InsertPhoneNumberInput
created_input id input = record {
  id = id;
  waba_id = input.waba_id;
  display_phone_number = input.display_phone_number;
  verified_name = input.verified_name;
  quality_rating = input.quality_rating;
  throughput_level = input.throughput_level;
  status = none;
  code_verification_status = none;
  name_status = none;
  created_at = none;
}

unfoldable pub create : String → String → PhoneNumberCreateRequest → Tables → Call PhoneNumberRecord
create now fresh input t = do
  require (is_some (find_waba input.waba_id t.wabas))
      (control (control_not_found ("no WABA with id " ++ˢ input.waba_id) (some "unknown_waba")))
  digits ← digits_or_throw input.display_phone_number
  assert_digits_are_free digits none t.phone_numbers
  let id = get_or input.id fresh
  assert_id_is_free t id "duplicate_phone_number"
  insert_into now (created_input id input) t

-- `PhoneNumberUpdateRequest`
pub record PhoneNumberUpdateRequest : Type 0 where
  pub display_phone_number : Option String
  pub verified_name : Option String

abbrev pub assert_display_is_free :
    String → Option String → List PhoneNumberRow → Failure ⊎ Unit {0}
assert_display_is_free id none rows = inr tt
assert_display_is_free id (some display) rows = do
  digits ← digits_or_throw display
  assert_digits_are_free digits (some id) rows

abbrev pub edited_patch : PhoneNumberUpdateRequest → UpdatePhoneNumberInput
edited_patch input = record no_change {
  display_phone_number = input.display_phone_number;
  verified_name = input.verified_name;
}

-- the method `update`
unfoldable pub edit : String → PhoneNumberUpdateRequest → Tables → Call PhoneNumberRecord
edit id input t = do
  require (is_some (find_by_id id t.phone_numbers)) (unknown_phone_number id)
  assert_display_is_free id input.display_phone_number t.phone_numbers
  patch (unknown_phone_number id) id (edited_patch input) t

-- `#deleteMediaObjects`
abbrev pub delete_objects : List MediaRecord → List Effect
delete_objects media = map (λ m. object_deleted m.storage_key) media

unfoldable pub delete : String → Tables → Call PhoneNumberRecord
delete id t = do
  number ← or_raise (find_by_id id t.phone_numbers) (unknown_phone_number id)
  inr (record {
    tables = delete_phone_number id t;
    effects =
        delete_objects (media_of_number id t.media) ++ phone_number_changed number deleted ∷ [];
    result = number;
  })

-- the webhook of a change of quality; `now` is in milliseconds
abbrev quality_effects : ℕ → QualityRequest → PhoneNumberRecord → PhoneNumberRecord → List Effect
quality_effects now request previous number =
    let current = get_or request.current_limit (default_limit number) in
    let value =
      phone_number_quality_value number (get_or request.event (default_event request)) current
        (old_limit (default_limit previous) current) in
    if request.emit_webhook
    then webhook "phone_number_quality_update"
        (webhook_envelope number.waba_id "phone_number_quality_update" value now)
      ∷ []
    else []

abbrev pub rated_patch : QualityRequest → UpdatePhoneNumberInput
rated_patch request = record no_change {
  quality_rating = request.quality_rating;
  throughput_level = request.throughput_level;
}

unfoldable pub update_quality : ℕ → String → QualityRequest → Tables → Call PhoneNumberRecord
update_quality now id request t = do
  previous ← or_raise (find_by_id id t.phone_numbers) (unknown_phone_number id)
  done ← patch (unknown_phone_number id) id (rated_patch request) t
  inr (record done { effects = done.effects ++ quality_effects now request previous done.result })
