-- ===== src/Accounts/Calls.antt =====
-- packages/server/src/domain/phone-number-service.ts: the change that each call makes.
use whaloc.Base.{
  String, ℕ, List, Bool, true, false, Option, none, some, get_or, inr, ◌≡◌, refl, subst, is_some,
  >>=-returns, or_raise, arith,
}
use whaloc.Shared.Common.{PhoneNumberStatus, CodeVerificationStatus}
use whaloc.Database.PhoneNumbers.{
  PhoneNumberRow, PhoneNumberRecord, to_record, find_by_id, new_row, patched,
}
use whaloc.Database.Tables.{Tables, delete_phone_number}
use whaloc.Accounts.{Outcome}
use whaloc.Accounts.Format.{CreateRequest, e164_digits, is_e164, format_display_phone_number}
use whaloc.Accounts.Digits.{phone_number_digits-format_display_phone_number}
use whaloc.Accounts.Quality.{QualityRequest}
use whaloc.Accounts.PhoneNumbers.{
  RequestCodeRequest, PhoneNumberCreateRequest, PhoneNumberUpdateRequest, registered_patch,
  deregistered_patch, pending_patch, pending_of, rated_patch, edited_patch, added_input,
  created_input, verified_patch, add_to_waba, request_code, verify_code, register, deregister,
  create, edit, delete, update_quality, assert_display_is_free, first_status, first_verification,
}
use whaloc.Accounts.Rows.{
  patch, unknown_object, unknown_phone_number, find_by_digits, digits_or_throw,
  assert_digits_are_free,
}
use whaloc.Accounts.Steps.{NumberCall, run}
use whaloc.Accounts.Steps.NumberCall.{
  adding, asking, confirming, registering, deregistering, creating, editing, deleting, rating,
}
use whaloc.Accounts.Changes.{IsFree, IsFreeFor, Change, patch-Change, insert-Change}

register-Change :
    (id : String) (t : Tables) (o : Outcome PhoneNumberRecord)
    → register id t ≡ inr o
    → Change t.phone_numbers o.tables.phone_numbers
unfolding register patched find_by_id to_record
register-Change id t o e =
    patch-Change (unknown_object id) id registered_patch t o (ground (arith, e)) tt
      λ row found legal connected. ground (arith, e, found)

deregister-Change :
    (id : String) (t : Tables) (o : Outcome PhoneNumberRecord)
    → deregister id t ≡ inr o
    → Change t.phone_numbers o.tables.phone_numbers
unfolding deregister patched
deregister-Change id t o e =
    patch-Change (unknown_object id) id deregistered_patch t o (ground (arith, e)) tt
      λ row found legal connected. absurd (ground (arith, connected))

request_code-Change :
    (derive : String → String) (id : String) (request : RequestCodeRequest) (t : Tables)
    (o : Outcome PhoneNumberRecord)
    → request_code derive id request t ≡ inr o
    → Change t.phone_numbers o.tables.phone_numbers
unfolding request_code patched
request_code-Change derive id request t o e =
    patch-Change (unknown_object id) id (pending_patch (pending_of derive id request)) t o
      (ground (arith, e)) tt λ row found legal. legal

verify_code-Change :
    (id code : String) (t : Tables) (o : Outcome PhoneNumberRecord)
    → verify_code id code t ≡ inr o
    → Change t.phone_numbers o.tables.phone_numbers
unfolding verify_code patched
verify_code-Change id code t o e =
    let (number, _, e1) =
      >>=-returns (or_raise (find_by_id id t.phone_numbers) (unknown_object id)) _ e in
    patch-Change (unknown_object id) id (verified_patch number.status) t o (ground (arith, e1)) tt
      λ row found legal connected. refl

update_quality-Change :
    (now : ℕ) (id : String) (request : QualityRequest) (t : Tables) (o : Outcome PhoneNumberRecord)
    → update_quality now id request t ≡ inr o
    → Change t.phone_numbers o.tables.phone_numbers
unfolding update_quality patched
update_quality-Change now id request t o e =
    let (previous, _, e1) =
      >>=-returns (or_raise (find_by_id id t.phone_numbers) (unknown_phone_number id)) _ e in
    let (done, e2, e3) =
      >>=-returns (patch (unknown_phone_number id) id (rated_patch request) t) _ e1 in
    let same : done.tables ≡ o.tables = ground (arith, e3) in
    subst (λ (u : Tables). Change t.phone_numbers u.phone_numbers) same
      (patch-Change (unknown_phone_number id) id (rated_patch request) t done e2 tt
        λ row found legal. legal)

pub assert_display_is_free-returns :
    (id : String) (display : Option String) (rows : List PhoneNumberRow)
    → assert_display_is_free id display rows ≡ inr tt
    → IsFreeFor id rows display
unfolding digits_or_throw assert_digits_are_free
assert_display_is_free-returns id none rows e = tt
assert_display_is_free-returns id (some display) rows e = ground (arith, e)

edit-Change :
    (id : String) (input : PhoneNumberUpdateRequest) (t : Tables) (o : Outcome PhoneNumberRecord)
    → edit id input t ≡ inr o
    → Change t.phone_numbers o.tables.phone_numbers
unfolding edit patched
edit-Change id input t o e =
    patch-Change (unknown_phone_number id) id (edited_patch input) t o (ground (arith, e))
      (assert_display_is_free-returns id input.display_phone_number t.phone_numbers
        (ground (arith, e)))
      λ row found legal. legal

delete-Change :
    (id : String) (t : Tables) (o : Outcome PhoneNumberRecord)
    → delete id t ≡ inr o
    → Change t.phone_numbers o.tables.phone_numbers
unfolding delete delete_phone_number
delete-Change id t o e =
    let same : delete_phone_number id t ≡ o.tables = ground (arith, e) in
    subst (λ (u : Tables). Change t.phone_numbers u.phone_numbers) same (Change.removed id)

create-Change :
    (now fresh : String) (input : PhoneNumberCreateRequest) (t : Tables)
    (o : Outcome PhoneNumberRecord)
    → create now fresh input t ≡ inr o
    → Change t.phone_numbers o.tables.phone_numbers
unfolding create digits_or_throw assert_digits_are_free new_row
create-Change now fresh input t o e =
    insert-Change now (created_input (get_or input.id fresh) input) t o (ground (arith, e))
      (ground (arith, e)) λ c. refl

-- a number that is added is not connected
first_verification_lem :
    (preverified : Bool)
    → first_status preverified ≡ PhoneNumberStatus.connected
    → first_verification preverified ≡ CodeVerificationStatus.verified
first_verification_lem true e = refl
first_verification_lem false e = absurd (ground (arith, e))

-- the check of the digits is one of the display number
pub added-IsFree :
    (digits : String) (rows : List PhoneNumberRow)
    → is_e164 digits ≡ true
    → find_by_digits digits none rows ≡ none
    → IsFree none rows (format_display_phone_number digits)
added-IsFree digits rows valid free =
    rw (phone_number_digits-format_display_phone_number digits valid) free

add_to_waba-Change :
    (now fresh waba_id : String) (request : CreateRequest) (t : Tables)
    (o : Outcome PhoneNumberRecord)
    → add_to_waba now fresh waba_id request t ≡ inr o
    → Change t.phone_numbers o.tables.phone_numbers
unfolding add_to_waba new_row
add_to_waba-Change now fresh waba_id request t o e =
    insert-Change now (added_input fresh waba_id request) t o (ground (arith, e))
      (added-IsFree (e164_digits request) t.phone_numbers (ground (arith, e)) (ground (arith, e)))
      λ connected. first_verification_lem (is_some request.preverified_id) connected

-- Each call that returns makes one change.
pub run-Change :
    (derive : String → String) (call : NumberCall) (t : Tables) (o : Outcome PhoneNumberRecord)
    → run derive call t ≡ inr o
    → Change t.phone_numbers o.tables.phone_numbers
run-Change derive (adding now fresh waba_id request) t o e =
    add_to_waba-Change now fresh waba_id request t o e
run-Change derive (asking id request) t o e = request_code-Change derive id request t o e
run-Change derive (confirming id code) t o e = verify_code-Change id code t o e
run-Change derive (registering id) t o e = register-Change id t o e
run-Change derive (deregistering id) t o e = deregister-Change id t o e
run-Change derive (creating now fresh input) t o e = create-Change now fresh input t o e
run-Change derive (editing id input) t o e = edit-Change id input t o e
run-Change derive (deleting id) t o e = delete-Change id t o e
run-Change derive (rating now id request) t o e = update_quality-Change now id request t o e
