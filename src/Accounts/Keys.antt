-- ===== src/Accounts/Keys.antt =====
-- packages/server/src/domain/phone-number-service.ts: the keys of the schema, and the checks that
-- stand before the writes.
use whaloc.Base.{
  String, List, true, false, not, ◌&&◌, Option, none, some, get_or, inl, inr, ◌≢◌, ◌≡◌, refl, sym,
  ap, ◌∙◌, subst, ◌==◌, Bool-cases, Option-cases, any, same_text, ℕ, All-map, key-find_by,
  Fails-any, arith, eq_refl, eq→path,
}
use whaloc.Database.PhoneNumbers.{
  PhoneNumberRow, InsertPhoneNumberInput, UpdatePhoneNumberInput, to_record, row_id, find_row,
  find_by_id, has_natural_key, is_in_the_way, is_refused, insert, update,
}
use whaloc.Database.Tables.{Tables}
use whaloc.Accounts.{Failure, constraint}
use whaloc.Accounts.Format.{CreateRequest, phone_number_digits, e164_digits}
use whaloc.Accounts.Registry.{assert_id_is_free, find_id_holder}
use whaloc.Accounts.PhoneNumbers.{
  RequestCodeRequest, PhoneNumberCreateRequest, PhoneNumberUpdateRequest, assert_display_is_free,
  add_to_waba, request_code, verify_code, register, deregister, create, edit, delete,
  update_quality, pending_patch, pending_of, verified_patch, registered_patch, deregistered_patch,
  edited_patch, rated_patch, added_input, created_input,
}
use whaloc.Accounts.Rows.{
  digits_or_throw, assert_digits_are_free, holds_digits, patch, insert_into, unknown_object,
  unknown_phone_number,
}
use whaloc.Accounts.Steps.{NumberCall, run}
use whaloc.Accounts.Steps.NumberCall.{
  adding, asking, confirming, registering, deregistering, creating, editing, deleting, rating,
}
use whaloc.Accounts.Changes.{IsFree, IsFreeFor}
use whaloc.Accounts.Calls.{added-IsFree, assert_display_is_free-returns}
use whaloc.Accounts.Quality.{QualityRequest}
use whaloc.Accounts.Uniqueness.{free-All}

-- a row with the same display number has the same digits
natural_key_lem :
    (except_id : Option String) (waba_id display : String) (r : PhoneNumberRow)
    → holds_digits (phone_number_digits display) except_id (to_record r) ≡ false
    → (not (same_text (some r.id) except_id) && has_natural_key waba_id display r) ≡ false
unfolding to_record
natural_key_lem except_id waba_id display r free =
    elim (Bool-cases (r.display_phone_number == display)) [
      | inl same ↦
          let digits : (phone_number_digits r.display_phone_number == phone_number_digits display)
              ≡ true =
            ap (λ s. phone_number_digits s == phone_number_digits display) (eq→path same)
            ∙ eq_refl (phone_number_digits display) in
          ground (arith, free, digits)
      | inr other ↦ ground (arith, other)
    ]

free_key :
    (waba_id display : String) (rows : List PhoneNumberRow)
    → IsFree none rows display
    → any (has_natural_key waba_id display) rows ≡ false
free_key waba_id display rows free =
    Fails-any (has_natural_key waba_id display) rows
      (All-map _ _ (natural_key_lem none waba_id display) rows (free-All none rows display free))

free_update :
    (id : String) (display : Option String) (rows : List PhoneNumberRow)
    → IsFreeFor id rows display
    → is_refused display (find_row id rows) rows ≡ false
free_update id none rows free = refl
free_update id (some display) rows free = elim (Option-cases (find_row id rows)) [
  | inl absent ↦ rw absent refl
  | inr (own, found) ↦
      let same : id ≡ own.id = sym (key-find_by row_id id rows own found) in
      rw found (
        Fails-any (is_in_the_way own display) rows (
          All-map _ _ (natural_key_lem (some own.id) own.waba_id display) rows (
            free-All (some own.id) rows display
              (subst (λ k. IsFree (some k) rows display) same free))))
]

patch_allowed :
    (missing : Failure) (id : String) (input : UpdatePhoneNumberInput) (t : Tables)
    → missing ≢ constraint
    → IsFreeFor id t.phone_numbers input.display_phone_number
    → patch missing id input t ≢ inl constraint
unfolding patch update
patch_allowed missing id input t other free e =
    ground (arith, e, other, free_update id input.display_phone_number t.phone_numbers free)

insert_allowed :
    (now : String) (input : InsertPhoneNumberInput) (t : Tables)
    → find_row input.id t.phone_numbers ≡ none
    → IsFree none t.phone_numbers input.display_phone_number
    → insert_into now input t ≢ inl constraint
unfolding insert_into insert
insert_allowed now input t new free e =
    ground (arith, e, new, free_key input.waba_id input.display_phone_number t.phone_numbers free)

-- the id of a new number is one that no number has
abbrev pub IsFresh : NumberCall → Tables → Type 0
IsFresh (adding now fresh waba_id request) t = find_row fresh t.phone_numbers ≡ none
IsFresh _ t = Unit

free_id-absent :
    (t : Tables) (id code : String)
    → assert_id_is_free t id code ≡ inr tt
    → find_row id t.phone_numbers ≡ none
unfolding assert_id_is_free find_id_holder
free_id-absent t id code e = ground (arith, e)

add_to_waba_allowed :
    (now fresh waba_id : String) (request : CreateRequest) (t : Tables)
    → find_row fresh t.phone_numbers ≡ none
    → add_to_waba now fresh waba_id request t ≢ inl constraint
unfolding add_to_waba
add_to_waba_allowed now fresh waba_id request t new e =
    insert_allowed now (added_input fresh waba_id request) t new
      (added-IsFree (e164_digits request) t.phone_numbers (ground (arith, e)) (ground (arith, e)))
      (ground (arith, e))

request_code_allowed :
    (derive : String → String) (id : String) (request : RequestCodeRequest) (t : Tables)
    → request_code derive id request t ≢ inl constraint
unfolding request_code
request_code_allowed derive id request t e =
    patch_allowed (unknown_object id) id (pending_patch (pending_of derive id request)) t
      (λ x. ground (arith, x)) tt (ground (arith, e))

register_allowed : (id : String) (t : Tables) → register id t ≢ inl constraint
unfolding register
register_allowed id t e =
    patch_allowed (unknown_object id) id registered_patch t (λ x. ground (arith, x)) tt
      (ground (arith, e))

deregister_allowed : (id : String) (t : Tables) → deregister id t ≢ inl constraint
unfolding deregister
deregister_allowed id t e =
    patch_allowed (unknown_object id) id deregistered_patch t (λ x. ground (arith, x)) tt
      (ground (arith, e))

verify_code_allowed : (id code : String) (t : Tables) → verify_code id code t ≢ inl constraint
unfolding verify_code
verify_code_allowed id code t e = elim (Option-cases (find_by_id id t.phone_numbers)) [
  | inl absent ↦ absurd (ground (arith, e, absent))
  | inr (number, found) ↦
      patch_allowed (unknown_object id) id (verified_patch number.status) t (λ x. ground (arith, x))
        tt (ground (arith, e, found))
]

free_id_allowed : (t : Tables) (id code : String) → assert_id_is_free t id code ≢ inl constraint
unfolding assert_id_is_free find_id_holder
free_id_allowed t id code e = ground (arith, e)

free_display_allowed :
    (id : String) (display : Option String) (rows : List PhoneNumberRow)
    → assert_display_is_free id display rows ≢ inl constraint
unfolding digits_or_throw assert_digits_are_free
free_display_allowed id none rows e = ground (arith, e)
free_display_allowed id (some display) rows e = ground (arith, e)

create_allowed :
    (now fresh : String) (input : PhoneNumberCreateRequest) (t : Tables)
    → create now fresh input t ≢ inl constraint
unfolding create digits_or_throw assert_digits_are_free
create_allowed now fresh input t e =
    let id = get_or input.id fresh in
    let held = free_id_allowed t id "duplicate_phone_number" in
    insert_allowed now (created_input id input) t
      (free_id-absent t id "duplicate_phone_number" (ground (arith, e, held))) (ground (arith, e))
      (ground (arith, e, held))

edit_allowed :
    (id : String) (input : PhoneNumberUpdateRequest) (t : Tables) → edit id input t ≢ inl constraint
unfolding edit
edit_allowed id input t e =
    let display = free_display_allowed id input.display_phone_number t.phone_numbers in
    patch_allowed (unknown_phone_number id) id (edited_patch input) t (λ x. ground (arith, x))
      (assert_display_is_free-returns id input.display_phone_number t.phone_numbers
        (ground (arith, e, display)))
      (ground (arith, e, display))

delete_allowed : (id : String) (t : Tables) → delete id t ≢ inl constraint
unfolding delete
delete_allowed id t e = ground (arith, e)

update_quality_allowed :
    (now : ℕ) (id : String) (request : QualityRequest) (t : Tables)
    → update_quality now id request t ≢ inl constraint
unfolding update_quality
update_quality_allowed now id request t e =
    patch_allowed (unknown_phone_number id) id (rated_patch request) t (λ x. ground (arith, x)) tt
      (ground (arith, e))

-- No call runs into a key of the schema, be it the primary key or the index on an account and a
-- display number, where the minted id of an added number is one that no number has.
pub run_allowed :
    (derive : String → String) (call : NumberCall) (t : Tables)
    → IsFresh call t
    → run derive call t ≢ inl constraint
run_allowed derive (adding now fresh waba_id request) t new =
    add_to_waba_allowed now fresh waba_id request t new
run_allowed derive (asking id request) t new = request_code_allowed derive id request t
run_allowed derive (confirming id code) t new = verify_code_allowed id code t
run_allowed derive (registering id) t new = register_allowed id t
run_allowed derive (deregistering id) t new = deregister_allowed id t
run_allowed derive (creating now fresh input) t new = create_allowed now fresh input t
run_allowed derive (editing id input) t new = edit_allowed id input t
run_allowed derive (deleting id) t new = delete_allowed id t
run_allowed derive (rating now id request) t new = update_quality_allowed now id request t
