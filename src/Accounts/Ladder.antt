-- ===== src/Accounts/Ladder.antt =====
-- packages/server/src/domain/phone-number-service.ts: the registration ladder.
use mathlib.Core.Option
use whaloc.Base.{
  String, List, [], ◌∷◌, true, false, not, none, some, inl, inr, ◌≡◌, refl, sym, ap, ◌∙◌, subst,
  ◌==◌, Bool-cases, Option-cases, map, All, All-append, All-filter, find_by_own, find_by-map,
  key-find_by, arith, eq_iff, eq_refl, eq→path, ◌>>=◌, >>=-returns, or_raise, or_raise-returns,
}
use whaloc.Shared.Common.{PhoneNumberStatus, CodeVerificationStatus, NameStatus, ChangeEvent}
use whaloc.GraphError.{GraphApiError, invalid_parameter_error}
use whaloc.Database.PhoneNumbers.{
  PendingVerification, PhoneNumberRow, PhoneNumberRecord, UpdatePhoneNumberInput, to_record, row_id,
  find_row, find_by_id, patched, write, is_refused, update,
}
use whaloc.Database.Tables.{Tables}
use whaloc.Accounts.{Failure, graph, Outcome, Call}
use whaloc.Accounts.PhoneNumbers.{
  RequestCodeRequest, request_code, verify_code, register, pending_patch, pending_of,
  verified_patch, registered_patch,
}
use whaloc.Accounts.Rows.{patch, outcome, unknown_object}
use whaloc.Accounts.Steps.{Reaches}
use whaloc.Accounts.Steps.Reaches.{here, after}
use whaloc.Accounts.Changes.{IsLegal, Change}
use whaloc.Accounts.Changes.Change.{added, written, removed}
use whaloc.Accounts.Calls.{run-Change}
use whaloc.Accounts.Uniqueness.{IsUnique, id-write, Reaches-IsUnique}
use whaloc.Accounts.Writes.{patch-returns}

-- a write keeps what it keeps of the row that it is for
All-write :
    (id : String) (input : UpdatePhoneNumberInput) (all rows : List PhoneNumberRow)
    → ((row : PhoneNumberRow)
        → find_row id all ≡ some row
        → IsLegal row
        → IsLegal (patched input row))
    → All (λ r. find_row r.id all ≡ some r) rows
    → All IsLegal rows
    → All IsLegal (map (write id input) rows)
All-write id input all [] legal own h = tt
All-write id input all (r ∷ rows) legal (found, own) (l, h) = elim (Bool-cases (r.id == id)) [
  | inl same ↦
      let mine : find_row id all ≡ some r =
        subst (λ k. find_row k all ≡ some r) (eq→path same) found in
      rw same (legal r mine l, All-write id input all rows legal own h)
  | inr other ↦ rw other (l, All-write id input all rows legal own h)
]

Change-IsLegal :
    (rows rows' : List PhoneNumberRow)
    → Change rows rows'
    → IsUnique rows
    → All IsLegal rows
    → All IsLegal rows'
Change-IsLegal rows rows' (added now input new free legal) u h =
    All-append IsLegal rows _ h (legal, tt)
Change-IsLegal rows rows' (written id input free legal) u h =
    All-write id input rows rows legal (find_by_own row_id rows u.ids) h
Change-IsLegal rows rows' (removed id) u h = All-filter IsLegal (λ r. not (r.id == id)) rows h

-- From tables in which no two phone numbers have one id or the same digits, and in which every
-- connected number has a confirmed code, calls of the service lead to such tables only.
pub Reaches-IsLegal :
    (derive : String → String) (t u : Tables)
    → Reaches derive t u
    → IsUnique t.phone_numbers
    → All IsLegal t.phone_numbers
    → All IsLegal u.phone_numbers
Reaches-IsLegal derive t u here d h = h
Reaches-IsLegal derive t u (after {u = v} call done before e) d h =
    Change-IsLegal v.phone_numbers done.tables.phone_numbers (run-Change derive call v done e)
      (Reaches-IsUnique derive t v before d) (Reaches-IsLegal derive t v before d h)

find_row-write :
    (id : String) (input : UpdatePhoneNumberInput) (rows : List PhoneNumberRow)
    (row : PhoneNumberRow)
    → find_row id rows ≡ some row
    → find_row id (map (write id input) rows) ≡ some (patched input row)
find_row-write id input rows row found =
    let own : (row.id == id) ≡ true = rw (key-find_by row_id id rows row found) (eq_refl id) in
    find_by-map row_id (write id input) (id-write id input) id rows
    ∙ ap (Option.map (write id input)) found
    ∙ ap some (rw own refl)

-- a patch that leaves the display number returns, where the number is known
patch_known :
    (missing : Failure) (id : String) (input : UpdatePhoneNumberInput) (t : Tables)
    (row : PhoneNumberRow)
    → find_row id t.phone_numbers ≡ some row
    → input.display_phone_number ≡ none
    → patch missing id input t
      ≡ inr (
          outcome t
            (map (write id input) t.phone_numbers)
            (to_record (patched input row))
            ChangeEvent.updated)
unfolding patch update find_by_id
patch_known missing id input t row found same =
    let free : is_refused input.display_phone_number (find_row id t.phone_numbers) t.phone_numbers
        ≡ false =
      ap (λ d. is_refused d (find_row id t.phone_numbers) t.phone_numbers) same in
    rw (free, find_row-write id input t.phone_numbers row found) refl

-- the way up: a code, its confirmation, the registration
abbrev pub onboard :
    (String → String) → String → RequestCodeRequest → Tables → Call PhoneNumberRecord
onboard derive id request t = do
  asked ← request_code derive id request t
  confirmed ← verify_code id (derive id) asked.tables
  register id confirmed.tables

pub record IsOnboarded (number : PhoneNumberRecord) : Type 0 where
  pub status : number.status ≡ PhoneNumberStatus.connected
  pub code : number.code_verification_status ≡ CodeVerificationStatus.verified
  pub name : number.name_status ≡ NameStatus.approved
  pub pending : number.pending_verification ≡ none

module _ (derive : String → String) (id : String) (request : RequestCodeRequest) (t : Tables)
    (row : PhoneNumberRow) (found : find_row id t.phone_numbers ≡ some row) where
  asked_row : PhoneNumberRow
  asked_row = patched (pending_patch (pending_of derive id request)) row

  asked : Outcome PhoneNumberRecord
  asked =
      outcome t (map (write id (pending_patch (pending_of derive id request))) t.phone_numbers)
        (to_record asked_row) ChangeEvent.updated

  asks : request_code derive id request t ≡ inr asked
  unfolding request_code asked asked_row find_by_id
  asks = rw found (
      patch_known (unknown_object id) id (pending_patch (pending_of derive id request)) t row found
        refl)

  asked_found : find_row id asked.tables.phone_numbers ≡ some asked_row
  unfolding asked asked_row
  asked_found =
      find_row-write id (pending_patch (pending_of derive id request)) t.phone_numbers row found

  confirmed_row : PhoneNumberRow
  confirmed_row = patched (verified_patch asked_row.status) asked_row

  confirmed : Outcome PhoneNumberRecord
  confirmed =
      outcome asked.tables
        (map (write id (verified_patch asked_row.status)) asked.tables.phone_numbers)
        (to_record confirmed_row) ChangeEvent.updated

  pending-asked : (to_record asked_row).pending_verification ≡ some (pending_of derive id request)
  unfolding asked_row patched to_record
  pending-asked = refl

  status-asked : (to_record asked_row).status ≡ asked_row.status
  unfolding to_record
  status-asked = refl

  confirms : verify_code id (derive id) asked.tables ≡ inr confirmed
  unfolding verify_code confirmed confirmed_row find_by_id
  confirms =
      rw (asked_found, pending-asked, eq_refl (derive id), status-asked)
        (patch_known (unknown_object id) id (verified_patch asked_row.status) asked.tables asked_row
          asked_found refl)

  confirmed_found : find_row id confirmed.tables.phone_numbers ≡ some confirmed_row
  unfolding confirmed confirmed_row
  confirmed_found =
      find_row-write id (verified_patch asked_row.status) asked.tables.phone_numbers asked_row
        asked_found

  registered : Outcome PhoneNumberRecord
  registered =
      outcome confirmed.tables (map (write id registered_patch) confirmed.tables.phone_numbers)
        (to_record (patched registered_patch confirmed_row)) ChangeEvent.updated

  verified-confirmed :
      (to_record confirmed_row).code_verification_status ≡ CodeVerificationStatus.verified
  unfolding confirmed_row patched to_record
  verified-confirmed = refl

  registers : register id confirmed.tables ≡ inr registered
  unfolding register registered find_by_id
  registers =
      rw (confirmed_found, verified-confirmed)
        (patch_known (unknown_object id) id registered_patch confirmed.tables confirmed_row
          confirmed_found refl)

  onboarded : IsOnboarded registered.result
  unfolding registered confirmed_row patched to_record
  onboarded = record { status = refl; code = refl; name = refl; pending = refl }

  -- A number that is known, at whatever rung it stands, climbs the whole ladder: its code is asked
  -- for, confirmed with what was sent, and the registration leaves it connected, verified, with an
  -- approved name and no code pending.
  pub onboard-IsOnboarded :
      (o : Outcome PhoneNumberRecord) × (onboard derive id request t ≡ inr o) × IsOnboarded o.result
  onboard-IsOnboarded = (registered, rw (asks, confirms, registers) refl, onboarded)

abbrev pub used_code : GraphApiError
used_code =
    invalid_parameter_error
      "Param code has no verification to confirm: request one with POST /{phone-number-id}/request_code"

verify_code-returns :
    (id code : String) (t : Tables) (o : Outcome PhoneNumberRecord)
    → verify_code id code t ≡ inr o
    → (number : PhoneNumberRecord) × (pending : PendingVerification) × (find_by_id id
          t.phone_numbers
        ≡ some number)
      × (number.pending_verification ≡ some pending)
      × (pending.code ≡ code)
      × (patch (unknown_object id) id (verified_patch number.status) t ≡ inr o)
unfolding verify_code
verify_code-returns id code t o e =
    let (number, found, e1) =
      >>=-returns (or_raise (find_by_id id t.phone_numbers) (unknown_object id)) _ e in
    let (pending, asked, e2) = >>=-returns (or_raise number.pending_verification _) _ e1 in
    (
      number,
      pending,
      or_raise-returns _ _ found,
      or_raise-returns _ _ asked,
      ground (arith, e2, eq_iff pending.code code),
      ground (arith, e2),
    )

pending-patched :
    (status : PhoneNumberStatus) (row : PhoneNumberRow)
    → (to_record (patched (verified_patch status) row)).pending_verification ≡ none
unfolding patched to_record
pending-patched status row = refl

pending-confirmed :
    (id : String) (status : PhoneNumberStatus) (rows : List PhoneNumberRow)
    (number : PhoneNumberRecord)
    → find_by_id id (map (write id (verified_patch status)) rows) ≡ some number
    → number.pending_verification ≡ none
unfolding find_by_id
pending-confirmed id status rows number found = elim (Option-cases (find_row id rows)) [
  | inl absent ↦ absurd (
      ground (
        arith,
        found,
        absent,
        find_by-map row_id (write id (verified_patch status)) (id-write id (verified_patch status))
            id rows,
      ))
  | inr (row, known) ↦
      let same : to_record (patched (verified_patch status) row) ≡ number =
        ground (arith, found, find_row-write id (verified_patch status) rows row known) in
      sym (ap (λ (n : PhoneNumberRecord). n.pending_verification) same) ∙ pending-patched status row
]

-- After a confirmation no code is pending: the next confirmation is refused, whatever code it brings.
pub verify_code_once :
    (id code code' : String) (t : Tables) (o : Outcome PhoneNumberRecord)
    → verify_code id code t ≡ inr o
    → verify_code id code' o.tables ≡ inl (graph used_code)
unfolding verify_code
verify_code_once id code code' t o e =
    let (number, pending, found, asked, sent, patched_t) = verify_code-returns id code t o e in
    let (same, now) =
      patch-returns (unknown_object id) id (verified_patch number.status) t o patched_t in
    let done = pending-confirmed id number.status t.phone_numbers o.result now in
    rw same (rw (now, done) refl)
