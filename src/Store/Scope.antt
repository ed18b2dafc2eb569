-- ===== src/Store/Scope.antt =====
-- packages/web/src/store/scope.ts: which WABA and which of its numbers the views look at.
use whaloc.Base.{
  String, List, [], ◌∷◌, Bool, ◌&&◌, Option, none, some, get_or, find, any, first, same_text, ltb,
  length,
}
use mathlib.Core.Option
use whaloc.Shared.Entities.{PhoneNumber, WabaState, StateResponse}

pub record Scope : Type 0 where
  pub waba_id : Option String
  pub phone_number_id : Option String

abbrev pub no_scope : Scope
no_scope = record { waba_id = none; phone_number_id = none }

-- `phoneNumber.id === wanted.phoneNumberId`, false for null
abbrev pub is_number : Option String → PhoneNumber → Bool
is_number wanted n = same_text (some n.id) wanted

abbrev pub owns : Option String → WabaState → Bool
owns wanted waba = any (is_number wanted) waba.phone_numbers

abbrev pub is_named : Option String → WabaState → Bool
is_named wanted waba = same_text (some waba.id) wanted

abbrev pub is_populated : WabaState → Bool
is_populated waba = ltb 0 (length waba.phone_numbers)

-- `owner ?? named ?? populated ?? wabas[0]`
unfoldable pub choose_waba : WabaState → List WabaState → Scope → WabaState
choose_waba w0 wabas wanted =
    get_or (find (owns wanted.phone_number_id) wabas)
      (get_or (find (is_named wanted.waba_id) wabas) (get_or (find is_populated wabas) w0))

-- the wanted number of the WABA, or else its first
unfoldable pub choose_number : WabaState → Scope → Option PhoneNumber
choose_number waba wanted = elim (find (is_number wanted.phone_number_id) waba.phone_numbers) [
  | some n ↦ some n
  | none ↦ first waba.phone_numbers
]

abbrev pub scope_of : WabaState → Option PhoneNumber → Scope
scope_of waba number = record {
  waba_id = some waba.id;
  phone_number_id = Option.map (λ n. n.id) number;
}

resolve_in : List WabaState → Scope → Scope
unfolding choose_waba choose_number
resolve_in [] wanted = no_scope
resolve_in (w0 ∷ ws) wanted =
    let waba = choose_waba w0 (w0 ∷ ws) wanted in scope_of waba (choose_number waba wanted)

unfoldable pub resolve_scope : Option StateResponse → Scope → Scope
unfolding resolve_in
resolve_scope none wanted = no_scope
resolve_scope (some server) wanted = resolve_in server.wabas wanted

unfoldable pub is_same_scope : Scope → Scope → Bool
is_same_scope a b = same_text a.waba_id b.waba_id && same_text a.phone_number_id b.phone_number_id
