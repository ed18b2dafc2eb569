-- ===== src/Chats/Recipients.antt =====
-- packages/server/src/domain/message-service.ts: who a message is for.
use Prim.Native.Char.{code}
use Prim.Native.String.{String, [], ◌∷◌}
use whaloc.Base.{
  Bool, false, ◌&&◌, ◌||◌, Option, none, some, ◌⊎◌, inr, ℕ, leb, eqb, if◌then◌else◌, get_or,
  all_chars, text_length, is_digit, is_space, is_empty, behind, or_raise, ◌>>=◌,
}
use whaloc.Base
use whaloc.Shared.Entities.{Contact}
use whaloc.Failure.{Failure}
use whaloc.GraphError.{unknown_object_error}
use whaloc.Accounts.Format.{phone_number_digits}
use whaloc.Contacts.{find_by_user_id}

-- `[\d\s()-]`
abbrev is_msisdn_char : ℕ → Bool
is_msisdn_char c = is_digit c || (is_space c || (eqb c b'(' || (eqb c b')' || eqb c b'-')))

-- `MSISDN_INPUT_PATTERN`
abbrev is_msisdn : String → Bool
is_msisdn s =
    let body = get_or (behind "+" s) s in Base.not (is_empty body) && all_chars is_msisdn_char body

abbrev pub to_wa_id : String → String
to_wa_id input = if is_msisdn input then phone_number_digits input else input

abbrev is_upper : ℕ → Bool
is_upper c = leb b'A' c && leb c b'Z'

abbrev is_alphanumeric : ℕ → Bool
is_alphanumeric c = is_digit c || (is_upper c || (leb b'a' c && leb c b'z'))

-- `[0-9A-Za-z]{1,128}`
abbrev is_id : String → Bool
is_id s = all_chars is_alphanumeric s && (leb 1 (text_length s) && leb (text_length s) 128)

abbrev is_enterprise_id : Option String → Bool
is_enterprise_id none = false
is_enterprise_id (some s) = is_id s

abbrev is_behind_dot : Option String → Bool
is_behind_dot none = false
is_behind_dot (some s) = is_id s || is_enterprise_id (behind "ENT." s)

-- `BSUID_PATTERN`: /^[A-Z]{2}\.(ENT\.)?[0-9A-Za-z]{1,128}$/
abbrev pub is_bsuid : String → Bool
is_bsuid [] = false
is_bsuid (a ∷ []) = false
is_bsuid (a ∷ b ∷ s) = is_upper (code a) && (is_upper (code b) && is_behind_dot (behind "." s))

abbrev resolve_user_id : String → Bool → Base.List Contact → Failure ⊎ (String × String)
resolve_user_id recipient false contacts = inr (recipient, to_wa_id recipient)
resolve_user_id recipient Base.true contacts = do
  contact ←
      or_raise (find_by_user_id recipient contacts) (Failure.graph (unknown_object_error recipient))
  inr (recipient, contact.wa_id)

-- the fields `to` and `recipient` of a request: what the caller wrote, and the number
unfoldable pub resolve_recipient :
    Option String → Option String → Base.List Contact → Failure ⊎ (String × String)
resolve_recipient (some to) recipient contacts = inr (to, to_wa_id to)
resolve_recipient none recipient contacts =
    let input = get_or recipient "" in resolve_user_id input (is_bsuid input) contacts
