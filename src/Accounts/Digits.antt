-- ===== src/Accounts/Digits.antt =====
-- packages/server/src/domain/phone-number-format.ts: digits and their formatting.
use Prim.Native.String.{String, [], ◌∷◌}
use text.Mathlib.TextLemmas.{nil-append, cons-append}
use whaloc.Base.{true, ◌≡◌, refl, ap, ◌∙◌, arith, AllDigits}
use whaloc.Accounts.Format.{phone_number_digits, format_display_phone_number, all_digits, is_e164}

all_digits-AllDigits : (s : String) → all_digits s ≡ true → AllDigits s
all_digits-AllDigits [] h = tt
all_digits-AllDigits (c ∷ s) h = ground (arith, all_digits-AllDigits s)

pub is_e164-AllDigits : (s : String) → is_e164 s ≡ true → AllDigits s
is_e164-AllDigits [] h = tt
is_e164-AllDigits (c ∷ s) h = ground (arith, all_digits-AllDigits s)

phone_number_digits_id : (s : String) → AllDigits s → phone_number_digits s ≡ s
phone_number_digits_id [] h = refl
phone_number_digits_id (c ∷ s) (d, h) = rw d (ap (λ t. c ∷ t) (phone_number_digits_id s h))

-- The digits of a display number that was made of digits are those digits.
pub phone_number_digits-format_display_phone_number :
    (s : String) → is_e164 s ≡ true → phone_number_digits (format_display_phone_number s) ≡ s
unfolding format_display_phone_number
phone_number_digits-format_display_phone_number s h =
    ap phone_number_digits (cons-append "+" "" s ∙ ap (λ t. "+" ∷ t) (nil-append s))
    ∙ phone_number_digits_id s (is_e164-AllDigits s h)
