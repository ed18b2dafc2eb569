-- ===== src/Base/Chars.antt =====
-- Texts by their characters.
use Prim.Native.Char.{Char, code}
use Prim.Native.Nat.{ℕ, zero, suc, ◌+◌, ◌-◌, ◌*◌, ◌/◌, ◌%◌, ◌<◌, ◌≤◌}
use Prim.Native.String.{String, [], ◌∷◌, ◌++◌}
use mathlib.Core.Path.{◌≡◌, refl, ap}
use mathlib.Core.Bool.{Bool, true, false, ◌&&◌, ◌||◌}
use mathlib.Core.Option.{Option, none, some}
use native.Mathlib.Omega.{arith}
use text.Mathlib.TextLemmas.{nil-append, cons-append}
use whaloc.Base.Tests.{leb, ltb, eqb, if◌then◌else◌, Bool-cases}
use mathlib.Core.Logic.{inl, inr}

abbrev pub is_digit : ℕ → Bool
is_digit c = leb b'0' c && leb c b'9'

-- white space, which `\s` matches and `trim` takes off
abbrev pub is_space : ℕ → Bool
is_space c =
    (leb 9 c && leb c 13)
    || eqb c 32
    || eqb c 160
    || eqb c 5760
    || (leb 8192 c && leb c 8202)
    || eqb c 8232
    || eqb c 8233
    || eqb c 8239
    || eqb c 8287
    || eqb c 12288
    || eqb c 65279

abbrev pub is_empty : String → Bool
is_empty [] = true
is_empty (c ∷ s) = false

abbrev trim_start : String → String
trim_start [] = []
trim_start (c ∷ s) = let rest = trim_start s in if is_space (code c) then rest else c ∷ s

abbrev trim_end : String → String
trim_end [] = []
trim_end (c ∷ s) =
    let rest = trim_end s in if is_empty rest && is_space (code c) then [] else c ∷ rest

-- `trim`
abbrev pub trim : String → String
trim s = trim_end (trim_start s)

abbrev digit_text : ℕ → String
digit_text zero = "0"
digit_text (suc zero) = "1"
digit_text (suc (suc zero)) = "2"
digit_text (suc (suc (suc zero))) = "3"
digit_text (suc (suc (suc (suc zero)))) = "4"
digit_text (suc (suc (suc (suc (suc zero))))) = "5"
digit_text (suc (suc (suc (suc (suc (suc zero)))))) = "6"
digit_text (suc (suc (suc (suc (suc (suc (suc zero))))))) = "7"
digit_text (suc (suc (suc (suc (suc (suc (suc (suc zero)))))))) = "8"
digit_text (suc (suc (suc (suc (suc (suc (suc (suc (suc _))))))))) = "9"

-- the decimal digits of a number; a number has fewer digits than the fuel
abbrev pub decimal_within : ℕ → ℕ → String
decimal_within zero n = []
decimal_within (suc k) n = elim (ltb n 10) [
  | true ↦ digit_text n
  | false ↦ decimal_within k (n / 10) ++ digit_text (n % 10)
]

-- `String(n)`
abbrev pub decimal : ℕ → String
decimal n = decimal_within (suc n) n

-- more fuel than the number itself changes nothing
decimal_within_lem : (k j n : ℕ) → n < k → n < j → decimal_within k n ≡ decimal_within j n
decimal_within_lem zero j n h i = absurd (omega arith)
decimal_within_lem (suc k) zero n h i = absurd (omega arith)
decimal_within_lem (suc k) (suc j) n h i = elim (Bool-cases (ltb n 10)) [
  | inl small ↦ rw (small, decimal_within) refl
  | inr large ↦
      let wide : 10 ≤ n = ground (arith, large) in
      rw (large, decimal_within)
        (ap (λ s. s ++ digit_text (n % 10))
          (decimal_within_lem k j (n / 10) (omega arith) (omega arith)))
]

pub decimal_within-eq-decimal : (k n : ℕ) → n < k → decimal_within k n ≡ decimal n
decimal_within-eq-decimal k n h = decimal_within_lem k (suc n) n h (omega arith)

abbrev pub text_length : String → ℕ
text_length [] = 0
text_length (c ∷ s) = suc (text_length s)

-- the characters in front that pass a test, and what follows them
abbrev pub span_by : (ℕ → Bool) → String → String × String
span_by p [] = ([], [])
span_by p (c ∷ s) =
    let (front, rest) = span_by p s in if p (code c) then (c ∷ front, rest) else ([], c ∷ s)

-- the digits in front, and what follows them
abbrev pub span_digits : String → String × String
span_digits [] = ([], [])
span_digits (c ∷ s) =
    let (digits, rest) = span_digits s in
    if is_digit (code c) then (c ∷ digits, rest) else ([], c ∷ s)

-- what follows a prefix
abbrev pub behind : String → String → Option String
behind [] s = some s
behind (p ∷ ps) [] = none
behind (p ∷ ps) (c ∷ s) = let rest = behind ps s in if eqb (code c) (code p) then rest else none

abbrev pub AllDigits : String → Type 0
AllDigits [] = Unit
AllDigits (c ∷ s) = (is_digit (code c) ≡ true) × AllDigits s

pub text_length-append : (a b : String) → text_length (a ++ b) ≡ text_length a + text_length b
text_length-append [] b = rw nil-append (omega arith)
text_length-append (c ∷ a) b = rw cons-append (omega (arith, text_length-append a b))

abbrev pub all_chars : (ℕ → Bool) → String → Bool
all_chars p [] = true
all_chars p (c ∷ s) = p (code c) && all_chars p s

-- every character passes a test
abbrev pub AllChars : (ℕ → Bool) → String → Type 0
AllChars p [] = Unit
AllChars p (c ∷ s) = (p (code c) ≡ true) × AllChars p s

-- the text does not go on with a character that passes
abbrev pub Stops : (ℕ → Bool) → String → Type 0
Stops p [] = Unit
Stops p (c ∷ s) = p (code c) ≡ false

pub span_by_none : (p : (ℕ → Bool)) (s : String) → Stops p s → span_by p s ≡ ([], s)
span_by_none p [] h = refl
span_by_none p (c ∷ s) h = rw h refl

pub span_by-append :
    (p : (ℕ → Bool)) (front s : String)
    → AllChars p front
    → Stops p s
    → span_by p (front ++ s) ≡ (front, s)
span_by-append p [] s d h = rw nil-append (span_by_none p s h)
span_by-append p (c ∷ front) s (e, d) h = rw cons-append (rw (e, span_by-append p front s d h) refl)

-- the letter at a place of an alphabet
abbrev letter_at : ℕ → String → Char → Char
letter_at n [] c = c
letter_at zero (a ∷ alphabet) c = a
letter_at (suc n) (a ∷ alphabet) c = letter_at n alphabet c

abbrev upper_char : Char → Char
upper_char c =
    if leb b'a' (code c) && leb (code c) b'z'
    then letter_at (code c - b'a') "ABCDEFGHIJKLMNOPQRSTUVWXYZ" c
    else c

abbrev lower_char : Char → Char
lower_char c =
    if leb b'A' (code c) && leb (code c) b'Z'
    then letter_at (code c - b'A') "abcdefghijklmnopqrstuvwxyz" c
    else c

-- `toUpperCase`, `toLowerCase`: letter by letter, in ASCII
abbrev pub to_upper : String → String
to_upper [] = []
to_upper (c ∷ s) = upper_char c ∷ to_upper s

abbrev pub to_lower : String → String
to_lower [] = []
to_lower (c ∷ s) = lower_char c ∷ to_lower s

-- the number that digits spell
abbrev pub number_from : ℕ → String → ℕ
number_from n [] = n
number_from n (c ∷ s) = number_from (n * 10 + (code c - b'0')) s
