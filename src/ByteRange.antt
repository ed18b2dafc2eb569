-- ===== src/ByteRange.antt =====
-- packages/server/src/graph-api/byte-range.ts: the `Range` header of the media byte endpoint. A
-- number of the header is a natural number, which the source's is up to 2^53.
pub mod Bounds
mod Tests
use Prim.Native.Char.{Char, code}
use Prim.Native.Nat.{min}
use Prim.Native.String.{[], ◌∷◌}
use whaloc.Base.{
  span_digits, is_space, trim, String, Bool, true, false, not, ◌&&◌, ◌||◌, Option, none, some, ℕ,
  ◌+◌, ◌-◌, ◌*◌, leb, ltb, eqb, if◌then◌else◌,
}

pub data ByteRange : Type 0 where
  whole : ByteRange
  range : ℕ → ℕ → ByteRange
  unsatisfiable : ByteRange

-- what `.` does not match
abbrev is_line_end : ℕ → Bool
is_line_end c = eqb c 10 || eqb c 13 || eqb c 8232 || eqb c 8233

has_line_end : String → Bool
has_line_end [] = false
has_line_end (c ∷ s) = is_line_end (code c) || has_line_end s

has_comma : String → Bool
has_comma [] = false
has_comma (c ∷ s) = eqb (code c) b',' || has_comma s

abbrev lower : ℕ → ℕ
lower c = if leb b'A' c && leb c b'Z' then c + 32 else c

-- the text behind a prefix that is spelled in lower case, whatever the case
strip_prefix : String → String → Option String
strip_prefix [] s = some s
strip_prefix (p ∷ ps) [] = none
strip_prefix (p ∷ ps) (c ∷ s) =
    let rest = strip_prefix ps s in if eqb (lower (code c)) (code p) then rest else none

-- `BYTES_UNIT_PATTERN`
bytes_unit : String → Option String
unfolding strip_prefix has_line_end
bytes_unit s = elim (strip_prefix "bytes=" s) [
  | none ↦ none
  | some rest ↦ if has_line_end rest then none else some rest
]

digits_only : String → String × String → Option (String × String)
digits_only first (last, []) = some (first, last)
digits_only first (last, c ∷ s) = none

behind_dash : String × String → Option (String × String)
unfolding digits_only
behind_dash (first, []) = none
behind_dash (first, c ∷ s) =
    let last = digits_only first (span_digits s) in if eqb (code c) b'-' then last else none

-- `RANGE_SPEC_PATTERN`
range_spec : String → Option (String × String)
unfolding behind_dash
range_spec s = behind_dash (span_digits s)

number_from : ℕ → String → ℕ
number_from n [] = n
number_from n (c ∷ s) = number_from (n * 10 + (code c - b'0')) s

-- a group of the pattern, `none` when it is empty
position : String → Option ℕ
unfolding number_from
position [] = none
position (c ∷ s) = some (number_from 0 (c ∷ s))

abbrev satisfy : ℕ → ℕ → ℕ → ByteRange
satisfy start end size = if leb size start then unsatisfiable else range start end

-- From the first and the last position of the header to the bytes.
unfoldable pub select_range : Option ℕ → Option ℕ → ℕ → ByteRange
select_range none none size = whole
select_range none (some last) size = satisfy (size - last) (size - 1) size
select_range (some first) none size = satisfy first (size - 1) size
select_range (some first) (some last) size =
    if ltb last first then whole else satisfy first (min last (size - 1)) size

of_spec : ℕ → Option (String × String) → ByteRange
unfolding position
of_spec size none = whole
of_spec size (some (first, last)) = select_range (position first) (position last) size

of_unit : ℕ → Option String → ByteRange
unfolding of_spec has_comma range_spec
of_unit size none = whole
of_unit size (some specs) =
    if has_comma specs then whole else of_spec size (range_spec (trim specs))

unfoldable pub parse_byte_range : Option String → ℕ → ByteRange
unfolding of_unit bytes_unit
parse_byte_range none size = whole
parse_byte_range (some header) size = of_unit size (bytes_unit (trim header))
