-- ===== src/ByteRange/Bounds.antt =====
-- packages/server/src/graph-api/byte-range.ts: the bytes that a range serves.
use whaloc.Base.{
  trim, String, Bool, true, false, ◌&&◌, Option, none, some, ℕ, ◌+◌, ◌≤◌, ◌<◌, ◌≡◌, refl, arith,
  leb, ltb, if◌then◌else◌, Bool-cases, inl, inr,
}
use whaloc.ByteRange.{
  ByteRange, whole, range, unsatisfiable, select_range, parse_byte_range, of_spec, of_unit,
  has_comma, range_spec, bytes_unit, position,
}

-- a range inside an object of a size
abbrev pub IsInside : ByteRange → ℕ → Type 0
IsInside (range start end) size = (start ≤ end) × (end < size)
IsInside r size = Unit

select_range-IsInside :
    (first last : Option ℕ) (size : ℕ) → IsInside (select_range first last size) size
unfolding select_range
select_range-IsInside none none size = tt
select_range-IsInside none (some last) size = ground arith
select_range-IsInside (some first) none size = ground arith
select_range-IsInside (some first) (some last) size = ground arith

-- does the answer hold a byte
abbrev pub serves : ByteRange → ℕ → Bool
serves whole i = true
serves (range start end) i = leb start i && leb i end
serves unsatisfiable i = false

-- does the header ask for a byte of an object of a size
abbrev pub asks : Option ℕ → Option ℕ → ℕ → ℕ → Bool
asks none none size i = true
asks none (some last) size i = leb size (i + last)
asks (some first) none size i = leb first i
asks (some first) (some last) size i = if ltb last first then true else leb first i && leb i last

-- Every byte of the object is in the answer exactly when the header asks for it: bytes from one
-- position to another, from a position on, or the last ones; a header that names no position, or a
-- last one before the first, asks for all.
pub serves-select_range :
    (first last : Option ℕ) (size i : ℕ)
    → i < size
    → serves (select_range first last size) i ≡ asks first last size i
unfolding select_range
serves-select_range none none size i lt = refl
serves-select_range none (some last) size i lt = ground arith
serves-select_range (some first) none size i lt = ground arith
serves-select_range (some first) (some last) size i lt = ground arith

of_spec-IsInside : (size : ℕ) (o : Option (String × String)) → IsInside (of_spec size o) size
unfolding of_spec
of_spec-IsInside size none = tt
of_spec-IsInside size (some (first, last)) =
    select_range-IsInside (position first) (position last) size

of_unit-IsInside : (size : ℕ) (o : Option String) → IsInside (of_unit size o) size
unfolding of_unit
of_unit-IsInside size none = tt
of_unit-IsInside size (some specs) = elim (Bool-cases (has_comma specs)) [
  | inl many ↦ rw many tt
  | inr one ↦ rw one (of_spec-IsInside size (range_spec (trim specs)))
]

-- Whatever the header says, a range that is served lies inside the object and is not empty.
pub parse_byte_range-IsInside :
    (header : Option String) (size : ℕ) → IsInside (parse_byte_range header size) size
unfolding parse_byte_range
parse_byte_range-IsInside none size = tt
parse_byte_range-IsInside (some header) size = of_unit-IsInside size (bytes_unit (trim header))
