-- ===== src/Base/Text.antt =====
-- The order of texts, by code points; on the ASCII that identifiers and timestamps consist of this
-- is the order of `<` on strings.
use Prim.Native.Nat.{ℕ, compare as compare_ℕ, Ordering}
use Prim.Native.Char.{code}
use Prim.Native.String.{String, [], ◌∷◌, compare, then}
use Prim.Native.String.compare
use mathlib.Core.Path.{◌≡◌}
use mathlib.Core.Bool.{Bool}
use native.Mathlib.Omega.{arith}
use text.Mathlib.Text.{is_lt}

abbrev pub text_lt : String → String → Bool
text_lt s t = is_lt (compare s t)

flip_ℕ : (m n : ℕ) → (compare_ℕ m n ≡ Ordering.gt) → compare_ℕ n m ≡ Ordering.lt
flip_ℕ m n h = ground arith

then_flip :
    (m n : ℕ) (o o' : Ordering)
    → (o ≡ Ordering.gt → o' ≡ Ordering.lt)
    → then (compare_ℕ m n) o ≡ Ordering.gt
    → then (compare_ℕ n m) o' ≡ Ordering.lt
then_flip m n o o' k h = ground arith

pub compare_flip : (s t : String) → compare s t ≡ Ordering.gt → compare t s ≡ Ordering.lt
compare_flip [] [] h = cc (compare.nil-nil)
compare_flip [] (d ∷ t) h = cc (compare.nil-cons d t)
compare_flip (c ∷ s) [] h = compare.nil-cons c s
compare_flip (c ∷ s) (d ∷ t) h = rw compare.cons-cons (
    then_flip (code c) (code d) (compare s t) (compare t s) (compare_flip s t)
      (rw compare.cons-cons at h))

then_trans :
    (m n k : ℕ) (o o' o'' : Ordering)
    → (o ≡ Ordering.lt → o' ≡ Ordering.lt → o'' ≡ Ordering.lt)
    → then (compare_ℕ m n) o ≡ Ordering.lt
    → then (compare_ℕ n k) o' ≡ Ordering.lt
    → then (compare_ℕ m k) o'' ≡ Ordering.lt
then_trans m n k o o' o'' h e e' = ground arith

-- the order of texts is transitive
pub compare_trans :
    (s t u : String)
    → compare s t ≡ Ordering.lt
    → compare t u ≡ Ordering.lt
    → compare s u ≡ Ordering.lt
compare_trans [] [] u h i = absurd (cc (compare.nil-nil, h))
compare_trans (c ∷ s) [] u h i = absurd (cc (compare.cons-nil c s, h))
compare_trans [] (d ∷ t) [] h i = absurd (cc (compare.cons-nil d t, i))
compare_trans (c ∷ s) (d ∷ t) [] h i = absurd (cc (compare.cons-nil d t, i))
compare_trans [] (d ∷ t) (e ∷ u) h i = compare.nil-cons e u
compare_trans (c ∷ s) (d ∷ t) (e ∷ u) h i = rw compare.cons-cons (
    then_trans (code c) (code d) (code e) (compare s t) (compare t u) (compare s u)
      (compare_trans s t u) (rw compare.cons-cons at h) (rw compare.cons-cons at i))
