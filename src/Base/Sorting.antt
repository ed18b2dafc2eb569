-- ===== src/Base/Sorting.antt =====
-- The language's stable sort on collections with keys.
use mathlib.Core.Option.{none, some}
use mathlib.Core.List.{List, [], ◌∷◌}
use mathlib.Core.Path.{◌≡◌, refl, ◌∙◌}
use Prim.Native.Nat.{Ordering}
use Prim.Native.String.{String}
use native.Mathlib.Omega.{arith}
use text.Mathlib.Text.{◌==◌}
use text.Mathlib.TextEquality.{eq_iff}
use whaloc.Base.Tests.{if◌then◌else◌}
use whaloc.Base.Lists.{insert_sorted, to_sorted}
use whaloc.Base.Keyed.{find_by, IsDistinct}

module _ {ℓ} {A : Type ℓ} (key : A → String) (cmp : A → A → Ordering) where
  find_by-insert_sorted :
      (k : String) (x : A) (ys : List A)
      → find_by key (key x) ys ≡ none
      → find_by key k (insert_sorted cmp x ys) ≡ (if key x == k then some x else find_by key k ys)
  find_by-insert_sorted k x [] h = ground arith
  find_by-insert_sorted k x (y ∷ ys) h = ground (
    arith,
    find_by-insert_sorted k x ys,
    eq_iff (key x) k,
    eq_iff (key y) k,
    eq_iff (key y) (key x),
  )

  insert_sorted-IsDistinct :
      (x : A) (ys : List A)
      → find_by key (key x) ys ≡ none
      → IsDistinct key ys
      → IsDistinct key (insert_sorted cmp x ys)
  insert_sorted-IsDistinct x [] e h = (refl, tt)
  insert_sorted-IsDistinct x (y ∷ ys) e (new, h) = ground (
    arith,
    insert_sorted-IsDistinct x ys,
    find_by-insert_sorted (key y) x ys,
    eq_iff (key x) (key y),
    eq_iff (key y) (key x),
  )

  pub find_by-to_sorted :
      (xs : List A) (k : String)
      → IsDistinct key xs
      → find_by key k (to_sorted cmp xs) ≡ find_by key k xs
  unfolding to_sorted
  find_by-to_sorted [] k h = refl
  find_by-to_sorted (x ∷ xs) k (new, h) =
      find_by-insert_sorted k x (to_sorted cmp xs) (find_by-to_sorted xs (key x) h ∙ new)
      ∙ ground (arith, find_by-to_sorted xs k h)

  pub to_sorted-IsDistinct : (xs : List A) → IsDistinct key xs → IsDistinct key (to_sorted cmp xs)
  unfolding to_sorted
  to_sorted-IsDistinct [] h = tt
  to_sorted-IsDistinct (x ∷ xs) (new, h) =
      insert_sorted-IsDistinct x (to_sorted cmp xs) (find_by-to_sorted xs (key x) h ∙ new)
        (to_sorted-IsDistinct xs h)
