-- ===== src/Base/Filters.antt =====
-- Filters: one after the other, and tests that agree.
use Prim.Native.Nat.{Ordering}
use Prim.Native.String.{String}
use mathlib.Core.Bool.{Bool, true, false, ◌&&◌, ◌||◌}
use mathlib.Core.Logic.{inl, inr}
use mathlib.Core.List.{List, [], ◌∷◌, map}
use mathlib.Core.Option
use mathlib.Core.Option.{Option, none, some}
use mathlib.Core.Path.{◌≡◌, refl, ◌∙◌, ap}
use native.Mathlib.Omega.{arith}
use whaloc.Base.Lists.{All, any, filter, insert_sorted, to_sorted}
use whaloc.Base.Keyed.{find_by, IsDistinct}
use whaloc.Base.Rows.{insert_sorted-cons}

module _ {ℓ} {A : Type ℓ} where
  pub All-of {κ} : (P : A → Type κ) (h : (x : A) → P x) (xs : List A) → All P xs
  All-of P h [] = tt
  All-of P h (x ∷ xs) = (h x, All-of P h xs)

  pub filter-filter :
      (p q : A → Bool) (xs : List A) → filter p (filter q xs) ≡ filter (λ x. q x && p x) xs
  filter-filter p q [] = refl
  filter-filter p q (x ∷ xs) = ground (arith, filter-filter p q xs)

  -- tests that agree on every item keep the same items
  pub filter-eq :
      (p q : A → Bool) (xs : List A) → All (λ x. p x ≡ q x) xs → filter p xs ≡ filter q xs
  filter-eq p q [] h = refl
  filter-eq p q (x ∷ xs) (same, h) = ground (arith, filter-eq p q xs h)

  pub filter_kept : (p : A → Bool) (xs : List A) → All (λ x. p x ≡ true) xs → filter p xs ≡ xs
  filter_kept p [] h = refl
  filter_kept p (x ∷ xs) (kept, h) = ground (arith, filter_kept p xs h)

  pub any-insert_sorted :
      (cmp : A → A → Ordering) (p : A → Bool) (x : A) (ys : List A)
      → any p (insert_sorted cmp x ys) ≡ (p x || any p ys)
  any-insert_sorted cmp p x [] = refl
  any-insert_sorted cmp p x (y ∷ ys) = elim (insert_sorted-cons cmp x y ys) [
    | inl later ↦ rw later (ground (arith, any-insert_sorted cmp p x ys))
    | inr here ↦ rw here refl
  ]

  pub any-to_sorted :
      (cmp : A → A → Ordering) (p : A → Bool) (xs : List A) → any p (to_sorted cmp xs) ≡ any p xs
  unfolding to_sorted
  any-to_sorted cmp p [] = refl
  any-to_sorted cmp p (x ∷ xs) =
      any-insert_sorted cmp p x (to_sorted cmp xs) ∙ ap (λ b. p x || b) (any-to_sorted cmp p xs)

  pub any-filter : (p q : A → Bool) (xs : List A) → any p (filter q xs) ≡ any (λ x. q x && p x) xs
  any-filter p q [] = refl
  any-filter p q (x ∷ xs) = ground (arith, any-filter p q xs)

  pub any-map {κ} :
      {B : Type κ} (p : A → Bool) (f : B → A) (xs : List B)
      → any p (map f xs) ≡ any (λ x. p (f x)) xs
  any-map p f [] = refl
  any-map p f (x ∷ xs) = rw (any-map p f xs) refl

  pub any-filter-false :
      (p q : A → Bool) (xs : List A) → any p xs ≡ false → any p (filter q xs) ≡ false
  any-filter-false p q [] h = refl
  any-filter-false p q (x ∷ xs) h = ground (arith, any-filter-false p q xs)

module _ {ℓ} {A B : Type ℓ} (key : B → String) (f : A → B) where
  find_by-map_of :
      (k : String) (xs : List A)
      → find_by key k (map f xs) ≡ Option.map f (find_by (λ x. key (f x)) k xs)
  find_by-map_of k [] = refl
  find_by-map_of k (x ∷ xs) = ground (arith, find_by-map_of k xs)

  pub map-IsDistinct_of : (xs : List A) → IsDistinct (λ x. key (f x)) xs → IsDistinct key (map f xs)
  map-IsDistinct_of [] h = tt
  map-IsDistinct_of (x ∷ xs) (new, h) =
      (find_by-map_of (key (f x)) xs ∙ ap (Option.map f) new, map-IsDistinct_of xs h)
