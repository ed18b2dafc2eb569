-- ===== src/Base/Rows.antt =====
-- Tables of rows: writes that keep the key, and what a search that fails says of every row.
use Prim.Native.Nat.{Ordering}
use Prim.Native.String.{String}
use mathlib.Core.Bool.{Bool, false}
use mathlib.Core.Logic.{◌⊎◌, inl, inr}
use mathlib.Core.List.{List, [], ◌∷◌, map}
use mathlib.Core.Option
use mathlib.Core.Option.{Option, none, some}
use mathlib.Core.Path.{◌≡◌, refl, ◌∙◌}
use native.Mathlib.Omega.{arith}
use text.Mathlib.Text.{◌==◌}
use whaloc.Base.Tests.{Bool-cases}
use whaloc.Base.Lists.{All, find, any, insert_sorted, to_sorted}
use whaloc.Base.Keyed.{find_by, IsDistinct}

module _ {ℓ} {A : Type ℓ} (key : A → String) (f : A → A) (same : (x : A) → key (f x) ≡ key x) where
  pub find_by-map :
      (k : String) (xs : List A) → find_by key k (map f xs) ≡ Option.map f (find_by key k xs)
  find_by-map k [] = refl
  find_by-map k (x ∷ xs) = rw (same x) (ground (arith, find_by-map k xs))

  pub map-IsDistinct : (xs : List A) → IsDistinct key xs → IsDistinct key (map f xs)
  map-IsDistinct [] h = tt
  map-IsDistinct (x ∷ xs) (new, h) =
      (rw (same x) (find_by-map (key x) xs ∙ rw new refl), map-IsDistinct xs h)

module _ {ℓ} {A : Type ℓ} (p : A → Bool) where
  -- no item passes
  abbrev pub Fails : List A → Type 0
  Fails xs = All (λ x. p x ≡ false) xs

  pub find-Fails : (xs : List A) → find p xs ≡ none → Fails xs
  find-Fails [] h = tt
  find-Fails (x ∷ xs) h = ground (arith, find-Fails xs)

  pub Fails-find : (xs : List A) → Fails xs → find p xs ≡ none
  Fails-find [] h = refl
  Fails-find (x ∷ xs) (out, h) = rw out (Fails-find xs h)

  pub Fails-any : (xs : List A) → Fails xs → any p xs ≡ false
  Fails-any [] h = refl
  Fails-any (x ∷ xs) (out, h) = rw out (Fails-any xs h)

module _ {ℓ} {A : Type ℓ} (cmp : A → A → Ordering) where
  pub insert_sorted-cons :
      (x y : A) (ys : List A)
      → (insert_sorted cmp x (y ∷ ys) ≡ y ∷ insert_sorted cmp x ys)
        ⊎ (insert_sorted cmp x (y ∷ ys) ≡ x ∷ y ∷ ys)
  insert_sorted-cons x y ys = go (cmp x y)
    where
      go :
          (o : Ordering)
          → ((elim o [ Ordering.gt ↦ y ∷ insert_sorted cmp x ys | _ ↦ x ∷ y ∷ ys ])
              ≡ y ∷ insert_sorted cmp x ys)
            ⊎ ((elim o [ Ordering.gt ↦ y ∷ insert_sorted cmp x ys | _ ↦ x ∷ y ∷ ys ]) ≡ x ∷ y ∷ ys)
      go Ordering.gt = inl refl
      go Ordering.lt = inr refl
      go Ordering.eq = inr refl

module _ {ℓ κ} {A : Type ℓ} (P : A → Type κ) (cmp : A → A → Ordering) where
  pub All-insert_sorted : (x : A) (ys : List A) → P x → All P ys → All P (insert_sorted cmp x ys)
  All-insert_sorted x [] q h = (q, tt)
  All-insert_sorted x (y ∷ ys) q (r, h) = elim (insert_sorted-cons cmp x y ys) [
    | inl later ↦ rw later (r, All-insert_sorted x ys q h)
    | inr here ↦ rw here (q, (r, h))
  ]

  insert_sorted-All : (x : A) (ys : List A) → All P (insert_sorted cmp x ys) → P x × All P ys
  insert_sorted-All x [] h = h
  insert_sorted-All x (y ∷ ys) h = elim (insert_sorted-cons cmp x y ys) [
    | inl later ↦
        let (r, rest) = rw later at h in let (q, s) = insert_sorted-All x ys rest in (q, (r, s))
    | inr here ↦ rw here at h
  ]

  -- what holds of every item holds of every sorted item, and the other way round
  pub All-to_sorted : (xs : List A) → All P xs → All P (to_sorted cmp xs)
  unfolding to_sorted
  All-to_sorted [] h = tt
  All-to_sorted (x ∷ xs) (q, h) = All-insert_sorted x (to_sorted cmp xs) q (All-to_sorted xs h)

  pub to_sorted-All : (xs : List A) → All P (to_sorted cmp xs) → All P xs
  unfolding to_sorted
  to_sorted-All [] h = tt
  to_sorted-All (x ∷ xs) h =
      let (q, r) = insert_sorted-All x (to_sorted cmp xs) h in (q, to_sorted-All xs r)

module _ {ℓ κ} {A B : Type ℓ} (P : B → Type κ) (f : A → B) where
  pub map-All : (xs : List A) → All P (map f xs) → All (λ x. P (f x)) xs
  map-All [] h = tt
  map-All (x ∷ xs) (p, h) = (p, map-All xs h)

  pub All-map_of : (xs : List A) → All (λ x. P (f x)) xs → All P (map f xs)
  All-map_of [] h = tt
  All-map_of (x ∷ xs) (p, h) = (p, All-map_of xs h)

-- under the rows' own key, an absent key is one that no row has
pub absent-All {ℓ} :
    {A : Type ℓ} (key : A → String) (k : String) (xs : List A)
    → find_by key k xs ≡ none
    → All (λ x. (key x == k) ≡ false) xs
absent-All key k [] h = tt
absent-All key k (x ∷ xs) h = elim (Bool-cases (key x == k)) [
  | inl here ↦ absurd (cc (rw here at h))
  | inr other ↦ (other, absent-All key k xs (rw other at h))
]
