-- ===== src/Base/Keyed.antt =====
-- Collections of records that carry a key: replacing in place, appending, removing.
use Prim.Native.String.{String}
use mathlib.Core.Path.{◌≡◌, subst, refl}
use mathlib.Core.Logic.{inl, inr}
use mathlib.Core.Bool.{Bool, true, not}
use mathlib.Core.Option.{Option, none, some}
use mathlib.Core.List.{List, [], ◌∷◌, ◌++◌}
use native.Mathlib.Omega.{arith}
use text.Mathlib.Text.{◌==◌}
use text.Mathlib.TextEquality.{eq_iff}
use whaloc.Base.Tests.{if◌then◌else◌, Option-cases, Bool-cases}
use whaloc.Base.Lists.{All, find, find_index?, filter, place}

module _ {ℓ} {A : Type ℓ} (key : A → String) where
  abbrev pub has_key : String → A → Bool
  has_key k x = key x == k

  abbrev pub find_by : String → List A → Option A
  find_by k xs = find (has_key k) xs

  -- no two items have one key
  abbrev pub IsDistinct : List A → Type ℓ
  IsDistinct [] = Unit
  IsDistinct (x ∷ xs) = (find_by (key x) xs ≡ none) × IsDistinct xs

  pub find_by-append :
      (k : String) (xs : List A) (x : A)
      → find_by k (xs ++ x ∷ [])
        ≡ (elim (find_by k xs) [ some y ↦ some y | none ↦ if key x == k then some x else none ])
  find_by-append k [] x = ground arith
  find_by-append k (y ∷ xs) x = ground (arith, find_by-append k xs x)

  pub find_by-append_new :
      (k : String) (xs : List A) (x : A)
      → find_by (key x) xs ≡ none
      → find_by k (xs ++ x ∷ []) ≡ (if key x == k then some x else find_by k xs)
  find_by-append_new k [] x h = ground arith
  find_by-append_new k (y ∷ xs) x h =
      ground (
        arith,
        find_by-append_new k xs x,
        eq_iff (key y) (key x),
        eq_iff (key y) k,
        eq_iff (key x) k,
      )

  -- what `find` returns has the key
  pub key-find_by : (k : String) (xs : List A) (x : A) → find_by k xs ≡ some x → key x ≡ k
  key-find_by k [] x h = cc
  key-find_by k (y ∷ xs) x h = ground (arith, key-find_by k xs x, eq_iff (key y) k)

  -- Replacing the first item with the key, or appending when there is none.
  abbrev pub upsert : A → List A → List A
  upsert x xs = place (find_index? (has_key (key x)) xs) x xs (xs ++ x ∷ [])

  upsert-cons :
      (x y : A) (xs : List A)
      → upsert x (y ∷ xs) ≡ (if key y == key x then x ∷ xs else y ∷ upsert x xs)
  upsert-cons x y xs = ground arith

  pub find_by-upsert :
      (k : String) (x : A) (xs : List A)
      → find_by k (upsert x xs) ≡ (if key x == k then some x else find_by k xs)
  find_by-upsert k x [] = ground arith
  find_by-upsert k x (y ∷ xs) = rw (upsert-cons x y xs) (
      ground
        (arith, find_by-upsert k x xs, eq_iff (key y) (key x), eq_iff (key y) k, eq_iff (key x) k))

  pub upsert-IsDistinct : (x : A) (xs : List A) → IsDistinct xs → IsDistinct (upsert x xs)
  upsert-IsDistinct x [] h = (refl, tt)
  upsert-IsDistinct x (y ∷ xs) (new, h) = rw (upsert-cons x y xs) (
      ground (
        arith,
        upsert-IsDistinct x xs h,
        find_by-upsert (key y) x xs,
        eq_iff (key y) (key x),
        eq_iff (key x) (key y),
      ))

  -- Removing every item with the key.
  abbrev pub remove : String → List A → List A
  remove k xs = filter (λ x. not (key x == k)) xs

  pub find_by-remove :
      (j k : String) (xs : List A)
      → find_by k (remove j xs) ≡ (if j == k then none else find_by k xs)
  find_by-remove j k [] = ground arith
  find_by-remove j k (x ∷ xs) =
      ground (arith, find_by-remove j k xs, eq_iff (key x) j, eq_iff (key x) k, eq_iff j k)

  pub find_by-filter-none :
      (k : String) (p : A → Bool) (xs : List A)
      → find_by k xs ≡ none
      → find_by k (filter p xs) ≡ none
  find_by-filter-none k p [] h = refl
  find_by-filter-none k p (x ∷ xs) h = ground (arith, find_by-filter-none k p xs)

  pub filter-IsDistinct : (p : A → Bool) (xs : List A) → IsDistinct xs → IsDistinct (filter p xs)
  filter-IsDistinct p [] h = tt
  filter-IsDistinct p (x ∷ xs) (new, h) =
      ground (arith, filter-IsDistinct p xs h, find_by-filter-none (key x) p xs new)

  pub append-IsDistinct :
      (xs : List A) (x : A) → IsDistinct xs → find_by (key x) xs ≡ none → IsDistinct (xs ++ x ∷ [])
  append-IsDistinct [] x h e = (refl, tt)
  append-IsDistinct (y ∷ xs) x (new, h) e = ground (
    arith,
    append-IsDistinct xs x h,
    find_by-append (key y) xs x,
    eq_iff (key x) (key y),
    eq_iff (key y) (key x),
  )

  pub find_by-find_index? :
      (k : String) (xs : List A) → find_index? (has_key k) xs ≡ none → find_by k xs ≡ none
  find_by-find_index? k [] h = refl
  find_by-find_index? k (x ∷ xs) h = ground (arith, find_by-find_index? k xs)

  -- What is put in place of an item, or goes where `fresh` has it, answers to its key.
  pub find_by-place :
      (k : String) (x : A) (xs fresh : List A)
      → (find_by (key x) xs ≡ none
          → find_by k fresh ≡ (if key x == k then some x else find_by k xs))
      → find_by k (place (find_index? (has_key (key x)) xs) x xs fresh)
        ≡ (if key x == k then some x else find_by k xs)
  find_by-place k x xs fresh h = elim (Option-cases (find_index? (has_key (key x)) xs)) [
    | inl absent ↦ rw absent (h (find_by-find_index? (key x) xs absent))
    | inr (i, found) ↦ rw found (rw found at (find_by-upsert k x xs))
  ]

  pub place-IsDistinct :
      (x : A) (xs fresh : List A)
      → IsDistinct xs
      → (find_by (key x) xs ≡ none → IsDistinct fresh)
      → IsDistinct (place (find_index? (has_key (key x)) xs) x xs fresh)
  place-IsDistinct x xs fresh d h = elim (Option-cases (find_index? (has_key (key x)) xs)) [
    | inl absent ↦ rw absent (h (find_by-find_index? (key x) xs absent))
    | inr (i, found) ↦ rw found (rw found at (upsert-IsDistinct x xs d))
  ]

  find_by_later :
      (x : A) (xs ys : List A)
      → find_by (key x) xs ≡ none
      → All (λ y. find_by (key y) ys ≡ some y) xs
      → All (λ y. find_by (key y) (x ∷ ys) ≡ some y) xs
  find_by_later x [] ys new h = tt
  find_by_later x (y ∷ xs) ys new (found, h) = (
    ground (arith, found, eq_iff (key x) (key y), eq_iff (key y) (key x)),
    find_by_later x xs ys (ground (arith, new)) h,
  )

  -- where keys are distinct, every item is found under its own key
  pub find_by_own : (xs : List A) → IsDistinct xs → All (λ y. find_by (key y) xs ≡ some y) xs
  find_by_own [] d = tt
  find_by_own (x ∷ xs) (new, d) =
      (ground (arith, eq_iff (key x) (key x)), find_by_later x xs xs new (find_by_own xs d))

  abbrev pub keep_if : (A → Bool) → Option A → Option A
  keep_if p none = none
  keep_if p (some x) = if p x then some x else none

  pub find_by-filter :
      (k : String) (p : A → Bool) (xs : List A)
      → IsDistinct xs
      → find_by k (filter p xs) ≡ keep_if p (find_by k xs)
  find_by-filter k p [] d = refl
  find_by-filter k p (x ∷ xs) (new, d) =
      ground (arith, find_by-filter k p xs d, eq_iff (key x) k, new_at)
    where
      new_at : key x ≡ k → find_by k xs ≡ none
      new_at e = subst (λ j. find_by j xs ≡ none) e new

pub All-filter {ℓ κ} :
    {A : Type ℓ} (P : A → Type κ) (p : A → Bool) (xs : List A) → All P xs → All P (filter p xs)
All-filter P p [] h = tt
All-filter P p (x ∷ xs) (q, h) = elim (Bool-cases (p x)) [
  | inl kept ↦ rw kept (q, All-filter P p xs h)
  | inr gone ↦ rw gone (All-filter P p xs h)
]

pub All-map {ℓ κ} :
    {A : Type ℓ} (P Q : A → Type κ) (f : (a : A) → P a → Q a) (xs : List A) → All P xs → All Q xs
All-map P Q f [] h = tt
All-map P Q f (x ∷ xs) (p, h) = (f x p, All-map P Q f xs h)

pub All-find {ℓ κ} :
    {A : Type ℓ} (P : A → Type κ) (p : A → Bool) (xs : List A) (x : A)
    → All P xs
    → find p xs ≡ some x
    → P x × (p x ≡ true)
All-find P p [] x h e = absurd (ground (arith, e))
All-find P p (y ∷ xs) x (q, h) e = elim (Bool-cases (p y)) [
  | inl here ↦ let same : y ≡ x = ground (arith, e) in (subst P same q, rw (← same) here)
  | inr later ↦ All-find P p xs x h (ground (arith, e))
]
