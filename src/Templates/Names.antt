-- ===== src/Templates/Names.antt =====
-- packages/server/src/db/repositories/template-repository.ts: one template per name and language of
-- an account.
use whaloc.Base.{
  List, [], ◌∷◌, ◌++◌, Bool, false, inl, inr, ◌≡◌, refl, ◌∙◌, Bool-cases, filter, map, All,
  All-filter, All-map, All-map_of, Fails, eq_comm,
}
use whaloc.Shared.Entities.{Template}
use whaloc.Templates.Table.{has_language}

-- the same name in the same language of the same account
abbrev pub is_same : Template → Template → Bool
is_same x y = has_language x.waba_id x.name x.language y

abbrev pub HasDistinctNames : List Template → Type 0
HasDistinctNames [] = Unit
HasDistinctNames (x ∷ xs) = Fails (is_same x) xs × HasDistinctNames xs

is_same_comm : (x y : Template) → is_same x y ≡ is_same y x
is_same_comm x y =
    rw (eq_comm x.waba_id y.waba_id, eq_comm x.name y.name, eq_comm x.language y.language) refl

pub append-HasDistinctNames :
    (xs : List Template) (row : Template)
    → HasDistinctNames xs
    → Fails (is_same row) xs
    → HasDistinctNames (xs ++ row ∷ [])
append-HasDistinctNames [] row h new = (tt, tt)
append-HasDistinctNames (x ∷ xs) row (apart, h) (other, new) = (
  All-snoc (λ y. is_same x y ≡ false) xs row apart (is_same_comm x row ∙ other),
  append-HasDistinctNames xs row h new,
)
  where
    All-snoc :
        (P : Template → Type 0) (ys : List Template) (z : Template)
        → All P ys
        → P z
        → All P (ys ++ z ∷ [])
    All-snoc P [] z h p = (p, tt)
    All-snoc P (y ∷ ys) z (q, h) p = (q, All-snoc P ys z h p)

pub filter-HasDistinctNames :
    (p : Template → Bool) (xs : List Template)
    → HasDistinctNames xs
    → HasDistinctNames (filter p xs)
filter-HasDistinctNames p [] h = tt
filter-HasDistinctNames p (x ∷ xs) (apart, h) = elim (Bool-cases (p x)) [
  | inl kept ↦
      rw kept (All-filter (λ y. is_same x y ≡ false) p xs apart, filter-HasDistinctNames p xs h)
  | inr gone ↦ rw gone (filter-HasDistinctNames p xs h)
]

pub map-HasDistinctNames :
    (f : Template → Template)
    → ((x y : Template) → is_same (f x) (f y) ≡ is_same x y)
    → (xs : List Template) → HasDistinctNames xs
    → HasDistinctNames (map f xs)
map-HasDistinctNames f same [] h = tt
map-HasDistinctNames f same (x ∷ xs) (apart, h) = (
  All-map_of (λ y. is_same (f x) y ≡ false) f xs
      (All-map (λ y. is_same x y ≡ false) (λ y. is_same (f x) (f y) ≡ false) (λ y e. same x y ∙ e)
        xs apart),
  map-HasDistinctNames f same xs h,
)
