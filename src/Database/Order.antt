-- ===== src/Database/Order.antt =====
-- packages/server/src/db: the order of the listings. Where ids are distinct it is strict.
use Prim.Native.Nat.{Ordering}
use Prim.Native.String.{compare, then as then_by}
use text.Mathlib.Text.{is_eq, is_lt}
use whaloc.Base.{
  String, List, [], ◌∷◌, ◌++◌, Bool, true, false, ◌⊎◌, inl, inr, ◌≡◌, ◌≢◌, refl, ap, ◌∙◌, ◌==◌, All,
  All-map, All-insert_sorted, insert_sorted, to_sorted, All-to_sorted, filter, compare_flip,
  compare_trans, IsDistinct, absent-All, filter_kept, eq_comm, arith, eq_refl, eq→path, Bool-cases,
}
use whaloc.Database.{by_creation, order_by_creation}

-- the order of two keys, in text
abbrev pub key_order : String → String → String → String → Ordering
key_order c i c' i' = then_by (compare c c') (compare i i')

eq_of : (s t : String) → compare s t ≡ Ordering.eq → s ≡ t
eq_of s t h = eq→path (ap is_eq h)

same_order : (s : String) → compare s s ≡ Ordering.eq
same_order s = of_is_eq (compare s s) (eq_refl s)
  where
    of_is_eq : (o : Ordering) → is_eq o ≡ true → o ≡ Ordering.eq
    of_is_eq o h = ground arith

pub key_order_trans :
    (c i c' i' c'' i'' : String)
    → key_order c i c' i' ≡ Ordering.lt
    → key_order c' i' c'' i'' ≡ Ordering.lt
    → key_order c i c'' i'' ≡ Ordering.lt
key_order_trans c i c' i' c'' i'' h k = ground (
  arith,
  h,
  k,
  eq_of c c',
  eq_of c' c'',
  same_order c,
  compare_trans c c' c'',
  compare_trans i i' i'',
)

key_order_flip :
    (c i c' i' : String) → key_order c i c' i' ≡ Ordering.gt → key_order c' i' c i ≡ Ordering.lt
key_order_flip c i c' i' h =
    ground (arith, h, eq_of c c', same_order c, compare_flip c c', compare_flip i i')

pub key_order_irrefl : (c i : String) → key_order c i c i ≢ Ordering.lt
key_order_irrefl c i h = ground (arith, h, same_order c, same_order i)

key_order-other : (c i c' i' : String) → (i == i') ≡ false → key_order c i c' i' ≢ Ordering.eq
key_order-other c i c' i' h e = ground (arith, h, e)

module _ {ℓ} {A : Type ℓ} (created id : A → String) where
  abbrev pub before : A → A → Bool
  before a b = is_lt (by_creation created id a b)

  -- every item stands before all that follow it
  abbrev pub IsAscending : List A → Type ℓ
  IsAscending [] = Unit
  IsAscending (x ∷ xs) = All (λ y. before x y ≡ true) xs × IsAscending xs

  is_lt-lt : (o : Ordering) → is_lt o ≡ true → o ≡ Ordering.lt
  is_lt-lt o h = ground arith

  pub before_trans : (a b c : A) → before a b ≡ true → before b c ≡ true → before a c ≡ true
  before_trans a b c h k = ap is_lt (
      key_order_trans (created a) (id a) (created b) (id b) (created c) (id c)
        (is_lt-lt (by_creation created id a b) h) (is_lt-lt (by_creation created id b c) k))

  pub before_irrefl : (a : A) → before a a ≡ false
  before_irrefl a = elim (Bool-cases (before a a)) [
    | inl h ↦ absurd (key_order_irrefl (created a) (id a) (is_lt-lt (by_creation created id a a) h))
    | inr h ↦ h
  ]

  pub before_asym : (a b : A) → before a b ≡ true → before b a ≡ false
  before_asym a b h = elim (Bool-cases (before b a)) [
    | inl k ↦ absurd (cc (before_trans a b a h k, before_irrefl a))
    | inr k ↦ k
  ]

  -- an item of another id is on one side or the other
  placed :
      (x y : A) (ys : List A)
      → (id x == id y) ≡ false
      → ((insert_sorted (by_creation created id) x (y ∷ ys)
            ≡ y ∷ insert_sorted (by_creation created id) x ys)
          × (before y x ≡ true))
        ⊎ ((insert_sorted (by_creation created id) x (y ∷ ys) ≡ x ∷ y ∷ ys) × (before x y ≡ true))
  placed x y ys other = go (by_creation created id x y) refl
    where
      go :
          (o : Ordering)
          → by_creation created id x y ≡ o
          → (((elim o [
            | Ordering.gt ↦ y ∷ insert_sorted (by_creation created id) x ys
            | _ ↦ x ∷ y ∷ ys
          ])
                ≡ y ∷ insert_sorted (by_creation created id) x ys)
              × (before y x ≡ true))
            ⊎ (((elim o [
              | Ordering.gt ↦ y ∷ insert_sorted (by_creation created id) x ys
              | _ ↦ x ∷ y ∷ ys
            ])
                  ≡ x ∷ y ∷ ys)
                × (before x y ≡ true))
      go Ordering.gt e =
          inl (refl, ap is_lt (key_order_flip (created x) (id x) (created y) (id y) e))
      go Ordering.lt e = inr (refl, ap is_lt e)
      go Ordering.eq e = absurd (key_order-other (created x) (id x) (created y) (id y) other e)

  insert_sorted-IsAscending :
      (x : A) (ys : List A)
      → All (λ y. (id x == id y) ≡ false) ys
      → IsAscending ys
      → IsAscending (insert_sorted (by_creation created id) x ys)
  insert_sorted-IsAscending x [] other h = (tt, tt)
  insert_sorted-IsAscending x (y ∷ ys) (other, others) (above, h) = elim (placed x y ys other) [
    | inl (same, below) ↦ rw same (
      All-insert_sorted (λ z. before y z ≡ true) (by_creation created id) x ys below above,
      insert_sorted-IsAscending x ys others h,
    )
    | inr (same, below) ↦
        rw same ((below, All-map _ _ (λ z k. before_trans x y z below k) ys above), (above, h))
  ]

  pub order_by_creation-IsAscending :
      (xs : List A) → IsDistinct id xs → IsAscending (order_by_creation created id xs)
  unfolding order_by_creation to_sorted
  order_by_creation-IsAscending [] d = tt
  order_by_creation-IsAscending (x ∷ xs) (new, d) =
      insert_sorted-IsAscending x (order_by_creation created id xs)
        (All-to_sorted _ (by_creation created id) xs
          (All-map _ _ (λ y e. eq_comm (id x) (id y) ∙ e) xs (absent-All id (id x) xs new)))
        (order_by_creation-IsAscending xs d)

  All_at {κ} :
      (P : A → Type κ) (pre : List A) (x : A) (post : List A) → All P (pre ++ x ∷ post) → P x
  All_at P [] x post (q, h) = q
  All_at P (y ∷ pre) x post (q, h) = All_at P pre x post h

  -- what is after an item is what follows it
  pub filter-before :
      (pre : List A) (x : A) (post : List A)
      → IsAscending (pre ++ x ∷ post)
      → filter (before x) (pre ++ x ∷ post) ≡ post
  filter-before [] x post (above, h) = rw (before_irrefl x) (filter_kept (before x) post above)
  filter-before (y ∷ pre) x post (above, h) =
      rw (before_asym y x (All_at (λ z. before y z ≡ true) pre x post above))
        (filter-before pre x post h)
