-- ===== src/Base/Entries.antt =====
-- Objects and maps keyed by text, as association lists in insertion order.
use mathlib.Core.List.{List, [], ◌∷◌, ◌++◌}
use mathlib.Core.Bool.{Bool, true, false}
use mathlib.Core.Logic.{inl, inr}
use mathlib.Core.Option.{Option, none, some}
use mathlib.Core.Path.{◌≡◌, refl, sym, ap, subst, ◌∙◌}
use Prim.Native.String.{String}
use native.Mathlib.Omega.{arith}
use text.Mathlib.Text.{◌==◌}
use text.Mathlib.TextEquality.{eq_iff}
use whaloc.Base.Tests.{if◌then◌else◌, Bool-cases, Option-cases, eq→path}

abbrev pub Assoc {ℓ} : Type ℓ → Type ℓ
Assoc V = List (String × V)

module _ {ℓ} {V : Type ℓ} where
  -- `m.get(k)`, `o[k]`
  unfoldable pub get : String → Assoc V → Option V
  get k [] = none
  get k ((j, v) ∷ m) = if j == k then some v else get k m

  -- `m.set(k, v)`, `{ ...o, [k]: v }`: a known key keeps its place
  unfoldable pub put : String → V → Assoc V → Assoc V
  put k v [] = (k, v) ∷ []
  put k v ((j, w) ∷ m) = if j == k then (j, v) ∷ m else (j, w) ∷ put k v m

  -- `m.delete(k)`
  unfoldable pub delete : String → Assoc V → Assoc V
  delete k [] = []
  delete k ((j, v) ∷ m) = let rest = delete k m in if j == k then rest else (j, v) ∷ rest

  pub get-put :
      (k j : String) (v : V) (m : Assoc V)
      → get j (put k v m) ≡ (if k == j then some v else get j m)
  unfolding get put
  get-put k j v [] = refl
  get-put k j v ((i, w) ∷ m) = ground (arith, eq_iff k j, eq_iff i k, eq_iff i j, get-put k j v m)

  pub get-delete :
      (k j : String) (m : Assoc V) → get j (delete k m) ≡ (if k == j then none else get j m)
  unfolding get delete
  get-delete k j [] = ground arith
  get-delete k j ((i, w) ∷ m) = ground (arith, eq_iff k j, eq_iff i k, eq_iff i j, get-delete k j m)

  pub get-put_same :
      (k j : String) (v : V) (m : Assoc V) → (k == j) ≡ true → get j (put k v m) ≡ some v
  get-put_same k j v m same = get-put k j v m ∙ rw same refl

  pub get-put_other :
      (k j : String) (v : V) (m : Assoc V) → (k == j) ≡ false → get j (put k v m) ≡ get j m
  get-put_other k j v m other = get-put k j v m ∙ rw other refl

  pub get-delete_same : (k j : String) (m : Assoc V) → (k == j) ≡ true → get j (delete k m) ≡ none
  get-delete_same k j m same = get-delete k j m ∙ rw same refl

  pub get-delete_other :
      (k j : String) (m : Assoc V) → (k == j) ≡ false → get j (delete k m) ≡ get j m
  get-delete_other k j m other = get-delete k j m ∙ rw other refl

  -- what is not there is deleted without a change
  pub delete_absent : (k : String) (m : Assoc V) → get k m ≡ none → delete k m ≡ m
  unfolding get delete
  delete_absent k [] h = refl
  delete_absent k ((i, w) ∷ m) h = ground (arith, delete_absent k m)

  -- a new key goes to the end
  pub put_absent :
      (k : String) (v : V) (m : Assoc V) → get k m ≡ none → put k v m ≡ m ++ (k, v) ∷ []
  unfolding get put
  put_absent k v [] e = refl
  put_absent k v ((j, w) ∷ m) e = ground (arith, put_absent k v m)

  -- no two entries of one key
  abbrev pub HasDistinctKeys : Assoc V → Type ℓ
  HasDistinctKeys [] = Unit
  HasDistinctKeys ((k, v) ∷ m) = (get k m ≡ none) × HasDistinctKeys m

  pub delete-HasDistinctKeys :
      (k : String) (m : Assoc V) → HasDistinctKeys m → HasDistinctKeys (delete k m)
  unfolding delete
  delete-HasDistinctKeys k [] d = tt
  delete-HasDistinctKeys k ((j, w) ∷ m) (new, d) =
      ground (arith, delete-HasDistinctKeys k m d, get-delete k j m)

  pub put-HasDistinctKeys :
      (k : String) (v : V) (m : Assoc V) → HasDistinctKeys m → HasDistinctKeys (put k v m)
  unfolding get put
  put-HasDistinctKeys k v [] h = (refl, tt)
  put-HasDistinctKeys k v ((i, w) ∷ m) (new, h) =
      ground (arith, put-HasDistinctKeys k v m h, get-put k i v m, eq_iff i k, eq_iff k i)

  -- `Object.fromEntries`: the last value of a key wins
  add_entries : Assoc V → List (String × V) → Assoc V
  add_entries m [] = m
  add_entries m ((k, v) ∷ es) = add_entries (put k v m) es

  unfoldable pub from_entries : List (String × V) → Assoc V
  unfolding add_entries
  from_entries es = add_entries [] es

  add_entries-HasDistinctKeys :
      (m : Assoc V) (es : List (String × V))
      → HasDistinctKeys m
      → HasDistinctKeys (add_entries m es)
  unfolding add_entries
  add_entries-HasDistinctKeys m [] d = d
  add_entries-HasDistinctKeys m ((k, v) ∷ es) d =
      add_entries-HasDistinctKeys (put k v m) es (put-HasDistinctKeys k v m d)

  pub from_entries-HasDistinctKeys : (es : List (String × V)) → HasDistinctKeys (from_entries es)
  unfolding from_entries
  from_entries-HasDistinctKeys es = add_entries-HasDistinctKeys [] es tt

  get-add_entries :
      (k : String) (m : Assoc V) (es : List (String × V))
      → HasDistinctKeys es
      → get k (add_entries m es) ≡ (elim (get k es) [ none ↦ get k m | some v ↦ some v ])
  unfolding get add_entries
  get-add_entries k m [] d = refl
  get-add_entries k m ((j, v) ∷ es) (new, d) =
      get-add_entries k (put j v m) es d ∙ (elim (Bool-cases (j == k)) [
        | inl same ↦
            rw (same, subst (λ i. get i es ≡ none) (eq→path same) new) (get-put_same j k v m same)
        | inr other ↦
            rw other (
              ap (λ o. elim (get k es) [ none ↦ o | some w ↦ some w ])
                (get-put_other j k v m other))
      ])

  -- where no two entries have one key, each is found
  pub get-from_entries :
      (k : String) (es : List (String × V))
      → HasDistinctKeys es
      → get k (from_entries es) ≡ get k es
  unfolding from_entries get
  get-from_entries k es d = get-add_entries k [] es d ∙ (elim (Option-cases (get k es)) [
    | inl absent ↦ rw absent refl
    | inr (v, found) ↦ rw found refl
  ])

  -- keeping the entries whose key passes a test
  abbrev pub filter_keys : (String → Bool) → Assoc V → Assoc V
  filter_keys p [] = []
  filter_keys p ((k, v) ∷ m) = let rest = filter_keys p m in if p k then (k, v) ∷ rest else rest

  -- what holds of every key with its value, and of every value
  abbrev pub AllEntries {κ} : (String → V → Type κ) → Assoc V → Type κ
  AllEntries P [] = Unit
  AllEntries P ((k, v) ∷ m) = P k v × AllEntries P m

  abbrev pub AllValues {κ} : (V → Type κ) → Assoc V → Type κ
  AllValues P m = AllEntries (λ k v. P v) m

  module _ {κ} (P : String → V → Type κ) where
    AllEntries-put :
        (k : String) (v : V) (m : Assoc V) → P k v → AllEntries P m → AllEntries P (put k v m)
    unfolding put
    AllEntries-put k v [] p h = (p, tt)
    AllEntries-put k v ((j, w) ∷ m) p (q, h) = elim (Bool-cases (j == k)) [
      | inl same ↦ rw same (subst (λ i. P i v) (sym (eq→path same)) p, h)
      | inr other ↦ rw other (q, AllEntries-put k v m p h)
    ]

    AllEntries-add_entries :
        (m : Assoc V) (es : List (String × V))
        → AllEntries P m
        → AllEntries P es
        → AllEntries P (add_entries m es)
    unfolding add_entries
    AllEntries-add_entries m [] h k = h
    AllEntries-add_entries m ((j, v) ∷ es) h (p, k) =
        AllEntries-add_entries (put j v m) es (AllEntries-put j v m p h) k

    pub AllEntries-from_entries :
        (es : List (String × V)) → AllEntries P es → AllEntries P (from_entries es)
    unfolding from_entries
    AllEntries-from_entries es h = AllEntries-add_entries [] es tt h

    pub AllEntries-get :
        (k : String) (m : Assoc V) (v : V) → AllEntries P m → get k m ≡ some v → P k v
    unfolding get
    AllEntries-get k [] v h e = absurd (ground arith)
    AllEntries-get k ((j, w) ∷ m) v (p, h) e = elim (Bool-cases (j == k)) [
      | inl same ↦
          let here : w ≡ v = ground arith in
          subst (λ x. P k x) here (subst (λ i. P i w) (eq→path same) p)
      | inr other ↦ AllEntries-get k m v h (ground arith)
    ]

  module _ {κ} (P : V → Type κ) where
    pub AllValues-get : (k : String) (m : Assoc V) (v : V) → AllValues P m → get k m ≡ some v → P v
    AllValues-get k m v h e = AllEntries-get (λ k v. P v) k m v h e

    pub AllValues-put :
        (k : String) (v : V) (m : Assoc V) → P v → AllValues P m → AllValues P (put k v m)
    AllValues-put k v m p h = AllEntries-put (λ k v. P v) k v m p h

    pub AllValues-from_entries :
        (es : List (String × V)) → AllValues P es → AllValues P (from_entries es)
    AllValues-from_entries es h = AllEntries-from_entries (λ k v. P v) es h
