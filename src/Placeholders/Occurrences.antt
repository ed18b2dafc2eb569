-- ===== src/Placeholders/Occurrences.antt =====
-- packages/server/src/domain/template-placeholders.ts: each name once.
use mathlib.Core.List.{[] as []ᴸ, ◌∷◌ as ◌∷ᴸ◌, ◌++◌ as ◌++ᴸ◌}
use whaloc.Base.{
  any, filter, filter-filter, filter-eq, All-of, append-nil, append_assoc as append_assocᴸ, subst,
  eq→path, eq_comm, ◌&&◌, find_by, IsDistinct, append-IsDistinct, Bool-cases, inl, inr, ◌==◌,
  String, List, Bool, not, true, false, none, ◌≡◌, refl, sym, ◌∙◌, arith,
}
use whaloc.Placeholders.{scan, add_names, extract_placeholders}

find_by-any :
    (name : String) (names : List String)
    → any (λ n. n == name) names ≡ false
    → find_by (λ n. n) name names ≡ none
find_by-any name []ᴸ h = refl
find_by-any name (n ∷ᴸ names) h = ground (arith, find_by-any name names)

add_names-IsDistinct :
    (names more : List String)
    → IsDistinct (λ n. n) names
    → IsDistinct (λ n. n) (add_names names more)
add_names-IsDistinct names []ᴸ d = d
add_names-IsDistinct names (name ∷ᴸ more) d = elim (Bool-cases (any (λ n. n == name) names)) [
  | inl known ↦ rw known (add_names-IsDistinct names more d)
  | inr new ↦ rw new (
      add_names-IsDistinct (names ++ᴸ name ∷ᴸ []ᴸ) more
        (append-IsDistinct (λ n. n) names name d (find_by-any name names new)))
]

-- No placeholder of a text is returned twice.
pub extract_placeholders-IsDistinct :
    (text : String) → IsDistinct (λ n. n) (extract_placeholders text)
unfolding extract_placeholders
extract_placeholders-IsDistinct text = add_names-IsDistinct []ᴸ (scan 0 text) tt

-- every name, followed by those of the rest that are other names
abbrev pub first_occurrences : List String → List String
first_occurrences []ᴸ = []ᴸ
first_occurrences (name ∷ᴸ names) = name ∷ᴸ filter (λ n. not (n == name)) (first_occurrences names)

abbrev pub is_new : List String → String → Bool
is_new names name = not (any (λ n. n == name) names)

-- a name that is known is skipped, and what is new beside it is another name
new-known :
    (names : List String) (name n : String)
    → any (λ m. m == name) names ≡ true
    → (not (n == name) && is_new names n) ≡ is_new names n
new-known names name n known = elim (Bool-cases (n == name)) [
  | inl same ↦
      rw (same, subst (λ x. any (λ m. m == x) names ≡ true) (sym (eq→path same)) known) refl
  | inr other ↦ rw other refl
]

new-append :
    (names : List String) (name n : String)
    → is_new (names ++ᴸ name ∷ᴸ []ᴸ) n ≡ (not (n == name) && is_new names n)
new-append []ᴸ name n = rw (eq_comm name n) (ground arith)
new-append (m ∷ᴸ names) name n = ground (arith, new-append names name n)

-- what is new beside the names, of those that are not one name
others_filter :
    (names : List String) (name : String) (p : String → Bool) (more : List String)
    → ((n : String) → (not (n == name) && is_new names n) ≡ p n)
    → filter (is_new names) (filter (λ n. not (n == name)) more) ≡ filter p more
others_filter names name p more same =
    filter-filter (is_new names) (λ n. not (n == name)) more
    ∙ filter-eq _ p more (All-of _ same more)

-- The loop appends the first occurrences of what it does not have.
pub add_names-first_occurrences :
    (names more : List String)
    → add_names names more ≡ names ++ᴸ filter (is_new names) (first_occurrences more)
add_names-first_occurrences names []ᴸ = sym (append-nil names)
add_names-first_occurrences names (name ∷ᴸ more) = elim (Bool-cases (any (λ n. n == name) names)) [
  | inl known ↦
      rw
        (
          known,
          others_filter names name (is_new names) (first_occurrences more)
              (λ n. new-known names name n known),
        )
        (add_names-first_occurrences names more)
  | inr new ↦
      rw
        (
          new,
          others_filter names name (is_new (names ++ᴸ name ∷ᴸ []ᴸ)) (first_occurrences more)
              (λ n. sym (new-append names name n)),
        )
        (add_names-first_occurrences (names ++ᴸ name ∷ᴸ []ᴸ) more
          ∙ append_assocᴸ names (name ∷ᴸ []ᴸ) _)
]
