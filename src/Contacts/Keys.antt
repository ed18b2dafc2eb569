-- ===== src/Contacts/Keys.antt =====
-- packages/server/src/db/repositories/contact-repository.ts: what the writes do to the keys.

use whaloc.Base.{
  String, List, [], ◌∷◌, ◌++◌, Bool, true, false, not, ◌&&◌, Option, none, some, inl, inr, ℕ, ◌+◌,
  ◌≤◌, ◌≡◌, subst, refl, arith, ◌==◌, is_some, map, IsDistinct, Bool-cases, Option-cases, eq→path,
  append-IsDistinct, map-IsDistinct, filter-IsDistinct, find_by-filter-none, same_text,
}
use whaloc.Shared.Entities.{Contact}
use whaloc.Contacts.{
  InsertContactInput, UpdateContactInput, wa_id_of, find_contact, has_user_id, is_held, is_refused,
  others_of, new_contact, insert_contact, patched_contact, write_contact, update_contact,
  moved_contact,
}

abbrev one : Bool → ℕ
one true = 1
one false = 0

-- how many contacts have a user id
abbrev pub holders : String → List Contact → ℕ
holders user_id [] = 0
holders user_id (c ∷ cs) = one (has_user_id user_id c) + holders user_id cs

-- no two contacts have one number or one user id
pub record HasKeys (table : List Contact) : Type 0 where
  pub numbers : IsDistinct wa_id_of table
  pub user_ids : (user_id : String) → holders user_id table ≤ 1

holders-append :
    (u : String) (xs : List Contact) (c : Contact)
    → holders u (xs ++ c ∷ []) ≡ holders u xs + one (has_user_id u c)
holders-append u [] c = omega arith
holders-append u (x ∷ xs) c = omega (arith, holders-append u xs c)

others-absent : (w : String) (xs : List Contact) → find_contact w xs ≡ none → others_of w xs ≡ xs
others-absent w [] h = refl
others-absent w (x ∷ xs) h = ground (arith, others-absent w xs)

write-absent :
    (now w : String) (input : UpdateContactInput) (xs : List Contact)
    → find_contact w xs ≡ none
    → map (write_contact now w input) xs ≡ xs
write-absent now w input [] h = refl
write-absent now w input (x ∷ xs) h = ground (arith, write-absent now w input xs)

-- behind a contact with a number there is no other
absent_behind :
    (w : String) (x : Contact) (xs : List Contact)
    → (x.wa_id == w) ≡ true
    → find_contact x.wa_id xs ≡ none
    → find_contact w xs ≡ none
absent_behind w x xs here new = subst (λ k. find_contact k xs ≡ none) (eq→path here) new

holders-others :
    (u w : String) (xs : List Contact) (e : Contact)
    → IsDistinct wa_id_of xs
    → find_contact w xs ≡ some e
    → holders u xs ≡ holders u (others_of w xs) + one (has_user_id u e)
holders-others u w [] e d h = absurd (ground (arith, h))
holders-others u w (x ∷ xs) e (new, d) h = elim (Bool-cases (x.wa_id == w)) [
  | inl here ↦
      let same : x ≡ e = ground (arith, h) in
      rw (here, others-absent w xs (absent_behind w x xs here new), same) (omega arith)
  | inr later ↦ let rest = holders-others u w xs e d (ground (arith, h)) in rw later (omega arith)
]

holders-write :
    (now u w : String) (input : UpdateContactInput) (xs : List Contact) (e : Contact)
    → IsDistinct wa_id_of xs
    → find_contact w xs ≡ some e
    → holders u (map (write_contact now w input) xs)
      ≡ holders u (others_of w xs) + one (has_user_id u (patched_contact now input e))
holders-write now u w input [] e d h = absurd (ground (arith, h))
holders-write now u w input (x ∷ xs) e (new, d) h = elim (Bool-cases (x.wa_id == w)) [
  | inl here ↦
      let same : x ≡ e = ground (arith, h) in
      let gone = absent_behind w x xs here new in
      rw (here, others-absent w xs gone, write-absent now w input xs gone, same) (omega arith)
  | inr later ↦
      let rest = holders-write now u w input xs e d (ground (arith, h)) in rw later (omega arith)
]

free-holders : (u : String) (xs : List Contact) → is_held (some u) xs ≡ false → holders u xs ≡ 0
free-holders u [] h = refl
free-holders u (x ∷ xs) h = ground (arith, free-holders u xs)

new-holders :
    (u : String) (user_id : Option String) (xs : List Contact)
    → is_held user_id xs ≡ false
    → holders u xs ≤ 1
    → holders u xs + one (same_text user_id (some u)) ≤ 1
new-holders u none xs free bound = omega arith
new-holders u (some v) xs free bound = elim (Bool-cases (v == u)) [
  | inl same ↦
      let none_yet = free-holders v xs free in
      rw same (subst (λ k. holders k xs + 1 ≤ 1) (eq→path same) (omega arith))
  | inr other ↦ rw other (omega arith)
]

append-HasKeys :
    (table : List Contact) (c : Contact)
    → HasKeys table
    → find_contact c.wa_id table ≡ none
    → is_held c.user_id table ≡ false
    → HasKeys (table ++ c ∷ [])
append-HasKeys table c keys new free = record {
  numbers = append-IsDistinct wa_id_of table c keys.numbers new;
  user_ids =
      λ u. rw (holders-append u table c) (new-holders u c.user_id table free (keys.user_ids u));
}

-- an insert that is not refused appends a contact whose keys are new
pub insert_contact-returns :
    (now : String) (input : InsertContactInput) (table : List Contact)
    {out : List Contact × Contact}
    → insert_contact now input table ≡ some out
    → (out ≡ (table ++ new_contact now input ∷ [], new_contact now input))
      × (find_contact input.wa_id table ≡ none)
      × (is_held input.user_id table ≡ false)
unfolding insert_contact
insert_contact-returns now input table h = elim (Option-cases (find_contact input.wa_id table)) [
  | inr (e, taken) ↦ absurd (cc (rw taken at h))
  | inl new ↦ elim (Bool-cases (is_held input.user_id table)) [
    | inl held ↦ absurd (cc (rw (new, held) at h))
    | inr free ↦ (ground (arith, rw (new, free) at h), new, free)
  ]
]

pub insert_contact-HasKeys :
    (now : String) (input : InsertContactInput) (table : List Contact)
    {out : List Contact × Contact}
    → HasKeys table
    → insert_contact now input table ≡ some out
    → HasKeys out.0
insert_contact-HasKeys now input table keys h =
    let (same, new, free) = insert_contact-returns now input table h in
    rw same (append-HasKeys table (new_contact now input) keys new free)

pub change-HasKeys :
    (now w next : String) (table : List Contact) (e : Contact)
    → HasKeys table
    → find_contact w table ≡ some e
    → find_contact next table ≡ none
    → HasKeys (others_of w table ++ moved_contact now next e ∷ [])
change-HasKeys now w next table e keys found new = record {
  numbers =
      append-IsDistinct wa_id_of (others_of w table) (moved_contact now next e)
        (filter-IsDistinct wa_id_of (λ c. not (c.wa_id == w)) table keys.numbers)
        (find_by-filter-none wa_id_of next (λ c. not (c.wa_id == w)) table new);
  user_ids = λ u.
      rw
        (
          holders-append u (others_of w table) (moved_contact now next e),
          ← holders-others u w table e keys.numbers found,
        )
        (keys.user_ids u);
}

write-holders :
    (now u w : String) (input : UpdateContactInput) (table : List Contact)
    → HasKeys table
    → is_refused w input table ≡ false
    → holders u (map (write_contact now w input) table) ≤ 1
write-holders now u w input table keys free = elim (Option-cases (find_contact w table)) [
  | inl absent ↦ rw (write-absent now w input table absent) (keys.user_ids u)
  | inr (e, found) ↦
      let before = holders-others u w table e keys.numbers found in
      let bound = keys.user_ids u in
      rw (holders-write now u w input table e keys.numbers found)
        (elim (Option-cases input.user_id) [
          | inl kept ↦ rw kept (omega (arith, before))
          | inr (user_id, given) ↦ rw given (
              new-holders u user_id (others_of w table) (rw (found, given) at free)
                (omega (arith, before)))
        ])
]

write-wa_id :
    (now w : String) (input : UpdateContactInput) (c : Contact)
    → wa_id_of (write_contact now w input c) ≡ wa_id_of c
write-wa_id now w input c = ground arith

is_some-write :
    (now w k : String) (input : UpdateContactInput) (table : List Contact)
    → is_some (find_contact k (map (write_contact now w input) table))
      ≡ is_some (find_contact k table)
is_some-write now w k input [] = refl
is_some-write now w k input (c ∷ cs) =
    rw (write-wa_id now w input c) (ground (arith, is_some-write now w k input cs))

abbrev is_idle : UpdateContactInput → Bool
is_idle input = not (is_some input.profile_name) && not (is_some input.user_id)

-- an update that is not refused keeps the keys, and every number stays
pub update_contact-HasKeys :
    (now w : String) (input : UpdateContactInput) (table : List Contact)
    {out : List Contact × Option Contact}
    → HasKeys table
    → update_contact now w input table ≡ some out
    → HasKeys out.0
      × ((k : String) → is_some (find_contact k out.0) ≡ is_some (find_contact k table))
unfolding update_contact
update_contact-HasKeys now w input table {out = out} keys h = elim (Bool-cases (is_idle input)) [
  | inl idle ↦ let same : out.0 ≡ table = ground (arith, rw idle at h) in rw same (keys, λ k. refl)
  | inr busy ↦ elim (Bool-cases (is_refused w input table)) [
    | inl held ↦ absurd (cc (rw (busy, held) at h))
    | inr free ↦
        let same : out.0 ≡ map (write_contact now w input) table =
          ground (arith, rw (busy, free) at h) in
        rw same (
          record {
            numbers =
                map-IsDistinct wa_id_of (write_contact now w input) (write-wa_id now w input) table
                  keys.numbers;
            user_ids = λ u. write-holders now u w input table keys free;
          },
          λ k. is_some-write now w k input table,
        )
  ]
]
