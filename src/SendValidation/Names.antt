-- ===== src/SendValidation/Names.antt =====
-- packages/server/src/domain/template-send-validation.ts: the parameters of a send, against the
-- placeholders.
use mathlib.Core.List.{Perm}
use mathlib.Core.List.Perm
use whaloc.Base.{
  String, List, [], ◌∷◌, true, false, not, Option, none, some, get_or, ◌≡◌, ap, ◌∙◌, subst, inl,
  inr, ◌==◌, eqb, ◌+◌, length, map, any, find-Fails, All, All-map, IsDistinct, absent-All,
  Bool-cases, Option-cases, eq→path, eq_comm, arith, require, >>=-returns, require-returns,
}
use whaloc.Shared.Common.{Json, TemplateParameterFormat}
use whaloc.Shared.Entities.{Template}
use whaloc.Placeholders.{
  PlaceholderComponent, header, body, TemplatePlaceholders, names_in, template_placeholders,
  placeholders_from, placeholder_component_of, extract_placeholders, is_text_component, noted,
  with_names,
}
use whaloc.Placeholders.Occurrences.{extract_placeholders-IsDistinct}
use whaloc.JsonObject.{string_field}
use whaloc.SendValidation.Parts.{text_parameters_of, assert_parameter_objects, assert_header_format}
use whaloc.SendValidation.{
  is_name, is_unnamed, first_missing, none_missing, assert_named_parameters, assert_component,
  assert_template_parameters,
}

-- a name that is given, and the other parameters
record TakenOut (x : String) (ys : List (Option String)) : Type 0 where
  pub rest : List (Option String)
  pub perm : Perm (some x ∷ rest) ys
  pub shorter : length ys ≡ length rest + 1
  pub kept :
      (z : String) → (z == x) ≡ false → any (is_name z) ys ≡ true → any (is_name z) rest ≡ true

is_name-some : (x : String) (y : Option String) → is_name x y ≡ true → y ≡ some x
is_name-some x none h = cc
is_name-some x (some s) h = ap some (eq→path h)

other_name :
    (x z : String) (y : Option String) → is_name x y ≡ true → (z == x) ≡ false → is_name z y ≡ false
other_name x z y here other = ap (is_name z) (is_name-some x y here) ∙ eq_comm x z ∙ other

given_later :
    (z : String) (y : Option String) (ys rest : List (Option String))
    → (any (is_name z) ys ≡ true → any (is_name z) rest ≡ true)
    → any (is_name z) (y ∷ ys) ≡ true
    → any (is_name z) (y ∷ rest) ≡ true
given_later z y ys rest h given = ground (arith, h, given)

take_out : (x : String) (ys : List (Option String)) → any (is_name x) ys ≡ true → TakenOut x ys
take_out x [] h = cc
take_out x (y ∷ ys) h = elim (Bool-cases (is_name x y)) [
  | inl here ↦ record {
    rest = ys;
    perm = subst (λ v. Perm (v ∷ ys) (y ∷ ys)) (is_name-some x y here) (Perm.refl (y ∷ ys));
    shorter = omega arith;
    kept = λ z other given. rw (other_name x z y here other) at given;
  }
  | inr there ↦
      let t = take_out x ys (rw there at h) in
      record {
        rest = y ∷ t.rest;
        perm = Perm.trans (Perm.swap y (some x) t.rest) (Perm.cons y t.perm);
        shorter = omega (arith, t.shorter);
        kept = λ z other given. given_later z y ys t.rest (t.kept z other) given;
      }
]

-- distinct names that are all given, by no more parameters than there are names, are what is given
given-Perm :
    (xs : List String) (ys : List (Option String))
    → IsDistinct (λ n. n) xs
    → All (λ x. any (is_name x) ys ≡ true) xs
    → length ys ≡ length xs
    → Perm (map some xs) ys
given-Perm [] [] d h e = Perm.refl []
given-Perm [] (y ∷ ys) d h e = absurd (omega (arith, e))
given-Perm (x ∷ xs) ys (new, d) (given, h) e =
    let t = take_out x ys given in
    Perm.trans
      (Perm.cons (some x) (
        given-Perm xs t.rest d (All-both _ _ _ t.kept xs (absent-All (λ n. n) x xs new) h)
          (omega (arith, e, t.shorter))))
      t.perm
  where
    All-both :
        (P Q R : String → Type 0)
        → ((z : String) → P z → Q z → R z)
        → (zs : List String) → All P zs
        → All Q zs
        → All R zs
    All-both P Q R f [] p q = tt
    All-both P Q R f (z ∷ zs) (p, ps) (q, qs) = (f z p q, All-both P Q R f zs ps qs)

-- the placeholders of a template are distinct in each component
IsNamed : TemplatePlaceholders → Type 0
IsNamed p = (component : PlaceholderComponent) → IsDistinct (λ n. n) (names_in component p)

with_names-IsNamed :
    (type : PlaceholderComponent) (text : String) (p : TemplatePlaceholders)
    → IsNamed p
    → IsNamed (with_names type (extract_placeholders text) p)
unfolding IsNamed
with_names-IsNamed header text p h header = extract_placeholders-IsDistinct text
with_names-IsNamed header text p h body = h body
with_names-IsNamed body text p h header = h header
with_names-IsNamed body text p h body = extract_placeholders-IsDistinct text

noted-IsNamed :
    (component : Json) (type : Option PlaceholderComponent) (text : Option String)
    (p : TemplatePlaceholders)
    → IsNamed p
    → IsNamed (noted component type text p)
noted-IsNamed component none text p h = h
noted-IsNamed component (some type) none p h = h
noted-IsNamed component (some type) (some text) p h =
    elim (Bool-cases (is_text_component component type)) [
      | inl textual ↦ rw textual (with_names-IsNamed type text p h)
      | inr other ↦ rw other h
    ]

placeholders_from-IsNamed :
    (components : List Json) (p : TemplatePlaceholders)
    → IsNamed p
    → IsNamed (placeholders_from components p)
placeholders_from-IsNamed [] p h = h
placeholders_from-IsNamed (component ∷ components) p h = placeholders_from-IsNamed components _ (
    noted-IsNamed component (placeholder_component_of component) (string_field component "text") p
      h)

template_placeholders-IsNamed :
    (components : List Json) → IsNamed (template_placeholders components)
unfolding template_placeholders IsNamed
template_placeholders-IsNamed components = placeholders_from-IsNamed components _ (λ component.
    elim component as (λ k. IsDistinct (λ n. n) (names_in k (record { header = []; body = [] }))) [
      | header ↦ tt
      | body ↦ tt
    ])

first_missing-given :
    (expected : List String) (provided : List (Option String))
    → none_missing (first_missing expected provided) ≡ inr tt
    → All (λ x. any (is_name x) provided ≡ true) expected
first_missing-given expected provided e = elim (Option-cases (first_missing expected provided)) [
  | inr (name, missing) ↦ absurd (cc (rw missing at e))
  | inl none_is ↦
      All-map (λ x. not (any (is_name x) provided) ≡ false) _ (λ x h. ground (arith, h)) expected
        (find-Fails (λ name. not (any (is_name name) provided)) expected none_is)
]

assert_component-Perm :
    (template : Template) (sent : List Json) (component : PlaceholderComponent)
    → template.parameter_format ≡ TemplateParameterFormat.named
    → assert_component template sent component ≡ inr tt
    → Perm
        (map some (names_in component (template_placeholders template.components)))
        (text_parameters_of sent component)
unfolding assert_component assert_named_parameters IsNamed
assert_component-Perm template sent component named e =
    let expected = names_in component (template_placeholders template.components) in
    let provided = text_parameters_of sent component in
    let (_, counted, e1) = >>=-returns (require (eqb (length provided) (length expected)) _) _ e in
    let same = require-returns _ _ counted in
    let (_, _, e2) = >>=-returns (require (not (any is_unnamed provided)) _) _ (rw named at e1) in
    given-Perm expected provided (template_placeholders-IsNamed template.components component)
      (first_missing-given expected provided e2) (ground (arith, same))

-- A send that passes against a template with named parameters gives, in the header and in the body,
-- exactly the placeholders of the template, each once, in any order.
pub assert_template_parameters-Perm :
    (template : Template) (sent : Option (List Json)) (component : PlaceholderComponent)
    → template.parameter_format ≡ TemplateParameterFormat.named
    → assert_template_parameters template sent ≡ inr tt
    → Perm
        (map some (names_in component (template_placeholders template.components)))
        (text_parameters_of (get_or sent []) component)
unfolding assert_template_parameters
assert_template_parameters-Perm template sent component named e =
    let components = get_or sent [] in
    let (_, _, e1) = >>=-returns (assert_parameter_objects components) _ e in
    let (_, _, e2) = >>=-returns (assert_header_format template components) _ e1 in
    let (_, in_header, e3) = >>=-returns (assert_component template components header) _ e2 in
    let (_, in_body, e4) = >>=-returns (assert_component template components body) _ e3 in
    assert_component-Perm template components component named
      (elim component as (λ k. assert_component template components k ≡ inr tt) [
        | header ↦ in_header
        | body ↦ in_body
      ])
