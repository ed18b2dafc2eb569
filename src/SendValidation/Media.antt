-- ===== src/SendValidation/Media.antt =====
-- packages/server/src/domain/template-send-validation.ts: the header of a send, against a media
-- header.

use whaloc.Base.{
  String, List, [], true, false, ◌||◌, Option, some, get_or, ◌≡◌, sym, ap, ◌∙◌, inl, inr, ◌==◌,
  is_some, to_upper, Option-cases, eq→path, arith, or_raise, >>=-returns, require-returns,
  or_raise-returns,
}
use whaloc.Shared.Common.{Json}
use whaloc.Shared.Entities.{Template}
use whaloc.JsonObject.{string_field, object_at}
use whaloc.SendValidation.Parts.{
  lower_type, is_media_format, media_reference, sent_media, received_format, sent_header,
  header_format, media_header, assert_header_format, assert_parameter_objects,
}
use whaloc.SendValidation.{assert_template_parameters}

-- the header that was sent, with the object of its type
pub record CarriesMedia (expected : String) (components : List Json) : Type 0 where
  pub parameter : Json
  pub kind : String
  pub reference : Json
  pub sent : sent_header components ≡ some parameter
  pub of_kind : lower_type parameter ≡ some kind
  pub same : to_upper kind ≡ expected
  pub object : object_at parameter kind ≡ some reference
  pub named :
      (kind == "image" || (kind == "video" || kind == "document")) ≡ true
      → (is_some (string_field reference "id") || is_some (string_field reference "link")) ≡ true

unknown_is_no_media :
    (expected : String) → ("UNKNOWN" == expected) ≡ true → is_media_format expected ≡ false
unknown_is_no_media expected e = ap is_media_format (sym (eq→path e))

-- what the checks of one parameter of a media type leave
reference_of :
    (expected : String) (components : List Json) (parameter : Json) (kind : String)
    → sent_header components ≡ some parameter
    → lower_type parameter ≡ some kind
    → to_upper kind ≡ expected
    → is_media_format (to_upper kind) ≡ true
    → media_reference parameter (some kind) ≡ inr tt
    → CarriesMedia expected components
reference_of expected components parameter kind sent typed same media e =
    let (reference, object, e1) =
      >>=-returns (or_raise (object_at parameter kind) _) _ (rw (media_reference, media) at e) in
    record {
      parameter = parameter;
      kind = kind;
      reference = reference;
      sent = sent;
      of_kind = typed;
      same = same;
      object = or_raise-returns _ _ object;
      named = λ referenced. ground (arith, require-returns _ _ e1, referenced);
    }

media_header-CarriesMedia :
    (expected : String) (components : List Json)
    → is_media_format expected ≡ true
    → media_header (some expected) components ≡ inr tt
    → CarriesMedia expected components
media_header-CarriesMedia expected components media e =
    let (_, checked, e1) =
      >>=-returns (sent_media (sent_header components)) _ (rw (media_header, media) at e) in
    let equal = require-returns (received_format (sent_header components) == expected) _ e1 in
    elim (Option-cases (sent_header components)) [
      | inl nothing ↦ absurd (cc (unknown_is_no_media expected (rw nothing at equal), media))
      | inr (parameter, sent) ↦ elim (Option-cases (lower_type parameter)) [
        | inl untyped ↦
            absurd (cc (unknown_is_no_media expected (rw (sent, untyped) at equal), media))
        | inr (kind, typed) ↦
            let same = eq→path (rw (sent, typed) at equal) in
            reference_of expected components parameter kind sent typed same
              (ap is_media_format same ∙ media) (rw (sent, typed) at checked)
      ]
    ]

-- A send that passes against a template with a media header has, as the first parameter of its
-- header, one of that very type that carries the object of the type, and an image, a video or a
-- document there names a media id or a link.
pub assert_template_parameters-CarriesMedia :
    (template : Template) (sent : Option (List Json)) (expected : String)
    → header_format template.components ≡ some expected
    → is_media_format expected ≡ true
    → assert_template_parameters template sent ≡ inr tt
    → CarriesMedia expected (get_or sent [])
unfolding assert_template_parameters assert_header_format
assert_template_parameters-CarriesMedia template sent expected declared media e =
    let components = get_or sent [] in
    let (_, _, e1) = >>=-returns (assert_parameter_objects components) _ e in
    let (_, in_header, _) = >>=-returns (assert_header_format template components) _ e1 in
    media_header-CarriesMedia expected components media (rw declared at in_header)
