-- ===== src/SendValidation/Tests.antt =====
-- Sends against a template with an image, two named slots and a button.
use mathlib.Core.List.{Perm}
use whaloc.Base.{String, List, [], ◌∷◌, none, some, inr, ◌≡◌, refl, map}
use whaloc.Shared.Common.{
  Json, Items, Fields, str, obj, arr, TemplateStatus, TemplateCategory, TemplateParameterFormat,
}
use whaloc.Shared.Entities.{Template}
use whaloc.JsonObject.{string_field, as_json_object, object_at}
use whaloc.Placeholders.{
  body, names_in, template_placeholders, placeholder_component_of, is_text_component,
  extract_placeholders,
}
use whaloc.SendValidation.Parts.{
  text_parameters_of, assert_parameter_objects, assert_header_format, assert_button_parameters,
  assert_parameter_object, assert_body_text, lower_type, upper_type, header_format, assert_button,
  index_of,
}
use whaloc.SendValidation.{assert_named_parameters, assert_component, assert_template_parameters}
use whaloc.SendValidation.Names.{assert_template_parameters-Perm}
use whaloc.SendValidation.Media.{CarriesMedia, assert_template_parameters-CarriesMedia}

abbrev one : Json → Json
one v = arr (Items.cons v Items.nil)

abbrev with : String → Json → Fields → Fields
with = Fields.field

abbrev template : Template
template = record {
  id = "5";
  waba_id = "10";
  name = "visit";
  language = "en";
  category = TemplateCategory.utility;
  parameter_format = TemplateParameterFormat.named;
  components =
      obj (with "type" (str "HEADER") (with "format" (str "IMAGE") Fields.end))
      ∷ obj (
          with "type" (str "BODY")
            (with "text" (str "Hi {{name}}, {{ day }}, {{name}}") Fields.end))
      ∷ obj (
          with "type" (str "BUTTONS") (
            with "buttons"
              (one (obj (with "type" (str "URL") (with "url" (str "https://a/{{1}}") Fields.end))))
              Fields.end))
      ∷ [];
  status = TemplateStatus.approved;
  rejected_reason = none;
  quality_score = none;
  created_at = "0";
  updated_at = "0";
}

abbrev text_parameter : String → String → Json
text_parameter name text = obj (
    with "type" (str "text") (with "parameter_name" (str name) (with "text" (str text) Fields.end)))

abbrev image : Json
image =
    obj (with "type" (str "image") (with "image" (obj (with "id" (str "3") Fields.end)) Fields.end))

abbrev part : String → Json → Fields → Json
part type parameters more = obj (with "type" (str type) (with "parameters" parameters more))

abbrev button : Json
button =
    part "button" (one (text_parameter "1" "x"))
      (with "sub_type" (str "url") (with "index" (str "0") Fields.end))

abbrev components : String → List Json
components second =
    part "header" (one image) Fields.end
    ∷ part "Body"
        (arr (
          Items.cons (text_parameter "day" "Monday")
            (Items.cons (text_parameter second "Ann") Items.nil)))
        Fields.end
    ∷ button
    ∷ []

passes : assert_template_parameters template (some (components "name")) ≡ inr tt
unfolding assert_template_parameters assert_parameter_objects assert_header_format assert_component
    assert_button_parameters assert_parameter_object assert_body_text assert_named_parameters
    assert_button index_of lower_type upper_type header_format text_parameters_of
    template_placeholders placeholder_component_of is_text_component extract_placeholders
    string_field object_at as_json_object
passes = refl

assert_template_parameters-Perm_example :
    Perm
      (map some (names_in body (template_placeholders template.components)))
      (text_parameters_of (components "name") body)
assert_template_parameters-Perm_example =
    assert_template_parameters-Perm template (some (components "name")) body refl passes

shows_image : header_format template.components ≡ some "IMAGE"
unfolding header_format upper_type string_field
shows_image = refl

assert_template_parameters-CarriesMedia_example : CarriesMedia "IMAGE" (components "name")
assert_template_parameters-CarriesMedia_example =
    assert_template_parameters-CarriesMedia template (some (components "name")) "IMAGE" shows_image
      refl passes
