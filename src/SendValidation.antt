-- ===== src/SendValidation.antt =====
-- packages/server/src/domain/template-send-validation.ts: a send against the stored template. Cases
-- are folded letter by letter, in ASCII.
pub mod Parts
pub mod Names
pub mod Media
mod Tests
use Prim.Native.String.{◌++◌ as ◌++ˢ◌}
use whaloc.Base.{
  String, List, [], ◌∷◌, Bool, true, false, not, Option, none, some, ◌⊎◌, inr, ◌==◌, ℕ, eqb,
  decimal, any, find, length, is_some, if◌then◌else◌, require, or_raise, raise, ◌>>=◌, ◌>>◌, get_or,
}
use whaloc.Shared.Common.{Json, TemplateStatus, TemplateParameterFormat}
use whaloc.Shared.Entities.{Template}
use whaloc.Placeholders.{
  PlaceholderComponent, header, body, TemplatePlaceholders, names_in, template_placeholders,
}
use whaloc.GraphError.{GraphApiError}
use whaloc.GraphError.Sends.{
  template_not_found_error, template_parameter_mismatch_error, mandatory_parameter_error,
}
use Parts.{
  text_parameters_of, assert_parameter_objects, assert_header_format, assert_button_parameters,
}

abbrev pub is_approved : TemplateStatus → Bool
is_approved TemplateStatus.approved = true
is_approved _ = false

-- `none` is a template that was not found
unfoldable pub assert_template_is_sendable :
    Option Template → String → String → GraphApiError ⊎ Template
assert_template_is_sendable found name language = do
  template ← or_raise found (
      template_not_found_error ("template name (" ++ˢ name ++ˢ ") does not exist in " ++ˢ language))
  require (is_approved template.status) (
      template_not_found_error
        ("template name (" ++ˢ name ++ˢ ") is not approved in " ++ˢ language))
  inr template

abbrev component_name : PlaceholderComponent → String
component_name header = "header"
component_name body = "body"

abbrev count_mismatch_details : PlaceholderComponent → ℕ → ℕ → String
count_mismatch_details component provided expected =
    component_name component
    ++ˢ ": number of localizable_params ("
    ++ˢ decimal provided
    ++ˢ ") does not match the expected number of params ("
    ++ˢ decimal expected
    ++ˢ ")"

-- a parameter that gives no name
abbrev pub is_unnamed : Option String → Bool
is_unnamed none = true
is_unnamed (some name) = name == ""

abbrev pub is_name : String → Option String → Bool
is_name name none = false
is_name name (some other) = other == name

-- the first declared placeholder that no parameter names
abbrev pub first_missing : List String → List (Option String) → Option String
first_missing expected provided = find (λ name. not (any (is_name name) provided)) expected

abbrev none_missing : Option String → GraphApiError ⊎ Unit {0}
none_missing none = inr tt
none_missing (some name) = raise (
    mandatory_parameter_error
      ("Parameter name is missing for the parameter '{{" ++ˢ name ++ˢ "}}'"))

unfoldable pub assert_named_parameters :
    List String → List (Option String) → GraphApiError ⊎ Unit {0}
assert_named_parameters expected provided = do
  require (not (any is_unnamed provided))
      (mandatory_parameter_error "Parameter name is missing or empty")
  none_missing (first_missing expected provided)

abbrev named_if :
    TemplateParameterFormat → List String → List (Option String) → GraphApiError ⊎ Unit {0}
named_if TemplateParameterFormat.named expected provided = assert_named_parameters expected provided
named_if TemplateParameterFormat.positional expected provided = inr tt

-- one turn of the loop over the components with placeholders
unfoldable pub assert_component :
    Template → List Json → PlaceholderComponent → GraphApiError ⊎ Unit {0}
assert_component template components component = do
  let expected = names_in component (template_placeholders template.components)
  let provided = text_parameters_of components component
  require (eqb (length provided) (length expected)) (
      template_parameter_mismatch_error
        (count_mismatch_details component (length provided) (length expected)))
  named_if template.parameter_format expected provided

unfoldable pub assert_template_parameters : Template → Option (List Json) → GraphApiError ⊎ Unit {0}
assert_template_parameters template sent = do
  let components = get_or sent []
  assert_parameter_objects components
  assert_header_format template components
  assert_component template components header
  assert_component template components body
  assert_button_parameters template components
