-- ===== src/SendValidation/Parts.antt =====
-- packages/server/src/domain/template-send-validation.ts: the parts of a send.
use Prim.Native.String.{◌++◌ as ◌++ˢ◌}
use whaloc.Base.{
  String, List, [], ◌∷◌, ◌++◌, Bool, true, false, not, ◌&&◌, ◌||◌, Option, none, some, ◌⊎◌, inr,
  ◌==◌, ℕ, ◌+◌, eqb, ltb, decimal, find, filter, first, length, is_some, if◌then◌else◌, require,
  or_raise, ◌>>=◌, ◌>>◌, get_or, to_lower, to_upper, all_chars, is_digit, number_from, is_empty,
}
use mathlib.Core.Option
use whaloc.Shared.Common.{Json}
use whaloc.Shared.Common.Json.{nat, str}
use whaloc.Shared.Entities.{Template}
use whaloc.JsonObject.{property, string_field, object_at, elements, object_elements}
use whaloc.Placeholders.{PlaceholderComponent, header, body, extract_placeholders}
use whaloc.GraphError.{GraphApiError}
use whaloc.GraphError.Sends.{
  mandatory_parameter_error, missing_parameter_object_error, json_schema_required_error,
  template_parameter_issue_error, required_parameter_missing_error,
  template_header_format_mismatch_error,
}

abbrev is_text : String → Option String → Bool
is_text word none = false
is_text word (some s) = s == word

-- `stringField(value, "type")?.toLowerCase()`, and in upper case
unfoldable pub lower_type : Json → Option String
lower_type value = Option.map to_lower (string_field value "type")

unfoldable pub upper_type : Json → Option String
upper_type value = Option.map to_upper (string_field value "type")

abbrev parameters_of : Json → List Json
parameters_of component = object_elements (property component "parameters")

-- `LOCALIZABLE_TYPES`, and the shorthand of a text without a type
abbrev pub is_localizable : Option String → Option String → Bool
is_localizable none text = is_some text
is_localizable (some type) text = type == "text" || (type == "currency" || type == "date_time")

abbrev names_of : List Json → List (Option String)
names_of [] = []
names_of (parameter ∷ parameters) =
    let rest = names_of parameters in
    if is_localizable (lower_type parameter) (string_field parameter "text")
    then string_field parameter "parameter_name" ∷ rest
    else rest

abbrev word_of : PlaceholderComponent → String
word_of header = "header"
word_of body = "body"

-- the localizable parameters that a send gives for one component, by their names
unfoldable pub text_parameters_of : List Json → PlaceholderComponent → List (Option String)
text_parameters_of [] component = []
text_parameters_of (sent ∷ components) component =
    let rest = text_parameters_of components component in
    if is_text (word_of component) (lower_type sent)
    then names_of (parameters_of sent) ++ rest
    else rest

-- `REQUIRED_FIELDS`
abbrev required_fields : String → Option (List String)
required_fields type =
    if type == "currency"
    then some ("fallback_value" ∷ "code" ∷ "amount_1000" ∷ [])
    else if type == "date_time"
    then some ("fallback_value" ∷ [])
    else if type == "location"
    then some ("longitude" ∷ "latitude" ∷ [])
    else none

abbrev object_with : Json → String → String → Option (List String) → GraphApiError ⊎ Unit {0}
object_with parameter path type none = inr tt
object_with parameter path type (some required) = do
  value ← or_raise (object_at parameter type) (missing_parameter_object_error type)
  let missing = filter (λ field. not (is_some (property value field))) required
  require (not (ltb 0 (length missing)))
      (json_schema_required_error (path ++ˢ "." ++ˢ type) missing)

abbrev object_of_type : Json → String → Option String → GraphApiError ⊎ Unit {0}
object_of_type parameter path none = inr tt
object_of_type parameter path (some type) = object_with parameter path type (required_fields type)

unfoldable pub assert_parameter_object : Json → String → GraphApiError ⊎ Unit {0}
assert_parameter_object parameter path = object_of_type parameter path (lower_type parameter)

unfoldable pub assert_body_text : Json → GraphApiError ⊎ Unit {0}
assert_body_text parameter =
    require (not (is_text "text" (lower_type parameter)) || is_some (string_field parameter "text"))
      (mandatory_parameter_error
        "Parameter 'text' is mandatory for component parameter type 'text'")

abbrev body_text : Bool → Json → GraphApiError ⊎ Unit {0}
body_text true parameter = assert_body_text parameter
body_text false parameter = inr tt

-- the loops over the parameters of a component, and over the components, with their places
abbrev each_parameter : Bool → String → ℕ → List Json → GraphApiError ⊎ Unit {0}
each_parameter is_body path index [] = inr tt
each_parameter is_body path index (parameter ∷ parameters) = do
  body_text is_body parameter
  assert_parameter_object parameter (path ++ˢ ".parameters." ++ˢ decimal index)
  each_parameter is_body path (index + 1) parameters

abbrev objects_from : ℕ → List Json → GraphApiError ⊎ Unit {0}
objects_from index [] = inr tt
objects_from index (component ∷ components) = do
  each_parameter (is_text "body" (lower_type component)) ("template.components." ++ˢ decimal index)
      0 (parameters_of component)
  objects_from (index + 1) components

unfoldable pub assert_parameter_objects : List Json → GraphApiError ⊎ Unit {0}
assert_parameter_objects components = objects_from 0 components

-- `MEDIA_HEADER_FORMATS`
abbrev pub is_media_format : String → Bool
is_media_format format =
    format == "IMAGE" || (format == "VIDEO" || (format == "DOCUMENT" || format == "LOCATION"))

-- `REFERENCED_MEDIA_TYPES`
abbrev pub is_referenced : String → Bool
is_referenced type = type == "image" || (type == "video" || type == "document")

-- the object of a media parameter, which names its media
abbrev pub media_reference : Json → Option String → GraphApiError ⊎ Unit {0}
media_reference parameter none = inr tt
media_reference parameter (some type) = elim (is_media_format (to_upper type)) [
  | false ↦ inr tt
  | true ↦ do
    reference ← or_raise (object_at parameter type) (missing_parameter_object_error type)
    require
        (not (is_referenced type)
          || (is_some (string_field reference "id") || is_some (string_field reference "link")))
        (template_parameter_issue_error "Either one of media ID or link must be present")
]

abbrev pub sent_media : Option Json → GraphApiError ⊎ Unit {0}
sent_media none = inr tt
sent_media (some parameter) = media_reference parameter (lower_type parameter)

abbrev pub received_format : Option Json → String
received_format none = "UNKNOWN"
received_format (some parameter) = get_or (Option.map to_upper (lower_type parameter)) "UNKNOWN"

-- the first parameter of the header that was sent
abbrev pub sent_header : List Json → Option Json
sent_header components = elim (find (λ c. is_text "header" (lower_type c)) components) [
  | none ↦ none
  | some sent ↦ first (parameters_of sent)
]

-- the format that the template's header has
unfoldable pub header_format : List Json → Option String
header_format components = elim (find (λ c. is_text "HEADER" (upper_type c)) components) [
  | none ↦ none
  | some component ↦ Option.map to_upper (string_field component "format")
]

abbrev pub media_header : Option String → List Json → GraphApiError ⊎ Unit {0}
media_header none components = inr tt
media_header (some expected) components = elim (is_media_format expected) [
  | false ↦ inr tt
  | true ↦ do
    let parameter = sent_header components
    sent_media parameter
    require (received_format parameter == expected) (
        template_header_format_mismatch_error (
          "header: Format mismatch, expected "
          ++ˢ expected
          ++ˢ ", received "
          ++ˢ received_format parameter))
]

unfoldable pub assert_header_format : Template → List Json → GraphApiError ⊎ Unit {0}
assert_header_format template components =
    media_header (header_format template.components) components

abbrev digits_value : String → Option ℕ
digits_value s = if not (is_empty s) && all_chars is_digit s then some (number_from 0 s) else none

-- a number that is no natural one is the place of no button
abbrev index_value : Option Json → Option ℕ
index_value (some (nat n)) = some n
index_value (some (str s)) = digits_value s
index_value _ = none

unfoldable pub index_of : Json → Option ℕ
index_of component = index_value (property component "index")

abbrev is_at : ℕ → Option ℕ → Bool
is_at index none = false
is_at index (some n) = eqb n index

abbrev is_button_at : ℕ → Json → Bool
is_button_at index component =
    is_text "button" (lower_type component) && is_at index (index_of component)

abbrev is_url : Option String → Bool
is_url none = true
is_url (some subtype) = subtype == "url"

abbrev subtype_of : Option Json → Option String
subtype_of none = none
subtype_of (some sent) = Option.map to_lower (string_field sent "sub_type")

abbrev suffix_of : Option Json → Option Json
suffix_of none = none
suffix_of (some sent) = first (parameters_of sent)

-- the suffix that a button with a placeholder takes
unfoldable pub assert_button : ℕ → Option Json → GraphApiError ⊎ Unit {0}
assert_button index sent = do
  require (is_url (subtype_of sent)) (
      template_parameter_issue_error
        ("buttons: Button at index " ++ˢ decimal index ++ˢ " must be of type Url"))
  suffix ← or_raise (suffix_of sent) (
      required_parameter_missing_error
        ("buttons: Button at index " ++ˢ decimal index ++ˢ " of type Url requires a parameter"))
  require
      (not (is_text "text" (lower_type suffix))
        || not (get_or (string_field suffix "text") "" == ""))
      (mandatory_parameter_error
        "button: Parameter 'text' is mandatory for component parameter type 'text' and cannot be empty")

-- does a button of the template take a suffix
abbrev pub takes_suffix : Json → Bool
takes_suffix button = elim (string_field button "url") [
  | none ↦ false
  | some url ↦ is_text "URL" (upper_type button) && ltb 0 (length (extract_placeholders url))
]

abbrev each_button : ℕ → List Json → List Json → GraphApiError ⊎ Unit {0}
each_button index components [] = inr tt
each_button index components (definition ∷ definitions) =
    (if takes_suffix definition
      then assert_button index (find (is_button_at index) components)
      else inr tt)
    >> each_button (index + 1) components definitions

unfoldable pub assert_button_parameters : Template → List Json → GraphApiError ⊎ Unit {0}
assert_button_parameters template components =
    elim (find (λ c. is_text "BUTTONS" (upper_type c)) template.components) [
      | none ↦ inr tt
      | some buttons ↦ each_button 0 components (elements (property buttons "buttons"))
    ]
