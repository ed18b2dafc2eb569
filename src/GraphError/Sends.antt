-- ===== src/GraphError/Sends.antt =====
-- packages/server/src/domain/meta-errors.ts: what is wrong with a send of a template.
use Prim.Native.String.{[] as []ˢ, ◌++◌ as ◌++ˢ◌}
use whaloc.Base.{String, List, [], ◌∷◌, some}
use whaloc.GraphError.{GraphApiError, new_error, only_code}

unfoldable pub template_not_found_error : String → GraphApiError
unfolding new_error
template_not_found_error details =
    new_error "(#132001) Template name does not exist in the translation"
      (record (only_code 132001) { details = some details })

unfoldable pub template_parameter_mismatch_error : String → GraphApiError
unfolding new_error
template_parameter_mismatch_error details =
    new_error "(#132000) Number of parameters does not match the expected number of params"
      (record (only_code 132000) { details = some details })

unfoldable pub mandatory_parameter_error : String → GraphApiError
unfolding new_error
mandatory_parameter_error details =
    new_error "(#100) Invalid parameter" (record (only_code 100) { details = some details })

unfoldable pub missing_parameter_object_error : String → GraphApiError
unfolding mandatory_parameter_error
missing_parameter_object_error type =
    mandatory_parameter_error
      ("Parameter '" ++ˢ type ++ˢ "' is mandatory for component parameter type '" ++ˢ type ++ˢ "'")

abbrev sentence : String → String → String
sentence path field =
    "Your request has violated JSON schema constraint 'required' for the JSON field '" ++ˢ path
    ++ˢ "', please check the JSON schema for the JSON field '" ++ˢ path
    ++ˢ "' and make sure your request is valid for missing : '" ++ˢ field ++ˢ "'"

-- `join(", ")`
abbrev sentences : String → List String → String
sentences path [] = []ˢ
sentences path (field ∷ []) = sentence path field
sentences path (field ∷ g ∷ fields) = sentence path field ++ˢ ", " ++ˢ sentences path (g ∷ fields)

unfoldable pub json_schema_required_error : String → List String → GraphApiError
unfolding new_error
json_schema_required_error path missing = new_error (sentences path missing) (only_code 100)

unfoldable pub template_parameter_issue_error : String → GraphApiError
unfolding new_error
template_parameter_issue_error details =
    new_error "(#132018) There’s an issue with the parameters in your template"
      (record (only_code 132018) { details = some details })

unfoldable pub required_parameter_missing_error : String → GraphApiError
unfolding new_error
required_parameter_missing_error details =
    new_error "(#131008) Required parameter is missing"
      (record (only_code 131008) { details = some details })

unfoldable pub template_header_format_mismatch_error : String → GraphApiError
unfolding new_error
template_header_format_mismatch_error details =
    new_error "(#132012) Parameter format does not match format in the created template"
      (record (only_code 132012) { details = some details })
