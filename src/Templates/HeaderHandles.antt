-- ===== src/Templates/HeaderHandles.antt =====
-- packages/server/src/domain/template-header-handles.ts: the uploads that a template's header names.
use Prim.Native.String
use whaloc.Base.{String, List, [], ◌∷◌, ◌++◌, Option, none, some, ◌⊎◌, inr, is_some, require, ◌>>◌}
use whaloc.Shared.Common.{Json}
use whaloc.Shared.Common.Json.{arr, obj, str}
use whaloc.Shared.Common.{Items}
use whaloc.JsonObject.{property_of}
use whaloc.GraphError.{invalid_parameter_error}
use whaloc.Failure.{Failure, graph}
use whaloc.Uploads.{Uploads, find_by_handle}

-- `filter(handle => typeof handle === "string")`
abbrev texts_of : Items → List String
texts_of Items.nil = []
texts_of (Items.cons (str s) items) = s ∷ texts_of items
texts_of (Items.cons _ items) = texts_of items

abbrev handles_of : Option Json → List String
handles_of (some (arr items)) = texts_of items
handles_of _ = []

abbrev example_handles : Option Json → List String
example_handles (some (obj fields)) = handles_of (property_of "header_handle" fields)
example_handles _ = []

unfoldable pub component_header_handles : Json → List String
component_header_handles (obj fields) = example_handles (property_of "example" fields)
component_header_handles _ = []

unfoldable pub template_header_handles : List Json → List String
template_header_handles [] = []
template_header_handles (component ∷ components) =
    component_header_handles component ++ template_header_handles components

abbrev complaint : String → Failure
complaint handle = graph (
    invalid_parameter_error (
      Prim.Native.String.◌++◌ "Param components[].example.header_handle (" (
        Prim.Native.String.◌++◌ handle (
          Prim.Native.String.◌++◌ ") is not a completed upload handle: "
            "create one with POST /{app-id}/uploads and POST /upload:{id}"))))

-- the loop over the handles
abbrev pub resolve_each : Uploads → List String → Failure ⊎ Unit {0}
resolve_each uploads [] = inr tt
resolve_each uploads (handle ∷ handles) = do
  require (is_some (find_by_handle handle uploads)) (complaint handle)
  resolve_each uploads handles

unfoldable pub assert_header_handles_resolve : Uploads → Option (List Json) → Failure ⊎ Unit {0}
assert_header_handles_resolve uploads none = inr tt
assert_header_handles_resolve uploads (some components) =
    resolve_each uploads (template_header_handles components)
