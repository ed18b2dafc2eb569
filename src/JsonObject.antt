-- ===== src/JsonObject.antt =====
-- packages/server/src/domain/json-object.ts, and the reading of a key as a text: JSON values whose
-- keys may be absent or of another type.
use whaloc.Base.{String, List, [], ◌∷◌, Bool, true, false, Option, none, some, ◌==◌, if◌then◌else◌}
use whaloc.Shared.Common.{Json, Items, Fields}
use whaloc.Shared.Common.Json.{arr, obj, str}

-- `object[name]`
abbrev pub property_of : String → Fields → Option Json
property_of name Fields.end = none
property_of name (Fields.field k v fields) =
    let rest = property_of name fields in if k == name then some v else rest

-- `value[name]`; only an object has a key by that name
abbrev pub property : Json → String → Option Json
property (obj fields) name = property_of name fields
property _ name = none

abbrev pub text_of : Option Json → Option String
text_of (some (str s)) = some s
text_of _ = none

-- `stringField`
unfoldable pub string_field : Json → String → Option String
string_field value key = text_of (property value key)

-- `asJsonObject`
unfoldable pub as_json_object : Option Json → Option Json
as_json_object (some (obj fields)) = some (obj fields)
as_json_object _ = none

unfoldable pub object_at : Json → String → Option Json
unfolding as_json_object
object_at payload key = as_json_object (property payload key)

-- `typeof value === "object" && value !== null`
abbrev is_object : Json → Bool
is_object (obj fields) = true
is_object (arr items) = true
is_object _ = false

abbrev objects_of : Items → List Json
objects_of Items.nil = []
objects_of (Items.cons v items) =
    let rest = objects_of items in if is_object v then v ∷ rest else rest

abbrev pub items_of : Items → List Json
items_of Items.nil = []
items_of (Items.cons v items) = v ∷ items_of items

-- the items of a key that has an array, and of these the objects
abbrev pub elements : Option Json → List Json
elements (some (arr items)) = items_of items
elements _ = []

abbrev pub object_elements : Option Json → List Json
object_elements (some (arr items)) = objects_of items
object_elements _ = []
