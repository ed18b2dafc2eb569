-- ===== src/Placeholders.antt =====
-- packages/server/src/domain/template-placeholders.ts: the variable slots of a stored template.
pub mod Occurrences
pub mod Scanning
mod Tests
use Prim.Native.Char.{Char, code}
use Prim.Native.Nat.{zero, suc}
use Prim.Native.String.{[], ◌∷◌}
use mathlib.Core.List.{[] as []ᴸ, ◌∷◌ as ◌∷ᴸ◌, ◌++◌ as ◌++ᴸ◌}
use whaloc.Shared.Common.{Json}
use whaloc.JsonObject.{string_field}
use whaloc.Base.{
  String, List, Bool, true, false, ◌&&◌, ◌||◌, Option, none, some, ℕ, ◌-◌, leb, eqb, if◌then◌else◌,
  any, ◌==◌, not, to_lower, to_upper, is_space, span_by, behind, text_length,
}

-- `\w`
abbrev pub is_word : ℕ → Bool
is_word c =
    (leb b'A' c && leb c b'Z')
    || (leb b'a' c && leb c b'z')
    || (leb b'0' c && leb c b'9')
    || eqb c b'_'

abbrev named : String → Option String → Option (String × String)
named [] rest = none
named (c ∷ name) none = none
named (c ∷ name) (some rest) = some (c ∷ name, rest)

-- behind the opening braces and the space after them
word_at : String × String → Option (String × String)
word_at (name, s) = named name (behind "}}" (span_by is_space s).1)

open_at : Option String → Option (String × String)
unfolding word_at
open_at none = none
open_at (some s) = word_at (span_by is_word (span_by is_space s).1)

-- `PLACEHOLDER_PATTERN` at the start of a text: the name, and what follows the match
match_at : String → Option (String × String)
unfolding open_at
match_at s = open_at (behind "{{" s)

-- `matchAll`: the names in a text, of which so many characters belong to the match before
scan : ℕ → String → List String
unfolding match_at
scan k [] = []ᴸ
scan (suc k) (c ∷ s) = scan k s
scan zero (c ∷ s) = elim (match_at (c ∷ s)) [
  | none ↦ scan zero s
  | some (name, rest) ↦ name ∷ᴸ scan (text_length s - text_length rest) s
]

-- the loop that skips the names it has
abbrev pub add_names : List String → List String → List String
add_names names []ᴸ = names
add_names names (name ∷ᴸ more) =
    add_names (if any (λ n. n == name) names then names else names ++ᴸ name ∷ᴸ []ᴸ) more

unfoldable pub extract_placeholders : String → List String
unfolding scan
extract_placeholders text = add_names []ᴸ (scan zero text)

-- `PLACEHOLDER_COMPONENTS`
pub data PlaceholderComponent : Type 0 where
  header body : PlaceholderComponent

pub record TemplatePlaceholders : Type 0 where
  pub header : List String
  pub body : List String

abbrev pub names_in : PlaceholderComponent → TemplatePlaceholders → List String
names_in header p = p.header
names_in body p = p.body

abbrev pub with_names :
    PlaceholderComponent → List String → TemplatePlaceholders → TemplatePlaceholders
with_names header names p = record p { header = names }
with_names body names p = record p { body = names }

abbrev component_named : Option String → Option PlaceholderComponent
component_named none = none
component_named (some type) =
    if to_lower type == "header"
    then some header
    else if to_lower type == "body"
    then some body
    else none

unfoldable pub placeholder_component_of : Json → Option PlaceholderComponent
placeholder_component_of component = component_named (string_field component "type")

abbrev is_text_format : Option String → Bool
is_text_format none = true
is_text_format (some format) = to_upper format == "TEXT"

unfoldable pub is_text_component : Json → PlaceholderComponent → Bool
is_text_component component body = true
is_text_component component header = is_text_format (string_field component "format")

abbrev pub noted :
    Json → Option PlaceholderComponent → Option String → TemplatePlaceholders → TemplatePlaceholders
noted component (some type) (some text) p =
    if is_text_component component type then with_names type (extract_placeholders text) p else p
noted component _ _ p = p

-- a later component of a type replaces an earlier one
abbrev pub placeholders_from : List Json → TemplatePlaceholders → TemplatePlaceholders
placeholders_from []ᴸ p = p
placeholders_from (component ∷ᴸ components) p =
    placeholders_from components
      (noted component (placeholder_component_of component) (string_field component "text") p)

unfoldable pub template_placeholders : List Json → TemplatePlaceholders
template_placeholders components =
    placeholders_from components (record { header = []ᴸ; body = []ᴸ })
