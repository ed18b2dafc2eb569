-- ===== src/Injection/Endpoint.antt =====
-- packages/server/src/graph-api/injection.ts: the endpoint class of a Graph request. A method is
-- put in upper case letter by letter, in ASCII.
use Prim.Native.Char.{Char, code}
use Prim.Native.String.{[], ◌∷◌}
use mathlib.Core.List.{[] as []ᴸ, ◌∷◌ as ◌∷ᴸ◌}
use whaloc.Base.{
  String, List, Bool, true, false, ◌&&◌, Option, none, some, get_or, eqb, if◌then◌else◌, ◌==◌,
  filter, is_some, span_digits, behind, to_upper,
}
use whaloc.Shared.Common.{InjectionTarget}

pub record RequestShape : Type 0 where
  pub method : String
  pub path : String
  pub has_phone_number_id : Bool

-- behind the minor version: the end, or a slash
after_minor : String × String → Option String
after_minor ([], s) = none
after_minor (d ∷ ds, []) = some []
after_minor (d ∷ ds, c ∷ s) = if eqb (code c) b'/' then some (c ∷ s) else none

after_major : String × String → Option String
unfolding after_minor
after_major ([], s) = none
after_major (d ∷ ds, []) = none
after_major (d ∷ ds, c ∷ s) =
    let rest = after_minor (span_digits s) in if eqb (code c) b'.' then rest else none

after_v : Option String → Option String
unfolding after_major
after_v none = none
after_v (some s) = after_major (span_digits s)

-- `path.replace(VERSION_PREFIX_PATTERN, "")`
unfoldable pub strip_version : String → String
unfolding after_v
strip_version path = get_or (after_v (behind "/v" path)) path

abbrev onto_first : Char → List String → List String
onto_first c []ᴸ = []ᴸ
onto_first c (s ∷ᴸ ss) = (c ∷ s) ∷ᴸ ss

-- `split("/")`
split_slash : String → List String
split_slash [] = [] ∷ᴸ []ᴸ
split_slash (c ∷ s) =
    let rest = split_slash s in if eqb (code c) b'/' then [] ∷ᴸ rest else onto_first c rest

abbrev is_named : String → Bool
is_named [] = false
is_named (c ∷ s) = true

-- the switch on `${method} ${segments[1]}`, which has one space to split at
unfoldable pub of_edge : String → String → Option InjectionTarget
of_edge method edge =
    if (to_upper method == "POST") && (edge == "messages")
    then some InjectionTarget.messages_send
    else if (to_upper method == "POST") && (edge == "media")
    then some InjectionTarget.media_upload
    else if (to_upper method == "POST") && (edge == "message_templates")
    then some InjectionTarget.templates_create
    else if (to_upper method == "GET") && (edge == "message_templates")
    then some InjectionTarget.templates_list
    else none

of_segments : RequestShape → List String → Option InjectionTarget
unfolding of_edge
of_segments request (id ∷ᴸ edge ∷ᴸ []ᴸ) = of_edge request.method edge
of_segments request (id ∷ᴸ []ᴸ) =
    if (to_upper request.method == "GET") && request.has_phone_number_id
    then some InjectionTarget.media_resolve
    else none
of_segments request _ = none

of_path : RequestShape → String → Option InjectionTarget
unfolding of_segments split_slash
of_path request path =
    if is_some (behind "/whaloc-media/" path)
    then some InjectionTarget.media_download
    else of_segments request (filter is_named (split_slash path))

unfoldable pub classify_endpoint : RequestShape → Option InjectionTarget
unfolding of_path strip_version
classify_endpoint request = of_path request (strip_version request.path)
