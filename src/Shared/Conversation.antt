-- ===== src/Shared/Conversation.antt =====
-- packages/shared/src/control-plane/conversations.ts: conversation ids.
pub mod Laws
mod Tests
use Prim.Native.Char.{Char, code}
use Prim.Native.String.{[], ◌∷◌, ◌++◌}
use whaloc.Base.{
  String, Bool, true, false, Option, none, some, ◌≡◌, ◌⊎◌, inl, inr, eqb, if◌then◌else◌, refl,
  arith,
}

unfoldable pub conversation_id : String → String → String
conversation_id phone_number_id contact_wa_id = phone_number_id ++ ":" ++ contact_wa_id

-- `id.indexOf(":")` with the slices on its two sides
split_colon : String → Option (String × String)
split_colon [] = none
split_colon (c ∷ s) =
    let rest = split_colon s in
    if eqb (code c) b':'
    then some ([], s)
    else elim rest [ none ↦ none | some (before, after) ↦ some (c ∷ before, after) ]

-- The separator is missing or first, or nothing stands behind it: no conversation.
parts_of : String × String → Option (String × String)
parts_of ([], after) = none
parts_of (before, []) = none
parts_of (before, after) = some (before, after)

-- the phone number id and the contact's wa_id
unfoldable pub parse_conversation_id : String → Option (String × String)
unfolding split_colon parts_of
parse_conversation_id id = elim (split_colon id) [ none ↦ none | some p ↦ parts_of p ]
