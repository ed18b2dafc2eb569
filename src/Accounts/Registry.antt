-- ===== src/Accounts/Registry.antt =====
-- packages/server/src/domain/meta-id-registry.ts: the ids of all objects are one namespace.
use Prim.Native.String.{◌++◌}
use whaloc.Base.{String, Option, none, some, ◌⊎◌, inr, raise, if◌then◌else◌, is_some, find_by}
use whaloc.Shared.Entities.{Template}
use whaloc.ControlPlaneError.{control_conflict}
use whaloc.Database.Wabas.{find_waba}
use whaloc.Database.PhoneNumbers.{find_row}
use whaloc.Database.Media.{find_media}
use whaloc.Database.Tables.{Tables}
use whaloc.Accounts.{Failure, control}

pub data Holder : Type 0 where
  waba phone_number media_object template : Holder

abbrev holder_name : Holder → String
holder_name waba = "WABA"
holder_name phone_number = "phone number"
holder_name media_object = "media object"
holder_name template = "template"

unfoldable pub find_id_holder : Tables → String → Option Holder
find_id_holder t id =
    if is_some (find_waba id t.wabas)
    then some waba
    else if is_some (find_row id t.phone_numbers)
    then some phone_number
    else if is_some (find_media id t.media)
    then some media_object
    else if is_some (find_by (λ (x : Template). x.id) id t.templates)
    then some template
    else none

abbrev refuse_held : String → String → Option Holder → Failure ⊎ Unit {0}
refuse_held id code none = inr tt
refuse_held id code (some holder) = raise (
    control (
      control_conflict ("the ID " ++ id ++ " is already taken by a " ++ holder_name holder)
        (some code)))

unfoldable pub assert_id_is_free : Tables → String → String → Failure ⊎ Unit {0}
assert_id_is_free t id code = refuse_held id code (find_id_holder t id)
