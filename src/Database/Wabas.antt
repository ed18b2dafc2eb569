-- ===== src/Database/Wabas.antt =====
-- packages/server/src/db/repositories/waba-repository.ts: the table of accounts.
use whaloc.Base.{
  String, List, [], ◌∷◌, ◌++◌, Option, none, some, get_or, ◌==◌, if◌then◌else◌, is_some, find_by,
  map,
}
use whaloc.Database.{order_by_creation}

pub record WabaRecord : Type 0 where
  pub id : String
  pub name : String
  pub subscribed_at : Option String
  pub created_at : String

pub record InsertWabaInput : Type 0 where
  pub id : String
  pub name : String
  pub created_at : Option String

-- a subscription that is `some none` is taken back
pub record UpdateWabaInput : Type 0 where
  pub name : Option String
  pub subscribed_at : Option (Option String)

abbrev pub waba_id : WabaRecord → String
waba_id w = w.id

abbrev pub find_waba : String → List WabaRecord → Option WabaRecord
find_waba id table = find_by waba_id id table

abbrev new_waba : String → InsertWabaInput → WabaRecord
new_waba now input = record {
  id = input.id;
  name = input.name;
  subscribed_at = none;
  created_at = get_or input.created_at now;
}

-- `none` is a primary key that is taken
unfoldable pub insert_waba :
    String → InsertWabaInput → List WabaRecord → Option (List WabaRecord × WabaRecord)
insert_waba now input table =
    if is_some (find_waba input.id table)
    then none
    else (let row = new_waba now input in some (table ++ row ∷ [], row))

abbrev patched_waba : UpdateWabaInput → WabaRecord → WabaRecord
patched_waba input w = record w {
  name = get_or input.name w.name;
  subscribed_at = get_or input.subscribed_at w.subscribed_at;
}

abbrev write_waba : String → UpdateWabaInput → WabaRecord → WabaRecord
write_waba id input w = if w.id == id then patched_waba input w else w

-- an empty patch leaves every row as it is, so it needs no test of its own
unfoldable pub update_waba :
    String → UpdateWabaInput → List WabaRecord → List WabaRecord × Option WabaRecord
update_waba id input table =
    let table' = map (write_waba id input) table in (table', find_waba id table')

unfoldable pub list_wabas : List WabaRecord → List WabaRecord
list_wabas table = order_by_creation (λ w. w.created_at) waba_id table
