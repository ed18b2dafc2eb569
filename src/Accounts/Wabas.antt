-- ===== src/Accounts/Wabas.antt =====
-- packages/server/src/domain/waba-service.ts: the management of accounts.
use Prim.Native.String.{◌++◌ as ◌++ˢ◌}
use whaloc.Base.{
  String, List, [], ◌∷◌, ◌++◌, Option, none, some, get_or, ◌⊎◌, inr, or_raise, ◌>>=◌, ◌>>◌,
}
use whaloc.Shared.Common.{created, updated, deleted}
use whaloc.ControlPlaneError.{control_not_found}
use whaloc.Database.Wabas.{WabaRecord, find_waba, insert_waba, update_waba}
use whaloc.Database.PhoneNumbers.{PhoneNumberRecord, list_by_waba_id}
use whaloc.Database.Tables.{Tables, delete_templates_of, delete_waba}
use whaloc.Accounts.{Failure, control, constraint, Effect, waba_changed, Call}
use whaloc.Accounts.Registry.{assert_id_is_free}
use whaloc.Accounts.PhoneNumbers.{delete}

-- `WabaCreateRequest`
pub record WabaCreateRequest : Type 0 where
  pub id : Option String
  pub name : String

abbrev pub unknown_waba : String → Failure
unknown_waba id = control (control_not_found ("no WABA with id " ++ˢ id) (some "unknown_waba"))

-- `fresh` is the id that was minted
unfoldable pub create : String → String → WabaCreateRequest → Tables → Call WabaRecord
create now fresh input t = do
  let id = get_or input.id fresh
  assert_id_is_free t id "duplicate_waba"
  (rows, waba) ←
      or_raise (insert_waba now (record { id = id; name = input.name; created_at = none }) t.wabas)
        constraint
  inr (record {
    tables = record t { wabas = rows };
    effects = waba_changed waba created ∷ [];
    result = waba;
  })

unfoldable pub rename : String → String → Tables → Call WabaRecord
rename id name t = do
  let (rows, found) = update_waba id (record { name = some name; subscribed_at = none }) t.wabas
  waba ← or_raise found (unknown_waba id)
  inr (record {
    tables = record t { wabas = rows };
    effects = waba_changed waba updated ∷ [];
    result = waba;
  })

-- the loop over the numbers of the account: the tables, and what was done
unfoldable pub delete_numbers : List PhoneNumberRecord → Tables → Failure ⊎ (Tables × List Effect)
delete_numbers [] t = inr (t, [])
delete_numbers (number ∷ numbers) t = do
  done ← delete number.id t
  (t', effects) ← delete_numbers numbers done.tables
  inr (t', done.effects ++ effects)

unfoldable pub delete_account : String → Tables → Call WabaRecord
delete_account id t = do
  waba ← or_raise (find_waba id t.wabas) (unknown_waba id)
  (t', effects) ← delete_numbers (list_by_waba_id id t.phone_numbers) t
  inr (record {
    tables = delete_waba id (delete_templates_of id t');
    effects = effects ++ waba_changed waba deleted ∷ [];
    result = waba;
  })
