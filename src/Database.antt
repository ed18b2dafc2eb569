-- ===== src/Database.antt =====
-- packages/server/src/db: the tables of accounts, phone numbers and media, with their repositories
-- and the keys of the schema. A listing is ordered by the time of creation, then by the id.
pub mod Wabas
pub mod PhoneNumbers
pub mod Media
pub mod Tables
pub mod Order
use Prim.Native.Nat.{Ordering}
use Prim.Native.String.{compare, then}
use whaloc.Base.{String, List, to_sorted}

-- `.orderBy("created_at").orderBy("id")`
abbrev pub by_creation {ℓ} : {A : Type ℓ} → (A → String) → (A → String) → A → A → Ordering
by_creation created id a b = then (compare (created a) (created b)) (compare (id a) (id b))

unfoldable pub order_by_creation {ℓ} : {A : Type ℓ} → (A → String) → (A → String) → List A → List A
order_by_creation created id rows = to_sorted (by_creation created id) rows
