-- ===== src/Accounts.antt =====
-- packages/server/src/domain: accounts and phone numbers at runtime. The services throw a Graph API
-- error or one of the control plane; a write that a key of the schema refuses throws too.
pub mod Format
pub mod Quality
pub mod Registry
pub mod Rows
pub mod PhoneNumbers
pub mod Wabas
pub mod Steps
pub mod Writes
pub mod Digits
pub mod Changes
pub mod Calls
pub mod Uniqueness
pub mod Ladder
pub mod Keys
pub mod Deletion
pub mod Cascades
mod Tests
use whaloc.Base.{String, List, ◌⊎◌}
use whaloc.Shared.Common.{Json, ChangeEvent}
pub use whaloc.Failure.{Failure, graph, control, constraint}
use whaloc.Database.Wabas.{WabaRecord}
use whaloc.Database.PhoneNumbers.{PhoneNumberRecord}
use whaloc.Database.Tables.{Tables}

-- what a service does outside the tables: an event, a webhook job (its field and its envelope), or
-- the deletion of the bytes under a storage key, whose failure is only logged
pub data Effect : Type 0 where
  phone_number_changed : PhoneNumberRecord → ChangeEvent → Effect
  waba_changed : WabaRecord → ChangeEvent → Effect
  webhook : String → Json → Effect
  object_deleted : String → Effect

-- what a call that returns leaves behind
pub record Outcome (A : Type 0) : Type 0 where
  pub tables : Tables
  pub effects : List Effect
  pub result : A

abbrev pub Call : Type 0 → Type 0
Call A = Failure ⊎ Outcome A
