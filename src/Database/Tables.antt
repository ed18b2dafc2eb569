-- ===== src/Database/Tables.antt =====
-- packages/server/src/db/migrations.ts: the tables together. A row goes with the row that it refers
-- to: a number and a template with their account, messages and media with their number.
use whaloc.Base.{String, List, Bool, not, ◌&&◌, ◌==◌, remove, filter, any}
use whaloc.Shared.Entities.{Message, Template}
use whaloc.Database.Wabas.{WabaRecord, waba_id}
use whaloc.Database.PhoneNumbers.{PhoneNumberRow, row_id, is_of_waba}
use whaloc.Database.Media.{MediaRecord}

pub record Tables : Type 0 where
  pub wabas : List WabaRecord
  pub phone_numbers : List PhoneNumberRow
  pub media : List MediaRecord
  pub messages : List Message
  pub templates : List Template

-- `phoneNumbers.deleteById`, with the cascades of the schema
unfoldable pub delete_phone_number : String → Tables → Tables
delete_phone_number id t = record t {
  phone_numbers = remove row_id id t.phone_numbers;
  media = filter (λ m. not (m.phone_number_id == id)) t.media;
  messages = filter (λ m. not (m.phone_number_id == id)) t.messages;
}

-- `templates.deleteByWabaId`
unfoldable pub delete_templates_of : String → Tables → Tables
delete_templates_of id t = record t { templates = filter (λ x. not (x.waba_id == id)) t.templates }

-- a row of a number of the account
abbrev pub belongs_to : String → List PhoneNumberRow → String → Bool
belongs_to waba rows number = any (λ r. is_of_waba waba r && r.id == number) rows

-- `wabas.deleteById`, with the cascades of the schema
unfoldable pub delete_waba : String → Tables → Tables
delete_waba id t = record {
  wabas = remove waba_id id t.wabas;
  phone_numbers = filter (λ r. not (is_of_waba id r)) t.phone_numbers;
  media = filter (λ m. not (belongs_to id t.phone_numbers m.phone_number_id)) t.media;
  messages = filter (λ m. not (belongs_to id t.phone_numbers m.phone_number_id)) t.messages;
  templates = filter (λ x. not (x.waba_id == id)) t.templates;
}
