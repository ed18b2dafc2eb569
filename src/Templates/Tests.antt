-- ===== src/Templates/Tests.antt =====
-- Runs of the template service on a small catalogue.
use whaloc.Base.{String, List, [], ◌∷◌, none, some, inr, ◌≡◌, refl, arith, to_sorted}
use whaloc.Shared.Common.{
  Json, obj, arr, str, TemplateStatus, TemplateCategory, TemplateParameterFormat,
}
use whaloc.Shared.Common.Items.{nil, cons}
use whaloc.Shared.Common.Fields.{end, field}
use whaloc.Shared.Entities.{Template}
use whaloc.Database.Wabas.{WabaRecord}
use whaloc.Database.Tables.{Tables}
use whaloc.Database.{order_by_creation}
use whaloc.Uploads.{Uploads, find_by_handle}
use whaloc.Uploads.Table.{UploadSession, find_session_by_handle}
use whaloc.Templates.Table.{
  TemplateFilters, is_filtered, update_template, find_by_name_and_language, find_by_name,
  insert_template, new_template, delete_template,
}
use whaloc.Templates.HeaderHandles.{
  assert_header_handles_resolve, template_header_handles, component_header_handles,
}
use whaloc.Templates.{
  Outcome, TemplateEditRequest, TemplateCreateRequest, edit, create, delete, assert_waba_exists,
  template_created, template_edited, templates_deleted,
}
use whaloc.Templates.Catalog.{Reaches, IsCatalog, Reaches-IsCatalog}
use whaloc.Templates.Edits.{IsSentBack, edit-IsSentBack}
use whaloc.Templates.Paging.{walk, matching, walk-matching}

abbrev acme : WabaRecord
acme = record { id = "10"; name = "Acme"; subscribed_at = none; created_at = "a" }

abbrev template : String → String → String → Template
template id name created = record {
  id = id;
  waba_id = "10";
  name = name;
  language = "en";
  category = TemplateCategory.utility;
  parameter_format = TemplateParameterFormat.positional;
  components = [];
  status = TemplateStatus.approved;
  rejected_reason = none;
  quality_score = none;
  created_at = created;
  updated_at = created;
}

abbrev tables : Tables
tables = record {
  wabas = acme ∷ [];
  phone_numbers = [];
  media = [];
  messages = [];
  templates =
      template "3" "hello_b" "2"
      ∷ template "1" "hello_a" "1"
      ∷ template "2" "hello_c" "2"
      ∷ template "4" "bye" "1"
      ∷ [];
}

abbrev hello : TemplateFilters
hello = record {
  name = none;
  name_or_content = some "HELLO";
  status = some TemplateStatus.approved;
  category = none;
  language = none;
}

abbrev serialize : List Json → String
serialize components = "[]"

matched :
    matching serialize "10" hello tables.templates
    ≡ template "1" "hello_a" "1" ∷ template "2" "hello_c" "2" ∷ template "3" "hello_b" "2" ∷ []
unfolding is_filtered order_by_creation to_sorted
matched = refl

walk-matching_example :
    walk serialize 2 "10" hello 5 none tables
    ≡ some (matching serialize "10" hello tables.templates)
walk-matching_example =
    walk-matching serialize 2 "10" hello tables 5 (omega arith) refl
      (refl, (refl, (refl, (refl, tt)))) (rw matched (omega arith))

abbrev picture : UploadSession
picture = record {
  id = "s1";
  app_id = "42";
  file_name = none;
  file_type = "image/png";
  file_length = 3;
  received_bytes = 3;
  handle = some "4::picture";
  storage_key = some "k";
  sha256 = some "sum";
  url_token = some "u";
  created_at = "0";
  updated_at = "0";
}

abbrev uploads : Uploads
uploads = record { sessions = picture ∷ []; files = [] }

-- a header that shows the picture
abbrev header : Json
header = obj (
    field "type" (str "HEADER")
      (field "example" (obj (field "header_handle" (arr (cons (str "4::picture") nil)) end)) end))

abbrev rejected : Template
rejected = record (template "5" "promo" "0") {
  status = TemplateStatus.rejected;
  rejected_reason = some "SCAM";
}

abbrev catalog : Tables
catalog = record tables { templates = rejected ∷ template "6" "note" "0" ∷ [] }

abbrev shown : TemplateEditRequest
shown = record { category = none; components = some (header ∷ []) }

abbrev again : Template
again = record rejected {
  components = header ∷ [];
  status = TemplateStatus.pending;
  rejected_reason = none;
  updated_at = "9";
}

abbrev sent : Outcome Template
sent = record {
  tables = record catalog { templates = again ∷ template "6" "note" "0" ∷ [] };
  event = template_edited again;
  result = again;
}

edits : edit uploads "9" "5" shown catalog ≡ inr sent
unfolding edit update_template assert_header_handles_resolve template_header_handles
    component_header_handles find_by_handle find_session_by_handle
edits = refl

edit-IsSentBack_example : IsSentBack uploads "9" "5" shown catalog sent
edit-IsSentBack_example = edit-IsSentBack uploads "9" "5" shown catalog sent edits

-- a name that the edited catalogue has in another language
abbrev request : TemplateCreateRequest
request = record {
  name = "promo";
  language = "pt_BR";
  category = TemplateCategory.marketing;
  parameter_format = some TemplateParameterFormat.named;
  components = [];
}

abbrev made : Template
made = record {
  id = "7";
  waba_id = "10";
  name = "promo";
  language = "pt_BR";
  category = TemplateCategory.marketing;
  parameter_format = TemplateParameterFormat.named;
  components = [];
  status = TemplateStatus.pending;
  rejected_reason = none;
  quality_score = none;
  created_at = "9";
  updated_at = "9";
}

abbrev grown : Outcome Template
grown = record {
  tables = record catalog { templates = again ∷ template "6" "note" "0" ∷ made ∷ [] };
  event = template_created made;
  result = made;
}

creates : create uploads "9" "7" "10" request sent.tables ≡ inr grown
unfolding create assert_waba_exists find_by_name_and_language insert_template new_template
    assert_header_handles_resolve template_header_handles
creates = refl

abbrev thinned : Outcome (List Template)
thinned = record {
  tables = record catalog { templates = template "6" "note" "0" ∷ made ∷ [] };
  event = templates_deleted (again ∷ []);
  result = again ∷ [];
}

deletes : delete "10" "promo" (some "5") grown.tables ≡ inr thinned
unfolding delete assert_waba_exists find_by_name delete_template order_by_creation to_sorted
deletes = refl

Reaches-IsCatalog_example : IsCatalog thinned.tables.templates
Reaches-IsCatalog_example =
    Reaches-IsCatalog catalog thinned.tables
      (Reaches.deleted "10" "promo" (some "5") thinned
        (Reaches.created uploads "9" "7" "10" request grown
          (Reaches.edited uploads "9" "5" shown sent Reaches.here edits) creates)
        deletes)
      (record { ids = (refl, (refl, tt)); names = ((refl, tt), (tt, tt)) })
