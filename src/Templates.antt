-- ===== src/Templates.antt =====
-- packages/server/src/domain/template-service.ts: the templates of the accounts. What a call tells
-- the lifecycle is in its outcome.
pub mod Table
pub mod HeaderHandles
pub mod Paging
pub mod Names
pub mod Catalog
pub mod Edits
mod Tests
use whaloc.Base.{
  String, ℕ, List, [], ◌∷◌, ◌++◌, Bool, true, false, not, Option, none, some, ◌⊎◌, inl, inr, ◌==◌,
  if◌then◌else◌, is_some, filter, first, last, length, ltb, raise, require, or_raise, ◌>>=◌, ◌>>◌,
}
use whaloc.Shared.Common.{
  Json, TemplateStatus, TemplateCategory, TemplateParameterFormat, QualityRating,
}
use whaloc.Shared.Entities.{Template}
use whaloc.GraphError.{
  unknown_object_error, template_already_exists_error, template_not_deleted_error,
}
use whaloc.Failure.{Failure, graph, constraint}
use whaloc.Database.Wabas.{find_waba}
use whaloc.Database.Tables.{Tables}
use whaloc.Uploads.{Uploads}
use HeaderHandles.{assert_header_handles_resolve}
use Table.{
  UpdateTemplateInput, TemplateFilters, ListTemplatesQuery, template_id, find_template,
  find_by_name_and_language, find_by_name, insert_template, update_template, delete_template,
  list_page, list_all,
}

-- `TemplateLifecycleEvents`
pub data LifecycleEvent : Type 0 where
  template_created template_edited : Template → LifecycleEvent
  templates_deleted : List Template → LifecycleEvent

pub record Outcome (A : Type 0) : Type 0 where
  pub tables : Tables
  pub event : LifecycleEvent
  pub result : A

-- `TemplateCreateRequest`
pub record TemplateCreateRequest : Type 0 where
  pub name : String
  pub language : String
  pub category : TemplateCategory
  pub parameter_format : Option TemplateParameterFormat
  pub components : List Json

-- `TemplateEditRequest`
pub record TemplateEditRequest : Type 0 where
  pub category : Option TemplateCategory
  pub components : Option (List Json)

unfoldable pub assert_waba_exists : String → Tables → Failure ⊎ Unit {0}
assert_waba_exists waba_id t =
    require (is_some (find_waba waba_id t.wabas)) (graph (unknown_object_error waba_id))

-- `fresh` is the id that was minted
unfoldable pub create :
    Uploads → String → String → String → TemplateCreateRequest → Tables → Failure ⊎ Outcome Template
create uploads now fresh waba_id request t = do
  assert_waba_exists waba_id t
  require
      (not (is_some (find_by_name_and_language waba_id request.name request.language t.templates)))
      (graph (template_already_exists_error request.name request.language))
  assert_header_handles_resolve uploads (some request.components)
  (templates, template) ←
      or_raise
        (insert_template now
          (record {
            id = fresh;
            waba_id = waba_id;
            name = request.name;
            language = request.language;
            category = request.category;
            parameter_format = request.parameter_format;
            components = request.components;
            status = some TemplateStatus.pending;
            created_at = none;
          })
          t.templates)
        constraint
  inr (record {
    tables = record t { templates = templates };
    event = template_created template;
    result = template;
  })

pub record ListTemplatesResult : Type 0 where
  pub templates : List Template
  pub has_next_page : Bool
  pub has_previous_page : Bool

-- an empty page has no neighbours to report
abbrev neighbours :
    Option Template
    → Option Template
    → List Template
    → (String → List Template)
    → (String → List Template)
    → ListTemplatesResult
neighbours (some front) (some back) templates after before = record {
  templates = templates;
  has_next_page = ltb 0 (length (after back.id));
  has_previous_page = ltb 0 (length (before front.id));
}
neighbours _ _ templates after before = record {
  templates = templates;
  has_next_page = false;
  has_previous_page = false;
}

-- `serialize` is the text of the column of components
module _ (serialize : List Json → String) where
  abbrev pub page_of : ListTemplatesQuery → List Template → ListTemplatesResult
  page_of query table =
      let templates = list_page serialize query table in
      neighbours (first templates) (last templates) templates
        (λ id.
          list_page serialize
            (record query { limit = some 1; after_id = some id; before_id = none }) table)
        (λ id.
          list_page serialize
            (record query { limit = some 1; after_id = none; before_id = some id }) table)

  unfoldable pub list : ListTemplatesQuery → Tables → Failure ⊎ ListTemplatesResult
  list query t = do assert_waba_exists query.waba_id t; inr (page_of query t.templates)

-- what an edit writes: the template goes back to the review
abbrev pub sent_back : TemplateEditRequest → UpdateTemplateInput
sent_back request = record {
  category = request.category;
  parameter_format = none;
  components = request.components;
  status = some TemplateStatus.pending;
  rejected_reason = some none;
  quality_score = none;
  updated_at = none;
}

unfoldable pub edit :
    Uploads → String → String → TemplateEditRequest → Tables → Failure ⊎ Outcome Template
edit uploads now id request t = do
  require (is_some (find_template id t.templates)) (graph (unknown_object_error id))
  assert_header_handles_resolve uploads request.components
  let (templates, found) = update_template now id (sent_back request) t.templates
  template ← or_raise found (graph (unknown_object_error id))
  inr (record {
    tables = record t { templates = templates };
    event = template_edited template;
    result = template;
  })

abbrev pub is_meant : Option String → Template → Bool
is_meant none template = true
is_meant (some id) template = template.id == id

-- the loop over the templates
abbrev pub delete_each : List Template → List Template → List Template
delete_each [] table = table
delete_each (template ∷ doomed) table = delete_each doomed (delete_template template.id table).0

unfoldable pub delete : String → String → Option String → Tables → Failure ⊎ Outcome (List Template)
delete waba_id name hsm_id t = do
  assert_waba_exists waba_id t
  let doomed = filter (is_meant hsm_id) (find_by_name waba_id name t.templates)
  require (ltb 0 (length doomed)) (graph (template_not_deleted_error name))
  inr (record {
    tables = record t { templates = delete_each doomed t.templates };
    event = templates_deleted doomed;
    result = doomed;
  })
