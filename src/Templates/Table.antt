-- ===== src/Templates/Table.antt =====
-- packages/server/src/db/repositories/template-repository.ts: the table of templates. A row is kept
-- as the record that it decodes to, the shared Template.
use Prim.Native.Char.{code}
use Prim.Native.String.{[] as []ˢ, ◌∷◌ as ◌∷ˢ◌}
use whaloc.Base.{
  String, ℕ, List, [], ◌∷◌, ◌++◌, Bool, true, false, not, ◌&&◌, ◌||◌, Option, none, some, get_or,
  ◌==◌, if◌then◌else◌, is_some, find, find_by, remove, filter, take, map, reverse, length, ◌+◌, leb,
  eqb, text_lt, ◌-◌,
}
use whaloc.Shared.Common.{
  Json, TemplateStatus, TemplateCategory, TemplateParameterFormat, QualityRating,
}
use whaloc.Shared.Entities.{Template}
use whaloc.Database.{order_by_creation}

pub record InsertTemplateInput : Type 0 where
  pub id : String
  pub waba_id : String
  pub name : String
  pub language : String
  pub category : TemplateCategory
  pub parameter_format : Option TemplateParameterFormat
  pub components : List Json
  pub status : Option TemplateStatus
  pub created_at : Option String

-- a field that is `some none` is cleared
pub record UpdateTemplateInput : Type 0 where
  pub category : Option TemplateCategory
  pub parameter_format : Option TemplateParameterFormat
  pub components : Option (List Json)
  pub status : Option TemplateStatus
  pub rejected_reason : Option (Option String)
  pub quality_score : Option (Option QualityRating)
  pub updated_at : Option String

pub record TemplateFilters : Type 0 where
  pub name : Option String
  pub name_or_content : Option String
  pub status : Option TemplateStatus
  pub category : Option TemplateCategory
  pub language : Option String

pub record ListTemplatesQuery : Type 0 where
  pub filters : TemplateFilters
  pub waba_id : String
  pub limit : Option ℕ
  pub after_id : Option String
  pub before_id : Option String

abbrev default_list_limit : ℕ
default_list_limit = 25

abbrev pub template_id : Template → String
template_id t = t.id

abbrev pub find_template : String → List Template → Option Template
find_template id table = find_by template_id id table

abbrev status_number : TemplateStatus → ℕ
status_number TemplateStatus.pending = 0
status_number TemplateStatus.approved = 1
status_number TemplateStatus.rejected = 2
status_number TemplateStatus.paused = 3
status_number TemplateStatus.disabled = 4

abbrev category_number : TemplateCategory → ℕ
category_number TemplateCategory.authentication = 0
category_number TemplateCategory.marketing = 1
category_number TemplateCategory.utility = 2

-- `LIKE` folds the case of ASCII letters
abbrev folded : ℕ → ℕ
folded c = if leb b'A' c && leb c b'Z' then c + 32 else c

abbrev starts_like : String → String → Bool
starts_like []ˢ s = true
starts_like (p ∷ˢ ps) []ˢ = false
starts_like (p ∷ˢ ps) (c ∷ˢ s) = eqb (folded (code p)) (folded (code c)) && starts_like ps s

-- `like '%…%'` of an escaped pattern: the text stands somewhere in the column
abbrev is_like : String → String → Bool
is_like pattern []ˢ = starts_like pattern []ˢ
is_like pattern (c ∷ˢ s) = starts_like pattern (c ∷ˢ s) || is_like pattern s

abbrev agrees {ℓ} : {A : Type ℓ} → Option A → (A → Bool) → Bool
agrees none p = true
agrees (some a) p = p a

abbrev pub ordered : List Template → List Template
ordered table = order_by_creation (λ t. t.created_at) template_id table

-- `#cursorKey`
abbrev pub cursor_key : Option String → List Template → Option Template
cursor_key none table = none
cursor_key (some id) table = find_template id table

-- beyond the key of the cursor, upwards and downwards
abbrev pub is_after : Template → Template → Bool
is_after cursor t =
    text_lt cursor.created_at t.created_at
    || (cursor.created_at == t.created_at && text_lt cursor.id t.id)

abbrev pub is_before : Template → Template → Bool
is_before cursor t =
    text_lt t.created_at cursor.created_at
    || (t.created_at == cursor.created_at && text_lt t.id cursor.id)

abbrev pub forwards : ℕ → Option Template → List Template → List Template
forwards limit none rows = take limit rows
forwards limit (some cursor) rows = take limit (filter (is_after cursor) rows)

abbrev pub backwards : ℕ → Option Template → List Template → List Template
backwards limit none rows = reverse (take limit (reverse rows))
backwards limit (some cursor) rows = reverse (take limit (reverse (filter (is_before cursor) rows)))

-- `serialize` is the text of the column of components
module _ (serialize : List Json → String) where
  -- `#filtered`
  unfoldable pub is_filtered : TemplateFilters → Template → Bool
  is_filtered filters t =
      agrees filters.name (λ name. t.name == name)
      && (agrees filters.status (λ status. eqb (status_number t.status) (status_number status))
          && (agrees filters.category
                (λ category. eqb (category_number t.category) (category_number category))
              && (agrees filters.language (λ language. t.language == language)
                  && agrees filters.name_or_content
                      (λ text. is_like text t.name || is_like text (serialize t.components)))))

  abbrev pub is_listed : String → TemplateFilters → Template → Bool
  is_listed waba_id filters t = is_filtered filters t && t.waba_id == waba_id

  -- one page; the order of a query and its conditions commute, and the descending order of the
  -- distinct keys is the ascending one reversed
  unfoldable pub list_page : ListTemplatesQuery → List Template → List Template
  list_page query table =
      let rows = ordered (filter (is_listed query.waba_id query.filters) table) in
      let limit = get_or query.limit default_list_limit in
      if is_some query.before_id && not (is_some query.after_id)
      then backwards limit (cursor_key query.before_id table) rows
      else forwards limit (cursor_key query.after_id table) rows

  -- `listAll`
  unfoldable pub list_all : Option String → TemplateFilters → List Template → List Template
  list_all waba_id filters table =
      ordered (filter (λ t. is_filtered filters t && agrees waba_id (λ id. t.waba_id == id)) table)

abbrev pub has_name : String → String → Template → Bool
has_name waba_id name t = t.waba_id == waba_id && t.name == name

abbrev pub has_language : String → String → String → Template → Bool
has_language waba_id name language t = has_name waba_id name t && t.language == language

unfoldable pub find_by_name_and_language :
    String → String → String → List Template → Option Template
find_by_name_and_language waba_id name language table =
    find (has_language waba_id name language) table

-- the languages of a name are distinct, and the listing is by them
unfoldable pub find_by_name : String → String → List Template → List Template
find_by_name waba_id name table =
    order_by_creation (λ t. t.language) template_id (filter (has_name waba_id name) table)

unfoldable pub new_template : String → InsertTemplateInput → Template
new_template now input =
    let timestamp = get_or input.created_at now in
    record {
      id = input.id;
      waba_id = input.waba_id;
      name = input.name;
      language = input.language;
      category = input.category;
      parameter_format = get_or input.parameter_format TemplateParameterFormat.positional;
      components = input.components;
      status = get_or input.status TemplateStatus.pending;
      rejected_reason = none;
      quality_score = none;
      created_at = timestamp;
      updated_at = timestamp;
    }

-- `none` is a primary key, or a name in a language, that is taken
unfoldable pub insert_template :
    String → InsertTemplateInput → List Template → Option (List Template × Template)
unfolding find_by_name_and_language
insert_template now input table =
    if is_some (find_template input.id table)
      || is_some (find_by_name_and_language input.waba_id input.name input.language table)
    then none
    else (let row = new_template now input in some (table ++ row ∷ [], row))

abbrev pub patched_template : String → UpdateTemplateInput → Template → Template
patched_template now input t = record t {
  category = get_or input.category t.category;
  parameter_format = get_or input.parameter_format t.parameter_format;
  components = get_or input.components t.components;
  status = get_or input.status t.status;
  rejected_reason = get_or input.rejected_reason t.rejected_reason;
  quality_score = get_or input.quality_score t.quality_score;
  updated_at = get_or input.updated_at now;
}

abbrev pub write_template : String → String → UpdateTemplateInput → Template → Template
write_template now id input t = if t.id == id then patched_template now input t else t

unfoldable pub update_template :
    String → String → UpdateTemplateInput → List Template → List Template × Option Template
update_template now id input table =
    let table' = map (write_template now id input) table in (table', find_template id table')

-- the table, and whether there was a row
unfoldable pub delete_template : String → List Template → List Template × Bool
delete_template id table = (remove template_id id table, is_some (find_template id table))

-- the table, and how many rows were deleted
unfoldable pub delete_by_name : String → String → List Template → List Template × ℕ
delete_by_name waba_id name table =
    let kept = filter (λ t. not (has_name waba_id name t)) table in
    (kept, length table - length kept)
