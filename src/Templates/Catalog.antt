-- ===== src/Templates/Catalog.antt =====
-- packages/server/src/domain/template-service.ts: what every call keeps of the table of templates.
use whaloc.Base.{
  String, List, [], ◌∷◌, ◌++◌, Bool, not, Option, none, some, ◌⊎◌, inl, inr, ◌≡◌, refl, ap, subst,
  ◌==◌, Bool-cases, Option-cases, is_some, filter, map, remove, find-Fails, IsDistinct,
  append-IsDistinct, filter-IsDistinct, map-IsDistinct, length, ltb, or_raise, require, >>=-returns,
  or_raise-returns,
}
use whaloc.Shared.Entities.{Template}
use whaloc.Database.Tables.{Tables}
use whaloc.Failure.{Failure}
use whaloc.Uploads.{Uploads}
use whaloc.Templates.Table.{
  InsertTemplateInput, UpdateTemplateInput, template_id, find_template, has_language,
  find_by_name_and_language, insert_template, new_template, update_template, write_template,
  patched_template, delete_template, find_by_name,
}
use whaloc.Shared.Common.{TemplateStatus}
use whaloc.Templates.Names.{
  is_same, HasDistinctNames, append-HasDistinctNames, filter-HasDistinctNames, map-HasDistinctNames,
}
use whaloc.Templates.HeaderHandles.{assert_header_handles_resolve}
use whaloc.Templates.{
  Outcome, TemplateCreateRequest, TemplateEditRequest, create, edit, delete, delete_each, is_meant,
  assert_waba_exists, sent_back, LifecycleEvent, template_created, template_edited,
}

-- the ids differ, and so do the names of a language of an account
pub record IsCatalog (table : List Template) : Type 0 where
  pub ids : IsDistinct template_id table
  pub names : HasDistinctNames table

-- what a call does to the table
data Change (table : List Template) : List Template → Type 0 where
  added :
      (now : String) (input : InsertTemplateInput)
      → find_template input.id table ≡ none
      → find_by_name_and_language input.waba_id input.name input.language table ≡ none
      → Change table (table ++ new_template now input ∷ [])
  rewritten :
      (now id : String) (input : UpdateTemplateInput)
      → Change table (map (write_template now id input) table)
  thinned : (p : Template → Bool) → Change table (filter p table)

write-cases :
    (now id : String) (input : UpdateTemplateInput) (x : Template)
    → (write_template now id input x ≡ patched_template now input x)
      ⊎ (write_template now id input x ≡ x)
write-cases now id input x = elim (Bool-cases (x.id == id)) [
  | inl here ↦ inl (rw here refl)
  | inr other ↦ inr (rw other refl)
]

write-id :
    (now id : String) (input : UpdateTemplateInput) (x : Template)
    → (write_template now id input x).id ≡ x.id
write-id now id input x = elim (write-cases now id input x) [
  | inl e ↦ rw e refl
  | inr e ↦ rw e refl
]

write-is_same :
    (now id : String) (input : UpdateTemplateInput) (x y : Template)
    → is_same (write_template now id input x) (write_template now id input y) ≡ is_same x y
write-is_same now id input x y = elim (write-cases now id input x) [
  | inl e ↦ rw e (right (patched_template now input x))
  | inr e ↦ rw e (right x)
]
  where
    right : (z : Template) → is_same z (write_template now id input y) ≡ is_same z y
    right z = elim (write-cases now id input y) [ inl e ↦ rw e refl | inr e ↦ rw e refl ]

Change-IsCatalog :
    {table table' : List Template} → Change table table' → IsCatalog table → IsCatalog table'
unfolding find_by_name_and_language new_template
Change-IsCatalog {table} (added now input new free) h = record {
  ids = append-IsDistinct template_id table (new_template now input) h.ids new;
  names =
      append-HasDistinctNames table (new_template now input) h.names
        (find-Fails (has_language input.waba_id input.name input.language) table free);
}
Change-IsCatalog {table} (rewritten now id input) h = record {
  ids =
      map-IsDistinct template_id (write_template now id input) (write-id now id input) table h.ids;
  names =
      map-HasDistinctNames (write_template now id input) (write-is_same now id input) table h.names;
}
Change-IsCatalog {table} (thinned p) h = record {
  ids = filter-IsDistinct template_id p table h.ids;
  names = filter-HasDistinctNames p table h.names;
}

-- a row that was inserted was free in both keys
insert-Change :
    (now : String) (input : InsertTemplateInput) (table table' : List Template) (row : Template)
    → insert_template now input table ≡ some (table', row)
    → Change table table'
unfolding insert_template
insert-Change now input table table' row e = elim (Option-cases (find_template input.id table)) [
  | inr (x, taken) ↦ absurd (cc (rw taken at e))
  | inl free ↦
      elim (Option-cases
        (find_by_name_and_language input.waba_id input.name input.language table)) [
          | inr (x, taken) ↦ absurd (cc (rw (free, taken) at e))
          | inl new ↦
              subst (Change table) (ap fst_of (rw (free, new) at e)) (added now input free new)
        ]
]
  where
    fst_of : Option (List Template × Template) → List Template
    fst_of none = table
    fst_of (some (l, r)) = l

abbrev ended : {A : Type 0} → LifecycleEvent → A → Tables → List Template → Failure ⊎ Outcome A
ended event result t templates =
    inr (record { tables = record t { templates = templates }; event = event; result = result })

outcome-tables :
    {table : List Template} {A : Type 0} (event : LifecycleEvent) (result : A) (t : Tables)
    (done : Outcome A) (templates : List Template)
    → ended event result t templates ≡ inr done
    → Change table templates
    → Change table done.tables.templates
outcome-tables {table} {A} event result t done templates e h =
    subst (Change table) (ap (λ o. tables_of o) e) h
  where
    tables_of : Failure ⊎ Outcome A → List Template
    tables_of (inl failure) = templates
    tables_of (inr o) = o.tables.templates

create-Change :
    (uploads : Uploads) (now fresh waba : String) (request : TemplateCreateRequest) (t : Tables)
    (done : Outcome Template)
    → create uploads now fresh waba request t ≡ inr done
    → Change t.templates done.tables.templates
unfolding create
create-Change uploads now fresh waba request t done e =
    let (_, _, e1) = >>=-returns (assert_waba_exists waba t) _ e in
    let (_, _, e2) =
      >>=-returns
        (require
          (not (is_some (find_by_name_and_language waba request.name request.language t.templates)))
          _)
        _ e1 in
    let (_, _, e3) =
      >>=-returns (assert_header_handles_resolve uploads (some request.components)) _ e2 in
    let input : InsertTemplateInput = record {
      id = fresh;
      waba_id = waba;
      name = request.name;
      language = request.language;
      category = request.category;
      parameter_format = request.parameter_format;
      components = request.components;
      status = some TemplateStatus.pending;
      created_at = none;
    } in
    let (w, made, e4) = >>=-returns (or_raise (insert_template now input t.templates) _) _ e3 in
    outcome-tables (template_created w.1) w.1 t done w.0 e4
      (insert-Change now input t.templates w.0 w.1 (or_raise-returns _ _ made))

edit-Change :
    (uploads : Uploads) (now id : String) (request : TemplateEditRequest) (t : Tables)
    (done : Outcome Template)
    → edit uploads now id request t ≡ inr done
    → Change t.templates done.tables.templates
unfolding edit update_template
edit-Change uploads now id request t done e =
    let (_, _, e1) = >>=-returns (require (is_some (find_template id t.templates)) _) _ e in
    let (_, _, e2) = >>=-returns (assert_header_handles_resolve uploads request.components) _ e1 in
    let input = sent_back request in
    let (row, _, e3) =
      >>=-returns (or_raise (find_template id (update_template now id input t.templates).0) _) _
        e2 in
    outcome-tables (template_edited row) row t done (map (write_template now id input) t.templates)
      e3 (rewritten now id input)

delete_each-IsCatalog :
    (doomed table : List Template) → IsCatalog table → IsCatalog (delete_each doomed table)
unfolding delete_template
delete_each-IsCatalog [] table h = h
delete_each-IsCatalog (x ∷ doomed) table h =
    delete_each-IsCatalog doomed (remove template_id x.id table)
      (Change-IsCatalog (thinned λ r. not (r.id == x.id)) h)

delete-IsCatalog :
    (waba name : String) (hsm_id : Option String) (t : Tables) (done : Outcome (List Template))
    → delete waba name hsm_id t ≡ inr done
    → IsCatalog t.templates
    → IsCatalog done.tables.templates
unfolding delete
delete-IsCatalog waba name hsm_id t done e h =
    let doomed = filter (is_meant hsm_id) (find_by_name waba name t.templates) in
    let (_, _, e1) = >>=-returns (assert_waba_exists waba t) _ e in
    let (_, _, e2) = >>=-returns (require (ltb 0 (length doomed)) _) _ e1 in
    subst IsCatalog (ap table_of e2) (delete_each-IsCatalog doomed t.templates h)
  where
    table_of : Failure ⊎ Outcome (List Template) → List Template
    table_of (inl failure) = []
    table_of (inr o) = o.tables.templates

-- the tables after calls that return, each with the uploads of its moment; a call that throws
-- leaves them
pub data Reaches : Tables → Tables → Type 0 where
  here : {t : Tables} → Reaches t t
  created :
      {t u : Tables} (uploads : Uploads) (now fresh waba : String) (request : TemplateCreateRequest)
      (done : Outcome Template)
      → Reaches t u
      → create uploads now fresh waba request u ≡ inr done
      → Reaches t done.tables
  edited :
      {t u : Tables} (uploads : Uploads) (now id : String) (request : TemplateEditRequest)
      (done : Outcome Template)
      → Reaches t u
      → edit uploads now id request u ≡ inr done
      → Reaches t done.tables
  deleted :
      {t u : Tables} (waba name : String) (hsm_id : Option String) (done : Outcome (List Template))
      → Reaches t u
      → delete waba name hsm_id u ≡ inr done
      → Reaches t done.tables

-- From a table of templates with distinct ids, of which no two have one name in one language of one
-- account, calls that create, edit and delete lead to such tables only, whatever ids are minted.
pub Reaches-IsCatalog : (t u : Tables) → Reaches t u → IsCatalog t.templates → IsCatalog u.templates
Reaches-IsCatalog t u here h = h
Reaches-IsCatalog t u (created {u = v} uploads now fresh waba request done before e) h =
    Change-IsCatalog (create-Change uploads now fresh waba request v done e)
      (Reaches-IsCatalog t v before h)
Reaches-IsCatalog t u (edited {u = v} uploads now id request done before e) h =
    Change-IsCatalog (edit-Change uploads now id request v done e) (Reaches-IsCatalog t v before h)
Reaches-IsCatalog t u (deleted {u = v} waba name hsm_id done before e) h =
    delete-IsCatalog waba name hsm_id v done e (Reaches-IsCatalog t v before h)
