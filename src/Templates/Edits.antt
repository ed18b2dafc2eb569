-- ===== src/Templates/Edits.antt =====
-- packages/server/src/domain/template-service.ts, `edit`: a template that goes back to the review.
use whaloc.Base.{
  String, List, [], ◌∷◌, true, false, Option, none, some, ◌⊎◌, inl, inr, ◌≡◌, refl, sym, ap, ◌∙◌,
  ◌==◌, Bool-cases, Option-cases, is_some, find_by-map, key-find_by, All, arith, or_raise, require,
  >>=-returns, or_raise-returns, require-returns, eq_refl, get_or,
}
use mathlib.Core.Option
use whaloc.Shared.Common.{Json, TemplateStatus}
use whaloc.Shared.Entities.{Template}
use whaloc.Database.Tables.{Tables}
use whaloc.Failure.{Failure}
use whaloc.Uploads.{Uploads, find_by_handle}
use whaloc.Templates.Table.{
  UpdateTemplateInput, template_id, find_template, update_template, write_template,
  patched_template,
}
use whaloc.Templates.HeaderHandles.{
  template_header_handles, resolve_each, assert_header_handles_resolve,
}
use whaloc.Templates.{Outcome, TemplateEditRequest, edit, sent_back}

abbrev pub handles_in : Option (List Json) → List String
handles_in none = []
handles_in (some components) = template_header_handles components

-- every handle is that of a completed upload
abbrev pub Resolves : Uploads → List String → Type 0
Resolves uploads handles = All (λ handle. is_some (find_by_handle handle uploads) ≡ true) handles

resolve_each-Resolves :
    (uploads : Uploads) (handles : List String)
    → resolve_each uploads handles ≡ inr tt
    → Resolves uploads handles
resolve_each-Resolves uploads [] e = tt
resolve_each-Resolves uploads (handle ∷ handles) e =
    let (_, here, rest) = >>=-returns (require (is_some (find_by_handle handle uploads)) _) _ e in
    (require-returns _ _ here, resolve_each-Resolves uploads handles rest)

assert_header_handles_resolve-Resolves :
    (uploads : Uploads) (components : Option (List Json))
    → assert_header_handles_resolve uploads components ≡ inr tt
    → Resolves uploads (handles_in components)
unfolding assert_header_handles_resolve
assert_header_handles_resolve-Resolves uploads none e = tt
assert_header_handles_resolve-Resolves uploads (some components) e =
    resolve_each-Resolves uploads (template_header_handles components) e

is_some-some : (o : Option Template) → is_some o ≡ true → (x : Template) × (o ≡ some x)
is_some-some none h = cc
is_some-some (some x) h = (x, refl)

module _ (now id : String) (input : UpdateTemplateInput) (table : List Template) where
  write-id : (x : Template) → (write_template now id input x).id ≡ x.id
  write-id x = elim (Bool-cases (x.id == id)) [
    | inl here ↦ rw here refl
    | inr other ↦ rw other refl
  ]

  found_after :
      (j : String)
      → find_template j (update_template now id input table).0
        ≡ Option.map (write_template now id input) (find_template j table)
  unfolding update_template
  found_after j = find_by-map template_id (write_template now id input) write-id j table

  pub others_kept :
      (j : String)
      → (j == id) ≡ false
      → find_template j (update_template now id input table).0 ≡ find_template j table
  others_kept j other = elim (Option-cases (find_template j table)) [
    | inl absent ↦ rw (found_after j, absent) refl
    | inr (x, found) ↦
        let at_j : x.id ≡ j = key-find_by template_id j table x found in
        rw (found_after j, found, at_j, other) refl
  ]

  pub written :
      (x : Template)
      → find_template id table ≡ some x
      → find_template id (update_template now id input table).0
        ≡ some (patched_template now input x)
  written x found =
      let at_id : x.id ≡ id = key-find_by template_id id table x found in
      rw (found_after id, found, at_id, eq_refl id) refl

-- what an edit comes to
pub record IsSentBack (uploads : Uploads) (now id : String) (request : TemplateEditRequest)
    (t : Tables) (done : Outcome Template) : Type 0 where
  pub resolved : Resolves uploads (handles_in request.components)
  pub before : Template
  pub known : find_template id t.templates ≡ some before
  pub result : done.result ≡ record before {
    category = get_or request.category before.category;
    components = get_or request.components before.components;
    status = TemplateStatus.pending;
    rejected_reason = none;
    updated_at = now;
  }
  pub stored : find_template id done.tables.templates ≡ some done.result
  pub others :
      (j : String)
      → (j == id) ≡ false
      → find_template j done.tables.templates ≡ find_template j t.templates

-- An edit that returns found its template, and a completed upload for every header handle of the new
-- components; the template is pending again, without a rejection, with what the request gives and all
-- else as it was, it is stored and returned, and no other template changes.
pub edit-IsSentBack :
    (uploads : Uploads) (now id : String) (request : TemplateEditRequest) (t : Tables)
    (done : Outcome Template)
    → edit uploads now id request t ≡ inr done
    → IsSentBack uploads now id request t done
unfolding edit update_template
edit-IsSentBack uploads now id request t done e =
    let (_, found, e1) = >>=-returns (require (is_some (find_template id t.templates)) _) _ e in
    let (_, resolves, e2) =
      >>=-returns (assert_header_handles_resolve uploads request.components) _ e1 in
    let input = sent_back request in
    let (row, got, e3) =
      >>=-returns (or_raise (update_template now id input t.templates).1 _) _ e2 in
    let (old, known) = is_some-some (find_template id t.templates) (require-returns _ _ found) in
    let table = (update_template now id input t.templates).0 in
    let now_there : find_template id table ≡ some (patched_template now input old) =
      written now id input t.templates old known in
    let same : row ≡ patched_template now input old =
      ground (arith, or_raise-returns _ _ got, now_there) in
    let result : row ≡ done.result = ap (result_of row) e3 in
    let tables : table ≡ done.tables.templates = ap (table_of table) e3 in
    record {
      resolved = assert_header_handles_resolve-Resolves uploads request.components resolves;
      before = old;
      known = known;
      result = sym result ∙ same;
      stored = rw (← tables, ← result, same) now_there;
      others = λ j other. rw (← tables) (others_kept now id input t.templates j other);
    }
  where
    result_of : Template → Failure ⊎ Outcome Template → Template
    result_of row (inl failure) = row
    result_of row (inr o) = o.result

    table_of : List Template → Failure ⊎ Outcome Template → List Template
    table_of table (inl failure) = table
    table_of table (inr o) = o.tables.templates
