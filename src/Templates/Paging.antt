-- ===== src/Templates/Paging.antt =====
-- packages/server/src/domain/template-service.ts, `list`: a client that follows the cursors of the
-- pages.
use whaloc.Base.{
  String, ℕ, zero, suc, ◌<◌, List, [], ◌∷◌, ◌++◌, true, false, ◌||◌, ◌&&◌, Option, none, some, ◌⊎◌,
  inl, inr, ◌≡◌, refl, sym, ap, ◌∙◌, subst, is_some, filter, take, drop, last, length, length-drop,
  take-drop, append-nil, last_split, append_assoc, ltb, All, All-of, All-filter, All-to_sorted,
  filter-eq, IsDistinct, filter-IsDistinct, find_by_own, arith,
}
use mathlib.Core.Option
use whaloc.Shared.Common.{Json}
use whaloc.Shared.Entities.{Template}
use whaloc.Database.{order_by_creation}
use whaloc.Database.Order.{IsAscending, before, order_by_creation-IsAscending, filter-before}
use whaloc.Database.Wabas.{find_waba}
use whaloc.Database.Tables.{Tables}
use whaloc.Failure.{Failure}
use whaloc.Templates.Table.{
  TemplateFilters, ListTemplatesQuery, template_id, find_template, is_listed, ordered, list_page,
  is_after,
}
use whaloc.Templates.{ListTemplatesResult, assert_waba_exists, page_of, list}
use Prim.Native.Nat.{Ordering}
use Prim.Native.String.{compare, then as then_by}
use text.Mathlib.Text.{is_eq, is_lt}

-- the rest is asked for while there is a page
abbrev carried :
    ListTemplatesResult → (Option String → Option (List Template)) → Option (List Template)
carried page rest = elim page.has_next_page [
  | true ↦
      Option.map (λ l. page.templates ++ l) (rest (Option.map template_id (last page.templates)))
  | false ↦ some page.templates
]

-- `none` is a request that failed, or more pages than were asked for
abbrev answered :
    Failure ⊎ ListTemplatesResult
    → (Option String → Option (List Template))
    → Option (List Template)
answered (inl failure) rest = none
answered (inr page) rest = carried page rest

-- everything that the filters let through, in order
abbrev pub matching :
    (List Json → String) → String → TemplateFilters → List Template → List Template
matching serialize waba filters table = ordered (filter (is_listed serialize waba filters) table)

module _ (serialize : List Json → String) (limit : ℕ) (waba : String)
    (filters : TemplateFilters) where
  abbrev query : Option String → ListTemplatesQuery
  query cursor = record {
    filters = filters;
    waba_id = waba;
    limit = some limit;
    after_id = cursor;
    before_id = none;
  }

  -- at most as many pages as the fuel, from a cursor on
  abbrev pub walk : ℕ → Option String → Tables → Option (List Template)
  walk zero cursor t = none
  walk (suc fuel) cursor t = answered (list serialize (query cursor) t) (λ next. walk fuel next t)

then_lem : (o p : Ordering) → is_lt (then_by o p) ≡ (is_lt o || is_eq o && is_lt p)
then_lem o p = ground arith

-- the condition of the query is the order of the listing
is_after_lem : (x t : Template) → is_after x t ≡ before (λ r. r.created_at) template_id x t
is_after_lem x t = sym (then_lem (compare x.created_at t.created_at) (compare x.id t.id))

All_middle {ℓ κ} :
    {A : Type ℓ} (P : A → Type κ) (pre : List A) (x : A) (post : List A)
    → All P (pre ++ x ∷ post)
    → P x
All_middle P [] x post (p, h) = p
All_middle P (y ∷ pre) x post (p, h) = All_middle P pre x post h

module _ (serialize : List Json → String) (limit : ℕ) (waba : String) (filters : TemplateFilters)
    (table : List Template) (distinct : IsDistinct template_id table) where
  found :
      (pre : List Template) (x : Template) (post : List Template)
      → matching serialize waba filters table ≡ pre ++ x ∷ post
      → find_template x.id table ≡ some x
  unfolding order_by_creation
  found pre x post split =
      All_middle (λ y. find_template y.id table ≡ some y) pre x post
        (subst (All (λ y. find_template y.id table ≡ some y)) split (
          All-to_sorted (λ y. find_template y.id table ≡ some y) _
            (filter (is_listed serialize waba filters) table)
            (All-filter (λ y. find_template y.id table ≡ some y) (is_listed serialize waba filters)
              table (find_by_own template_id table distinct))))

  beyond :
      (pre : List Template) (x : Template) (post : List Template)
      → matching serialize waba filters table ≡ pre ++ x ∷ post
      → filter (is_after x) (matching serialize waba filters table) ≡ post
  beyond pre x post split =
      filter-eq (is_after x) (before (λ r. r.created_at) template_id x)
        (matching serialize waba filters table)
        (All-of (λ t. is_after x t ≡ before (λ r. r.created_at) template_id x t) (is_after_lem x) _)
      ∙ ap (filter (before (λ r. r.created_at) template_id x)) split
      ∙ filter-before (λ r. r.created_at) template_id pre x post
          (subst (IsAscending (λ r. r.created_at) template_id) split (
            order_by_creation-IsAscending (λ r. r.created_at) template_id
              (filter (is_listed serialize waba filters) table)
              (filter-IsDistinct template_id (is_listed serialize waba filters) table distinct)))

  -- a cursor leaves off before these rows
  abbrev LeavesOff : Option String → List Template → Type 0
  LeavesOff cursor rows =
      (k : ℕ)
      → list_page serialize (record (query serialize limit waba filters cursor) { limit = some k })
          table
        ≡ take k rows

  start-LeavesOff : LeavesOff none (matching serialize waba filters table)
  unfolding list_page
  start-LeavesOff k = refl

  next-LeavesOff :
      (pre : List Template) (x : Template) (post : List Template)
      → matching serialize waba filters table ≡ pre ++ x ∷ post
      → LeavesOff (some x.id) post
  unfolding list_page
  next-LeavesOff pre x post split k =
      rw (found pre x post split) (ap (take k) (beyond pre x post split))

module _ (serialize : List Json → String) (n : ℕ) (waba : String) (filters : TemplateFilters)
    (t : Tables) (known : is_some (find_waba waba t.wabas) ≡ true)
    (distinct : IsDistinct template_id t.templates) where
  -- the rows that a cursor leaves
  abbrev Leaves : Option String → List Template → Type 0
  Leaves = LeavesOff serialize (suc n) waba filters t.templates distinct

  asked :
      (cursor : Option String)
      → list serialize (query serialize (suc n) waba filters cursor) t
        ≡ inr (page_of serialize (query serialize (suc n) waba filters cursor) t.templates)
  unfolding list assert_waba_exists
  asked cursor = rw known refl

  page_empty :
      (cursor : Option String)
      → Leaves cursor []
      → page_of serialize (query serialize (suc n) waba filters cursor) t.templates
        ≡ record { templates = []; has_next_page = false; has_previous_page = false }
  page_empty cursor leaves = rw (leaves (suc n)) refl

  page_lem :
      (cursor : Option String) (y : Template) (ys : List Template) (b : Template)
      → Leaves cursor (y ∷ ys)
      → last (y ∷ take n ys) ≡ some b
      → Leaves (some b.id) (drop n ys)
      → ((page_of serialize (query serialize (suc n) waba filters cursor) t.templates).templates
          ≡ y ∷ take n ys)
        × ((page_of serialize
              (query serialize (suc n) waba filters cursor)
              t.templates).has_next_page
            ≡ ltb 0 (length (take 1 (drop n ys))))
  page_lem cursor y ys b leaves ends later =
      rw (leaves (suc n), ends) (refl, ap (λ l. ltb 0 (length l)) (later 1))

  carried_on :
      (page : ListTemplatesResult) (rest : Option String → Option (List Template))
      (xs zs : List Template) (b : Template)
      → page.templates ≡ xs
      → last xs ≡ some b
      → page.has_next_page ≡ ltb 0 (length (take 1 zs))
      → ((0 < length zs) → rest (some b.id) ≡ some zs)
      → carried page rest ≡ some (xs ++ zs)
  carried_on page rest xs [] b same ends more next = rw (more, same) (ap some (sym (append-nil xs)))
  carried_on page rest xs (z ∷ zs) b same ends more next =
      rw (more, same, ends, next (omega arith)) refl

  walk_from :
      (fuel : ℕ) (cursor : Option String) (pre rows : List Template)
      → matching serialize waba filters t.templates ≡ pre ++ rows
      → Leaves cursor rows
      → length rows < fuel
      → walk serialize (suc n) waba filters fuel cursor t ≡ some rows
  walk_from zero cursor pre rows split leaves enough = absurd (omega (arith, enough))
  walk_from (suc fuel) cursor pre [] split leaves enough =
      rw (asked cursor, page_empty cursor leaves) refl
  walk_from (suc fuel) cursor pre (y ∷ ys) split leaves enough =
      let (front, b, same, ends) = last_split y (take n ys) in
      let whole : y ∷ ys ≡ front ++ b ∷ drop n ys =
        ap (λ l. y ∷ l) (sym (take-drop n ys))
        ∙ ap (λ l. l ++ drop n ys) same
        ∙ append_assoc front (b ∷ []) (drop n ys) in
      let split' : matching serialize waba filters t.templates ≡ (pre ++ front) ++ b ∷ drop n ys =
        split ∙ ap (λ l. pre ++ l) whole ∙ sym (append_assoc pre front (b ∷ drop n ys)) in
      let later : Leaves (some b.id) (drop n ys) =
        next-LeavesOff serialize (suc n) waba filters t.templates distinct (pre ++ front) b
          (drop n ys) split' in
      let (here, more) = page_lem cursor y ys b leaves ends later in
      rw (asked cursor) (
        carried_on (page_of serialize (query serialize (suc n) waba filters cursor) t.templates)
          (λ next. walk serialize (suc n) waba filters fuel next t) (y ∷ take n ys) (drop n ys) b
          here ends more
          (λ _.
            walk_from fuel (some b.id) ((pre ++ front) ++ b ∷ []) (drop n ys)
              (split' ∙ sym (append_assoc (pre ++ front) (b ∷ []) (drop n ys))) later
              (omega (arith, enough, length-drop n ys)))
        ∙ ap (λ l. some (y ∷ l)) (take-drop n ys))

-- A client that asks for the templates of a known account in pages of at least one, following the
-- cursor of the last template while there is a next page, is done after at most one request more
-- than there are matching templates, and has then read each of them exactly once, in the order of
-- the listing; where the ids are distinct.
pub walk-matching :
    (serialize : List Json → String) (limit : ℕ) (waba : String) (filters : TemplateFilters)
    (t : Tables) (fuel : ℕ)
    → 0 < limit
    → is_some (find_waba waba t.wabas) ≡ true
    → IsDistinct template_id t.templates
    → length (matching serialize waba filters t.templates) < fuel
    → walk serialize limit waba filters fuel none t
      ≡ some (matching serialize waba filters t.templates)
walk-matching serialize zero waba filters t fuel some_rows known distinct enough =
    absurd (omega (arith, some_rows))
walk-matching serialize (suc n) waba filters t fuel some_rows known distinct enough =
    walk_from serialize n waba filters t known distinct fuel none [] _ refl
      (start-LeavesOff serialize (suc n) waba filters t.templates distinct) enough
