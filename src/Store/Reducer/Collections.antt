-- ===== src/Store/Reducer/Collections.antt =====
-- packages/web/src/store/reducer.ts: pages of the delivery log.
use Prim.Native.Nat.{Ordering}
use whaloc.Base.{
  String, List, [], ◌∷◌, ◌++◌, Option, none, some, get_or, ◌≡◌, ◌≢◌, refl, ap, inl, inr, arith,
  true, false, not, ◌==◌, eq_iff, Bool-cases, eq→path, find_by, IsDistinct, has_key, any, filter,
  filter-IsDistinct,
}
use whaloc.Shared.Entities.{WebhookDelivery}
use whaloc.Store.State.{AppState, Action, older}
use whaloc.Store.Reducer.{reducer, delivery_key}

-- pages of the delivery log
fresh_in : List WebhookDelivery → List WebhookDelivery → List WebhookDelivery
fresh_in known page = filter (λ d. not (any (has_key delivery_key d.id) known)) page

any-find_by :
    (k : String) (ds : List WebhookDelivery)
    → any (has_key delivery_key k) ds
      ≡ (elim (find_by delivery_key k ds) [ none ↦ false | some d ↦ true ])
any-find_by k [] = refl
any-find_by k (d ∷ ds) = ground (arith, any-find_by k ds)

find_by-fresh_in :
    (k : String) (known page : List WebhookDelivery)
    → find_by delivery_key k (fresh_in known page)
      ≡ (elim (find_by delivery_key k known) [ none ↦ find_by delivery_key k page | some d ↦ none ])
unfolding fresh_in
find_by-fresh_in k known [] = ground arith
find_by-fresh_in k known (d ∷ page) = elim (Bool-cases (d.id == k)) [
  | inl same ↦ ground (
    arith,
    find_by-fresh_in k known page,
    any-find_by k known,
    ap (λ (j : String). any (has_key delivery_key j) known) (eq→path same),
  )
  | inr other ↦ ground (arith, find_by-fresh_in k known page)
]

find_by-join :
    (k : String) (xs ys : List WebhookDelivery)
    → find_by delivery_key k (xs ++ ys)
      ≡ (elim (find_by delivery_key k xs) [ none ↦ find_by delivery_key k ys | some d ↦ some d ])
find_by-join k [] ys = refl
find_by-join k (x ∷ xs) ys = ground (arith, find_by-join k xs ys)

join-IsDistinct :
    (xs ys : List WebhookDelivery)
    → IsDistinct delivery_key xs
    → IsDistinct delivery_key ys
    → ((k : String) → find_by delivery_key k xs ≢ none → find_by delivery_key k ys ≡ none)
    → IsDistinct delivery_key (xs ++ ys)
join-IsDistinct [] ys dx dy apart = dy
join-IsDistinct (x ∷ xs) ys (new, dx) dy apart = (
  ground (arith, find_by-join x.id xs ys, apart x.id, eq_iff x.id x.id),
  join-IsDistinct xs ys dx dy λ k there. apart k (ground (arith, there)),
)

append_new-IsDistinct :
    (known page : List WebhookDelivery)
    → IsDistinct delivery_key known
    → IsDistinct delivery_key page
    → IsDistinct delivery_key (known ++ fresh_in known page)
append_new-IsDistinct known page dk dp =
    join-IsDistinct known (fresh_in known page) dk
      (unfold fresh_in in filter-IsDistinct delivery_key _ page dp)
      λ k there. ground (arith, there, find_by-fresh_in k known page)

-- the log as it was, `[]` when nothing is loaded
abbrev pub log_of : AppState → List WebhookDelivery
log_of s = get_or s.deliveries []

module _ (lc : String → String → Ordering) where
  -- An older page of deliveries keeps the log as a prefix, makes each delivery of the page
  -- findable, prefers the known copy, and leaves no id twice when the log and the page held none
  -- twice.
  pub older_page-log_of :
      (s : AppState) (page : List WebhookDelivery) (before : Option String)
      → IsDistinct delivery_key (log_of s)
      → IsDistinct delivery_key page
      → let after = log_of (reducer lc s (Action.deliveries_loaded page before older)) in
        IsDistinct delivery_key after
        × ((new : List WebhookDelivery) × (after ≡ log_of s ++ new))
        × ((k : String)
            → find_by delivery_key k after ≡ (elim (find_by delivery_key k (log_of s)) [
              | none ↦ find_by delivery_key k page
              | some d ↦ some d
            ]))
  unfolding reducer fresh_in
  older_page-log_of s page before dk dp = (
    append_new-IsDistinct (log_of s) page dk dp,
    (fresh_in (log_of s) page, refl),
    λ k. ground (
      arith,
      find_by-join k (log_of s) (fresh_in (log_of s) page),
      find_by-fresh_in k (log_of s) page,
    ),
  )
