-- ===== src/Injection/Rules.antt =====
-- packages/server/src/db/repositories/injection-rule-repository.ts: the table of rules. A row is
-- kept as the record that it decodes to.
use Prim.Native.Nat.{Ordering}
use Prim.Native.String.{compare}
use mathlib.Core.Option
use whaloc.Base.{
  String, List, [], ◌∷◌, ◌++◌, Bool, Option, none, some, ℕ, ◌==◌, if◌then◌else◌, find_by, map,
  remove, to_sorted, eqb, ◌≡◌, refl, ◌∙◌, ap, arith, eq_iff, eq_refl, IsDistinct,
}
use whaloc.Shared.Common.{
  InjectionTarget, messages_send, media_upload, media_resolve, media_download, templates_create,
  templates_list, graph_all, InjectionPreset,
}
use whaloc.Shared.Entities.{InjectionTrigger, next, InjectionCustomResponse}

pub record InjectionRuleRecord : Type 0 where
  pub id : String
  pub target : InjectionTarget
  pub trigger : InjectionTrigger
  pub preset : InjectionPreset
  pub retry_after_seconds : Option ℕ
  pub regain_access_minutes : Option ℕ
  pub custom : Option InjectionCustomResponse
  pub seen : ℕ
  pub matches : ℕ
  pub remaining : Option ℕ
  pub created_at : String
  pub updated_at : String

-- `InjectionRuleCreateRequest`
pub record RuleRequest : Type 0 where
  pub target : InjectionTarget
  pub trigger : InjectionTrigger
  pub preset : InjectionPreset
  pub retry_after_seconds : Option ℕ
  pub regain_access_minutes : Option ℕ
  pub custom : Option InjectionCustomResponse

-- `UpdateInjectionCountersInput`
pub record Counters : Type 0 where
  pub seen : ℕ
  pub matches : ℕ
  pub remaining : Option ℕ

abbrev pub Table : Type 0
Table = List InjectionRuleRecord

abbrev pub rule_id : InjectionRuleRecord → String
rule_id r = r.id

-- the place of a target in `INJECTION_TARGETS`
abbrev pub target_index : InjectionTarget → ℕ
target_index messages_send = 0
target_index media_upload = 1
target_index media_resolve = 2
target_index media_download = 3
target_index templates_create = 4
target_index templates_list = 5
target_index graph_all = 6

abbrev pub same_target : InjectionTarget → InjectionTarget → Bool
same_target a b = eqb (target_index a) (target_index b)

abbrev pub initial_remaining : InjectionTrigger → Option ℕ
initial_remaining (next count) = some count
initial_remaining _ = none

-- A new row has seen nothing, and a `next` rule is fully armed.
unfoldable pub insert : String → String → RuleRequest → Table → Table × InjectionRuleRecord
insert id now request table =
    let rule : InjectionRuleRecord = record {
      id = id;
      target = request.target;
      trigger = request.trigger;
      preset = request.preset;
      retry_after_seconds = request.retry_after_seconds;
      regain_access_minutes = request.regain_access_minutes;
      custom = request.custom;
      seen = 0;
      matches = 0;
      remaining = initial_remaining request.trigger;
      created_at = now;
      updated_at = now;
    } in
    (table ++ rule ∷ [], rule)

unfoldable pub find_by_id : String → Table → Option InjectionRuleRecord
find_by_id id table = find_by rule_id id table

abbrev then_by : Ordering → Ordering → Ordering
then_by Ordering.eq o = o
then_by o _ = o

-- `ORDER BY created_at, id`, in the binary order of the database
abbrev pub creation_order : InjectionRuleRecord → InjectionRuleRecord → Ordering
creation_order a b = then_by (compare a.created_at b.created_at) (compare a.id b.id)

unfoldable pub list : Table → List InjectionRuleRecord
list table = to_sorted creation_order table

abbrev pub write : String → Counters → InjectionRuleRecord → InjectionRuleRecord
write now c rule = record rule {
  seen = c.seen;
  matches = c.matches;
  remaining = c.remaining;
  updated_at = now;
}

write_at : String → String → Counters → InjectionRuleRecord → InjectionRuleRecord
write_at id now c rule = if rule.id == id then write now c rule else rule

-- the table, and the row as it is afterwards
unfoldable pub update_counters :
    String → String → Counters → Table → Table × Option InjectionRuleRecord
unfolding write_at
update_counters id now c table =
    let table' = map (write_at id now c) table in (table', find_by rule_id id table')

unfoldable pub delete_by_id : String → Table → Table
delete_by_id id table = remove rule_id id table

find_by-write_at :
    (id now k : String) (c : Counters) (table : Table)
    → find_by rule_id k (map (write_at id now c) table)
      ≡ Option.map (λ r. if id == k then write now c r else r) (find_by rule_id k table)
unfolding write_at
find_by-write_at id now k c [] = refl
find_by-write_at id now k c (r ∷ table) =
    ground (arith, find_by-write_at id now k c table, eq_iff r.id k, eq_iff r.id id, eq_iff id k)

-- An update changes the counters of one row.
pub find_by-update_counters :
    (id now k : String) (c : Counters) (table : Table)
    → find_by rule_id k (update_counters id now c table).0
      ≡ Option.map (λ r. if id == k then write now c r else r) (find_by rule_id k table)
unfolding update_counters
find_by-update_counters id now k c table = find_by-write_at id now k c table

pub row-update_counters :
    (id now : String) (c : Counters) (table : Table)
    → (update_counters id now c table).1 ≡ Option.map (write now c) (find_by rule_id id table)
unfolding update_counters
row-update_counters id now c table =
    find_by-write_at id now id c table
    ∙ ap (λ (b : Bool). Option.map (λ r. if b then write now c r else r) (find_by rule_id id table))
        (eq_refl id)

find_by-none-write_at :
    (id now k : String) (c : Counters) (table : Table)
    → find_by rule_id k table ≡ none
    → find_by rule_id k (map (write_at id now c) table) ≡ none
unfolding write_at
find_by-none-write_at id now k c [] h = refl
find_by-none-write_at id now k c (r ∷ table) h =
    ground (arith, find_by-none-write_at id now k c table)

id-write_at :
    (id now : String) (c : Counters) (r : InjectionRuleRecord) → (write_at id now c r).id ≡ r.id
unfolding write_at
id-write_at id now c r = ground arith

write_all-IsDistinct :
    (id now : String) (c : Counters) (table : Table)
    → IsDistinct rule_id table
    → IsDistinct rule_id (map (write_at id now c) table)
write_all-IsDistinct id now c [] h = tt
write_all-IsDistinct id now c (r ∷ table) (new, h) =
    rw (id-write_at id now c r)
      (find_by-none-write_at id now r.id c table new, write_all-IsDistinct id now c table h)

pub update_counters-IsDistinct :
    (id now : String) (c : Counters) (table : Table)
    → IsDistinct rule_id table
    → IsDistinct rule_id (update_counters id now c table).0
unfolding update_counters
update_counters-IsDistinct id now c table h = write_all-IsDistinct id now c table h
