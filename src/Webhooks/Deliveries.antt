-- ===== src/Webhooks/Deliveries.antt =====
-- packages/server/src/db/repositories/webhook-delivery-repository.ts: the log of deliveries. A row is
-- kept as the record that it decodes to.
use Prim.Native.Nat.{Ordering}
use Prim.Native.String.{compare, then as then_by}
use whaloc.Base.{
  String, ℕ, List, [], ◌∷◌, ◌++◌, Bool, true, Option, none, some, get_or, if◌then◌else◌, is_some,
  find_by, Assoc, filter, take, to_sorted, text_lt, ◌==◌,
}
use whaloc.Shared.Entities.{WebhookDelivery}

pub record WebhookDeliveryRecord : Type 0 where
  pub id : String
  pub event_type : String
  pub url : String
  pub request_body : String
  pub request_headers : Assoc String
  pub response_status : Option ℕ
  pub response_body : Option String
  pub error : Option String
  pub attempt : ℕ
  pub duration_ms : Option ℕ
  pub created_at : String

abbrev pub Log : Type 0
Log = List WebhookDeliveryRecord

abbrev pub delivery_id : WebhookDeliveryRecord → String
delivery_id r = r.id

abbrev pub find_delivery : String → Log → Option WebhookDeliveryRecord
find_delivery id log = find_by delivery_id id log

-- the emitter gives every column; `none` is a primary key that is taken
unfoldable pub insert_delivery : WebhookDeliveryRecord → Log → Option Log
insert_delivery row log =
    if is_some (find_delivery row.id log) then none else some (log ++ row ∷ [])

abbrev default_list_limit : ℕ
default_list_limit = 50

pub record ListWebhookDeliveriesQuery : Type 0 where
  pub limit : Option ℕ
  pub before : Option String

abbrev is_before : Option String → WebhookDeliveryRecord → Bool
is_before none r = true
is_before (some before) r = text_lt r.created_at before

-- `.orderBy("created_at", "desc").orderBy("id", "desc")`
abbrev pub newest_first : WebhookDeliveryRecord → WebhookDeliveryRecord → Ordering
newest_first a b = then_by (compare b.created_at a.created_at) (compare b.id a.id)

unfoldable pub list_deliveries : ListWebhookDeliveriesQuery → Log → Log
list_deliveries query log =
    take (get_or query.limit default_list_limit)
      (to_sorted newest_first (filter (is_before query.before) log))

-- packages/server/src/domain/control-dto.ts
unfoldable pub to_webhook_delivery_dto : WebhookDeliveryRecord → WebhookDelivery
to_webhook_delivery_dto r = record {
  id = r.id;
  event_type = r.event_type;
  url = r.url;
  request_body = r.request_body;
  request_headers = r.request_headers;
  response_status = r.response_status;
  response_body = r.response_body;
  error = r.error;
  attempt = r.attempt;
  duration_ms = r.duration_ms;
  skipped = r.url == "";
  created_at = r.created_at;
}
