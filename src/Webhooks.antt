-- ===== src/Webhooks.antt =====
-- packages/server/src/domain/webhook-emitter.ts: the deliveries to the app under test. What a call
-- waits for, sends and publishes is a list of effects; what comes back from the network at each
-- attempt is given.
pub mod Signature
pub mod Deliveries
pub mod Retries
pub mod Handshake
mod Tests
use mathlib.Core.Option
use whaloc.Base.{
  String, ℕ, suc, List, [], ◌∷◌, ◌++◌, Bool, true, false, ◌&&◌, Option, none, some, leb, ltb,
  if◌then◌else◌, Assoc, ◌==◌, is_some,
}
use whaloc.Shared.Common.{Json}
use whaloc.Shared.Entities.{WebhookDelivery}
use Signature.{signature_header, meta_signature_header}
use Deliveries.{WebhookDeliveryRecord, Log, find_delivery, insert_delivery, to_webhook_delivery_dto}

-- `WebhookTarget`
pub record WebhookTarget : Type 0 where
  pub url : Option String
  pub app_secret : Option String
  pub verify_token : Option String

-- what a POST comes to: an answer with its status and its body, which is cut, or a failure
pub data Answer : Type 0 where
  replied : ℕ → String → Answer
  broken : String → Answer

-- what an attempt finds: the id that is minted, the answer, how long it took, and the time
pub record Moment : Type 0 where
  pub id : String
  pub answer : Answer
  pub duration_ms : ℕ
  pub now : String

pub data Effect : Type 0 where
  slept : ℕ → Effect
  posted : String → Assoc String → String → Effect
  published : WebhookDelivery → Effect

abbrev pub default_retry_delays_ms : List ℕ
default_retry_delays_ms = 0 ∷ 2000 ∷ 10000 ∷ []

abbrev pub skipped_delivery_url : String
skipped_delivery_url = ""

abbrev pub skipped_delivery_error : String
skipped_delivery_error =
    "WHALOC_WEBHOOK_URL is not set: nothing was sent, the payload is logged only"

abbrev pub raw_event_type : String
raw_event_type = "raw"

abbrev pub user_agent : String
user_agent = "facebookexternalua"

abbrev pub answer_status : Answer → Option ℕ
answer_status (replied status body) = some status
answer_status (broken error) = none

abbrev answer_body : Answer → Option String
answer_body (replied status body) = some body
answer_body (broken error) = none

abbrev answer_error : Answer → Option String
answer_error (replied status body) = none
answer_error (broken error) = some error

-- a network error, or the receiver's own failure
abbrev pub is_retryable : Option ℕ → Bool
is_retryable none = true
is_retryable (some status) = leb 500 status

-- the log, what was done, and one record per attempt, oldest first; `none` is an error of the log
pub record Delivery : Type 0 where
  pub log : Log
  pub effects : List Effect
  pub records : Option (List WebhookDeliveryRecord)

abbrev pub pause : ℕ → List Effect
pause delay = if ltb 0 delay then slept delay ∷ [] else []

abbrev signed : Option String → Assoc String
signed none = []
signed (some signature) = (signature_header, signature) ∷ []

-- `hmac` signs a body under a secret
module _ (hmac : String → String → String) (target : WebhookTarget) where
  -- `#headers`
  unfoldable pub headers : String → Assoc String
  headers body =
      ("content-type", "application/json")
      ∷ ("user-agent", user_agent)
      ∷ signed (Option.map (λ secret. meta_signature_header hmac secret body) target.app_secret)

  -- the row of an attempt
  unfoldable pub attempted : String → String → String → ℕ → Moment → WebhookDeliveryRecord
  attempted event_type url body attempt moment = record {
    id = moment.id;
    event_type = event_type;
    url = url;
    request_body = body;
    request_headers = headers body;
    response_status = answer_status moment.answer;
    response_body = answer_body moment.answer;
    error = answer_error moment.answer;
    attempt = attempt;
    duration_ms = some moment.duration_ms;
    created_at = moment.now;
  }

  -- the row of a delivery that has nowhere to go
  unfoldable pub skipped : String → String → Moment → WebhookDeliveryRecord
  skipped event_type body moment = record {
    id = moment.id;
    event_type = event_type;
    url = skipped_delivery_url;
    request_body = body;
    request_headers = headers body;
    response_status = none;
    response_body = none;
    error = some skipped_delivery_error;
    attempt = 1;
    duration_ms = none;
    created_at = moment.now;
  }

  -- what follows the record of an attempt
  abbrev pub and_then :
      List Effect → WebhookDeliveryRecord → Option Log → Log → (Log → Delivery) → Delivery
  and_then effects row none log next = record { log = log; effects = effects; records = none }
  and_then effects row (some log') log next =
      let rest = next log' in
      record {
        log = rest.log;
        effects = effects ++ published (to_webhook_delivery_dto row) ∷ rest.effects;
        records = Option.map (λ rows. row ∷ rows) rest.records;
      }

  abbrev pub nothing_more : Log → Delivery
  nothing_more log = record { log = log; effects = []; records = some [] }

  -- the loop over the delays, with the index of the next attempt
  unfoldable pub deliver_from :
      (ℕ → Moment) → String → String → String → ℕ → List ℕ → Log → Delivery
  deliver_from world event_type url body index [] log = nothing_more log
  deliver_from world event_type url body index (delay ∷ delays) log =
      let row = attempted event_type url body (suc index) (world index) in
      let rest = deliver_from world event_type url body (suc index) delays in
      and_then (pause delay ++ posted url (headers body) body ∷ []) row (insert_delivery row log)
        log (if is_retryable row.response_status then rest else nothing_more)

  abbrev pub deliver_to : Option String → List ℕ → (ℕ → Moment) → String → String → Log → Delivery
  deliver_to none retry_delays_ms world event_type body log =
      let row = skipped event_type body (world 0) in
      and_then [] row (insert_delivery row log) log nothing_more
  deliver_to (some url) retry_delays_ms world event_type body log =
      deliver_from world event_type url body 0 retry_delays_ms log

  -- `#deliver`
  unfoldable pub deliver : List ℕ → (ℕ → Moment) → String → String → Log → Delivery
  deliver retry_delays_ms world event_type body log =
      deliver_to target.url retry_delays_ms world event_type body log

  abbrev caught : Delivery → Delivery
  caught d = record d { records = some (Option.get_or d.records []) }

  -- `serialize` is `serializeMetaJson`
  unfoldable pub emit : (Json → String) → List ℕ → (ℕ → Moment) → String → Json → Log → Delivery
  emit serialize retry_delays_ms world event_type envelope log =
      caught (deliver retry_delays_ms world event_type (serialize envelope) log)

  unfoldable pub emit_raw : (Json → String) → List ℕ → (ℕ → Moment) → Json → Log → Delivery
  emit_raw serialize retry_delays_ms world payload log =
      emit serialize retry_delays_ms world raw_event_type payload log

  -- `none` is a delivery that is not known
  unfoldable pub redeliver : List ℕ → (ℕ → Moment) → String → Log → Option Delivery
  redeliver retry_delays_ms world id log =
      Option.map (λ d. deliver retry_delays_ms world d.event_type d.request_body log)
        (find_delivery id log)
