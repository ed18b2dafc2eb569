-- ===== src/Webhooks/Retries.antt =====
-- packages/server/src/domain/webhook-emitter.ts: the attempts of a delivery.
use mathlib.Core.Option
use whaloc.Base.{
  String, ℕ, suc, ◌≤◌, List, [], ◌∷◌, ◌++◌, true, false, Option, none, some, ◌≡◌, refl, sym, ap,
  ◌∙◌, subst, Bool-cases, inl, inr, Assoc, All, length, append_assoc, append-nil, arith, get_or,
}
use whaloc.Shared.Common.{Json}
use whaloc.Webhooks.Deliveries.{WebhookDeliveryRecord, Log, find_delivery, insert_delivery}
use whaloc.Webhooks.{
  WebhookTarget, Moment, Delivery, is_retryable, headers, attempted, deliver_from, deliver_to,
  deliver, emit,
}

-- attempts that count up from one number, at most so many, where another one follows exactly after
-- an attempt that may be retried, as long as one is left
pub data IsRun : ℕ → ℕ → List WebhookDeliveryRecord → Type 0 where
  exhausted : {attempt : ℕ} → IsRun attempt 0 []
  ended :
      {attempt left : ℕ} {row : WebhookDeliveryRecord}
      → row.attempt ≡ attempt
      → is_retryable row.response_status ≡ false
      → IsRun attempt (suc left) (row ∷ [])
  retried :
      {attempt left : ℕ} {row : WebhookDeliveryRecord} {rows : List WebhookDeliveryRecord}
      → row.attempt ≡ attempt
      → is_retryable row.response_status ≡ true
      → IsRun (suc attempt) left rows
      → IsRun attempt (suc left) (row ∷ rows)

-- no more attempts than are allowed
pub IsRun-length :
    (attempt left : ℕ) (rows : List WebhookDeliveryRecord)
    → IsRun attempt left rows
    → length rows ≤ left
IsRun-length attempt left rows exhausted = omega arith
IsRun-length attempt left rows (ended {left = n} a e) = omega arith
IsRun-length attempt left rows (retried {left = n} {rows = rest} a e run) =
    omega (arith, IsRun-length (suc attempt) n rest run)

-- the row is about this event, with this body and these headers
pub record Sends (event_type url body : String) (request_headers : Assoc String)
    (row : WebhookDeliveryRecord) : Type 0 where
  pub event : row.event_type ≡ event_type
  pub target : row.url ≡ url
  pub payload : row.request_body ≡ body
  pub signed : row.request_headers ≡ request_headers

module _ (hmac : String → String → String) (target : WebhookTarget) where
  -- no id that is minted is in the log
  abbrev pub AreFresh : (ℕ → Moment) → String → String → String → ℕ → List ℕ → Log → Type 0
  AreFresh world event_type url body index [] log = Unit
  AreFresh world event_type url body index (delay ∷ delays) log =
      (find_delivery (world index).id log ≡ none)
      × AreFresh world event_type url body (suc index) delays
          (log ++ attempted hmac target event_type url body (suc index) (world index) ∷ [])

  -- a delivery of attempts that are all recorded, and only they
  pub record Delivered (event_type url body : String) (attempt left : ℕ) (log : Log) (d : Delivery)
      : Type 0 where
    pub rows : List WebhookDeliveryRecord
    pub returned : d.records ≡ some rows
    pub run : IsRun attempt left rows
    pub sent : All (Sends event_type url body (headers hmac target body)) rows
    pub logged : d.log ≡ log ++ rows

  attempted-Sends :
      (event_type url body : String) (attempt : ℕ) (moment : Moment)
      → Sends event_type url body
          (headers hmac target body)
          (attempted hmac target event_type url body attempt moment)
  unfolding attempted
  attempted-Sends event_type url body attempt moment = record {
    event = refl;
    target = refl;
    payload = refl;
    signed = refl;
  }

  attempt-attempted :
      (event_type url body : String) (attempt : ℕ) (moment : Moment)
      → (attempted hmac target event_type url body attempt moment).attempt ≡ attempt
  unfolding attempted
  attempt-attempted event_type url body attempt moment = refl

  inserted :
      (event_type url body : String) (attempt : ℕ) (moment : Moment) (log : Log)
      → find_delivery moment.id log ≡ none
      → insert_delivery (attempted hmac target event_type url body attempt moment) log
        ≡ some (log ++ attempted hmac target event_type url body attempt moment ∷ [])
  unfolding insert_delivery attempted
  inserted event_type url body attempt moment log new = rw new refl

  pub deliver_from-Delivered :
      (world : ℕ → Moment) (event_type url body : String) (index : ℕ) (delays : List ℕ) (log : Log)
      → AreFresh world event_type url body index delays log
      → Delivered event_type url body
          (suc index)
          (length delays)
          log
          (deliver_from hmac target world event_type url body index delays log)
  unfolding deliver_from
  deliver_from-Delivered world event_type url body index [] log fresh = record {
    rows = [];
    returned = refl;
    run = IsRun.exhausted;
    sent = tt;
    logged = sym (append-nil log);
  }
  deliver_from-Delivered world event_type url body index (delay ∷ delays) log (new, fresh) =
      let row = attempted hmac target event_type url body (suc index) (world index) in
      let rest =
        deliver_from-Delivered world event_type url body (suc index) delays (log ++ row ∷ [])
          fresh in
      elim (Bool-cases (is_retryable row.response_status)) [
        | inl again ↦
            rw (inserted event_type url body (suc index) (world index) log new, again)
              (record {
                rows = row ∷ rest.rows;
                returned = ap (Option.map (λ rows. row ∷ rows)) rest.returned;
                run =
                    IsRun.retried (attempt-attempted event_type url body (suc index) (world index))
                      again rest.run;
                sent = (attempted-Sends event_type url body (suc index) (world index), rest.sent);
                logged = rest.logged ∙ append_assoc log (row ∷ []) rest.rows;
              })
        | inr over ↦
            rw (inserted event_type url body (suc index) (world index) log new, over)
              (record {
                rows = row ∷ [];
                returned = refl;
                run =
                    IsRun.ended (attempt-attempted event_type url body (suc index) (world index))
                      over;
                sent = (attempted-Sends event_type url body (suc index) (world index), tt);
                logged = refl;
              })
      ]

  caught_lem :
      (event_type url body : String) (attempt left : ℕ) (log : Log) (d : Delivery)
      → Delivered event_type url body attempt left log d
      → Delivered event_type url body attempt left log
          (record d { records = some (get_or d.records []) })
  caught_lem event_type url body attempt left log d h = record {
    rows = h.rows;
    returned = ap (λ (o : Option (List WebhookDeliveryRecord)). some (get_or o [])) h.returned;
    run = h.run;
    sent = h.sent;
    logged = h.logged;
  }

  deliver_set :
      (delays : List ℕ) (world : ℕ → Moment) (event_type url body : String) (log : Log)
      → target.url ≡ some url
      → deliver hmac target delays world event_type body log
        ≡ deliver_from hmac target world event_type url body 0 delays log
  unfolding deliver
  deliver_set delays world event_type url body log set =
      ap (λ o. deliver_to hmac target o delays world event_type body log) set

  -- Where a URL is set and the minted ids are new, an emission never fails: it records attempts that
  -- count up from one, with another one exactly after a network error or a status from 500 on as long
  -- as a delay is left, all with the same body and headers, and the log grows by these records.
  pub emit-Delivered :
      (serialize : Json → String) (delays : List ℕ) (world : ℕ → Moment) (event_type url : String)
      (envelope : Json) (log : Log)
      → target.url ≡ some url
      → AreFresh world event_type url (serialize envelope) 0 delays log
      → Delivered event_type url
          (serialize envelope)
          1
          (length delays)
          log
          (emit hmac target serialize delays world event_type envelope log)
  unfolding emit
  emit-Delivered serialize delays world event_type url envelope log set fresh =
      let body = serialize envelope in
      subst
        (λ (d : Delivery).
          Delivered event_type url body 1 (length delays) log
            (record d { records = some (get_or d.records []) }))
        (sym (deliver_set delays world event_type url body log set))
        (caught_lem event_type url body 1 (length delays) log _
          (deliver_from-Delivered world event_type url body 0 delays log fresh))
