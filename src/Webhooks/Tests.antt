-- ===== src/Webhooks/Tests.antt =====
-- Runs of webhook deliveries.
use mathlib.Core.Option
use whaloc.Base.{String, ℕ, zero, suc, [], true, none, some, ◌≡◌, refl, get, not, is_some, ◌↔◌}
use whaloc.Shared.Common.{Json, null}
use whaloc.Webhooks.Deliveries.{WebhookDeliveryRecord}
use whaloc.Webhooks.Signature.{signature_header, is_valid_meta_signature}
use whaloc.Webhooks.{
  WebhookTarget, Moment, Answer, replied, broken, attempted, headers, emit, default_retry_delays_ms,
}
use whaloc.Webhooks.Retries.{AreFresh, Delivered, emit-Delivered}
use whaloc.Webhooks.Handshake.{handshake, Passes, handshake-Passes, headers-is_valid}

abbrev hmac : String → String → String
hmac secret body = "0123456789abcdef0123456789abcdef0123456789abcdef0123456789abcdef"

abbrev target : WebhookTarget
target = record { url = some "http://app"; app_secret = some "secret"; verify_token = some "token" }

-- first the network fails, then the receiver does, then it answers
abbrev world : ℕ → Moment
world zero = record { id = "a"; answer = broken "refused"; duration_ms = 1; now = "t0" }
world (suc zero) = record { id = "b"; answer = replied 503 ""; duration_ms = 2; now = "t1" }
world (suc (suc _)) = record { id = "c"; answer = replied 200 "ok"; duration_ms = 3; now = "t2" }

abbrev serialize : Json → String
serialize json = "null"

world-AreFresh :
    AreFresh hmac target world "messages" "http://app" "null" 0 default_retry_delays_ms []
unfolding attempted
world-AreFresh = (refl, (refl, (refl, tt)))

emit-Delivered_example :
    Delivered hmac target "messages" "http://app" "null" 1 3 []
      (emit hmac target serialize default_retry_delays_ms world "messages" null [])
emit-Delivered_example =
    emit-Delivered hmac target serialize default_retry_delays_ms world "messages" "http://app" null
      [] refl world-AreFresh

abbrev old : WebhookDeliveryRecord
old = record {
  id = "old";
  event_type = "raw";
  url = "";
  request_body = "{}";
  request_headers = [];
  response_status = none;
  response_body = none;
  error = none;
  attempt = 1;
  duration_ms = none;
  created_at = "t";
}

abbrev echoing : String → String → Answer
echoing token challenge = replied 200 challenge

echoing-Passes : Passes target "challenge" echoing
echoing-Passes = record {
  token = "token";
  status = 200;
  configured = refl;
  known = refl;
  echoed = refl;
  success = refl;
}

handshake-Passes_example :
    (((handshake target "challenge" "now" echoing).ok ≡ true) ↔ Passes target "challenge" echoing)
    × (is_some (handshake target "challenge" "now" echoing).error
        ≡ not (handshake target "challenge" "now" echoing).ok)
handshake-Passes_example = handshake-Passes target "challenge" "now" echoing

echoed : (handshake target "challenge" "now" echoing).ok ≡ true
echoed = (handshake-Passes target "challenge" "now" echoing).0.1 echoing-Passes

headers-is_valid_example :
    Option.map
      (λ value. is_valid_meta_signature hmac value "secret" "body")
      (get signature_header (headers hmac target "body"))
    ≡ some true
headers-is_valid_example = headers-is_valid hmac target "secret" "body" refl refl refl
