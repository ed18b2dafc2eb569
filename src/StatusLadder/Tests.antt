-- ===== src/StatusLadder/Tests.antt =====
-- One outbound message on the status ladder.
use mathlib.Core.Option
use whaloc.Base.{String, [], ◌∷◌, none, some, false, ℕ, ◌≡◌, ◌<◌, ◌⊎◌, refl, arith, All, get, ◌==◌}
use whaloc.Shared.Common.{Json, MessageDirection, MessageStatus, MessageType}
use whaloc.Shared.Entities.{Message, StatusDelays}
use whaloc.MessageTable.{MessageInput, insert_row, find_row}
use whaloc.StatusLadder.{
  Ladder, Step, Reach, ManualStatus, WebhookStatus, status_order, fire, mark_status,
  on_outbound_accepted,
}
use whaloc.StatusLadder.Timers.{IsPaired, Reach-IsPaired}
use whaloc.StatusLadder.Forward.{Later, Later-Forward}
use whaloc.StatusLadder.Marking.{marked_row, mark_status-result}
use whaloc.StatusLadder.Climbing.{delivered_at, risen, climbs_to_delivered}

abbrev delays : StatusDelays
delays = record { sent = 10; delivered = 20; read = some 30 }

abbrev iso : ℕ → String
iso now = "2026-01-01T00:00:00.000Z"

abbrev hello : MessageInput
hello = record {
  id = "wamid.1";
  direction = MessageDirection.outbound;
  phone_number_id = "100";
  contact_wa_id = "200";
  kind = MessageType.text;
  payload = Json.null;
  status = none;
  reply_to = none;
  biz_opaque_callback_data = none;
  template_snapshot = none;
  timestamp = none;
  created_at = none;
}

abbrev stored : Message
stored = record {
  id = "wamid.1";
  direction = MessageDirection.outbound;
  phone_number_id = "100";
  contact_wa_id = "200";
  kind = MessageType.text;
  payload = Json.null;
  status = MessageStatus.accepted;
  error = none;
  biz_opaque_callback_data = none;
  template_snapshot = none;
  reply_to = none;
  timestamp = "2026-01-01T00:00:00.000Z";
  created_at = "2026-01-01T00:00:00.000Z";
  updated_at = "2026-01-01T00:00:00.000Z";
}

abbrev empty : Ladder
empty = record { messages = []; pending = []; timers = []; next_handle = 0; effects = [] }

abbrev with_message : Ladder
with_message = record empty { messages = stored ∷ [] }

abbrev after_send : Ladder
after_send =
    on_outbound_accepted delays iso 0 (insert_row (iso 0) hello []).1
      (record empty { messages = (insert_row (iso 0) hello []).0 })

Reach-IsPaired_example : IsPaired (fire delays iso 10 0 after_send)
Reach-IsPaired_example =
    Reach-IsPaired delays iso (
      Reach.after (Reach.after (Reach.start []) (Step.accepted 0 hello refl refl))
        (Step.fired 10 0))

Later-Forward_example :
    (m' : Message) × (find_row "wamid.1"
        (mark_status delays iso 5 "wamid.1" ManualStatus.read none with_message).0.messages
      ≡ some m')
    × ((m' ≡ stored) ⊎ (status_order stored.status < status_order m'.status))
Later-Forward_example =
    Later-Forward delays iso
      (Later.after Later.now (Step.marked 5 "wamid.1" ManualStatus.read none)) "wamid.1" stored refl

mark_status-result_example :
    ((mark_status delays iso 5 "wamid.1" ManualStatus.failed none with_message).1
      ≡ marked_row delays iso 5 ManualStatus.failed none stored)
    × All
        (λ t. (t.message_id == "wamid.1") ≡ false)
        (mark_status delays iso 5 "wamid.1" ManualStatus.failed none with_message).0.timers
mark_status-result_example =
    mark_status-result delays iso 5 "wamid.1" ManualStatus.failed none with_message stored
      (refl, tt, omega arith) refl

climbs_to_delivered_example :
    (find_row "wamid.1"
        (delivered_at delays iso 0 10 30 stored with_message
          (refl, tt, omega arith)
          refl
          refl).messages
      ≡ some (
          risen delays iso 30 WebhookStatus.delivered
            (risen delays iso 10 WebhookStatus.sent stored)))
    × (get "wamid.1"
          (delivered_at delays iso 0 10 30 stored with_message
            (refl, tt, omega arith)
            refl
            refl).pending
        ≡ Option.map (λ d. 2) delays.read)
climbs_to_delivered_example =
    climbs_to_delivered delays iso 0 10 30 stored with_message (refl, tt, omega arith) refl refl
