-- ===== src/StatusLadder.antt =====
-- packages/server/src/domain/status-ladder.ts: outbound messages climb their statuses on timers.
-- The timers of domain/scheduler.ts are in the state: `schedule` gives each a handle.
pub mod ErrorPresets
pub mod Handles
pub mod Timers
pub mod Forward
pub mod Marking
pub mod Climbing
pub mod Writes
mod Tests
use whaloc.Base.{
  String, List, [], ◌∷◌, ◌++◌, Bool, true, false, not, ◌&&◌, Option, none, some, ℕ, ◌+◌, ◌≡◌,
  if◌then◌else◌, ltb, eqb, find, filter, Assoc, get, put, delete, length,
}
use whaloc.Shared.Common.{MessageStatus, Json}
use whaloc.Shared.Entities.{Message, StatusDelays}
use whaloc.MessageTable.{MessageInput, StatusInput, insert_row, find_row, update_status}
use ErrorPresets.{MessageErrorCode, message_error_preset, message_error_node}

pub data WebhookStatus : Type 0 where
  sent delivered read failed : WebhookStatus

pub data ManualStatus : Type 0 where
  delivered read failed : ManualStatus

unfoldable pub as_status : WebhookStatus → MessageStatus
as_status WebhookStatus.sent = MessageStatus.sent
as_status WebhookStatus.delivered = MessageStatus.delivered
as_status WebhookStatus.read = MessageStatus.read
as_status WebhookStatus.failed = MessageStatus.failed

abbrev pub manual : ManualStatus → WebhookStatus
manual ManualStatus.delivered = WebhookStatus.delivered
manual ManualStatus.read = WebhookStatus.read
manual ManualStatus.failed = WebhookStatus.failed

-- `STATUS_ORDER`
unfoldable pub status_order : MessageStatus → ℕ
status_order MessageStatus.accepted = 0
status_order MessageStatus.sent = 1
status_order MessageStatus.delivered = 2
status_order MessageStatus.read = 3
status_order MessageStatus.failed = 4

abbrev pub is_failed : MessageStatus → Bool
is_failed MessageStatus.failed = true
is_failed _ = false

unfoldable pub can_transition : MessageStatus → WebhookStatus → Bool
unfolding status_order as_status
can_transition current next =
    not (is_failed current) && ltb (status_order current) (status_order (as_status next))

-- A live timer: the message and the status it climbs to, and the time it is due at.
pub record Timer : Type 0 where
  pub handle : ℕ
  pub message_id : String
  pub status : WebhookStatus
  pub due : ℕ

-- What leaves the ladder: events to the control plane, and the webhook job of a transition.
pub data Effect : Type 0 where
  created : Message → Effect
  status_changed : Message → MessageStatus → Effect
  webhook : Message → WebhookStatus → Option Json → Effect

pub record Ladder : Type 0 where
  pub messages : List Message
  pub pending : Assoc ℕ
  pub timers : List Timer
  pub next_handle : ℕ
  pub effects : List Effect

abbrev pub has_handle : ℕ → Timer → Bool
has_handle h t = eqb t.handle h

-- `task.cancel()` on what `#pending` has, which may be nothing
unfoldable pub stop_timer : Option ℕ → List Timer → List Timer
stop_timer none timers = timers
stop_timer (some h) timers = filter (λ t. not (has_handle h t)) timers

unfoldable pub cancel : String → Ladder → Ladder
unfolding stop_timer
cancel id l = record l {
  timers = stop_timer (get id l.pending) l.timers;
  pending = delete id l.pending;
}

stop_all : Assoc ℕ → List Timer → List Timer
stop_all [] timers = timers
stop_all ((id, h) ∷ pending) timers = stop_all pending (stop_timer (some h) timers)

unfoldable pub cancel_all : Ladder → Ladder
unfolding stop_all
cancel_all l = record l { timers = stop_all l.pending l.timers; pending = [] }

abbrev pub pending_count : Ladder → ℕ
pending_count l = length l.pending

-- `now` is the scheduler's clock in milliseconds.
unfoldable pub schedule : ℕ → String → WebhookStatus → ℕ → Ladder → Ladder
unfolding cancel
schedule now id status delay l =
    let stopped = cancel id l in
    let timer : Timer = record {
      handle = stopped.next_handle;
      message_id = id;
      status = status;
      due = now + delay;
    } in
    record stopped {
      timers = stopped.timers ++ timer ∷ [];
      pending = put id stopped.next_handle stopped.pending;
      next_handle = stopped.next_handle + 1;
    }

-- the error node of a manual transition
abbrev pub error_of : ManualStatus → Option MessageErrorCode → Option Json
error_of ManualStatus.failed code = some (message_error_node (message_error_preset code))
error_of _ code = none

-- `iso` prints a time the way `toISOString` does.
module _ (delays : StatusDelays) (iso : ℕ → String) where
  pub announce : Message → WebhookStatus → Option Json → Option Message → Ladder → Ladder
  announce before status error none l = l
  announce before status error (some updated) l = record l {
    effects =
        l.effects
        ++ Effect.status_changed updated before.status ∷ Effect.webhook updated status error ∷ [];
  }

  abbrev pub status_input : ℕ → WebhookStatus → Option Json → StatusInput
  status_input now status error = record {
    status = as_status status;
    error = elim error [ none ↦ none | some node ↦ some (some node) ];
    updated_at = some (iso now);
  }

  unfoldable pub transition :
      ℕ → Message → WebhookStatus → Option Json → Ladder → Ladder × Option Message
  unfolding announce
  transition now message status error l =
      let (table, updated) =
        update_status (iso now) message.id (status_input now status error) l.messages in
      (announce message status error updated (record l { messages = table }), updated)

  -- what `#climb` queues after a rung
  unfoldable pub next_rung : ℕ → String → WebhookStatus → Ladder → Ladder
  next_rung now id WebhookStatus.sent l = schedule now id WebhookStatus.delivered delays.delivered l
  next_rung now id WebhookStatus.delivered l = elim delays.read [
    | none ↦ l
    | some delay ↦ schedule now id WebhookStatus.read delay l
  ]
  next_rung now id status l = l

  abbrev climb_from : ℕ → String → WebhookStatus → Option Message → Ladder → Ladder
  climb_from now id status none l = l
  climb_from now id status (some message) l =
      if can_transition message.status status
      then next_rung now id status (transition now message status none l).0
      else l

  unfoldable pub climb : ℕ → String → WebhookStatus → Ladder → Ladder
  unfolding can_transition transition next_rung
  climb now id status l = climb_from now id status (find_row id l.messages) l

  fire_timer : ℕ → Option Timer → Ladder → Ladder
  fire_timer now none l = l
  fire_timer now (some t) l = climb now t.message_id t.status (record l {
    timers = stop_timer (some t.handle) l.timers;
    pending = delete t.message_id l.pending;
  })

  -- The timer with a handle goes off, if it is still there.
  unfoldable pub fire : ℕ → ℕ → Ladder → Ladder
  unfolding fire_timer
  fire now h l = fire_timer now (find (has_handle h) l.timers) l

  unfoldable pub on_outbound_accepted : ℕ → Message → Ladder → Ladder
  on_outbound_accepted now message l =
      schedule now message.id WebhookStatus.sent delays.sent
        (record l { effects = l.effects ++ Effect.created message ∷ [] })

  pub mark_row :
      ℕ → ManualStatus → Option MessageErrorCode → Option Message → Ladder → Ladder × Option Message
  unfolding can_transition transition
  mark_row now status code none l = (l, none)
  mark_row now status code (some message) l =
      let stopped = cancel message.id l in
      if can_transition message.status (manual status)
      then transition now message (manual status) (error_of status code) stopped
      else (stopped, none)

  unfoldable pub mark_status :
      ℕ → String → ManualStatus → Option MessageErrorCode → Ladder → Ladder × Option Message
  unfolding mark_row
  mark_status now id status code l = mark_row now status code (find_row id l.messages) l

  -- What happens: a send is stored under a free id and announced; a timer goes off; a status is
  -- set by hand; a message's timer, or all, are dropped.
  pub data Step (l : Ladder) : Ladder → Type 0 where
    accepted :
        (now : ℕ) (input : MessageInput)
        → find_row input.id l.messages ≡ none
        → input.status ≡ none
        → Step l (
            on_outbound_accepted now
              (insert_row (iso now) input l.messages).1
              (record l { messages = (insert_row (iso now) input l.messages).0 }))
    fired : (now h : ℕ) → Step l (fire now h l)
    marked :
        (now : ℕ) (id : String) (status : ManualStatus) (code : Option MessageErrorCode)
        → Step l (mark_status now id status code l).0
    cancelled : (id : String) → Step l (cancel id l)
    all_cancelled : Step l (cancel_all l)

  pub data Reach : Ladder → Type 0 where
    start :
        (messages : List Message)
        → Reach (record {
          messages = messages;
          pending = [];
          timers = [];
          next_handle = 0;
          effects = [];
        })
    after : {l l' : Ladder} → Reach l → Step l l' → Reach l'
