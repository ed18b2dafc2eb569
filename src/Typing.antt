-- ===== src/Typing.antt =====
-- packages/server/src/domain/typing-service.ts: typing indicators, one per conversation, each with
-- the scheduled task that dismisses it. Times are the scheduler's clock in milliseconds.
pub mod Dismissals
pub mod Steps
pub mod Frames
mod Tests
use whaloc.Base.{
  String, List, [], ◌∷◌, ◌++◌, Bool, true, not, ◌&&◌, Option, none, some, ℕ, ◌+◌, if◌then◌else◌,
  leb, eqb, find, filter, length, Assoc, get, put, delete, ◌==◌,
}
use whaloc.Shared.Entities.{TypingIndicator, Message}
use whaloc.Shared.Conversation.{conversation_id}

-- `ActiveIndicator`: the dismissal is the handle of its task
pub record Indicator : Type 0 where
  pub phone_number_id : String
  pub contact_wa_id : String
  pub expires_at : ℕ
  pub dismissal : ℕ

-- a scheduled dismissal, which clears the indicator of its conversation
pub record Task : Type 0 where
  pub handle : ℕ
  pub phone_number_id : String
  pub contact_wa_id : String
  pub due : ℕ

pub record Service : Type 0 where
  pub active : Assoc Indicator
  pub tasks : List Task
  pub next_handle : ℕ

-- a service after an operation, with what it announced
pub record Outcome : Type 0 where
  pub service : Service
  pub announced : List TypingIndicator

abbrev pub task_is : ℕ → Task → Bool
task_is h t = eqb t.handle h

unfoldable pub stop_task : ℕ → List Task → List Task
stop_task h tasks = filter (λ t. not (task_is h t)) tasks

abbrev pub drop_found : String → Option Indicator → Service → Service × Option Indicator
drop_found key none s = (s, none)
drop_found key (some i) s =
    (record s { tasks = stop_task i.dismissal s.tasks; active = delete key s.active }, some i)

unfoldable pub drop : String → Service → Service × Option Indicator
drop key s = drop_found key (get key s.active) s

-- `iso` prints a time the way `toISOString` does.
module _ (iso : ℕ → String) where
  abbrev pub shown : Indicator → TypingIndicator
  shown i = record {
    phone_number_id = i.phone_number_id;
    contact_wa_id = i.contact_wa_id;
    expires_at = some (iso i.expires_at);
  }

  -- `now + ttl` is when the indicator expires; the outcome, and the indicator that is returned
  unfoldable pub start : ℕ → ℕ → String → String → Service → Outcome × TypingIndicator
  unfolding drop
  start ttl now phone_number_id contact_wa_id s =
      let key = conversation_id phone_number_id contact_wa_id in
      let dropped = (drop key s).0 in
      let indicator : Indicator = record {
        phone_number_id = phone_number_id;
        contact_wa_id = contact_wa_id;
        expires_at = now + ttl;
        dismissal = dropped.next_handle;
      } in
      let task : Task = record {
        handle = dropped.next_handle;
        phone_number_id = phone_number_id;
        contact_wa_id = contact_wa_id;
        due = now + ttl;
      } in
      (
        record {
          service = record {
            active = put key indicator dropped.active;
            tasks = dropped.tasks ++ task ∷ [];
            next_handle = dropped.next_handle + 1;
          };
          announced = shown indicator ∷ [];
        },
        shown indicator,
      )

  -- nothing is announced when there was no indicator
  abbrev pub cleared : String → String → Service × Option Indicator → Outcome
  cleared phone_number_id contact_wa_id (s, none) = record { service = s; announced = [] }
  cleared phone_number_id contact_wa_id (s, some i) = record {
    service = s;
    announced =
        record {
          phone_number_id = phone_number_id;
          contact_wa_id = contact_wa_id;
          expires_at = none;
        }
        ∷ [];
  }

  unfoldable pub clear : String → String → Service → Outcome
  unfolding drop
  clear phone_number_id contact_wa_id s =
      cleared phone_number_id contact_wa_id (drop (conversation_id phone_number_id contact_wa_id) s)

  abbrev pub dismissed : Option Task → Service → Outcome
  dismissed none s = record { service = s; announced = [] }
  dismissed (some t) s =
      clear t.phone_number_id t.contact_wa_id (record s { tasks = stop_task t.handle s.tasks })

  -- The task with a handle runs, if it is still scheduled.
  unfoldable pub dismiss : ℕ → Service → Outcome
  unfolding stop_task
  dismiss h s = dismissed (find (task_is h) s.tasks) s

  unfoldable pub on_outbound_accepted : Message → Service → Outcome
  unfolding clear
  on_outbound_accepted message s = clear message.phone_number_id message.contact_wa_id s

stop_all : Assoc Indicator → List Task → List Task
unfolding stop_task
stop_all [] tasks = tasks
stop_all ((key, i) ∷ active) tasks = stop_all active (stop_task i.dismissal tasks)

unfoldable pub clear_all : Service → Service
unfolding stop_all
clear_all s = record s { tasks = stop_all s.active s.tasks; active = [] }

wanted : Option String → Indicator → Bool
wanted none i = true
wanted (some phone_number_id) i = i.phone_number_id == phone_number_id

live : (ℕ → String) → ℕ → Option String → Assoc Indicator → List TypingIndicator
unfolding wanted
live iso now phone_number_id [] = []
live iso now phone_number_id ((key, i) ∷ active) =
    let rest = live iso now phone_number_id active in
    if not (leb i.expires_at now) && wanted phone_number_id i then shown iso i ∷ rest else rest

-- the indicators of a number, or all, that have not expired
unfoldable pub list : (ℕ → String) → ℕ → Option String → Service → List TypingIndicator
unfolding live
list iso now phone_number_id s = live iso now phone_number_id s.active

abbrev pub active_count : Service → ℕ
active_count s = length s.active

-- What happens: an indicator is raised, cleared or dismissed, or the business sends a message.
pub data Step (iso : ℕ → String) (ttl : ℕ) (s : Service) : Outcome → Type 0 where
  started :
      (now : ℕ) (phone_number_id contact_wa_id : String)
      → Step iso ttl s (start iso ttl now phone_number_id contact_wa_id s).0
  taken_down :
      (phone_number_id contact_wa_id : String)
      → Step iso ttl s (clear iso phone_number_id contact_wa_id s)
  timed_out : (h : ℕ) → Step iso ttl s (dismiss iso h s)
  message_sent : (message : Message) → Step iso ttl s (on_outbound_accepted iso message s)
