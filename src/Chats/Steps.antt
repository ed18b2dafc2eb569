-- ===== src/Chats/Steps.antt =====
-- packages/server/src/domain/contact-service.ts, message-service.ts and status-ladder.ts on the same
-- tables: calls and timers in any order.
use whaloc.Base.{String, Option, inr, ℕ, ◌≡◌}
use whaloc.Shared.Entities.{Contact, StatusDelays}
use whaloc.StatusLadder.{ManualStatus, fire, mark_status}
use whaloc.StatusLadder.ErrorPresets.{MessageErrorCode}
use whaloc.StatusLadder.Writes.{fire-Writes, mark_status-Writes}
use whaloc.Chats.{
  Chats, ContactCreateRequest, ContactUpdateRequest, NumberChange, create, update, change_number,
}
use whaloc.Chats.Requests.{SendMessageRequest}
use whaloc.Chats.Sends.{send}
use whaloc.Chats.Moves.{change_number-Moves}
use whaloc.Chats.Links.{Moves-IsLinked}
use whaloc.Chats.Calls.{IsLinkedIn, create-IsLinked, update-IsLinked, Writes-IsLinked}
use whaloc.Chats.Sending.{send-IsLinked}

module _ (delays : StatusDelays) (iso : ℕ → String) where
  -- A call that throws before it writes changes nothing and is no step.
  pub data Step (c : Chats) : Chats → Type 0 where
    created :
        (now : String) (request : ContactCreateRequest) (c' : Chats) (contact : Contact)
        → create now request c ≡ inr (c', contact)
        → Step c c'
    updated :
        (now wa_id : String) (request : ContactUpdateRequest) (c' : Chats)
        (contact : Option Contact)
        → update now wa_id request c ≡ inr (c', contact)
        → Step c c'
    number_changed :
        (wamid : ℕ → String → String) (now : ℕ) (wa_id : String) (request : NumberChange)
        (c' : Chats) (moved : Contact)
        → change_number iso wamid now wa_id request c ≡ inr (c', moved)
        → Step c c'
    sent :
        (wamid : String → String) (now : ℕ) (phone_number_id : String)
        (request : SendMessageRequest)
        → Step c (send delays iso wamid now phone_number_id request c).0
    timer_fired : (now h : ℕ) → Step c (record c { ladder = fire delays iso now h c.ladder })
    marked :
        (now : ℕ) (id : String) (status : ManualStatus) (code : Option MessageErrorCode)
        → Step c (record c { ladder = (mark_status delays iso now id status code c.ladder).0 })

  pub data Reach (c : Chats) : Chats → Type 0 where
    here : Reach c c
    after : {d e : Chats} → Reach c d → Step d e → Reach c e

  step-IsLinked : {c d : Chats} → Step c d → IsLinkedIn c → IsLinkedIn d
  step-IsLinked (Step.created now request c' contact e) linked =
      create-IsLinked now request _ c' contact e linked
  step-IsLinked (Step.updated now wa_id request c' contact e) linked =
      update-IsLinked now wa_id request _ c' contact e linked
  step-IsLinked (Step.number_changed wamid now wa_id request c' moved e) linked =
      Moves-IsLinked (change_number-Moves iso wamid now wa_id request _ c' moved e) linked
  step-IsLinked {c} (Step.sent wamid now p request) linked =
      send-IsLinked delays iso wamid now p request c linked
  step-IsLinked {c} (Step.timer_fired now h) linked =
      Writes-IsLinked c.contacts c.ladder.messages _ (fire-Writes delays iso now h c.ladder) linked
  step-IsLinked {c} (Step.marked now id status code) linked =
      Writes-IsLinked c.contacts c.ladder.messages _
        (mark_status-Writes delays iso now id status code c.ladder) linked

-- From tables in which no two contacts have one number or one user id, no two messages have one
-- id, and every message has its contact, any calls that create, update and move contacts or send
-- messages, with timers going off and statuses set by hand between them, lead to such tables
-- again, whether a send is accepted or refused.
pub Reach-IsLinkedIn :
    (delays : StatusDelays) (iso : ℕ → String) (c d : Chats)
    → IsLinkedIn c
    → Reach delays iso c d
    → IsLinkedIn d
Reach-IsLinkedIn delays iso c d linked Reach.here = linked
Reach-IsLinkedIn delays iso c d linked (Reach.after reach step) =
    step-IsLinked delays iso step (Reach-IsLinkedIn delays iso c _ linked reach)
