-- ===== src/Chats/Stored.antt =====
-- packages/server/src/domain/message-service.ts: what a send that is accepted leaves behind.
use whaloc.Base.{
  String, List, [], ◌∷◌, ◌++◌, none, some, ◌⊎◌, inl, inr, ℕ, ◌+◌, ◌≡◌, refl, ap, subst, ◌==◌,
  if◌then◌else◌, Option-cases, inr_injective, get, get-put_same, eq_refl, last,
}
use whaloc.Shared.Entities.{StatusDelays}
use whaloc.Failure.{Failure}
use whaloc.MessageTable.{find_row, insert_row, new_row}
use whaloc.StatusLadder.{WebhookStatus, on_outbound_accepted, schedule, cancel}
use whaloc.Contacts.{find_contact, new_contact}
use whaloc.Chats.{Chats}
use whaloc.Chats.Requests.{SendMessageRequest}
use whaloc.Chats.Sends.{
  Checked, SendMessageResult, check_send, after_check, send, store, message_input,
}
use whaloc.Chats.Sending.{find-ensure_contact, plain_input}
use whaloc.Chats.Accepted.{Checks, check_send-Checks}

last-append {ℓ} : {A : Type ℓ} (xs : List A) (x : A) → last (xs ++ x ∷ []) ≡ some x
last-append [] x = refl
last-append (y ∷ []) x = refl
last-append (y ∷ z ∷ xs) x = last-append (z ∷ xs) x

abbrev checked_of : SendMessageResult → Checked
checked_of result = record {
  input = result.input;
  wa_id = result.wa_id;
  snapshot = result.message.template_snapshot;
}

-- what a send that is accepted has checked and left behind
pub record Accepted (delays : StatusDelays) (iso : ℕ → String) (now : ℕ) (p : String)
    (request : SendMessageRequest) (c c' : Chats) (result : SendMessageResult) : Type 0 where
  pub checks : Checks p request c (checked_of result)
  pub new : find_row result.message.id c.ladder.messages ≡ none
  pub appended : c'.ladder.messages ≡ c.ladder.messages ++ result.message ∷ []
  pub addressed : result.message.contact_wa_id ≡ result.wa_id
  pub contacts :
      (k : String)
      → find_contact k c'.contacts ≡ (elim (find_contact k c.contacts) [
        | some e ↦ some e
        | none ↦
            if result.wa_id == k
            then some (new_contact (iso now) (plain_input result.wa_id))
            else none
      ])
  pub pending : get result.message.id c'.ladder.pending ≡ some c.ladder.next_handle
  pub timer :
      last c'.ladder.timers
      ≡ some (record {
        handle = c.ladder.next_handle;
        message_id = result.message.id;
        status = WebhookStatus.sent;
        due = now + delays.sent;
      })

store-Accepted :
    (delays : StatusDelays) (iso : ℕ → String) (wamid : String → String) (now : ℕ) (p : String)
    (request : SendMessageRequest) (checked : Checked) (c c' : Chats) (result : SendMessageResult)
    → Checks p request c checked
    → store delays iso wamid now p request checked c ≡ (c', inr result)
    → Accepted delays iso now p request c c' result
unfolding store insert_row new_row on_outbound_accepted schedule cancel
store-Accepted delays iso wamid now p request checked c c' result checks h =
    let id = wamid checked.wa_id in
    elim (Option-cases (find_row id c.ladder.messages)) [
      | inr (m, taken) ↦ absurd (cc (rw (store, taken) at h))
      | inl free ↦
          let out = rw (store, free) at h in
          let row = new_row (iso now) (message_input id p request checked) in
          let made : SendMessageResult = record {
            input = checked.input;
            wa_id = checked.wa_id;
            message = row;
          } in
          subst (λ r. Accepted delays iso now p request c c' r) (inr_injective (ap (λ x. x.1) out))
            (subst (λ d. Accepted delays iso now p request c d made) (ap (λ x. x.0) out)
              (record {
                checks = checks;
                new = free;
                appended = refl;
                addressed = refl;
                contacts = λ k. find-ensure_contact (iso now) checked.wa_id k c.contacts;
                pending = get-put_same id id c.ladder.next_handle _ (eq_refl id);
                timer = last-append (cancel id c.ladder).timers _;
              }))
    ]

-- A send that is accepted has passed every check: the phone number is known and connected, the
-- recipient resolved to the number of the result, and where a template is sent, the one of that
-- name and language of the account was found, is approved, takes the parameters of the send and is
-- frozen on the message. The message, whose id no message had, is appended to the table under that
-- number; the contact with that number is there, made from the number alone if there was none, and
-- every other contact is as it was; and the timer that is pending for the message is a new one,
-- which climbs to sent after the delay.
pub send-Accepted :
    (delays : StatusDelays) (iso : ℕ → String) (wamid : String → String) (now : ℕ) (p : String)
    (request : SendMessageRequest) (c c' : Chats) (result : SendMessageResult)
    → send delays iso wamid now p request c ≡ (c', inr result)
    → Accepted delays iso now p request c c' result
unfolding send
send-Accepted delays iso wamid now p request c c' result h = go (check_send p request c) refl h
  where
    go :
        (o : Failure ⊎ Checked)
        → check_send p request c ≡ o
        → after_check delays iso wamid now p request c o ≡ (c', inr result)
        → Accepted delays iso now p request c c' result
    go (inl e) same h = cc
    go (inr checked) same h =
        store-Accepted delays iso wamid now p request checked c c' result
          (check_send-Checks p request c checked same) h
