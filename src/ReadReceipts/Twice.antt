-- ===== src/ReadReceipts/Twice.antt =====
-- packages/server/src/domain/read-receipt-service.ts: a message that is read, and read again.
use whaloc.Base.{
  String, ℕ, List, [], true, false, none, some, ◌⊎◌, inl, inr, ◌≡◌, refl, sym, ap, ◌∙◌, subst, ◌==◌,
  Bool-cases, Option-cases, key-find_by, require, or_raise, >>=-returns, require-returns,
  or_raise-returns, eq_refl,
}
use mathlib.Core.Option
use whaloc.Shared.Entities.{Message}
use whaloc.GraphError.{GraphApiError}
use whaloc.Database.PhoneNumbers.{PhoneNumberRecord, find_by_id}
use whaloc.MessageTable.{row_id, find_row, update_status, with_status}
use whaloc.MessageTable.Rows.{find_row-update_status, row-update_status}
use whaloc.ReadReceipts.{
  MarkReadRequest, Desk, MarkReadResult, Effect, mark_read, mark_row, resolve_inbound, read_input,
  is_read, is_inbound, is_connected,
}

-- what the marking of one row comes to
record Marked (id : String) (before : Message) (table : List Message)
    (after : List Message × List Effect × Message) : Type 0 where
  pub stored : find_row id after.0 ≡ some after.2
  pub read : is_read after.2.status ≡ true
  pub direction : after.2.direction ≡ before.direction
  pub number : after.2.phone_number_id ≡ before.phone_number_id
  pub others : (j : String) → (id == j) ≡ false → find_row j after.0 ≡ find_row j table

other_row :
    (time id j : String) (table : List Message)
    → (id == j) ≡ false
    → find_row j (update_status time id (read_input time) table).0 ≡ find_row j table
other_row time id j table other = elim (Option-cases (find_row j table)) [
  | inl absent ↦ rw (find_row-update_status time id j (read_input time) table, absent) refl
  | inr (m, found) ↦
      rw (find_row-update_status time id j (read_input time) table, found, other) refl
]

mark_row-Marked :
    (time id : String) (before : Message) (table : List Message)
    → find_row id table ≡ some before
    → Marked id before table (mark_row time before table)
unfolding mark_row
mark_row-Marked time id before table found = elim (Bool-cases (is_read before.status)) [
  | inl read ↦
      rw (mark_row, read)
        (record {
          stored = found;
          read = read;
          direction = refl;
          number = refl;
          others = λ j other. refl;
        })
  | inr new ↦
      let at_id : before.id ≡ id = key-find_by row_id id table before found in
      let found_own : find_row before.id table ≡ some before =
        ap (λ k. find_row k table) at_id ∙ found in
      let row : (update_status time before.id (read_input time) table).1
          ≡ some (with_status time (read_input time) before) =
        row-update_status time before.id (read_input time) table
        ∙ ap (Option.map (with_status time (read_input time))) found_own in
      let there : find_row before.id (update_status time before.id (read_input time) table).0
          ≡ some (with_status time (read_input time) before) =
        rw
          (
            find_row-update_status time before.id before.id (read_input time) table,
            found_own,
            eq_refl before.id,
          )
          refl in
      rw (mark_row, new, row)
        (record {
          stored =
              ap (λ k. find_row k (update_status time before.id (read_input time) table).0)
                (sym at_id)
              ∙ there;
          read = refl;
          direction = refl;
          number = refl;
          others = λ j other. other_row time before.id j table (ap (λ k. k == j) at_id ∙ other);
        })
]

-- a message that may be read resolves
resolve_inbound_lem :
    (phone_number_id id : String) (table : List Message) (m : Message)
    → find_row id table ≡ some m
    → (m.phone_number_id == phone_number_id) ≡ true
    → is_inbound m.direction ≡ true
    → resolve_inbound phone_number_id id table ≡ inr m
unfolding resolve_inbound
resolve_inbound_lem phone_number_id id table m found mine inbound = rw (found, mine, inbound) refl

resolve_inbound-returns :
    (phone_number_id id : String) (table : List Message) (m : Message)
    → resolve_inbound phone_number_id id table ≡ inr m
    → (find_row id table ≡ some m)
      × ((m.phone_number_id == phone_number_id) ≡ true)
      × (is_inbound m.direction ≡ true)
unfolding resolve_inbound
resolve_inbound-returns phone_number_id id table m e =
    let (row, found, e1) = >>=-returns (or_raise (find_row id table) _) _ e in
    let (_, mine, e2) = >>=-returns (require (row.phone_number_id == phone_number_id) _) _ e1 in
    let (_, inbound, e3) = >>=-returns (require (is_inbound row.direction) _) _ e2 in
    let same : row ≡ m = ap (message_of row) e3 in
    (
      or_raise-returns _ _ found ∙ ap some same,
      ap (λ k. k.phone_number_id == phone_number_id) (sym same) ∙ require-returns _ _ mine,
      ap (λ k. is_inbound k.direction) (sym same) ∙ require-returns _ _ inbound,
    )
  where
    message_of : Message → GraphApiError ⊎ Message → Message
    message_of row (inl error) = row
    message_of row (inr k) = k

-- reading what is read
read_again :
    (iso : ℕ → String) (ttl later : ℕ) (phone_number_id : String) (request : MarkReadRequest)
    (number : PhoneNumberRecord) (desk : Desk) (m : Message)
    → find_by_id phone_number_id desk.phone_numbers ≡ some number
    → is_connected number.status ≡ true
    → find_row request.message_id desk.messages ≡ some m
    → (m.phone_number_id == phone_number_id) ≡ true
    → is_inbound m.direction ≡ true
    → is_read m.status ≡ true
    → mark_read iso ttl later phone_number_id (record request { typing_indicator = false }) desk
      ≡ inr (record { desk = desk; effects = []; message = m; indicator = none })
unfolding mark_read mark_row
read_again iso ttl later phone_number_id request number desk m found connected known mine inbound
      read =
    rw
      (
        found,
        connected,
        resolve_inbound_lem phone_number_id request.message_id desk.messages m known mine inbound,
        mark_row,
        read,
      )
      refl

abbrev returned : MarkReadResult → GraphApiError ⊎ MarkReadResult
returned a = inr a

done_of : {a b : MarkReadResult} → returned a ≡ returned b → a ≡ b
done_of {a} e = ap (result_of a) e
  where
    result_of : MarkReadResult → GraphApiError ⊎ MarkReadResult → MarkReadResult
    result_of a (inl error) = a
    result_of a (inr k) = k

-- what a read receipt that returns comes to
pub record IsRead (iso : ℕ → String) (ttl : ℕ) (phone_number_id : String)
    (request : MarkReadRequest) (desk : Desk) (done : MarkReadResult) : Type 0 where
  pub before : Message
  pub known : find_row request.message_id desk.messages ≡ some before
  pub mine : (before.phone_number_id == phone_number_id) ≡ true
  pub inbound : is_inbound before.direction ≡ true
  pub stored : find_row request.message_id done.desk.messages ≡ some done.message
  pub read : is_read done.message.status ≡ true
  pub others :
      (j : String)
      → (request.message_id == j) ≡ false
      → find_row j done.desk.messages ≡ find_row j desk.messages
  pub again :
      (later : ℕ)
      → mark_read iso ttl later phone_number_id
          (record request { typing_indicator = false })
          done.desk
        ≡ inr (record { desk = done.desk; effects = []; message = done.message; indicator = none })

-- A read receipt that returns is about a received message of that phone number; the message is read
-- and stored, no other message changes, and the same receipt later, without an indicator, returns
-- the message as it is, changes nothing and announces nothing.
pub mark_read-IsRead :
    (iso : ℕ → String) (ttl now : ℕ) (phone_number_id : String) (request : MarkReadRequest)
    (desk : Desk) (done : MarkReadResult)
    → mark_read iso ttl now phone_number_id request desk ≡ inr done
    → IsRead iso ttl phone_number_id request desk done
unfolding mark_read
mark_read-IsRead iso ttl now phone_number_id request desk done e =
    let (number, found_number, e1) =
      >>=-returns (or_raise (find_by_id phone_number_id desk.phone_numbers) _) _ e in
    let (_, connected, e2) = >>=-returns (require (is_connected number.status) _) _ e1 in
    let (row, resolved, e3) =
      >>=-returns (resolve_inbound phone_number_id request.message_id desk.messages) _ e2 in
    let (known, mine, inbound) =
      resolve_inbound-returns phone_number_id request.message_id desk.messages row resolved in
    let marked = mark_row-Marked (iso now) request.message_id row desk.messages known in
    subst (IsRead iso ttl phone_number_id request desk) (done_of e3) (record {
      before = row;
      known = known;
      mine = mine;
      inbound = inbound;
      stored = marked.stored;
      read = marked.read;
      others = marked.others;
      again = λ later.
          read_again iso ttl later phone_number_id request number _ _
            (or_raise-returns _ _ found_number) (require-returns _ _ connected) marked.stored
            (ap (λ k. k == phone_number_id) marked.number ∙ mine)
            (ap is_inbound marked.direction ∙ inbound) marked.read;
    })
