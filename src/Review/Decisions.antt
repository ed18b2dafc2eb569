-- ===== src/Review/Decisions.antt =====
-- packages/server/src/domain/template-lifecycle.ts: decisions of a reviewer, and the timers.
use whaloc.Base.{
  String, ℕ, List, [], ◌∷◌, ◌++◌, Bool, true, false, Option, none, some, inl, inr, ◌≡◌, refl, sym,
  ap, ◌∙◌, ◌==◌, Bool-cases, Option-cases, find, get, delete, get-delete_same, eq_refl, eq→path,
  get_or,
}
use whaloc.Shared.Common.{TemplateStatus}
use whaloc.Shared.Entities.{Template}
use whaloc.Templates.Table.{find_template, update_template, patched_template}
use whaloc.Templates.Edits.{others_kept, written}
use whaloc.Review.{
  Review, RejectTemplateRequest, decided, cancel, moderate, approve, reject, pause, disable,
  auto_approve, fire, go_off, has_handle, stop_timer, is_pending, announce,
}
use whaloc.Review.Events.{Details, TemplateEvent, plain, announced}

pub data Decision : Type 0 where
  approving pausing disabling : Decision
  rejecting : RejectTemplateRequest → Decision

abbrev pub status_of : Decision → TemplateStatus
status_of approving = TemplateStatus.approved
status_of (rejecting request) = TemplateStatus.rejected
status_of pausing = TemplateStatus.paused
status_of disabling = TemplateStatus.disabled

abbrev pub event_of : Decision → TemplateEvent
event_of approving = TemplateEvent.approved
event_of (rejecting request) = TemplateEvent.rejected
event_of pausing = TemplateEvent.paused
event_of disabling = TemplateEvent.disabled

-- an approval clears the reason of a rejection, and a pause leaves it
abbrev pub reason_of : Decision → Option String → Option String
reason_of approving before = none
reason_of (rejecting request) before = some request.reason
reason_of pausing before = before
reason_of disabling before = before

module _ (iso : ℕ → String) (auto_approve_ms : Option ℕ) where
  -- the state after a decision about a template that is there
  abbrev pub settled :
      ℕ
      → String
      → TemplateStatus
      → TemplateEvent
      → Option (Option String)
      → Details
      → Template
      → Review
      → Review
  settled now id status event rejected_reason details before r =
      announce (patched_template (iso now) (decided (iso now) status rejected_reason) before) event
        details
        (record (cancel id r) {
          templates =
              (update_template (iso now) id (decided (iso now) status rejected_reason)
                r.templates).0;
        })

  pub moderate_lem :
      (now : ℕ) (id : String) (status : TemplateStatus) (event : TemplateEvent)
      (reason : Option (Option String)) (details : Details) (r : Review) (before : Template)
      → find_template id r.templates ≡ some before
      → moderate iso auto_approve_ms now id status event reason details r ≡ (
        settled now id status event reason details before r,
        some (patched_template (iso now) (decided (iso now) status reason) before),
      )
  unfolding moderate cancel update_template
  moderate_lem now id status event reason details r before found =
      rw
        (
          moderate,
          found,
          written (iso now) id (decided (iso now) status reason) r.templates before found,
        )
        refl

  approve_other :
      (now : ℕ) (j id : String) (y : Template) (r : Review)
      → find_template j r.templates ≡ some y
      → (id == j) ≡ false
      → find_template id (approve iso auto_approve_ms now j r).0.templates
        ≡ find_template id r.templates
  unfolding approve
  approve_other now j id y r found other =
      rw
        (moderate_lem now j TemplateStatus.approved TemplateEvent.approved (some none) plain r y
          found)
        (others_kept (iso now) j (decided (iso now) TemplateStatus.approved (some none)) r.templates
          id other)

  same_pending :
      (j id : String) (x y : Template) (table : List Template)
      → find_template id table ≡ some x
      → find_template j table ≡ some y
      → (id == j) ≡ true
      → is_pending y.status ≡ is_pending x.status
  same_pending j id x y table found here same =
      let both : some y ≡ some x = sym here ∙ rw (eq→path same) at found in
      ap (λ o. of_option o) both
    where
      of_option : Option Template → Bool
      of_option none = false
      of_option (some z) = is_pending z.status

  auto_approve-find :
      (now : ℕ) (j id : String) (x : Template) (r : Review)
      → find_template id r.templates ≡ some x
      → is_pending x.status ≡ false
      → find_template id (auto_approve iso auto_approve_ms now j r).templates ≡ some x
  unfolding auto_approve
  auto_approve-find now j id x r found done = elim (Option-cases (find_template j r.templates)) [
    | inl absent ↦ rw (auto_approve, absent) found
    | inr (y, here) ↦ elim (Bool-cases (is_pending y.status)) [
      | inr settled ↦ rw (auto_approve, here, settled) found
      | inl waits ↦ elim (Bool-cases (id == j)) [
        | inl same ↦ absurd (cc (waits, done, same_pending j id x y r.templates found here same))
        | inr other ↦ rw (auto_approve, here, waits) (approve_other now j id y r here other ∙ found)
      ]
    ]
  ]

  -- a timer approves what is pending, and nothing else
  fire-find :
      (now h : ℕ) (id : String) (x : Template) (r : Review)
      → find_template id r.templates ≡ some x
      → is_pending x.status ≡ false
      → find_template id (fire iso auto_approve_ms now h r).templates ≡ some x
  unfolding fire go_off
  fire-find now h id x r found done = elim (Option-cases (find (has_handle h) r.timers)) [
    | inl gone ↦ rw gone found
    | inr (t, here) ↦ rw here (
        auto_approve-find now t.template_id id x
          (record r {
            timers = stop_timer (some t.handle) r.timers;
            waiting = delete t.template_id r.waiting;
          })
          found done)
  ]

  -- timers that go off one after the other, each at its time
  abbrev pub fires : List (ℕ × ℕ) → Review → Review
  fires [] r = r
  fires ((now, h) ∷ timers) r = fires timers (fire iso auto_approve_ms now h r)

  fires-find :
      (timers : List (ℕ × ℕ)) (id : String) (x : Template) (r : Review)
      → find_template id r.templates ≡ some x
      → is_pending x.status ≡ false
      → find_template id (fires timers r).templates ≡ some x
  fires-find [] id x r found done = found
  fires-find ((now, h) ∷ timers) id x r found done =
      fires-find timers id x (fire iso auto_approve_ms now h r) (fire-find now h id x r found done)
        done

  -- what a reviewer may press
  abbrev pub decide : ℕ → String → Decision → Review → Review × Option Template
  decide now id approving r = approve iso auto_approve_ms now id r
  decide now id (rejecting request) r = reject iso auto_approve_ms now id request r
  decide now id pausing r = pause iso auto_approve_ms now id r
  decide now id disabling r = disable iso auto_approve_ms now id r

  abbrev pub after : ℕ → Decision → Template → Template
  after now d before = record before {
    status = status_of d;
    rejected_reason = reason_of d before.rejected_reason;
    updated_at = iso now;
  }

  -- what a decision comes to
  pub record Stands (now : ℕ) (id : String) (d : Decision) (r : Review) (before : Template)
      : Type 0 where
    pub result : (decide now id d r).1 ≡ some (after now d before)
    pub stored :
        (timers : List (ℕ × ℕ))
        → find_template id (fires timers (decide now id d r).0).templates
          ≡ some (after now d before)
    pub told :
        (details : Details) × ((decide now id d r).0.effects
          ≡ r.effects ++ announced (after now d before) (event_of d) details ∷ [])
    pub dropped : get id (decide now id d r).0.waiting ≡ none
    pub others :
        (j : String)
        → (j == id) ≡ false
        → find_template j (decide now id d r).0.templates ≡ find_template j r.templates

  -- what the decisions have in common
  stands :
      (now : ℕ) (id : String) (d : Decision) (reason : Option (Option String)) (details : Details)
      (r : Review) (before : Template)
      → find_template id r.templates ≡ some before
      → decide now id d r
        ≡ moderate iso auto_approve_ms now id (status_of d) (event_of d) reason details r
      → is_pending (status_of d) ≡ false
      → get_or reason before.rejected_reason ≡ reason_of d before.rejected_reason
      → Stands now id d r before
  unfolding cancel
  stands now id d reason details r before found call decides same =
      let at_end =
        call ∙ moderate_lem now id (status_of d) (event_of d) reason details r before found in
      let input = decided (iso now) (status_of d) reason in
      let kept : patched_template (iso now) input before ≡ after now d before =
        ap
          (λ why. record before {
            status = status_of d;
            rejected_reason = why;
            updated_at = iso now;
          })
          same in
      let there = written (iso now) id input r.templates before found ∙ ap some kept in
      record {
        result = rw at_end (ap some kept);
        stored = λ timers. rw at_end (
            fires-find timers id (after now d before)
              (settled now id (status_of d) (event_of d) reason details before r) there decides);
        told = (
          details,
          rw at_end (ap (λ x. r.effects ++ announced x (event_of d) details ∷ []) kept),
        );
        dropped = rw at_end (get-delete_same id id r.waiting (eq_refl id));
        others = λ j other. rw at_end (others_kept (iso now) id input r.templates j other);
      }

  -- A reviewer's decision about a template that is there gives it the status of the decision, with
  -- the reason that the decision sets, at that time, is announced once, takes the template off the
  -- waiting list and changes no other template; whatever timers go off afterwards, at whatever
  -- times, the template stays as decided.
  pub decide-Stands :
      (now : ℕ) (id : String) (d : Decision) (r : Review) (before : Template)
      → find_template id r.templates ≡ some before
      → Stands now id d r before
  unfolding approve reject pause disable
  decide-Stands now id approving r before found =
      stands now id approving (some none) plain r before found refl refl refl
  decide-Stands now id (rejecting request) r before found =
      stands now id (rejecting request) (some (some request.reason)) _ r before found refl refl refl
  decide-Stands now id pausing r before found =
      stands now id pausing none _ r before found refl refl refl
  decide-Stands now id disabling r before found =
      stands now id disabling none _ r before found refl refl refl
