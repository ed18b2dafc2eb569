-- ===== src/Review/Approval.antt =====
-- packages/server/src/domain/template-lifecycle.ts: a template that is edited and approves itself.
use whaloc.Base.{
  String, ℕ, ◌+◌, List, [], ◌∷◌, ◌++◌, Bool, true, false, Option, none, some, inr, ◌≡◌, refl, sym,
  ap, ◌∙◌, find, Fails, All-filter, get, delete, arith, append_assoc, key-find_by,
}
use whaloc.Shared.Common.{TemplateStatus}
use whaloc.Shared.Entities.{Template}
use whaloc.Database.Tables.{Tables}
use whaloc.Uploads.{Uploads}
use whaloc.Templates.{Outcome, TemplateEditRequest, edit}
use whaloc.Templates.Edits.{edit-IsSentBack, written}
use whaloc.Templates.Table.{template_id, update_template, find_template}
use whaloc.Review.{
  Review, Timer, cancel, stop_timer, has_handle, is_pending, fire, go_off, auto_approve, approve,
  schedule_approval, on_template_edited, decided,
}
use whaloc.Review.Events.{TemplateEvent, plain, announced}
use whaloc.Review.Decisions.{settled, moderate_lem}

find_last {ℓ} :
    {A : Type ℓ} (p : A → Bool) (xs : List A) (x : A)
    → Fails p xs
    → p x ≡ true
    → find p (xs ++ x ∷ []) ≡ some x
find_last p [] x out h = rw h refl
find_last p (y ∷ xs) x (other, out) h = rw other (find_last p xs x out h)

stop_timer-Fails :
    (h : ℕ) (o : Option ℕ) (timers : List Timer)
    → Fails (has_handle h) timers
    → Fails (has_handle h) (stop_timer o timers)
stop_timer-Fails h none timers new = new
stop_timer-Fails h (some k) timers new = All-filter (λ t. has_handle h t ≡ false) _ timers new

-- the timer of a template that was announced as edited
abbrev pub timer_of : ℕ → ℕ → Template → Review → Timer
timer_of now delay template r = record {
  handle = r.next_handle;
  template_id = template.id;
  due = now + delay;
}

abbrev pub accepted : (ℕ → String) → ℕ → Template → Template
accepted iso later template = record template {
  status = TemplateStatus.approved;
  rejected_reason = none;
  updated_at = iso later;
}

approves :
    (iso : ℕ → String) (auto_approve_ms : Option ℕ) (now : ℕ) (id : String) (x : Template)
    (r : Review)
    → find_template id r.templates ≡ some x
    → is_pending x.status ≡ true
    → auto_approve iso auto_approve_ms now id r ≡ (approve iso auto_approve_ms now id r).0
unfolding auto_approve
approves iso auto_approve_ms now id x r found pending = rw (auto_approve, found, pending) refl

module _ (iso : ℕ → String) (delay now later : ℕ) (template : Template) (r : Review) where
  abbrev pub edited : Review
  edited = on_template_edited iso (some delay) now template r

  scheduled :
      Fails (has_handle r.next_handle) r.timers
      → find (has_handle r.next_handle) edited.timers ≡ some (timer_of now delay template r)
  unfolding on_template_edited schedule_approval cancel
  scheduled new =
      find_last (has_handle r.next_handle) (stop_timer (get template.id r.waiting) r.timers)
        (timer_of now delay template r)
        (stop_timer-Fails r.next_handle (get template.id r.waiting) r.timers new) (ground arith)

  -- what is left when the timer goes off
  abbrev struck : Review
  struck = record edited {
    timers = stop_timer (some r.next_handle) edited.timers;
    waiting = delete template.id edited.waiting;
  }

  fired :
      Fails (has_handle r.next_handle) r.timers
      → find_template template.id r.templates ≡ some template
      → template.status ≡ TemplateStatus.pending
      → fire iso (some delay) later r.next_handle edited
        ≡ settled iso
            (some delay)
            later
            template.id
            TemplateStatus.approved
            TemplateEvent.approved
            (some none)
            plain
            template
            struck
  unfolding fire go_off auto_approve approve on_template_edited schedule_approval cancel
  fired new found pending = rw (scheduled new) (
      approves iso (some delay) later template.id template struck found (ap is_pending pending)
      ∙ ap (λ (p : Review × Option Template). p.0)
          (moderate_lem iso (some delay) later template.id TemplateStatus.approved
            TemplateEvent.approved (some none) plain struck template found))

-- An edit that returns, announced while approvals come by themselves after a delay, where the next
-- handle is new: a timer is set for the edited template, due when the delay is over, and when it
-- goes off the template is approved, and the change to pending and the approval have been announced,
-- in this order and each once.
pub edit_approves :
    (iso : ℕ → String) (delay now later : ℕ) (uploads : Uploads) (id : String)
    (request : TemplateEditRequest) (t : Tables) (done : Outcome Template) (r : Review)
    → edit uploads (iso now) id request t ≡ inr done
    → r.templates ≡ done.tables.templates
    → Fails (has_handle r.next_handle) r.timers
    → let set = on_template_edited iso (some delay) now done.result r in
      let end = fire iso (some delay) later r.next_handle set in
      (find (has_handle r.next_handle) set.timers ≡ some (timer_of now delay done.result r))
      × (find_template id end.templates ≡ some (accepted iso later done.result))
      × (end.effects
          ≡ r.effects
            ++ announced done.result TemplateEvent.pending plain
              ∷ announced (accepted iso later done.result) TemplateEvent.approved plain
              ∷ [])
unfolding on_template_edited schedule_approval cancel
edit_approves iso delay now later uploads id request t done r e same new =
    let sent = edit-IsSentBack uploads (iso now) id request t done e in
    let pending : done.result.status ≡ TemplateStatus.pending = ap (λ x. x.status) sent.result in
    let found : find_template id r.templates ≡ some done.result = rw same sent.stored in
    let at_id : done.result.id ≡ id = key-find_by template_id id r.templates done.result found in
    let found_own : find_template done.result.id r.templates ≡ some done.result =
      ap (λ k. find_template k r.templates) at_id ∙ found in
    let input = decided (iso later) TemplateStatus.approved (some none) in
    let ended = fired iso delay now later done.result r new found_own pending in
    (
      scheduled iso delay now later done.result r new,
      rw ended (
          ap (λ k. find_template k (update_template (iso later) done.result.id input r.templates).0)
            (sym at_id)
          ∙ written (iso later) done.result.id input r.templates done.result found_own),
      rw ended (append_assoc r.effects _ _),
    )
