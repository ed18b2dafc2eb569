-- ===== src/Review.antt =====
-- packages/server/src/domain/template-lifecycle.ts: the review of templates. The timers of
-- domain/scheduler.ts are in the state: `schedule_approval` gives each a handle.
pub mod Events
pub mod Decisions
pub mod Approval
mod Tests
use whaloc.Base.{
  String, List, [], ◌∷◌, ◌++◌, Bool, true, false, not, Option, none, some, get_or, ℕ, ◌+◌, eqb,
  find, filter, Assoc, get, put, delete, length, if◌then◌else◌,
}
use whaloc.Shared.Common.{TemplateStatus, QualityRating}
use whaloc.Shared.Entities.{Template}
use whaloc.Templates.Table.{UpdateTemplateInput, find_template, update_template}
use Events.{
  TemplateEvent, TemplateRejectionInfo, first_pause_info, disabled_info, default_rejection_info,
  Details, plain, Effect, announced, quality_announced,
}

-- a live timer, and the time it is due at
pub record Timer : Type 0 where
  pub handle : ℕ
  pub template_id : String
  pub due : ℕ

pub record Review : Type 0 where
  pub templates : List Template
  pub waiting : Assoc ℕ
  pub timers : List Timer
  pub next_handle : ℕ
  pub effects : List Effect

abbrev pub has_handle : ℕ → Timer → Bool
has_handle h t = eqb t.handle h

-- `task.cancel()` on what `#pending` has, which may be nothing
abbrev pub stop_timer : Option ℕ → List Timer → List Timer
stop_timer none timers = timers
stop_timer (some h) timers = filter (λ t. not (has_handle h t)) timers

unfoldable pub cancel : String → Review → Review
cancel id r = record r {
  timers = stop_timer (get id r.waiting) r.timers;
  waiting = delete id r.waiting;
}

abbrev stop_all : Assoc ℕ → List Timer → List Timer
stop_all [] timers = timers
stop_all ((id, h) ∷ waiting) timers = stop_all waiting (stop_timer (some h) timers)

unfoldable pub cancel_all : Review → Review
cancel_all r = record r { timers = stop_all r.waiting r.timers; waiting = [] }

abbrev pub pending_count : Review → ℕ
pending_count r = length r.waiting

abbrev pub announce : Template → TemplateEvent → Details → Review → Review
announce template event details r = record r {
  effects = r.effects ++ announced template event details ∷ [];
}

-- `updateTemplate` as a decision gives it
abbrev pub decided : String → TemplateStatus → Option (Option String) → UpdateTemplateInput
decided time status rejected_reason = record {
  category = none;
  parameter_format = none;
  components = none;
  status = some status;
  rejected_reason = rejected_reason;
  quality_score = none;
  updated_at = some time;
}

abbrev scored : String → QualityRating → UpdateTemplateInput
scored time score = record {
  category = none;
  parameter_format = none;
  components = none;
  status = none;
  rejected_reason = none;
  quality_score = some (some score);
  updated_at = some time;
}

abbrev pub is_pending : TemplateStatus → Bool
is_pending TemplateStatus.pending = true
is_pending _ = false

-- `RejectTemplateRequest`
pub record RejectTemplateRequest : Type 0 where
  pub reason : String
  pub rejection_info : Option TemplateRejectionInfo

-- `iso` prints a time the way `toISOString` does; `auto_approve_ms` is none where review is manual
module _ (iso : ℕ → String) (auto_approve_ms : Option ℕ) where
  unfoldable pub schedule_approval : ℕ → String → Review → Review
  unfolding cancel
  schedule_approval now id r = elim auto_approve_ms [
    | none ↦ r
    | some delay ↦
        let stopped = cancel id r in
        let timer : Timer = record {
          handle = stopped.next_handle;
          template_id = id;
          due = now + delay;
        } in
        record stopped {
          timers = stopped.timers ++ timer ∷ [];
          waiting = put id stopped.next_handle stopped.waiting;
          next_handle = stopped.next_handle + 1;
        }
  ]

  abbrev told : TemplateEvent → Details → Option Template → Review → Review × Option Template
  told event details none r = (r, none)
  told event details (some updated) r = (announce updated event details r, some updated)

  -- `#moderate`; `none` is a template that is not there
  unfoldable pub moderate :
      ℕ
      → String
      → TemplateStatus
      → TemplateEvent
      → Option (Option String)
      → Details
      → Review
      → Review × Option Template
  unfolding cancel
  moderate now id status event rejected_reason details r = elim (find_template id r.templates) [
    | none ↦ (r, none)
    | some before ↦
        let stopped = cancel id r in
        let (templates, updated) =
          update_template (iso now) id (decided (iso now) status rejected_reason)
            stopped.templates in
        told event details updated (record stopped { templates = templates })
  ]

  unfoldable pub approve : ℕ → String → Review → Review × Option Template
  unfolding moderate
  approve now id r =
      moderate now id TemplateStatus.approved TemplateEvent.approved (some none) plain r

  unfoldable pub reject : ℕ → String → RejectTemplateRequest → Review → Review × Option Template
  unfolding moderate
  reject now id request r =
      moderate now id TemplateStatus.rejected TemplateEvent.rejected (some (some request.reason))
        (record plain {
          reason = some (some request.reason);
          rejection_info = some (get_or request.rejection_info default_rejection_info);
        })
        r

  unfoldable pub pause : ℕ → String → Review → Review × Option Template
  unfolding moderate
  pause now id r =
      moderate now id TemplateStatus.paused TemplateEvent.paused none
        (record plain { other_info = some first_pause_info }) r

  unfoldable pub disable : ℕ → String → Review → Review × Option Template
  unfolding moderate
  disable now id r =
      moderate now id TemplateStatus.disabled TemplateEvent.disabled none
        (record plain { other_info = some disabled_info; disabled_at = some now }) r

  -- `#autoApprove`
  unfoldable pub auto_approve : ℕ → String → Review → Review
  unfolding approve
  auto_approve now id r = elim (find_template id r.templates) [
    | none ↦ r
    | some template ↦ elim (is_pending template.status) [ true ↦ (approve now id r).0 | false ↦ r ]
  ]

  go_off : ℕ → Option Timer → Review → Review
  unfolding auto_approve
  go_off now none r = r
  go_off now (some t) r = auto_approve now t.template_id (record r {
    timers = stop_timer (some t.handle) r.timers;
    waiting = delete t.template_id r.waiting;
  })

  -- the timer with a handle goes off, if it is still there
  unfoldable pub fire : ℕ → ℕ → Review → Review
  unfolding go_off
  fire now h r = go_off now (find (has_handle h) r.timers) r

  unfoldable pub on_template_created : ℕ → Template → Review → Review
  unfolding schedule_approval
  on_template_created now template r = schedule_approval now template.id r

  unfoldable pub on_template_edited : ℕ → Template → Review → Review
  unfolding schedule_approval
  on_template_edited now template r =
      schedule_approval now template.id (announce template TemplateEvent.pending plain r)

  -- a deletion is announced with the reason null
  unfoldable pub on_template_deleted : List Template → Review → Review
  unfolding cancel
  on_template_deleted [] r = r
  on_template_deleted (template ∷ templates) r = on_template_deleted templates (
      announce template TemplateEvent.deleted (record plain { reason = some none })
        (cancel template.id r))

  abbrev rated :
      Option QualityRating → QualityRating → Option Template → Review → Review × Option Template
  rated previous score none r = (r, none)
  rated previous score (some updated) r = (
    record r { effects = r.effects ++ quality_announced updated previous score ∷ [] },
    some updated,
  )

  unfoldable pub set_quality_score : ℕ → String → QualityRating → Review → Review × Option Template
  set_quality_score now id score r = elim (find_template id r.templates) [
    | none ↦ (r, none)
    | some template ↦
        let (templates, updated) =
          update_template (iso now) id (scored (iso now) score) r.templates in
        rated template.quality_score score updated (record r { templates = templates })
  ]
