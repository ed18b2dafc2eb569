-- ===== src/Review/Tests.antt =====
-- Runs of the review of a template.
use whaloc.Base.{String, ℕ, [], ◌∷◌, ◌++◌, none, some, inr, ◌≡◌, refl, find}
use whaloc.Shared.Common.{TemplateStatus, TemplateCategory, TemplateParameterFormat}
use whaloc.Shared.Entities.{Template}
use whaloc.Database.Tables.{Tables}
use whaloc.Uploads.{Uploads}
use whaloc.Templates.Table.{find_template, update_template}
use whaloc.Templates.HeaderHandles.{assert_header_handles_resolve}
use whaloc.Templates.{Outcome, TemplateEditRequest, edit, template_edited}
use whaloc.Review.{Review, has_handle, fire, on_template_edited}
use whaloc.Review.Events.{TemplateEvent, plain, announced}
use whaloc.Review.Decisions.{Stands, Decision, decide-Stands}
use whaloc.Review.Approval.{accepted, timer_of, edit_approves}

abbrev template : Template
template = record {
  id = "5";
  waba_id = "10";
  name = "promo";
  language = "en";
  category = TemplateCategory.utility;
  parameter_format = TemplateParameterFormat.positional;
  components = [];
  status = TemplateStatus.rejected;
  rejected_reason = some "SCAM";
  quality_score = none;
  created_at = "0";
  updated_at = "0";
}

abbrev tables : Tables
tables = record {
  wabas = [];
  phone_numbers = [];
  media = [];
  messages = [];
  templates = template ∷ [];
}

abbrev uploads : Uploads
uploads = record { sessions = []; files = [] }

abbrev iso : ℕ → String
iso time = "9"

abbrev request : TemplateEditRequest
request = record { category = some TemplateCategory.marketing; components = none }

abbrev again : Template
again = record template {
  category = TemplateCategory.marketing;
  status = TemplateStatus.pending;
  rejected_reason = none;
  updated_at = "9";
}

abbrev done : Outcome Template
done = record {
  tables = record tables { templates = again ∷ [] };
  event = template_edited again;
  result = again;
}

edits : edit uploads (iso 100) "5" request tables ≡ inr done
unfolding edit update_template assert_header_handles_resolve
edits = refl

-- an earlier edit of the template still waits
abbrev review : Review
review = record {
  templates = again ∷ [];
  waiting = ("5", 0) ∷ [];
  timers = record { handle = 0; template_id = "5"; due = 150 } ∷ [];
  next_handle = 1;
  effects = [];
}

edit_approves_example :
    let set = on_template_edited iso (some 60) 100 again review in
    let end = fire iso (some 60) 160 1 set in
    (find (has_handle 1) set.timers ≡ some (timer_of 100 60 again review))
    × (find_template "5" end.templates ≡ some (accepted iso 160 again))
    × (end.effects
        ≡ []
          ++ announced again TemplateEvent.pending plain
            ∷ announced (accepted iso 160 again) TemplateEvent.approved plain
            ∷ [])
edit_approves_example =
    edit_approves iso 60 100 160 uploads "5" request tables done review edits refl (refl, tt)

decide-Stands_example : Stands iso (some 60) 170 "5" Decision.pausing review again
decide-Stands_example = decide-Stands iso (some 60) 170 "5" Decision.pausing review again refl
