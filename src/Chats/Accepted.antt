-- ===== src/Chats/Accepted.antt =====
-- packages/server/src/domain/message-service.ts: what a send that is accepted has checked and done.
use whaloc.Base.{
  String, List, true, Option, none, some, ◌⊎◌, inl, inr, ◌≡◌, refl, sym, ◌∙◌, ap, subst, require,
  or_raise, >>=-returns, require-returns, or_raise-returns, inr_injective,
}
use whaloc.Shared.Common.{TemplateStatus}
use whaloc.Shared.Entities.{Template, TemplateSnapshot}
use whaloc.Failure.{Failure}
use whaloc.GraphError.{GraphApiError}
use whaloc.Database.PhoneNumbers.{PhoneNumberRecord, find_by_id}
use whaloc.Templates.Table.{find_by_name_and_language}
use whaloc.SendValidation.{is_approved, assert_template_is_sendable, assert_template_parameters}
use whaloc.ReadReceipts.{is_connected}
use whaloc.Chats.{Chats}
use whaloc.Chats.Requests.{SendMessageRequest, SendContent, TemplatePayload}
use whaloc.Chats.Recipients.{resolve_recipient}
use whaloc.Chats.Sends.{Checked, check_send, sendable_template_snapshot, snapshot_of, graph}

-- what a template of the account has passed
pub record Sendable (waba_id : String) (t : TemplatePayload) (table : List Template)
    (snapshot : Option TemplateSnapshot) : Type 0 where
  pub template : Template
  pub found : find_by_name_and_language waba_id t.name t.language_code table ≡ some template
  pub approved : template.status ≡ TemplateStatus.approved
  pub filled : assert_template_parameters template t.components ≡ inr tt
  pub frozen : snapshot ≡ some (snapshot_of template)

-- a template of the content has passed, and other content has no snapshot
abbrev pub IsCovered : String → SendContent → List Template → Option TemplateSnapshot → Type 0
IsCovered waba_id (SendContent.template t) table snapshot = Sendable waba_id t table snapshot
IsCovered waba_id (SendContent.node type value) table snapshot = snapshot ≡ none

status-is_approved : (s : TemplateStatus) → is_approved s ≡ true → s ≡ TemplateStatus.approved
status-is_approved TemplateStatus.approved h = refl
status-is_approved TemplateStatus.pending h = cc
status-is_approved TemplateStatus.rejected h = cc
status-is_approved TemplateStatus.paused h = cc
status-is_approved TemplateStatus.disabled h = cc

sendable-approved :
    (found : Option Template) (name language : String) (t : Template)
    → assert_template_is_sendable found name language ≡ inr t
    → (found ≡ some t) × (t.status ≡ TemplateStatus.approved)
unfolding assert_template_is_sendable
sendable-approved found name language t h =
    let (u, there, h1) = >>=-returns (or_raise found _) _ h in
    let (_, ok, h2) = >>=-returns (require (is_approved u.status) _) _ h1 in
    let same = inr_injective h2 in
    (
      or_raise-returns _ _ there ∙ ap some same,
      status-is_approved t.status
          (subst (λ x. is_approved x.status ≡ true) same (require-returns _ _ ok)),
    )

graph-returns :
    {A : Type 0} (m : GraphApiError ⊎ A) (a : A)
    → ◌≡◌ {A = Failure ⊎ A} (graph m) (inr a)
    → m ≡ inr a
graph-returns (inl e) a h = cc
graph-returns (inr b) a h = ap inr (inr_injective h)

snapshot-IsCovered :
    (waba_id : String) (content : SendContent) (table : List Template)
    (snapshot : Option TemplateSnapshot)
    → sendable_template_snapshot waba_id content table ≡ inr snapshot
    → IsCovered waba_id content table snapshot
unfolding sendable_template_snapshot
snapshot-IsCovered waba_id (SendContent.node type value) table snapshot h = sym (inr_injective h)
snapshot-IsCovered waba_id (SendContent.template t) table snapshot h =
    let stored = find_by_name_and_language waba_id t.name t.language_code table in
    let (u, sendable, h1) =
      >>=-returns (graph (assert_template_is_sendable stored t.name t.language_code)) _ h in
    let (_, filled, h2) = >>=-returns (graph (assert_template_parameters u t.components)) _ h1 in
    let (found, approved) =
      sendable-approved stored t.name t.language_code u (graph-returns _ u sendable) in
    record {
      template = u;
      found = found;
      approved = approved;
      filled = graph-returns _ tt filled;
      frozen = sym (inr_injective h2);
    }

-- what the checks of a send that is accepted have found
pub record Checks (p : String) (request : SendMessageRequest) (c : Chats) (checked : Checked)
    : Type 0 where
  pub number : PhoneNumberRecord
  pub known : find_by_id p c.phone_numbers ≡ some number
  pub connected : is_connected number.status ≡ true
  pub recipient :
      resolve_recipient request.to request.recipient c.contacts ≡ inr (checked.input, checked.wa_id)
  pub covered : IsCovered number.waba_id request.content c.templates checked.snapshot

pub check_send-Checks :
    (p : String) (request : SendMessageRequest) (c : Chats) (checked : Checked)
    → check_send p request c ≡ inr checked
    → Checks p request c checked
unfolding check_send
check_send-Checks p request c checked h =
    let (number, known, h1) = >>=-returns (or_raise (find_by_id p c.phone_numbers) _) _ h in
    let (_, connected, h2) = >>=-returns (require (is_connected number.status) _) _ h1 in
    let (who, recipient, h3) =
      >>=-returns (resolve_recipient request.to request.recipient c.contacts) _ h2 in
    let (snapshot, frozen, h4) =
      >>=-returns (sendable_template_snapshot number.waba_id request.content c.templates) _ h3 in
    let same = inr_injective h4 in
    subst (λ o. Checks p request c o) same
      (record {
        number = number;
        known = or_raise-returns _ _ known;
        connected = require-returns _ _ connected;
        recipient = recipient;
        covered = snapshot-IsCovered number.waba_id request.content c.templates snapshot frozen;
      })
