-- ===== src/ControlPlaneError.antt =====
-- packages/server/src/domain/control-plane-error.ts: the errors of the control plane.
use whaloc.Base.{String, Option, some, ℕ, get_or}

pub record ControlPlaneError : Type 0 where
  pub message : String
  pub status : ℕ
  pub code : Option String

-- the constructor; the default status is 400
abbrev new_control_error : String → Option ℕ → Option String → ControlPlaneError
new_control_error message status code = record {
  message = message;
  status = get_or status 400;
  code = code;
}

abbrev pub control_not_found : String → Option String → ControlPlaneError
control_not_found message code = new_control_error message (some 404) code

abbrev pub control_bad_request : String → Option String → ControlPlaneError
control_bad_request message code = new_control_error message (some 400) code

abbrev pub control_conflict : String → Option String → ControlPlaneError
control_conflict message code = new_control_error message (some 409) code
