-- ===== src/Failure.antt =====
-- packages/server/src/domain: what a service throws.
use whaloc.GraphError.{GraphApiError}
use whaloc.ControlPlaneError.{ControlPlaneError}

-- an error of either API, or a write that a key of the schema refuses
pub data Failure : Type 0 where
  graph : GraphApiError → Failure
  control : ControlPlaneError → Failure
  constraint : Failure
