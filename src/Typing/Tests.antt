-- ===== src/Typing/Tests.antt =====
-- A conversation whose indicator is raised and taken down.
use Prim.Native.String.{compare}
use mathlib.Core.Option
use whaloc.Base.{String, [], ℕ, ◌≡◌, refl, get}
use whaloc.Store.State.{AppState, initial_state}
use whaloc.Typing.{Service, Step, start, clear}
use whaloc.Typing.Dismissals.{IsLinked}
use whaloc.Typing.Frames.{Reach, receive, Reach-IsLinked, Reach-Agrees}

abbrev iso : ℕ → String
iso now = "2026-01-01T00:00:25.000Z"

abbrev idle : Service
idle = record { active = []; tasks = []; next_handle = 0 }

abbrev typing : Service
typing = (start iso 25000 0 "100" "200" idle).0.service

abbrev seen : AppState
seen = receive compare iso 25000 (start iso 25000 0 "100" "200" idle).0.announced initial_state

raised_once : Reach compare iso 25000 typing seen
raised_once = Reach.after (Reach.opened initial_state refl) (Step.started 0 "100" "200")

Reach-IsLinked_example : IsLinked (clear iso "100" "200" typing).service
Reach-IsLinked_example =
    Reach-IsLinked compare iso 25000 (Reach.after raised_once (Step.taken_down "100" "200"))

Reach-Agrees_example :
    get "100:200" seen.typing ≡ Option.map (λ i. iso i.expires_at) (get "100:200" typing.active)
Reach-Agrees_example = Reach-Agrees compare iso 25000 raised_once "100:200"
