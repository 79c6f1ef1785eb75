-- ===== src/Cli/Serving.antt =====
-- internal/cli/app.go: what runServe starts. The loops of the health checks run beside the requests
-- of the server, on one routing state.
pub mod Confirmed
use local_inference_router.Base.{
  ℕ, Text, Bool, ◌≡◌, Option, some, List, [], ◌∷◌, ◌++◌, get_elem?, set,
}
use local_inference_router.Router.State.{State}
use local_inference_router.Router.Proxy.{Call, Attempt, start_call, advance}
use local_inference_router.Router.System.{System}
use local_inference_router.Health.{ProbeResult}
use local_inference_router.Health.Checks.{Checks}
use local_inference_router.Health.Run.{Loop, Running, run_checks, next_check}

pub record Program : Type 0 where
  pub system : System
  pub loops : List Loop

-- The program as it is when the loops start and the server listens.
abbrev pub launch : Checks → State → Program
launch c s = record { system = record { state = s; calls = [] }; loops = (run_checks c s).loops }

-- A loop makes its next check, of the state that the requests use.
unfoldable pub probed : ℕ → Loop → ProbeResult → Program → Program
unfolding next_check
probed i l result p =
    let u = next_check i l result (record { state = p.system.state; loops = p.loops }) in
    record { system = record p.system { state = u.state }; loops = u.loops }

module _ (parse_media_type : Text → Option Text) (c : Checks) (s : State) where
  -- A request arrives, a request runs its next section, or a loop makes its next check.
  pub data Serves : Program → Type 0 where
    launched : Serves (launch c s)
    accepts :
        {p : Program} (alias : Text) (flushable : Bool)
        → Serves p
        → Serves (record p {
          system = record p.system { calls = p.system.calls ++ start_call alias flushable ∷ [] };
        })
    serves :
        {p : Program} (i : ℕ) (d d' : Call) (a : Attempt) (s' : State)
        → Serves p
        → get_elem? p.system.calls i ≡ some d
        → advance parse_media_type d a p.system.state ≡ some (s', d')
        → Serves (record p { system = record { state = s'; calls = set p.system.calls i d' } })
    probes :
        {p : Program} (i : ℕ) (l : Loop) (result : ProbeResult)
        → Serves p
        → get_elem? p.loops i ≡ some l
        → Serves (probed i l result p)
