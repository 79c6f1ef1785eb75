-- ===== src/Router/System.antt =====
-- The router under load: any number of requests in Proxy.Serve, and the health checks, in any
-- interleaving of their critical sections. One mutex guards the routing state, so the sections do
-- not overlap.
pub mod Counts
pub mod Safety
pub mod Refines
pub mod Commits
pub mod Labelling
use local_inference_router.Base.{
  ℕ, Text, Bool, ◌≡◌, Option, some, List, [], ◌∷◌, ◌++◌, get_elem?, set,
}
use local_inference_router.Router.State.{State}
use local_inference_router.Router.Operations.{set_health}
use local_inference_router.Router.Proxy.{Call, Attempt, start_call, advance}

pub record System : Type 0 where
  pub state : State
  pub calls : List Call

module _ (parse_media_type : Text → Option Text) where
  -- A request arrives, a request runs its next section, or a health result is recorded.
  pub data Step (t : System) : System → Type 0 where
    arrives :
        (alias : Text) (flushable : Bool)
        → Step t (record t { calls = t.calls ++ start_call alias flushable ∷ [] })
    advances :
        (i : ℕ) (c c' : Call) (a : Attempt) (s' : State)
        → get_elem? t.calls i ≡ some c
        → advance parse_media_type c a t.state ≡ some (s', c')
        → Step t (record { state = s'; calls = set t.calls i c' })
    reports : (name : Text) (up : Bool) → Step t (record t { state = set_health name up t.state })

  -- The systems that a new state without requests can become.
  pub data Reach (s : State) : System → Type 0 where
    begins : Reach s (record { state = s; calls = [] })
    continues : {t u : System} → Reach s t → Step t u → Reach s u
