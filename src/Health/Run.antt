-- ===== src/Health/Run.antt =====
-- internal/backend/health.go: Run, the loops of all backends in any interleaving of their checks.
pub mod Tracks
use local_inference_router.Base.{
  ℕ, zero, suc, Text, Bool, true, false, some, List, [], ◌∷◌, map, Pairwise, All-get_elem?,
  get_elem?, set, get_elem?-set_self, get_elem?-set_ne, ◌≡◌, ◌≢◌, refl, sym, ap, ◌∙◌, ◌⊎◌, inl, inr,
  arith,
}
use mathlib.Core.Path.{subst}
use mathlib.Core.Option.{some-injective}
use native.Mathlib.Decide.{ℕ_discrete}
use local_inference_router.Backend.{Backend}
use local_inference_router.Router.State.{State, BackendState, find}
use local_inference_router.Router.State.Valid.{IsValid}
use local_inference_router.Router.Operations.{set_health}
use local_inference_router.Router.Operations.Slots.{inflight_of}
use local_inference_router.Router.Operations.Releases.{Reports, set_health-Reports}
use local_inference_router.Health.{Checker, ProbeResult, probe, note, check, new_checker}
use local_inference_router.Health.Checks.{Checks}

-- The loop of one backend, with its variables.
pub record Loop : Type 0 where
  pub backend : Backend
  pub checker : Checker

pub record Running : Type 0 where
  pub state : State
  pub loops : List Loop

-- Run starts a loop for each backend.
abbrev pub run_checks : Checks → State → Running
run_checks c s = record {
  state = s;
  loops = map (λ b. record { backend = b; checker = new_checker }) c.backends;
}

-- A loop makes its next check.
unfoldable pub next_check : ℕ → Loop → ProbeResult → Running → Running
next_check i l result t =
    let (checker, state) = check set_health l.backend.name result (l.checker, t.state) in
    record { state = state; loops = set t.loops i (record l { checker = checker }) }

pub data Checked (t : Running) : Running → Type 0 where
  started : Checked t t
  checks :
      {u : Running} (i : ℕ) (l : Loop) (result : ProbeResult)
      → Checked t u
      → get_elem? u.loops i ≡ some l
      → Checked t (next_check i l result u)
