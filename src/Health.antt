-- ===== src/Health.antt =====
-- internal/backend/health.go: the checks of one backend. The sink of the results is an interface of
-- the code; the routing state implements it.
pub mod Follows
pub mod Checks
pub mod Run
mod Tests
use local_inference_router.Base.{
  ℕ, Text, bytes, Bool, true, false, not, ◌||◌, ◌==◌, Option, none, some, List, [], ◌∷◌,
  if◌then◌else◌,
}
use local_inference_router.Config.Url.{Url}
use local_inference_router.Backend.{Backend}
use local_inference_router.Backend.Build.{health_url}
use local_inference_router.Router.Headers.{Header, authorize}

pub record Probe : Type 0 where
  pub method : Text
  pub url : Url
  pub header : Header

-- The request of a probe.
unfoldable pub probe_request : Backend → Probe
probe_request b = record { method = bytes "GET"; url = health_url b; header = authorize b [] }

-- What comes of it: no request for the URL, an error of the client, or a status.
pub data ProbeResult : Type 0 where
  no_request no_answer : ProbeResult
  status_of : ℕ → ProbeResult

-- probe
unfoldable pub probe : ProbeResult → Bool
probe no_request = false
probe no_answer = false
probe (status_of code) = code == 200

abbrev pub differs : Bool → Bool → Bool
differs true b = not b
differs false b = b

-- The variables of loop, and the health changes that it logged, the latest first.
pub record Checker : Type 0 where
  pub previous : Bool
  pub known : Bool
  pub logged : List Bool

abbrev pub new_checker : Checker
new_checker = record { previous = false; known = false; logged = [] }

-- The variables after one check.
unfoldable pub note : Checker → Bool → Checker
note c healthy = record {
  previous = healthy;
  known = true;
  logged = if not c.known || differs healthy c.previous then healthy ∷ c.logged else c.logged;
}

module _ {S : Type 0} (set_health : Text → Bool → S → S) where
  -- The function check of loop, for what its probe gets.
  unfoldable pub check : Text → ProbeResult → Checker × S → Checker × S
  unfolding probe note
  check name result (c, s) = (note c (probe result), set_health name (probe result) s)

  -- loop, for the results of its probes in their order.
  unfoldable pub loop : Text → List ProbeResult → Checker × S → Checker × S
  loop name [] p = p
  loop name (result ∷ results) p = loop name results (check name result p)
