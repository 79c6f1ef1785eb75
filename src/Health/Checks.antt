-- ===== src/Health/Checks.antt =====
-- internal/backend/health.go: the checker of all backends.
use local_inference_router.Base.{ℤ, pos, List}
use local_inference_router.Backend.{Backend}
use local_inference_router.Backend.Client.{Transport, Client, new_health_client}

abbrev pub health_interval : ℤ
health_interval = pos 5000000000

-- The struct Checker, without its sink and its logger.
pub record Checks : Type 0 where
  pub backends : List Backend
  pub client : Client
  pub interval : ℤ

abbrev pub new_checker_with_interval : Transport → List Backend → ℤ → Checks
new_checker_with_interval base backends interval = record {
  backends = backends;
  client = new_health_client base;
  interval = interval;
}

abbrev pub new_checker_of : Transport → List Backend → Checks
new_checker_of base backends = new_checker_with_interval base backends health_interval
