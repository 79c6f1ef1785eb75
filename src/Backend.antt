-- ===== src/Backend.antt =====
-- internal/backend/backend.go: one configured inference runtime.
pub mod Build
pub mod Client
use local_inference_router.Base.{ℤ, Text}
use local_inference_router.Config.Url.{Url}

-- The HTTP client is not kept: it is built from the header timeout and holds no state of its own.
pub record Backend : Type 0 where
  pub name : Text
  pub kind : Text
  pub base_url : Url
  pub max_inflight : ℤ
  pub response_header_timeout : ℤ
  pub response_idle_timeout : ℤ
  pub token : Text
