-- ===== src/Http/Mux.antt =====
-- internal/httpapi/server.go: Handler and its mux, for a clean path.
pub mod Unauthorized
use local_inference_router.Base.{
  ℕ, Text, bytes, text_eq, Bool, Option, none, some, if◌then◌else◌, ◌>>=◌,
}
use local_inference_router.Router.State.{State}
use local_inference_router.Router.Proxy.{Attempt}
use local_inference_router.Http.{
  Request, Response, Endpoint, chat_completions, models, router_status, healthz, readyz,
  handle_models, handle_healthz, handle_readyz, handle_router_status, instrumented, endpoint_of,
  protected_raw,
}
use local_inference_router.Http.Chat.{Codec, handle_chat}

-- The inbound token of the server, and what one request meets: the answers of upstream, whether
-- its writer can be flushed, and the clock.
pub record Serving : Type 0 where
  pub codec : Codec
  pub token : Text
  pub answers : ℕ → Attempt
  pub flushable : Bool
  pub elapsed : ℕ

abbrev pub handler_of : Serving → Endpoint → Request → State → Option (State × Response)
handler_of v chat_completions = handle_chat v.codec v.answers v.flushable
handler_of v models = handle_models
handler_of v router_status = handle_router_status
handler_of v healthz = handle_healthz
handler_of v readyz = handle_readyz

unfoldable pub handle : Serving → Endpoint → Request → State → Option (State × Response)
handle v e r s = instrumented v.token e v.elapsed (handler_of v e) r s

-- What a path gets: a response of the router, the handler of the Prometheus library, or the 404 of
-- the mux.
pub data Served : Type 0 where
  responded : Response → Served
  scraped not_found : Served

serve_metrics : Text → Request → Served
serve_metrics token r = elim (protected_raw token r) [
  | none ↦ scraped
  | some response ↦ responded response
]

unfoldable pub serve_http : Serving → Text → Request → State → Option (State × Served)
unfolding serve_metrics
serve_http v path r s = elim (endpoint_of path) [
  | some e ↦ (handle v e r s >>= λ (s', response). some (s', responded response))
  | none ↦
      if text_eq path (bytes "/metrics")
      then some (s, serve_metrics v.token r)
      else some (s, not_found)
]
