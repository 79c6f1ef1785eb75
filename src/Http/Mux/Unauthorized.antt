-- ===== src/Http/Mux/Unauthorized.antt =====
-- internal/httpapi: a request without the token of the server.
use local_inference_router.Base.{
  ℕ, Text, bytes, text_eq, text_eq_iff, true, false, none, some, ◌≡◌, ◌≢◌, inl, inr, refl, arith,
  Option-cases, Bool-cases,
}
use local_inference_router.Router.State.{State, publish}
use local_inference_router.Metrics.{observe_http}
use local_inference_router.Http.{
  Request, Endpoint, is_protected, route_label, authorized, instrumented, write_unauthorized,
  endpoint_of, protected_raw,
}
use local_inference_router.Http.Mux.{
  Serving, handle, Served, responded, not_found, serve_metrics, serve_http,
}

-- What the request gets for the path, and what it leaves: at most the sample of a 401 for the
-- endpoint of the path.
pub data Denied (path : Text) (s : State) : State → Served → Type 0 where
  challenged :
      (e : Endpoint) (elapsed : ℕ)
      → endpoint_of path ≡ some e
      → Denied path s
          (publish (observe_http (route_label e) 401 elapsed) s)
          (responded write_unauthorized)
  uncounted : path ≡ bytes "/metrics" → Denied path s s (responded write_unauthorized)
  missing : endpoint_of path ≡ none → path ≢ bytes "/metrics" → Denied path s s not_found

module _ (v : Serving) (r : Request) (s : State) (denied : authorized v.token r ≡ false) where
  handle-denied :
      (e : Endpoint)
      → is_protected e ≡ true
      → handle v e r s
        ≡ some (publish (observe_http (route_label e) 401 v.elapsed) s, write_unauthorized)
  unfolding handle instrumented write_unauthorized
  handle-denied e guarded = rw (guarded, denied) refl

  protected_raw-denied : protected_raw v.token r ≡ some write_unauthorized
  unfolding protected_raw
  protected_raw-denied = rw denied refl

  serve_metrics-denied : serve_metrics v.token r ≡ responded write_unauthorized
  unfolding serve_metrics
  serve_metrics-denied = rw (protected_raw-denied, serve_metrics) refl

  open_endpoint :
      (path : Text) (e : Endpoint)
      → endpoint_of path ≡ some e
      → path ≢ bytes "/healthz"
      → path ≢ bytes "/readyz"
      → is_protected e ≡ true
  unfolding endpoint_of
  open_endpoint path e at health ready =
      ground (arith, text_eq_iff path (bytes "/healthz"), text_eq_iff path (bytes "/readyz"))

  -- A request that is not authorized, for any clean path but those of the two probes, gets the
  -- 401 with its challenge where the mux has a handler and the 404 where it has none, and leaves
  -- the routing state as it is but for the sample of a 401 of the path's endpoint; in particular
  -- it reaches no endpoint and not the page of the metrics.
  pub serve_http-Denied :
      (path : Text)
      → path ≢ bytes "/healthz"
      → path ≢ bytes "/readyz"
      → (s' : State) × (a : Served) × (serve_http v path r s ≡ some (s', a)) × Denied path s s' a
  unfolding serve_http
  serve_http-Denied path health ready = elim (Option-cases (endpoint_of path)) [
    | inr (e, at) ↦ (
      publish (observe_http (route_label e) 401 v.elapsed) s,
      responded write_unauthorized,
      rw (at, serve_http, handle-denied e (open_endpoint path e at health ready)) refl,
      challenged e v.elapsed at,
    )
    | inl other ↦ elim (Bool-cases (text_eq path (bytes "/metrics"))) [
      | inl metrics ↦ (
        s,
        responded write_unauthorized,
        rw (other, serve_http, metrics, serve_metrics-denied) refl,
        uncounted ((text_eq_iff path (bytes "/metrics")).0 metrics),
      )
      | inr unknown ↦ (
        s,
        not_found,
        rw (other, serve_http, unknown) refl,
        missing other (λ e. cc (unknown, (text_eq_iff path (bytes "/metrics")).1 e)),
      )
    ]
  ]
