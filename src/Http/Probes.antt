-- ===== src/Http/Probes.antt =====
-- internal/httpapi/status.go: what the readiness probe says.
use local_inference_router.Base.{
  bytes, text_eq_iff, true, false, some, inl, inr, ◌≡◌, ◌⊎◌, refl, arith, All,
}
use local_inference_router.Router.State.{State}
use local_inference_router.Router.State.Valid.{IsValid}
use local_inference_router.Router.Operations.Readiness.{AnyUp, ready-Decides}
use local_inference_router.Http.{Request, Response, handle_readyz, readiness}

-- On a valid state a GET of the readiness probe leaves the state and is answered with 200 if
-- every alias has a route whose backend is checked and healthy, and with 503 if not.
pub handle_readyz-Decides :
    (r : Request) (s : State)
    → r.method ≡ bytes "GET"
    → IsValid s
    → (a : Response) × (handle_readyz r s ≡ some (s, a))
      × (((a.status ≡ 200) × All (λ x. AnyUp s x.routes) s.alias_order)
          ⊎ ((a.status ≡ 503) × (¬ All (λ x. AnyUp s x.routes) s.alias_order)))
unfolding handle_readyz readiness
handle_readyz-Decides r s get v =
    let same = (text_eq_iff r.method (bytes "GET")).1 get in
    elim (ready-Decides s v) [
      | inl (e, all) ↦ (readiness true, ground (arith, same, e), inl (refl, all))
      | inr (e, not_all) ↦ (readiness false, ground (arith, same, e), inr (refl, not_all))
    ]
