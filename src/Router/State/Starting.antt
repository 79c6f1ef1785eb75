-- ===== src/Router/State/Starting.antt =====
-- NewState, on backends that the routes name.
use local_inference_router.Base.{
  ℕ, suc, ◌+◌, Text, ◌≡◌, ◌≢◌, refl, ◌∙◌, inl, inr, Option, none, some, List, [], ◌∷◌, arith,
  length, lookup, lookup-insert, text_eq_iff, Option-cases, All, All-map, pos, ◌≤ℤ◌,
}
use local_inference_router.Config.{Config, AliasConfig, RouteConfig}
use local_inference_router.Backend.{Backend}
use local_inference_router.Metrics.{Metrics}
use local_inference_router.Router.State.{
  Route, BackendState, State, find, add_backend, add_backends, built, make_route, build_routes,
  add_alias, add_aliases, empty_state, new_state,
}
use local_inference_router.Router.State.Store.{find_of_lookup}
use local_inference_router.Router.State.Building.{Loading, add_backends-Loading, empty-Loading}

-- A name of the map of backends.
abbrev Known : State → Text → Type 0
Known s n = (b : BackendState) × (find s n ≡ some b)

add_backends-lookup :
    (bs : List Backend) (s : State) (n : Text)
    → lookup n (add_backends s bs).backends ≡ none
    → (lookup n s.backends ≡ none) × All (λ b. b.name ≢ n) bs
unfolding add_backends add_backend
add_backends-lookup [] s n e = (e, tt)
add_backends-lookup (b ∷ bs) s n e =
    let (before, others) = add_backends-lookup bs (add_backend s b) n e in
    let added = lookup-insert b.name n (length s.order) s.backends in
    (
      ground (arith, before, added),
      (λ same. ground (arith, before, added, text_eq_iff b.name n, same), others),
    )

named_backend-Known :
    (bs : List Backend) (s : State) (n : Text)
    → Loading (add_backends s bs)
    → ¬ All (λ b. b.name ≢ n) bs
    → Known (add_backends s bs) n
named_backend-Known bs s n l there = elim (Option-cases (lookup n (add_backends s bs).backends)) [
  | inl missing ↦ absurd (there (add_backends-lookup bs s n missing).1)
  | inr (i, at) ↦
      let (b, here, _) = l.resolves n i at in (b, find_of_lookup (add_backends s bs) n at ∙ here)
]

build_routes-built :
    (s : State) (name : Text) (base i : ℕ) (cfgs : List RouteConfig)
    → All (λ r. Known s r.backend) cfgs
    → (routes : List Route) × (build_routes s name base i cfgs ≡ built routes)
unfolding build_routes
build_routes-built s name base i [] h = ([], refl)
build_routes-built s name base i (cfg ∷ cfgs) ((b, here), h) =
    let (routes, e) = build_routes-built s name base (suc i) cfgs h in
    (make_route name base i cfg b ∷ routes, ground (arith, here, e))

add_aliases-built :
    (s : State) (base : ℕ) (cfgs : List AliasConfig)
    → All (λ a. All (λ r. Known s r.backend) a.routes) cfgs
    → (s' : State) × (add_aliases s base cfgs ≡ built s')
unfolding add_aliases add_alias find
add_aliases-built s base [] h = (s, refl)
add_aliases-built s base (cfg ∷ cfgs) (routed, h) =
    let (routes, e) = build_routes-built s cfg.name base 0 cfg.routes routed in
    let (s', e') =
      add_aliases-built (add_alias s (record { name = cfg.name; routes = routes }))
        (base + length routes) cfgs h in
    (s', ground (arith, e, e'))

pub new_state-built :
    (cfg : Config) (backends : List Backend) (m : Option Metrics)
    → All (λ b. pos 0 ≤ℤ b.max_inflight) backends
    → All (λ a. All (λ r. ¬ All (λ b. b.name ≢ r.backend) backends) a.routes) cfg.aliases
    → (s : State) × (new_state cfg backends m ≡ built s)
unfolding new_state
new_state-built cfg backends m rooms named =
    let l = add_backends-Loading backends (empty_state m) rooms (empty-Loading m) in
    add_aliases-built (add_backends (empty_state m) backends) 0 cfg.aliases (
      All-map _ _
        (λ a. All-map _ _ (λ r. named_backend-Known backends (empty_state m) r.backend l) a.routes)
        cfg.aliases named)
