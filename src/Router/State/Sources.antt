-- ===== src/Router/State/Sources.antt =====
-- The backends of the state that NewState builds are the ones that it is given.
use local_inference_router.Base.{
  ℕ, ◌+◌, ◌≡◌, refl, inl, inr, some, true, ◌∙◌, List, [], ◌∷◌, arith, length, All, All-append,
}
use mathlib.Core.Path.{subst}
use local_inference_router.Config.{Config, AliasConfig}
use local_inference_router.Backend.{Backend}
use local_inference_router.Metrics.{Metrics}
use local_inference_router.Router.State.{
  State, built, add_backend, add_backends, build_routes, add_alias, add_aliases, empty_state,
  new_state, publish,
}
use local_inference_router.Router.State.Building.{Built-cases}
use local_inference_router.Router.Operations.Keeps.{metered, publish-metered}

module _ (P : Backend → Type 0) where
  -- The state has metrics, and `P` holds of its backends.
  abbrev pub Sourced : State → Type 0
  Sourced s = (metered s ≡ true) × All (λ b. P b.backend) s.order

  add_backends-Sourced :
      (bs : List Backend) (s : State) → All P bs → Sourced s → Sourced (add_backends s bs)
  unfolding add_backends add_backend publish
  add_backends-Sourced [] s h k = k
  add_backends-Sourced (b ∷ bs) s (p, h) (m, k) =
      add_backends-Sourced bs (add_backend s b) h
        (publish-metered _ s ∙ m, All-append _ s.order _ k (p, tt))

  add_aliases-Sourced :
      (cfgs : List AliasConfig) (s s' : State) (base : ℕ)
      → Sourced s
      → add_aliases s base cfgs ≡ built s'
      → Sourced s'
  unfolding add_aliases add_alias
  add_aliases-Sourced [] s s' base k e = let same : s ≡ s' = ground arith in subst Sourced same k
  add_aliases-Sourced (cfg ∷ cfgs) s s' base k e =
      elim (Built-cases (build_routes s cfg.name base 0 cfg.routes)) [
        | inr (x, y, failed) ↦ absurd (ground arith)
        | inl (routes, done) ↦
            add_aliases-Sourced cfgs (add_alias s (record { name = cfg.name; routes = routes })) s'
              (base + length routes) k (ground arith)
      ]

  -- What holds of each backend that NewState is given holds of each backend of its state.
  pub new_state-Sourced :
      (cfg : Config) (backends : List Backend) (m : Metrics) (s : State)
      → All P backends
      → new_state cfg backends (some m) ≡ built s
      → Sourced s
  unfolding new_state empty_state
  new_state-Sourced cfg backends m s h e =
      add_aliases-Sourced cfg.aliases (add_backends (empty_state (some m)) backends) s 0
        (add_backends-Sourced backends (empty_state (some m)) h (refl, tt)) e
