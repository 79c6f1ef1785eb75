-- ===== src/Router/State.antt =====
-- internal/router/state.go: the data that the routing mutex guards, and how NewState builds it.
-- A *backendState is shared by the map `backends` and the slice `order`, and NewState appends each
-- one to `order` when it allocates it: its address is its position there, which is what the map
-- holds. The remaining pointers are to values that never change after NewState, so they are held
-- by value; a *Route keeps its `address`, since the program compares routes by pointer.
pub mod Store
pub mod Valid
pub mod Building
pub mod Starting
pub mod Sources
pub mod Labelling
use local_inference_router.Base.{
  ℕ, suc, ◌+◌, ℤ, Text, Bool, true, false, Option, none, some, List, [], ◌∷◌, ◌++◌, length,
  get_elem?, set, lookup, insert, ◌>>=◌,
}
use mathlib.Core.Option
use local_inference_router.Config.{Config, AliasConfig, RouteConfig}
use local_inference_router.Backend.{Backend}
use local_inference_router.Metrics.{Metrics, init_backend}

pub record Route : Type 0 where
  pub alias : Text
  pub backend : Backend
  pub upstream_model : Text
  pub priority : ℤ
  pub order : ℕ
  pub address : ℕ

pub record BackendState : Type 0 where
  pub backend : Backend
  pub checked : Bool
  pub healthy : Bool
  pub inflight : ℕ

pub record AliasState : Type 0 where
  pub name : Text
  pub routes : List Route

pub record State : Type 0 where
  pub backends : List (Text × ℕ)
  pub order : List BackendState
  pub aliases : List (Text × AliasState)
  pub alias_order : List AliasState
  pub metrics : Option Metrics

-- s.backends[name], read through its pointer; `none` for a missing key.
unfoldable pub find : State → Text → Option BackendState
find s name = do i ← lookup name s.backends; get_elem? s.order i

-- The assignment *s.backends[name] = bs.
unfoldable pub put : State → Text → BackendState → State
put s name bs = elim (lookup name s.backends) [
  | none ↦ s
  | some i ↦ record s { order = set s.order i bs }
]

-- A call of the metrics, which a State may lack.
unfoldable pub publish : (Metrics → Metrics) → State → State
publish f s = record s { metrics = Option.map f s.metrics }

add_backend : State → Backend → State
unfolding publish
add_backend s b = publish (init_backend b.name) (record s {
  backends = insert b.name (length s.order) s.backends;
  order = s.order ++ record { backend = b; checked = false; healthy = false; inflight = 0 } ∷ [];
})

pub add_backends : State → List Backend → State
add_backends s [] = s
add_backends s (b ∷ bs) = add_backends (add_backend s b) bs

-- The results of NewState: an alias may name a backend that there is not.
pub data Built {ℓ} (A : Type ℓ) : Type ℓ where
  built : A → Built A
  unknown_backend : Text → Text → Built A

abbrev make_route : Text → ℕ → ℕ → RouteConfig → BackendState → Route
make_route name base i cfg bs = record {
  alias = name;
  backend = bs.backend;
  upstream_model = cfg.upstream_model;
  priority = cfg.priority;
  order = i;
  address = base + i;
}

-- The loop over the routes of one alias; the addresses from `base` on are free.
build_routes : State → Text → ℕ → ℕ → List RouteConfig → Built (List Route)
build_routes s name base i [] = built []
build_routes s name base i (cfg ∷ cfgs) =
    let rest = build_routes s name base (suc i) cfgs in
    elim (find s cfg.backend) [
      | none ↦ unknown_backend name cfg.backend
      | some bs ↦ elim rest [
        | unknown_backend a b ↦ unknown_backend a b
        | built routes ↦ built (make_route name base i cfg bs ∷ routes)
      ]
    ]

add_alias : State → AliasState → State
add_alias s alias = record s {
  aliases = insert alias.name alias s.aliases;
  alias_order = s.alias_order ++ alias ∷ [];
}

pub add_aliases : State → ℕ → List AliasConfig → Built State
unfolding build_routes add_alias
add_aliases s base [] = built s
add_aliases s base (cfg ∷ cfgs) = elim (build_routes s cfg.name base 0 cfg.routes) [
  | unknown_backend a b ↦ unknown_backend a b
  | built routes ↦
      add_aliases (add_alias s (record { name = cfg.name; routes = routes })) (base + length routes)
        cfgs
]

pub empty_state : Option Metrics → State
empty_state m = record { backends = []; order = []; aliases = []; alias_order = []; metrics = m }

unfoldable pub new_state : Config → List Backend → Option Metrics → Built State
unfolding add_backends add_backend add_aliases empty_state
new_state cfg backends m = add_aliases (add_backends (empty_state m) backends) 0 cfg.aliases
