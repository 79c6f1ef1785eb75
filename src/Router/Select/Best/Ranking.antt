-- ===== src/Router/Select/Best/Ranking.antt =====
-- Which route is the best one of a list.
use local_inference_router.Base.{
  ℕ, pos, ◌<◌, ◌<ℤ◌, ◌≡◌, ◌⊎◌, true, false, Option, none, some, List, ◌∷◌, ◌++◌, contains, All,
}
use local_inference_router.Router.State.{Route, BackendState, State, find}

-- The reservations on the backend of a route.
abbrev pub load : State → Route → ℕ
load s r = elim (find s r.backend.name) [ none ↦ 0 | some b ↦ b.inflight ]

-- A backend that can take one more request.
abbrev pub HasRoom : BackendState → Type 0
HasRoom b = (b.checked ≡ true) × (b.healthy ≡ true) × (pos b.inflight <ℤ b.backend.max_inflight)

-- Not attempted, checked, healthy and below its capacity.
abbrev pub Eligible : State → List ℕ → Route → Type 0
Eligible s attempted r =
    (contains attempted r.address ≡ false)
    × ((b : BackendState) × (find s r.backend.name ≡ some b) × HasRoom b)

-- The backend of a route has its state.
abbrev pub Found : State → Route → Type 0
Found s r = (b : BackendState) × (find s r.backend.name ≡ some b)

-- A lower priority value first, then fewer reservations.
abbrev pub Better : State → Route → Route → Type 0
Better s q r = (q.priority <ℤ r.priority) ⊎ ((q.priority ≡ r.priority) × (load s q < load s r))

-- The best eligible route, and among equals the first of the configuration.
pub record IsBest (s : State) (attempted : List ℕ) (routes : List Route) (r : Route) : Type 0 where
  pub before : List Route
  pub after : List Route
  pub split : routes ≡ before ++ r ∷ after
  pub eligible : Eligible s attempted r
  pub earlier : All (λ q. Eligible s attempted q → Better s r q) before
  pub later : All (λ q. Eligible s attempted q → ¬ Better s q r) after

abbrev pub Selects : State → List ℕ → List Route → Option Route → Type 0
Selects s attempted routes none = All (λ q. ¬ Eligible s attempted q) routes
Selects s attempted routes (some r) = IsBest s attempted routes r
