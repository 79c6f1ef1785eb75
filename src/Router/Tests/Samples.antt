-- ===== src/Router/Tests/Samples.antt =====
-- Two backends and one alias with three routes, two of them on the first backend.
use local_inference_router.Base.{
  ℕ, pos, ◌≤ℤ◌, Text, bytes, ◌≡◌, refl, true, false, Option, none, some, [], ◌∷◌, lookup, insert,
  text_eq, contains, All, arith,
}
use local_inference_router.Config.{Config, RouteConfig}
use local_inference_router.Config.Url.{Url}
use local_inference_router.Backend.{Backend}
use local_inference_router.Metrics.{init_backend}
use local_inference_router.Router.State.{
  Route, State, Built, built, unknown_backend, new_state, find, put, publish,
}
use local_inference_router.Router.State.Building.{Starts, new_state-Starts}
use local_inference_router.Router.State.Valid.{IsValid}
use local_inference_router.Router.Operations.{
  set_health, reserve, Reservation, granted, swap_reservation,
}
use local_inference_router.Router.Operations.Keeps.{metered}
use local_inference_router.Router.Operations.Releases.{set_health-Reports}
use local_inference_router.Router.Select.{select_locked, select_step}

abbrev origin : Text → Url
origin host = record {
  scheme = bytes "http";
  opaque = [];
  user = none;
  host = host;
  path = [];
  force_query = false;
  raw_query = [];
  fragment = [];
}

abbrev pub backend_a : Backend
backend_a = record {
  name = bytes "a";
  kind = bytes "vllm";
  base_url = origin (bytes "a:8000");
  max_inflight = pos 1;
  response_header_timeout = pos 1000;
  response_idle_timeout = pos 1000;
  token = bytes "t";
}

abbrev pub backend_b : Backend
backend_b = record backend_a {
  name = bytes "b";
  base_url = origin (bytes "b:8000");
  max_inflight = pos 2;
}

abbrev route_config : Text → Text → ℕ → RouteConfig
route_config backend model priority = record {
  backend = backend;
  upstream_model = model;
  priority = pos priority;
}

abbrev pub config : Config
config = record {
  version = pos 1;
  listen = bytes "127.0.0.1:8080";
  bearer_token_env = [];
  backends = [];
  aliases =
      record {
        name = bytes "chat";
        routes =
            route_config (bytes "a") (bytes "m1") 10
            ∷ route_config (bytes "a") (bytes "m2") 10
            ∷ route_config (bytes "b") (bytes "m3") 20
            ∷ [];
      }
      ∷ [];
}

abbrev state_of : Built State → State
state_of (built s) = s
state_of (unknown_backend x y) = record {
  backends = [];
  order = [];
  aliases = [];
  alias_order = [];
  metrics = none;
}

unfoldable pub fresh : State
unfolding new_state lookup insert text_eq find publish init_backend
fresh = state_of (new_state config (backend_a ∷ backend_b ∷ []) (some (record { samples = [] })))

pub fresh_built :
    new_state config (backend_a ∷ backend_b ∷ []) (some (record { samples = [] })) ≡ built fresh
unfolding fresh
fresh_built = refl

pub fresh_rooms : All (λ b. pos 0 ≤ℤ b.max_inflight) (backend_a ∷ backend_b ∷ [])
fresh_rooms = omega arith

pub fresh-Starts : Starts fresh
fresh-Starts =
    new_state-Starts config (backend_a ∷ backend_b ∷ []) (some (record { samples = [] })) fresh
      fresh_rooms fresh_built

pub fresh-metered : metered fresh ≡ true
unfolding fresh
fresh-metered = refl

-- Both backends are healthy.
unfoldable pub up : State
unfolding fresh set_health find put publish lookup text_eq
up = set_health (bytes "b") true (set_health (bytes "a") true fresh)

pub up-IsValid : IsValid up
unfolding up
up-IsValid =
    (set_health-Reports (bytes "b") true _
      (set_health-Reports (bytes "a") true fresh fresh-Starts.valid).valid).valid

pub up-metered : metered up ≡ true
unfolding up
up-metered = refl

abbrev route_at : ℕ → Text → Route
route_at i model = record {
  alias = bytes "chat";
  backend = backend_a;
  upstream_model = model;
  priority = pos 10;
  order = i;
  address = i;
}

abbrev pub first_route : Route
first_route = route_at 0 (bytes "m1")

abbrev pub second_route : Route
second_route = route_at 1 (bytes "m2")

abbrev pub chosen : Option (State × Reservation) → Option Reservation
chosen none = none
chosen (some (s, r)) = some r

-- Two routes of equal priority on one backend: the first of the configuration.
reserve_first : chosen (reserve (bytes "chat") [] up) ≡ some (granted first_route)
unfolding up reserve select_locked select_step contains
reserve_first = refl

-- At capacity, a second request goes to the other backend; a swap stays on the first.
abbrev after : Option (State × Reservation) → State
after none = up
after (some (s, r)) = s

unfoldable pub busy : State
unfolding up reserve select_locked select_step contains
busy = after (reserve (bytes "chat") [] up)

swap_second :
    chosen (swap_reservation (bytes "chat") (some first_route) (0 ∷ []) busy)
    ≡ some (granted second_route)
unfolding busy swap_reservation
swap_second = refl
