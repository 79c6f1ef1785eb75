-- ===== src/Router/Tests/Gauges.antt =====
-- The in-flight gauge when two calls of Release overlap.
use local_inference_router.Base.{
  pos, bytes, ◌≡◌, refl, Option, none, some, [], ◌∷◌, contains, lookup, text_eq,
}
use local_inference_router.Router.State.{Route, State, find, put, publish}
use local_inference_router.Router.Select.{select_locked, select_step}
use local_inference_router.Router.Operations.{Reservation, reserve}
use local_inference_router.Router.Operations.Slots.{inflight_of}
use local_inference_router.Router.Gauge.{release_locked, publish_inflight, gauge}
use local_inference_router.Metrics.{set_inflight}
use local_inference_router.Router.Tests.Samples.{backend_b, first_route, up}
use local_inference_router.Router.Tests.Examples.{chat}

abbrev route_b : Route
route_b = record first_route {
  backend = backend_b;
  upstream_model = bytes "m3";
  priority = pos 20;
  order = 2;
  address = 2;
}

abbrev next_state : Option (State × Reservation) → State
next_state none = up
next_state (some (s, r)) = s

-- Two requests hold a slot of the second backend.
abbrev full : State
full = next_state (reserve chat (1 ∷ 0 ∷ []) (next_state (reserve chat (1 ∷ 0 ∷ []) up)))

-- The first call unlocks, the second one unlocks and publishes, and then the first one publishes.
abbrev overlapped : State
overlapped =
    let (once, late) = release_locked (some route_b) full in
    let (twice, early) = release_locked (some route_b) once in
    publish_inflight late (publish_inflight early twice)

-- No request holds a slot, and the gauge shows one.
stale_test : (inflight_of overlapped (bytes "b") ≡ 0) × (gauge (bytes "b") overlapped ≡ some 1)
unfolding up reserve select_locked select_step contains release_locked publish_inflight gauge
    inflight_of set_inflight lookup text_eq find put publish
stale_test = (refl, refl)
