-- ===== src/Router/Gauge.antt =====
-- internal/router/state.go: Release in its two parts. The count is written under the mutex, and its
-- value is published after the unlock, where the parts of other calls can come in between.
use local_inference_router.Base.{
  ℕ, ◌-◌, Text, text_eq, Option, none, some, List, [], ◌∷◌, ltb, if◌then◌else◌, ◌≡◌, refl,
  Option-cases, inl, inr,
}
use local_inference_router.Metrics.{Sample, set_to, inflight, set_inflight}
use local_inference_router.Router.State.{Route, State, find, put, publish}
use local_inference_router.Router.Operations.{release}

-- Up to the unlock: the new state, and the value to publish if the backend is in the map.
unfoldable pub release_locked : Option Route → State → State × Option (Text × ℕ)
release_locked none s = (s, none)
release_locked (some route) s = elim (find s route.backend.name) [
  | none ↦ (s, none)
  | some bs ↦
      let left = if ltb 0 bs.inflight then bs.inflight - 1 else bs.inflight in
      (put s route.backend.name (record bs { inflight = left }), some (route.backend.name, left))
]

-- After it.
unfoldable pub publish_inflight : Option (Text × ℕ) → State → State
publish_inflight none s = s
publish_inflight (some (name, value)) s = publish (set_inflight name value) s

-- Without another call in between the parts are Release.
pub release-parts :
    (route : Option Route) (s : State)
    → release route s ≡ publish_inflight (release_locked route s).1 (release_locked route s).0
unfolding release release_locked publish_inflight
release-parts none s = refl
release-parts (some route) s = elim (Option-cases (find s route.backend.name)) [
  | inl missing ↦ rw (missing, release, release_locked) refl
  | inr (b, here) ↦ rw (here, release, release_locked) refl
]

-- What the in-flight gauge of a backend shows.
gauge_from : Text → List Sample → Option ℕ
gauge_from name [] = none
gauge_from name (set_to inflight (label ∷ []) value ∷ xs) =
    let rest = gauge_from name xs in if text_eq label name then some value else rest
gauge_from name (_ ∷ xs) = gauge_from name xs

unfoldable pub gauge : Text → State → Option ℕ
unfolding gauge_from
gauge name s = elim s.metrics [ none ↦ none | some m ↦ gauge_from name m.samples ]
