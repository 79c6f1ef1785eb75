-- ===== src/Router/Operations/Swaps/Outcomes.antt =====
-- The outcomes of SwapReservation on a valid state.
use local_inference_router.Base.{ℕ, ◌+◌, ◌-◌, ◌<◌, Text, ◌≡◌, none, some, List, lookup, All}
use local_inference_router.Router.State.{Route, AliasState, State, find, put}
use local_inference_router.Router.State.Valid.{IsValid}
use local_inference_router.Router.Select.Best.{Eligible, IsBest}
use local_inference_router.Router.Operations.{
  Reservation, granted, refused, no_route, unknown_alias,
}
use local_inference_router.Router.Operations.Slots.{inflight_of, slot, with_inflight}
use local_inference_router.Router.Operations.Keeps.{Keeps}

-- The state in which the current slot is given up.
abbrev pub vacated : State → Text → State
vacated s n = elim (find s n) [ none ↦ s | some b ↦ put s n (with_inflight b (b.inflight - 1)) ]

-- One reservation moves from a backend to a backend; neither count is ever above its capacity.
pub record Moves (s s' : State) (current chosen : Route) : Type 0 where
  pub valid : IsValid s'
  pub keeps : Keeps s s'
  pub counts :
      (n : Text)
      → inflight_of s' n + slot current.backend.name n
        ≡ inflight_of s n + slot chosen.backend.name n

-- The same state for every reader.
pub record Restored (s s' : State) : Type 0 where
  pub valid : IsValid s'
  pub keeps : Keeps s s'
  pub counts : (n : Text) → inflight_of s' n ≡ inflight_of s n

pub data Swaps (name : Text) (current : Route) (attempted : List ℕ) (s s' : State)
    : Reservation → Type 0 where
  no_alias :
      lookup name s.aliases ≡ none
      → s' ≡ s
      → Swaps name current attempted s s' (refused unknown_alias)
  not_held :
      (a : AliasState)
      → lookup name s.aliases ≡ some a
      → inflight_of s current.backend.name ≡ 0
      → s' ≡ s
      → Swaps name current attempted s s' (refused no_route)
  nowhere :
      (a : AliasState)
      → lookup name s.aliases ≡ some a
      → 0 < inflight_of s current.backend.name
      → All (λ q. ¬ Eligible (vacated s current.backend.name) attempted q) a.routes
      → Restored s s'
      → Swaps name current attempted s s' (refused no_route)
  moved :
      (a : AliasState) (r : Route)
      → lookup name s.aliases ≡ some a
      → 0 < inflight_of s current.backend.name
      → IsBest (vacated s current.backend.name) attempted a.routes r
      → Moves s s' current r
      → Swaps name current attempted s s' (granted r)
