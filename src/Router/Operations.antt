-- ===== src/Router/Operations.antt =====
-- internal/router/state.go: the methods of State. Each one takes the mutex for its whole reading and
-- writing of the state, so it is one function on the state; the samples that it publishes after
-- unlocking are part of it. `none` is a nil dereference. A count of reservations starts at 0 and
-- is decremented only where it is positive, so it is a natural number.
pub mod Slots
pub mod Keeps
pub mod Reserves
pub mod Swaps
pub mod Releases
pub mod Readiness
pub mod Labelling
use local_inference_router.Base.{
  ℕ, ◌+◌, ◌-◌, ℤ, Text, Bool, true, false, not, ◌&&◌, Option, none, some, List, [], ◌∷◌, length,
  map, lookup, text_eq, ltb, if◌then◌else◌, ◌>>=◌,
}
use local_inference_router.Metrics.{set_inflight, set_healthy}
use local_inference_router.Router.State.{Route, BackendState, AliasState, State, find, put, publish}
use local_inference_router.Router.Select.{select_locked}

-- ErrNoRoute and ErrUnknownAlias
pub data RouteError : Type 0 where
  no_route unknown_alias : RouteError

pub data Reservation : Type 0 where
  granted : Route → Reservation
  refused : RouteError → Reservation

unfoldable pub set_health : Text → Bool → State → State
set_health name up s = elim (find s name) [
  | none ↦ s
  | some bs ↦
      publish (set_healthy name up) (put s name (record bs { checked = true; healthy = up }))
]

unfoldable pub has_alias : Text → State → Bool
has_alias name s = elim (lookup name s.aliases) [ none ↦ false | some alias ↦ true ]

unfoldable pub route_count : Text → State → ℕ
route_count name s = elim (lookup name s.aliases) [ none ↦ 0 | some alias ↦ length alias.routes ]

-- The tail of Reserve, on the selected route.
take_slot : State → Route → Option (State × Reservation)
take_slot s selected = do
  bs ← find s selected.backend.name
  some (
    publish (set_inflight bs.backend.name (bs.inflight + 1))
        (put s selected.backend.name (record bs { inflight = bs.inflight + 1 })),
    granted selected,
  )

reserve_from : State → Option Route → Option (State × Reservation)
unfolding take_slot
reserve_from s none = some (s, refused no_route)
reserve_from s (some selected) = take_slot s selected

unfoldable pub reserve : Text → List ℕ → State → Option (State × Reservation)
unfolding reserve_from
reserve alias_name attempted s = elim (lookup alias_name s.aliases) [
  | none ↦ some (s, refused unknown_alias)
  | some alias ↦ (select_locked s alias attempted >>= reserve_from s)
]

-- The samples of SwapReservation, from the two backends as they are at the unlock.
publish_swap : BackendState → BackendState → State → State
publish_swap current selected s = publish (set_inflight selected.backend.name selected.inflight) (
    if not (text_eq current.backend.name selected.backend.name)
    then publish (set_inflight current.backend.name current.inflight) s
    else s)

-- The tail of SwapReservation: `freed` is the state with the current slot given up.
swap_to : Text → State → Option Route → Option (State × Reservation)
unfolding publish_swap
swap_to current freed none = do
  bs ← find freed current
  some (put freed current (record bs { inflight = bs.inflight + 1 }), refused no_route)
swap_to current freed (some selected) = do
  chosen ← find freed selected.backend.name
  let taken = put freed selected.backend.name (record chosen { inflight = chosen.inflight + 1 })
  current_bs ← find taken current
  selected_bs ← find taken selected.backend.name
  some (publish_swap current_bs selected_bs taken, granted selected)

swap_from : Text → AliasState → List ℕ → State → BackendState → Option (State × Reservation)
unfolding swap_to
swap_from current alias attempted s bs =
    if ltb 0 bs.inflight
    then (let freed = put s current (record bs { inflight = bs.inflight - 1 }) in
        select_locked freed alias attempted >>= swap_to current freed)
    else some (s, refused no_route)

unfoldable pub swap_reservation :
    Text → Option Route → List ℕ → State → Option (State × Reservation)
unfolding swap_from
swap_reservation alias_name none attempted s = some (s, refused no_route)
swap_reservation alias_name (some current) attempted s = elim (lookup alias_name s.aliases) [
  | none ↦ some (s, refused unknown_alias)
  | some alias ↦ elim (find s current.backend.name) [
    | none ↦ some (s, refused no_route)
    | some bs ↦ swap_from current.backend.name alias attempted s bs
  ]
]

unfoldable pub release : Option Route → State → State
release none s = s
release (some route) s = elim (find s route.backend.name) [
  | none ↦ s
  | some bs ↦
      let left = if ltb 0 bs.inflight then bs.inflight - 1 else bs.inflight in
      publish (set_inflight route.backend.name left)
        (put s route.backend.name (record bs { inflight = left }))
]

pub alias_ready : State → List Route → Option Bool
alias_ready s [] = some false
alias_ready s (r ∷ rs) = do
  bs ← find s r.backend.name
  if bs.checked && bs.healthy then some true else alias_ready s rs

pub all_ready : State → List AliasState → Option Bool
unfolding alias_ready
all_ready s [] = some true
all_ready s (a ∷ as_) = do
  up ← alias_ready s a.routes
  if not up then some false else all_ready s as_

unfoldable pub ready : State → Option Bool
unfolding all_ready
ready s = all_ready s s.alias_order

pub record BackendStatus : Type 0 where
  pub name : Text
  pub kind : Text
  pub checked : Bool
  pub healthy : Bool
  pub inflight : ℕ
  pub max_inflight : ℤ

pub record AliasStatus : Type 0 where
  pub name : Text
  pub ready : Bool
  pub route_count : ℕ

pub record Status : Type 0 where
  pub backends : List BackendStatus
  pub aliases : List AliasStatus

backend_status : BackendState → BackendStatus
backend_status bs = record {
  name = bs.backend.name;
  kind = bs.backend.kind;
  checked = bs.checked;
  healthy = bs.healthy;
  inflight = bs.inflight;
  max_inflight = bs.backend.max_inflight;
}

alias_statuses : State → List AliasState → Option (List AliasStatus)
alias_statuses s [] = some []
alias_statuses s (a ∷ as_) = do
  up ← alias_ready s a.routes
  rest ← alias_statuses s as_
  some (record { name = a.name; ready = up; route_count = length a.routes } ∷ rest)

unfoldable pub snapshot : State → Option Status
unfolding backend_status alias_statuses
snapshot s = do
  aliases ← alias_statuses s s.alias_order
  some (record { backends = map backend_status s.order; aliases = aliases })

unfoldable pub alias_names : State → List Text
alias_names s = map (λ a. a.name) s.alias_order
