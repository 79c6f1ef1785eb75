-- ===== src/Router/Tests/Examples.antt =====
-- The theorems about the routing state at concrete inputs.
use local_inference_router.Base.{
  ℕ, suc, Text, bytes, ◌≡◌, refl, true, false, Option, none, some, [], ◌∷◌, lookup, text_eq,
  contains,
}
use local_inference_router.Router.State.{State, AliasState, find}
use local_inference_router.Router.Select.{select_locked, select_step}
use local_inference_router.Router.Select.Best.{Selects, select_locked-Selects}
use local_inference_router.Router.Operations.{
  Reservation, reserve, swap_reservation, snapshot, Status,
}
use local_inference_router.Router.Operations.Reserves.{Reserves, reserve-Reserves}
use local_inference_router.Router.Operations.Swaps.{Swaps, swap_reservation-Swaps}
use local_inference_router.Router.Operations.Readiness.{Shows, snapshot-Shows}
use local_inference_router.Router.Proxy.{Attempt, Call, Reply, answered, sendable}
use local_inference_router.Router.Proxy.Sends.{Accepted}
use local_inference_router.Router.Proxy.Run.{serve, Returned, serve-Returned}
use local_inference_router.Router.Tests.Samples.{up, up-IsValid, up-metered, first_route}

abbrev pub chat : Text
chat = bytes "chat"

abbrev chat_state : AliasState
chat_state = record { name = chat; routes = first_route ∷ [] }

select_locked-Selects_example : Selects up [] (first_route ∷ []) (some first_route)
unfolding up select_locked select_step contains find lookup text_eq
select_locked-Selects_example = select_locked-Selects up [] chat_state (some first_route) refl

reserve-Reserves_example :
    (s' : State) × (res : Reservation) × (reserve chat [] up ≡ some (s', res))
    × Reserves chat [] up s' res
reserve-Reserves_example = reserve-Reserves chat [] up up-IsValid

up-routed : (i : ℕ) × (lookup (bytes "a") up.backends ≡ some i)
unfolding up
up-routed = (0, refl)

swap_reservation-Swaps_example :
    (s' : State) × (res : Reservation) × (swap_reservation chat (some first_route) (0 ∷ []) up
      ≡ some (s', res))
    × Swaps chat first_route (0 ∷ []) up s' res
swap_reservation-Swaps_example =
    swap_reservation-Swaps chat first_route (0 ∷ []) up up-IsValid up-routed

snapshot-Shows_example : (st : Status) × (snapshot up ≡ some st) × Shows up st
snapshot-Shows_example = snapshot-Shows up up-IsValid

-- The first attempt gets a 503, the next one a 200.
abbrev pub answers : ℕ → Attempt
answers k = record {
  result = answered (record { status_code = elim k [ suc ℕ.zero ↦ 503 | _ ↦ 200 ]; header = [] });
  elapsed = 1;
  context_done = false;
}

abbrev pub no_media_type : Text → Option Text
no_media_type t = none

pub answers-Accepted : (k : ℕ) → Accepted (answers k).result
unfolding sendable
answers-Accepted ℕ.zero = refl
answers-Accepted (suc ℕ.zero) = refl
answers-Accepted (suc (suc k)) = refl

serve-Returned_example :
    (s' : State) × (c' : Call) × (reply : Reply) × (serve no_media_type answers chat true up
      ≡ some (s', c', reply))
    × Returned no_media_type up s' chat c' reply
serve-Returned_example =
    serve-Returned no_media_type answers chat true up answers-Accepted up-IsValid up-metered
