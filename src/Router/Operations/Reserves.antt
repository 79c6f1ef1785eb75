-- ===== src/Router/Operations/Reserves.antt =====
-- What Reserve does to a valid state, on every branch.
use local_inference_router.Base.{
  ℕ, ◌+◌, Text, ◌≡◌, refl, ◌∙◌, inl, inr, Option, none, some, List, lookup, All, Option-cases,
}
use local_inference_router.Metrics.{set_inflight}
use local_inference_router.Router.State.{Route, BackendState, AliasState, State, find, put, publish}
use local_inference_router.Router.State.Valid.{IsValid, publish-IsValid}
use local_inference_router.Router.Select.Best.{
  Eligible, IsBest, Selects, select_locked-Selects, select_locked_total, HasRoom,
}
use local_inference_router.Router.Operations.{
  Reservation, granted, refused, no_route, unknown_alias,
}
use local_inference_router.Router.Operations.{take_slot, reserve_from, reserve}
use local_inference_router.Router.Operations.Slots.{
  inflight_of, slot, with_inflight, inflight_of-publish, take-IsValid, take-inflight_of,
}
use local_inference_router.Router.Operations.Keeps.{
  Keeps, Keeps-trans, publish-Keeps, put-Keeps, All-Found,
}

-- A new reservation on the best eligible route of the alias.
pub record Gains (s s' : State) (r : Route) : Type 0 where
  pub valid : IsValid s'
  pub keeps : Keeps s s'
  pub counts : (n : Text) → inflight_of s' n ≡ inflight_of s n + slot r.backend.name n

pub data Reserves (name : Text) (attempted : List ℕ) (s s' : State) : Reservation → Type 0 where
  no_alias :
      lookup name s.aliases ≡ none → s' ≡ s → Reserves name attempted s s' (refused unknown_alias)
  nowhere :
      (a : AliasState)
      → lookup name s.aliases ≡ some a
      → All (λ q. ¬ Eligible s attempted q) a.routes
      → s' ≡ s
      → Reserves name attempted s s' (refused no_route)
  reserved :
      (a : AliasState) (r : Route)
      → lookup name s.aliases ≡ some a
      → IsBest s attempted a.routes r
      → Gains s s' r
      → Reserves name attempted s s' (granted r)

take_slot-Gains :
    (s : State) (r : Route) (b : BackendState)
    → IsValid s
    → find s r.backend.name ≡ some b
    → HasRoom b
    → (s' : State) × (take_slot s r ≡ some (s', granted r)) × Gains s s' r
unfolding take_slot
take_slot-Gains s r b v here room =
    let taken : State = put s r.backend.name (with_inflight b (b.inflight + 1)) in
    (
      publish (set_inflight b.backend.name (b.inflight + 1)) taken,
      rw here,
      record {
        valid = publish-IsValid _ taken (take-IsValid s r.backend.name b v here room);
        keeps =
            Keeps-trans (put-Keeps s r.backend.name b (b.inflight + 1) v.injective here)
              (publish-Keeps _ taken);
        counts = λ n. inflight_of-publish _ taken n ∙ take-inflight_of s r.backend.name b v here n;
      },
    )

reserve_from-Reserves :
    (name : Text) (attempted : List ℕ) (s : State) (a : AliasState) (chosen : Option Route)
    → IsValid s
    → lookup name s.aliases ≡ some a
    → Selects s attempted a.routes chosen
    → (s' : State) × (res : Reservation) × (reserve_from s chosen ≡ some (s', res))
      × Reserves name attempted s s' res
unfolding reserve_from
reserve_from-Reserves name attempted s a none v known none_fits =
    (s, refused no_route, refl, nowhere a known none_fits refl)
reserve_from-Reserves name attempted s a (some r) v known best =
    let (fresh, (b, here, room)) = best.eligible in
    let (s', taken, gains) = take_slot-Gains s r b v here room in
    (s', granted r, taken, reserved a r known best gains)

-- On a valid state Reserve returns without a nil dereference. It refuses an unknown alias, or an
-- alias without an eligible route, and leaves the state; or it grants the best eligible route,
-- adds one to the count of its backend and changes no other count, no health flag and no alias,
-- with no backend above its capacity.
pub reserve-Reserves :
    (name : Text) (attempted : List ℕ) (s : State)
    → IsValid s
    → (s' : State) × (res : Reservation) × (reserve name attempted s ≡ some (s', res))
      × Reserves name attempted s s' res
unfolding reserve
reserve-Reserves name attempted s v = elim (Option-cases (lookup name s.aliases)) [
  | inl unknown ↦ (s, refused unknown_alias, rw (unknown, reserve), no_alias unknown refl)
  | inr (a, known) ↦
      let (chosen, selected) =
        select_locked_total s attempted a (All-Found s a.routes v (v.routed name a known)) in
      let (s', res, run, spec) =
        reserve_from-Reserves name attempted s a chosen v known
          (select_locked-Selects s attempted a chosen selected) in
      (s', res, rw (known, reserve, selected) run, spec)
]
