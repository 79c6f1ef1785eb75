-- ===== src/Router/Operations/Swaps.antt =====
-- What SwapReservation does to a valid state, on every branch.
mod Outcomes
pub use Outcomes.*
use local_inference_router.Base.{
  ℕ, ◌+◌, ◌-◌, ◌<◌, Text, ◌≡◌, refl, sym, ◌∙◌, inl, inr, Option, none, some, List, arith, lookup,
  All, Option-cases, Bool-cases, ltb, text_eq, text_eq_iff, if◌then◌else◌, Bool, true, false,
}
use mathlib.Core.Path.{subst}
use local_inference_router.Metrics.{Metrics}
use local_inference_router.Router.State.{Route, BackendState, AliasState, State, find, put, publish}
use local_inference_router.Router.State.Store.{find-put_self, find-put}
use local_inference_router.Router.State.Valid.{
  IsValid, Routed, find_of_Routed, publish-IsValid, put-IsValid, find-InCapacity,
}
use local_inference_router.Router.Select.Best.{
  Eligible, IsBest, Selects, select_locked-Selects, select_locked_total,
}
use local_inference_router.Router.Operations.{
  Reservation, granted, refused, no_route, unknown_alias,
}
use local_inference_router.Router.Operations.{swap_to, swap_from, swap_reservation, publish_swap}
use local_inference_router.Router.Operations.Slots.{
  inflight_of, slot, with_inflight, inflight_of-publish, inflight_of-find, take-IsValid,
  take-inflight_of, free-IsValid, free-inflight_of,
}
use local_inference_router.Router.Operations.Keeps.{
  Keeps, Keeps-refl, Keeps-trans, publish-Keeps, put-Keeps, All-Found,
}

Restored-refl : (s : State) → IsValid s → Restored s s
Restored-refl s v = record { valid = v; keeps = Keeps-refl s; counts = λ n. refl }

publish-Restored : (f : Metrics → Metrics) {s t : State} → Restored s t → Restored s (publish f t)
publish-Restored f {t} r = record {
  valid = publish-IsValid f t r.valid;
  keeps = Keeps-trans r.keeps (publish-Keeps f t);
  counts = λ n. inflight_of-publish f t n ∙ r.counts n;
}

publish_if-Restored :
    (test : Bool) (f : Metrics → Metrics) (s : State)
    → IsValid s
    → Restored s (if test then publish f s else s)
publish_if-Restored true f s v = publish-Restored f (Restored-refl s v)
publish_if-Restored false f s v = Restored-refl s v

publish_swap-Restored :
    (c d : BackendState) (s : State) → IsValid s → Restored s (publish_swap c d s)
unfolding publish_swap
publish_swap-Restored c d s v = publish-Restored _ (publish_if-Restored _ _ s v)

find-put-some :
    (s : State) (n m : Text) (b : BackendState) {b' c : BackendState}
    → IsValid s
    → find s n ≡ some b'
    → find s m ≡ some c
    → (d : BackendState) × (find (put s n b) m ≡ some d)
find-put-some s n m b {c} v here there =
    (if text_eq n m then b else c, ground (arith, find-put s n m b v.injective here))

module _ (name : Text) (current : Route) (attempted : List ℕ) (s : State) (a : AliasState)
    (b : BackendState) (v : IsValid s) (known : lookup name s.aliases ≡ some a)
    (here : find s current.backend.name ≡ some b) (held : 0 < b.inflight) where
  abbrev freed : State
  freed = put s current.backend.name (with_inflight b (b.inflight - 1))

  freed-IsValid : IsValid freed
  freed-IsValid = free-IsValid s current.backend.name b v here

  freed-here : find freed current.backend.name ≡ some (with_inflight b (b.inflight - 1))
  freed-here = find-put_self s current.backend.name _ here

  freed-Keeps : Keeps s freed
  freed-Keeps = put-Keeps s current.backend.name b (b.inflight - 1) v.injective here

  -- The count of the current backend pays for the slot that was given up.
  freed-count : (n : Text) → inflight_of freed n + slot current.backend.name n ≡ inflight_of s n
  freed-count n = ground (
    arith,
    free-inflight_of s current.backend.name b v here n,
    inflight_of-find s current.backend.name here,
    text_eq_iff current.backend.name n,
  )

  swap_to-moved :
      (r : Route)
      → IsBest freed attempted a.routes r
      → (s' : State) × (swap_to current.backend.name freed (some r) ≡ some (s', granted r))
        × Moves s s' current r
  unfolding swap_to
  swap_to-moved r best =
      let (fresh, (c, there, room)) = best.eligible in
      let taken : State = put freed r.backend.name (with_inflight c (c.inflight + 1)) in
      let (d, current_now) =
        find-put-some freed r.backend.name current.backend.name (with_inflight c (c.inflight + 1))
          freed-IsValid there freed-here in
      let restored =
        publish_swap-Restored d (with_inflight c (c.inflight + 1)) taken
          (take-IsValid freed r.backend.name c freed-IsValid there room) in
      (
        publish_swap d (with_inflight c (c.inflight + 1)) taken,
        rw (
          there,
          current_now,
          find-put_self freed r.backend.name (with_inflight c (c.inflight + 1)) there,
        ),
        record {
          valid = restored.valid;
          keeps = Keeps-trans freed-Keeps (
              Keeps-trans
                (put-Keeps freed r.backend.name c (c.inflight + 1) freed-IsValid.injective there)
                restored.keeps);
          counts = λ n. omega (
            arith,
            restored.counts n,
            take-inflight_of freed r.backend.name c freed-IsValid there n,
            freed-count n,
          );
        },
      )

  swap_to-nowhere :
      (s' : State) × (swap_to current.backend.name freed none ≡ some (s', refused no_route))
      × Restored s s'
  unfolding swap_to
  swap_to-nowhere =
      let low = with_inflight b (b.inflight - 1) in
      let back : State = put freed current.backend.name (with_inflight low (low.inflight + 1)) in
      (
        back,
        rw freed-here,
        record {
          valid =
              put-IsValid freed current.backend.name _ freed-IsValid freed-here refl
                (omega (arith, find-InCapacity s current.backend.name v here));
          keeps = Keeps-trans freed-Keeps (
              put-Keeps freed current.backend.name low (low.inflight + 1) freed-IsValid.injective
                freed-here);
          counts = λ n.
              take-inflight_of freed current.backend.name low freed-IsValid freed-here n
              ∙ freed-count n;
        },
      )

  vacated_is : vacated s current.backend.name ≡ freed
  vacated_is = rw (here, vacated)

  some_held : 0 < inflight_of s current.backend.name
  some_held = omega (arith, inflight_of-find s current.backend.name here)

  swap_to-Swaps :
      (chosen : Option Route)
      → Selects freed attempted a.routes chosen
      → (s' : State) × (res : Reservation) × (swap_to current.backend.name freed chosen
          ≡ some (s', res))
        × Swaps name current attempted s s' res
  swap_to-Swaps none unfit =
      let (s', run, restored) = swap_to-nowhere in
      (
        s',
        refused no_route,
        run,
        nowhere a known some_held
            (subst (λ t. All (λ q. ¬ Eligible t attempted q) a.routes) (sym vacated_is) unfit)
            restored,
      )
  swap_to-Swaps (some r) best =
      let (s', run, moves) = swap_to-moved r best in
      (
        s',
        granted r,
        run,
        moved a r known some_held (subst (λ t. IsBest t attempted a.routes r) (sym vacated_is) best)
            moves,
      )

  swap_from-Swaps :
      (s' : State) × (res : Reservation) × (swap_from current.backend.name a attempted s b
        ≡ some (s', res))
      × Swaps name current attempted s s' res
  unfolding swap_from
  swap_from-Swaps =
      let (chosen, selected) = select_locked_total freed attempted a (
        All-Found freed a.routes freed-IsValid
          (freed-IsValid.routed name a (rw freed-Keeps.aliases known))) in
      let (s', res, run, spec) =
        swap_to-Swaps chosen (select_locked-Selects freed attempted a chosen selected) in
      let test : ltb 0 b.inflight ≡ true = ground arith in (s', res, rw (test, selected) run, spec)

-- On a valid state, for a route whose backend is in the map, SwapReservation returns without a
-- nil dereference. It refuses an unknown alias, or a current backend without a reservation, and
-- leaves the state; or it finds no eligible route once the current slot is given up, and every
-- count is as before; or it grants the best eligible route of that state, and one reservation
-- moves from the current backend to the chosen one, with no backend above its capacity.
pub swap_reservation-Swaps :
    (name : Text) (current : Route) (attempted : List ℕ) (s : State)
    → IsValid s
    → Routed s.backends current
    → (s' : State) × (res : Reservation) × (swap_reservation name (some current) attempted s
        ≡ some (s', res))
      × Swaps name current attempted s s' res
unfolding swap_reservation
swap_reservation-Swaps name current attempted s v routed =
    elim (Option-cases (lookup name s.aliases)) [
      | inl unknown ↦
          (s, refused unknown_alias, rw (unknown, swap_reservation), no_alias unknown refl)
      | inr (a, known) ↦
          let (b, here, _) = find_of_Routed s current v routed in
          elim (Bool-cases (ltb 0 b.inflight)) [
            | inl held ↦
                let (s', res, run, spec) =
                  swap_from-Swaps name current attempted s a b v known here (ground arith) in
                (s', res, rw (known, swap_reservation, here) run, spec)
            | inr idle ↦ (
              s,
              refused no_route,
              rw (known, swap_reservation, here, idle),
              not_held a known (ground (arith, inflight_of-find s current.backend.name here)) refl,
            )
          ]
    ]
