-- ===== src/Router/Proxy/Advance.antt =====
-- What `Advanced` says of a critical section of Serve, for each of them.
use local_inference_router.Base.{
  ◌+◌, ◌≤◌, ◌<◌, Text, ◌≡◌, refl, sym, ap, ◌∙◌, true, Option, none, some, arith, lookup,
}
use mathlib.Core.Path.{subst}
use local_inference_router.Metrics.{failover, Metrics}
use local_inference_router.Router.State.{Route, State, AliasState, publish}
use local_inference_router.Router.State.Valid.{IsValid, Routed, publish-IsValid}
use local_inference_router.Router.Select.Best.{IsBest}
use local_inference_router.Router.Operations.{Reservation}
use local_inference_router.Router.Operations.Slots.{inflight_of, slot, inflight_of-publish}
use local_inference_router.Router.Operations.Keeps.{Keeps, Keeps-refl, metered, publish-metered}
use local_inference_router.Router.Operations.Reserves.{Reserves, no_alias, nowhere, reserved}
use local_inference_router.Router.Operations.Swaps.{Swaps, no_alias, not_held, nowhere, moved}
use local_inference_router.Router.Errors.{AttemptError, failure_reason}
use local_inference_router.Router.Proxy.{
  Call, Phase, starting, retrying, swapping, forwarding, Response, goto, try_route, count_failover,
  after_reserve, after_retry, after_swap,
}
use local_inference_router.Router.Proxy.Untried.{routes_of, untried-IsBest, IsBest-Routed}
use local_inference_router.Router.Proxy.Sections.{
  holds, held, OnRoute, rank, Advanced, goto-Advanced, try-Advanced,
}

-- The outcome of a section: no fault, and the step that `Advanced` describes.
abbrev pub Steps : State → Call → Phase → Option (State × Call) → Type 0
Steps s c p r = (s' : State) × (c' : Call) × (r ≡ some (s', c')) × Advanced s s' c p c'

count_failover-some :
    (alias reason : Text) (s : State)
    → metered s ≡ true
    → count_failover alias reason s ≡ some (publish (failover alias reason) s)
unfolding count_failover publish
count_failover-some alias reason s h = ground arith

-- A sample between two sections changes nothing else.
pub publish-Advanced :
    (f : Metrics → Metrics) (s s' : State) (c : Call) (p : Phase) (c' : Call)
    → Advanced s s' c p c'
    → Advanced s (publish f s') c p c'
unfolding publish
publish-Advanced f s s' c p c' a = record {
  valid = publish-IsValid f s' a.valid;
  backends = a.backends;
  aliases = a.aliases;
  metrics = publish-metered f s' ∙ a.metrics;
  same_alias = a.same_alias;
  on_route = OnRoute-publish (holds c'.phase) a.on_route;
  counts = λ n. rw (inflight_of-publish f s' n) (a.counts n);
  attempts = a.attempts;
  progress = a.progress;
}
  where
    OnRoute-publish : (o : Option Route) → OnRoute s' o → OnRoute (publish f s') o
    OnRoute-publish none h = h
    OnRoute-publish (some r) h = h

module _ (c : Call) (s : State) (v : IsValid s) where
  -- A section that leaves the state as it is.
  same-Advanced :
      (s' : State) (p q : Phase)
      → s' ≡ s
      → OnRoute s (holds q)
      → ((n : Text) → held (holds p) n ≡ held (holds q) n)
      → rank q < rank p
      → Advanced s s' c p (goto c q)
  same-Advanced s' p q e on same lower =
      subst (λ t. Advanced s t c p (goto c q)) (sym e)
        (goto-Advanced s s c p v (Keeps-refl s) q on (λ n. ap (◌+◌ (inflight_of s n)) (same n))
          lower)

  -- A reservation on a route of the alias is an attempt on a new route.
  granted-Advanced :
      (t s' : State) (p : Phase) (a : AliasState) (r : Route)
      → lookup c.alias s.aliases ≡ some a
      → IsBest t c.attempted a.routes r
      → IsValid s'
      → Keeps s s'
      → ((n : Text) → inflight_of s' n + held (holds p) n ≡ inflight_of s n + slot r.backend.name n)
      → 4 ≤ rank p
      → Advanced s s' c p (try_route c r)
  granted-Advanced t s' p a r known best v' k counted high =
      try-Advanced s s' c p v' k r
        (IsBest-Routed s.backends t c.attempted a.routes r best (v.routed c.alias a known)) counted
        (rw (known, routes_of) (untried-IsBest t c.attempted a.routes r best)) high

  pub after_reserve-Steps :
      (s' : State) (res : Reservation)
      → Reserves c.alias c.attempted s s' res
      → Steps s c starting (after_reserve c (s', res))
  unfolding after_reserve
  after_reserve-Steps s' res (no_alias unknown e) =
      (s', _, refl, same-Advanced s' starting _ e tt (λ n. refl) (omega arith))
  after_reserve-Steps s' res (nowhere a known unfit e) =
      (s', _, refl, same-Advanced s' starting _ e tt (λ n. refl) (omega arith))
  after_reserve-Steps s' res (reserved a r known best g) = (
    s',
    try_route c r,
    refl,
    granted-Advanced s s' starting a r known best g.valid g.keeps (λ n. omega (arith, g.counts n))
        (omega arith),
  )

  pub after_retry-Steps :
      (e : AttemptError) (s' : State) (res : Reservation)
      → metered s ≡ true
      → Reserves c.alias c.attempted s s' res
      → Steps s c (retrying e) (after_retry c e (s', res))
  unfolding after_retry
  after_retry-Steps e s' res m (no_alias unknown same) =
      (s', _, refl, same-Advanced s' (retrying e) _ same tt (λ n. refl) (omega arith))
  after_retry-Steps e s' res m (nowhere a known unfit same) =
      (s', _, refl, same-Advanced s' (retrying e) _ same tt (λ n. refl) (omega arith))
  after_retry-Steps e s' res m (reserved a r known best g) = (
    publish (failover c.alias (failure_reason e)) s',
    try_route c r,
    rw (count_failover-some c.alias (failure_reason e) s' (g.keeps.metrics ∙ m)),
    publish-Advanced _ s s' c (retrying e) (try_route c r) (
        granted-Advanced s s' (retrying e) a r known best g.valid g.keeps
          (λ n. omega (arith, g.counts n)) (omega arith)),
  )

  pub after_swap-Steps :
      (r : Route) (resp : Response) (reason : Text) (s' : State) (res : Reservation)
      → metered s ≡ true
      → Routed s.backends r
      → Swaps c.alias r c.attempted s s' res
      → Steps s c (swapping r resp reason) (after_swap c r resp reason (s', res))
  unfolding after_swap
  after_swap-Steps r resp reason s' res m on (no_alias unknown same) = (
    s',
    _,
    refl,
    same-Advanced s' (swapping r resp reason) (forwarding r resp) same on (λ n. refl) (omega arith),
  )
  after_swap-Steps r resp reason s' res m on (not_held a known free same) = (
    s',
    _,
    refl,
    same-Advanced s' (swapping r resp reason) (forwarding r resp) same on (λ n. refl) (omega arith),
  )
  after_swap-Steps r resp reason s' res m on (nowhere a known taken unfit back) = (
    s',
    _,
    refl,
    goto-Advanced s s' c (swapping r resp reason) back.valid back.keeps (forwarding r resp) on
        (λ n. omega (arith, back.counts n)) (omega arith),
  )
  after_swap-Steps r resp reason s' res m on (moved a q known taken best g) = (
    publish (failover c.alias reason) s',
    try_route c q,
    rw (count_failover-some c.alias reason s' (g.keeps.metrics ∙ m)),
    publish-Advanced _ s s' c (swapping r resp reason) (try_route c q) (
        granted-Advanced _ s' (swapping r resp reason) a q known best g.valid g.keeps g.counts
          (omega arith)),
  )
