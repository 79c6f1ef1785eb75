-- ===== src/Router/Proxy/Leads.antt =====
-- What holds after every section of Serve, if it holds after the operations of the routing state
-- that the section may call.
use local_inference_router.Base.{
  ℕ, ◌<◌, ◌≤◌, Text, text_eq_refl, ◌≡◌, Bool, true, false, Option, some, if◌then◌else◌, arith,
  Option-cases, List, ◌>>=◌, inl, inr,
}
use mathlib.Core.Option
use mathlib.Core.Path.{subst}
use mathlib.Core.Option.{some-injective}
use local_inference_router.Metrics.{Metrics, failover}
use local_inference_router.Router.State.{Route, State, publish}
use local_inference_router.Router.State.Valid.{IsValid, Routed}
use local_inference_router.Router.Errors.{AttemptError, retryable_status, is_canceled}
use local_inference_router.Router.Operations.{
  Reservation, granted, refused, no_route, unknown_alias, release, set_health,
}
use local_inference_router.Router.Operations.Slots.{inflight_of, slot}
use local_inference_router.Router.Operations.Reserves.{Reserves, reserve-Reserves}
use local_inference_router.Router.Operations.Swaps.{Swaps, swap_reservation-Swaps}
use local_inference_router.Router.Proxy.{
  Call, Phase, starting, attempting, canceling, quarantining, abandoning, retrying, swapping,
  forwarding, releasing, finished, panicked, Attempt, Response, Result, answered, failed, observe,
  count_failover, after_reserve, after_retry, after_swap, after_attempt, advance_phase,
}
use local_inference_router.Router.Proxy.Sections.{holds, held, OnRoute}

-- What the operations of a section lead to from `s`, and what samples leave, has the property.
pub record Closed (s : State) (Q : State → Type 0) : Type 0 where
  pub here : Q s
  pub published : (f : Metrics → Metrics) (t : State) → Q t → Q (publish f t)
  pub reserved :
      (name : Text) (attempted : List ℕ) (s' : State) (res : Reservation)
      → Reserves name attempted s s' res
      → Q s'
  pub swapped :
      (name : Text) (r : Route) (attempted : List ℕ) (s' : State) (res : Reservation)
      → Routed s.backends r
      → Swaps name r attempted s s' res
      → Q s'
  pub released :
      (r : Route) → Routed s.backends r → 0 < inflight_of s r.backend.name → Q (release (some r) s)
  pub quarantined : (name : Text) → Q (set_health name false s)

-- The state of a result, if there is one, has the property.
abbrev pub Leads : (State → Type 0) → Option (State × Call) → Type 0
Leads q r = (s' : State) (c' : Call) → r ≡ some (s', c') → q s'

some-Leads : (q : State → Type 0) (s : State) (c : Call) → q s → Leads q (some (s, c))
some-Leads q s c h s' c' e = subst (λ (p : State × Call). q p.0) (some-injective _ _ e) h

if-Leads :
    (q : State → Type 0) (test : Bool) {x y : Option (State × Call)}
    → Leads q x
    → Leads q y
    → Leads q (if test then x else y)
if-Leads q true x y = x
if-Leads q false x y = y

-- A call that holds a slot of a route's backend is counted there.
held_some :
    (r : Route) (s : State)
    → ((n : Text) → slot r.backend.name n ≤ inflight_of s n)
    → 0 < inflight_of s r.backend.name
held_some r s enough = ground (arith, enough r.backend.name, text_eq_refl r.backend.name)

module _ (start : State) (q : State → Type 0) (k : Closed start q) where
  publish-Leads :
      (f : Metrics → Metrics) (s : State) (c : Call) → q s → Leads q (some (publish f s, c))
  publish-Leads f s c h = some-Leads q (publish f s) c (k.published f s h)

  counted-Leads :
      (alias reason : Text) (s : State) (c : Call)
      → q s
      → Leads q (count_failover alias reason s >>= λ counted. some (counted, c))
  unfolding count_failover publish
  counted-Leads alias reason s c h = elim (Option-cases s.metrics) [
    | inl missing ↦ rw missing (λ s' c' e. cc)
    | inr (metrics, there) ↦ rw there (
        some-Leads q (record s { metrics = some (failover alias reason metrics) }) c
          (subst (λ o. q (record s { metrics = Option.map (failover alias reason) o })) there
            (k.published (failover alias reason) s h)))
  ]

  module _ (c : Call) (s : State) (h : q s) where
    after_reserve-Leads : (res : Reservation) → Leads q (after_reserve c (s, res))
    unfolding after_reserve
    after_reserve-Leads (granted r) = some-Leads q s _ h
    after_reserve-Leads (refused no_route) = some-Leads q s _ h
    after_reserve-Leads (refused unknown_alias) = some-Leads q s _ h

    after_retry-Leads : (e : AttemptError) (res : Reservation) → Leads q (after_retry c e (s, res))
    unfolding after_retry
    after_retry-Leads e (granted r) = counted-Leads _ _ s _ h
    after_retry-Leads e (refused _) = some-Leads q s _ h

    after_swap-Leads :
        (r : Route) (resp : Response) (reason : Text) (res : Reservation)
        → Leads q (after_swap c r resp reason (s, res))
    unfolding after_swap
    after_swap-Leads r resp reason (granted next) = counted-Leads _ _ s _ h
    after_swap-Leads r resp reason (refused _) = some-Leads q s _ h

    after_attempt-Leads :
        (r : Route) (result : Result) (elapsed : ℕ) (done : Bool)
        → Leads q (
            after_attempt c r
              (record { result = result; elapsed = elapsed; context_done = done })
              s)
    unfolding after_attempt observe
    after_attempt-Leads r (failed e) elapsed done =
        if-Leads q (is_canceled done e) (some-Leads q s _ h) (some-Leads q s _ h)
    after_attempt-Leads r (answered resp) elapsed done =
        elim (Option-cases (retryable_status resp.status_code)) [
          | inl final ↦ rw (final, after_attempt) (publish-Leads _ s _ h)
          | inr (reason, retry) ↦ rw (retry, after_attempt) (publish-Leads _ s _ h)
        ]

module _ (parse_media_type : Text → Option Text) (s : State) (q : State → Type 0) (k : Closed s q)
    (v : IsValid s) where
  pub advance_phase-Leads :
      (c : Call) (p : Phase) (a : Attempt)
      → OnRoute s (holds p)
      → ((n : Text) → held (holds p) n ≤ inflight_of s n)
      → Leads q (advance_phase parse_media_type c p a s)
  unfolding advance_phase observe
  advance_phase-Leads c starting a on enough =
      let (s1, res, run, spec) = reserve-Reserves c.alias c.attempted s v in
      rw run (after_reserve-Leads s q k c s1 (k.reserved c.alias c.attempted s1 res spec) res)
  advance_phase-Leads c (attempting r) a on enough =
      after_attempt-Leads s q k c s k.here r a.result a.elapsed a.context_done
  advance_phase-Leads c (canceling r elapsed) a on enough =
      publish-Leads s q k _ (release (some r) s) _ (k.released r on (held_some r s enough))
  advance_phase-Leads c (quarantining r e elapsed) a on enough =
      some-Leads q (set_health r.backend.name false s) _ (k.quarantined r.backend.name)
  advance_phase-Leads c (abandoning r e elapsed) a on enough =
      publish-Leads s q k _ (release (some r) s) _ (k.released r on (held_some r s enough))
  advance_phase-Leads c (retrying e) a on enough =
      let (s1, res, run, spec) = reserve-Reserves c.alias c.attempted s v in
      rw run (after_retry-Leads s q k c s1 (k.reserved c.alias c.attempted s1 res spec) e res)
  advance_phase-Leads c (swapping r resp reason) a on enough =
      let (s1, res, run, spec) = swap_reservation-Swaps c.alias r c.attempted s v on in
      rw run (
        after_swap-Leads s q k c s1 (k.swapped c.alias r c.attempted s1 res on spec) r resp reason
          res)
  advance_phase-Leads c (forwarding r resp) a on enough = some-Leads q s _ k.here
  advance_phase-Leads c (releasing r reply) a on enough =
      some-Leads q (release (some r) s) _ (k.released r on (held_some r s enough))
  advance_phase-Leads c (finished reply) a on enough = some-Leads q s _ k.here
  advance_phase-Leads c (panicked r) a on enough = some-Leads q s _ k.here
