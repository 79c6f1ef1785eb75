-- ===== src/Router/Proxy/Labelling.antt =====
-- The labels of the samples that the sections of Serve publish.
pub mod Phases
use local_inference_router.Base.{
  ℕ, Text, bytes, mem_text, Bool, true, false, if◌then◌else◌, not, ◌&&◌, ◌≡◌, Option, some, List,
  ◌>>=◌, Option-cases, Bool-cases, inl, inr,
}
use mathlib.Core.Path.{subst}
use mathlib.Core.Option.{some-injective}
use local_inference_router.Metrics.{Metrics, failover}
use local_inference_router.Metrics.Instruments.{results, reasons}
use local_inference_router.Router.State.{Route, AliasState, State}
use local_inference_router.Router.State.Valid.{IsValid, Routed}
use local_inference_router.Router.Labels.{
  HasKey, Aliased, AllLabelled, publish-AllLabelled, observe_attempt-Adds, failover-Adds,
}
use local_inference_router.Router.Errors.{
  AttemptError, failure_result, retryable_status, is_canceled,
}
use local_inference_router.Router.Errors.Fixed.{
  failure_reason-fixed, failure_result-fixed, response-fixed, canceled-fixed,
  retryable_status-Fixed,
}
use local_inference_router.Router.Stream.{is_event_stream}
use local_inference_router.Router.Operations.{
  Reservation, granted, refused, no_route, unknown_alias, release,
}
use local_inference_router.Router.Operations.Labelling.{
  reserve-LabelsTo, swap_reservation-LabelsTo, release-Labels, set_health-Labels,
}
use local_inference_router.Router.Operations.Reserves.{
  Reserves, no_alias, nowhere, reserved, reserve-Reserves,
}
use local_inference_router.Router.Operations.Swaps.{
  Swaps, no_alias, not_held, nowhere, moved, swap_reservation-Swaps,
}
use local_inference_router.Router.Proxy.Untried.{All-IsBest}
use local_inference_router.Router.Proxy.Sections.{holds, OnRoute}
use local_inference_router.Router.Proxy.{
  Call, Phase, starting, attempting, canceling, quarantining, abandoning, retrying, swapping,
  forwarding, releasing, finished, panicked, Attempt, Result, Response, answered, failed, observe,
  count_failover, after_reserve, after_retry, after_swap, after_attempt, forward, advance_phase,
}

-- The route of a phase has a known alias, and the reason to leave it is one of a failover.
abbrev pub Tagged : List (Text × AliasState) → Phase → Type 0
Tagged aliases starting = Unit
Tagged aliases (attempting r) = HasKey r.alias aliases
Tagged aliases (canceling r elapsed) = HasKey r.alias aliases
Tagged aliases (quarantining r e elapsed) = HasKey r.alias aliases
Tagged aliases (abandoning r e elapsed) = HasKey r.alias aliases
Tagged aliases (retrying e) = Unit
Tagged aliases (swapping r resp reason) = HasKey r.alias aliases × (mem_text reason reasons ≡ true)
Tagged aliases (forwarding r resp) = Unit
Tagged aliases (releasing r reply) = Unit
Tagged aliases (finished reply) = Unit
Tagged aliases (panicked r) = Unit

module _ (s : State) (v : IsValid s) (h : AllLabelled s.backends s.aliases s.metrics)
    (known : Aliased s.aliases) where
  abbrev pub Labels : Option Metrics → Type 0
  Labels = AllLabelled s.backends s.aliases

  abbrev pub Tags : Phase → Type 0
  Tags = Tagged s.aliases

  -- The samples and the phase of a result, if there is one.
  abbrev pub Labelled : Option (State × Call) → Type 0
  Labelled r = (s' : State) (c' : Call) → r ≡ some (s', c') → Labels s'.metrics × Tags c'.phase

  pub some-Labelled :
      (t : State) (c : Call) → Labels t.metrics → Tags c.phase → Labelled (some (t, c))
  some-Labelled t c l tags s' c' e =
      subst (λ (p : State × Call). Labels p.0.metrics × Tags p.1.phase) (some-injective _ _ e)
        (l, tags)

  pub if-Labelled :
      (test : Bool) {p q : Option (State × Call)}
      → Labelled p
      → Labelled q
      → Labelled (if test then p else q)
  if-Labelled true p q = p
  if-Labelled false p q = q

  counted-Labelled :
      (alias reason : Text) (t : State) (c : Call)
      → HasKey alias s.aliases
      → mem_text reason reasons ≡ true
      → Labels t.metrics
      → Tags c.phase
      → Labelled (count_failover alias reason t >>= λ counted. some (counted, c))
  unfolding count_failover
  counted-Labelled alias reason t c routed fixed l tags = elim (Option-cases t.metrics) [
    | inl missing ↦ rw missing (λ s' c' e. cc)
    | inr (m, there) ↦ rw there (
        some-Labelled (record t { metrics = some (failover alias reason m) }) c
          (failover-Adds s.backends s.aliases alias reason routed fixed m
            (subst (AllLabelled s.backends s.aliases) there l))
          tags)
  ]

  pub observed-Labels :
      (r : Route) (result : Text) (elapsed : ℕ) (t : State)
      → Routed s.backends r
      → HasKey r.alias s.aliases
      → mem_text result results ≡ true
      → Labels t.metrics
      → Labels (observe r result elapsed t).metrics
  unfolding observe
  observed-Labels r result elapsed t on routed fixed l =
      publish-AllLabelled s.backends s.aliases _ t
        (observe_attempt-Adds s.backends s.aliases r.backend.name r.alias result elapsed on routed
          fixed)
        l

  -- What the spec of a reservation says of the alias.
  abbrev pub Grants : Text → Reservation → Type 0
  Grants name (granted r) = HasKey name s.aliases × HasKey r.alias s.aliases
  Grants name (refused e) = Unit

  pub Reserves-Grants :
      (name : Text) (attempted : List ℕ) (s' : State) (res : Reservation)
      → Reserves name attempted s s' res
      → Grants name res
  Reserves-Grants name attempted s' res (no_alias unknown e) = tt
  Reserves-Grants name attempted s' res (nowhere a at unfit e) = tt
  Reserves-Grants name attempted s' res (reserved a r at best g) = (
    (a, at),
    All-IsBest (λ q. HasKey q.alias s.aliases) s attempted a.routes r best (known name a at),
  )

  pub Swaps-Grants :
      (name : Text) (current : Route) (attempted : List ℕ) (s' : State) (res : Reservation)
      → Swaps name current attempted s s' res
      → Grants name res
  Swaps-Grants name current attempted s' res (no_alias unknown e) = tt
  Swaps-Grants name current attempted s' res (not_held a at free e) = tt
  Swaps-Grants name current attempted s' res (nowhere a at held unfit back) = tt
  Swaps-Grants name current attempted s' res (moved a r at held best g) = (
    (a, at),
    All-IsBest (λ q. HasKey q.alias s.aliases) _ attempted a.routes r best (known name a at),
  )

  module _ (c : Call) (s1 : State) (l : Labels s1.metrics) where
    pub after_reserve-Labelled :
        (res : Reservation) → Grants c.alias res → Labelled (after_reserve c (s1, res))
    unfolding after_reserve
    after_reserve-Labelled (granted r) g = some-Labelled s1 _ l g.1
    after_reserve-Labelled (refused no_route) g = some-Labelled s1 _ l tt
    after_reserve-Labelled (refused unknown_alias) g = some-Labelled s1 _ l tt

    pub after_retry-Labelled :
        (e : AttemptError) (res : Reservation)
        → Grants c.alias res
        → Labelled (after_retry c e (s1, res))
    unfolding after_retry
    after_retry-Labelled e (granted r) g =
        counted-Labelled c.alias _ s1 _ g.0 (failure_reason-fixed e) l g.1
    after_retry-Labelled e (refused _) g = some-Labelled s1 _ l tt

    pub after_swap-Labelled :
        (r : Route) (resp : Response) (reason : Text) (res : Reservation)
        → mem_text reason reasons ≡ true
        → Grants c.alias res
        → Labelled (after_swap c r resp reason (s1, res))
    unfolding after_swap
    after_swap-Labelled r resp reason (granted q) fixed g =
        counted-Labelled c.alias reason s1 _ g.0 fixed l g.1
    after_swap-Labelled r resp reason (refused _) fixed g = some-Labelled s1 _ l tt
