-- ===== src/Router/Proxy/Labelling/Phases.antt =====
-- The labels of the samples that a section of Serve publishes, in every phase.
use local_inference_router.Base.{
  ℕ, Text, bytes, Bool, false, not, ◌&&◌, Option, some, Option-cases, Bool-cases, inl, inr,
}
use local_inference_router.Router.State.{Route, State}
use local_inference_router.Router.State.Valid.{IsValid, Routed}
use local_inference_router.Router.Labels.{HasKey, Aliased, AllLabelled}
use local_inference_router.Router.Errors.{failure_result, retryable_status, is_canceled}
use local_inference_router.Router.Errors.Fixed.{
  failure_result-fixed, response-fixed, canceled-fixed, retryable_status-Fixed,
}
use local_inference_router.Router.Stream.{is_event_stream}
use local_inference_router.Router.Operations.{release}
use local_inference_router.Router.Operations.Labelling.{
  reserve-LabelsTo, swap_reservation-LabelsTo, release-Labels, set_health-Labels,
}
use local_inference_router.Router.Operations.Reserves.{reserve-Reserves}
use local_inference_router.Router.Operations.Swaps.{swap_reservation-Swaps}
use local_inference_router.Router.Proxy.Sections.{holds, OnRoute}
use local_inference_router.Router.Proxy.{
  Call, Phase, starting, attempting, canceling, quarantining, abandoning, retrying, swapping,
  forwarding, releasing, finished, panicked, sendable, Attempt, Result, Response, answered, failed,
  after_attempt, forward, advance_phase,
}
use local_inference_router.Router.Proxy.Labelling.{
  Tags, Labelled, some-Labelled, if-Labelled, observed-Labels, after_reserve-Labelled,
  after_retry-Labelled, after_swap-Labelled, Reserves-Grants, Swaps-Grants,
}

module _ (s : State) (v : IsValid s) (h : AllLabelled s.backends s.aliases s.metrics)
    (known : Aliased s.aliases) where
  after_attempt-Labelled :
      (c : Call) (r : Route) (result : Result) (elapsed : ℕ) (done : Bool)
      → Routed s.backends r
      → HasKey r.alias s.aliases
      → Labelled s v h known
          (after_attempt c r (record { result = result; elapsed = elapsed; context_done = done }) s)
  unfolding after_attempt
  after_attempt-Labelled c r (failed e) elapsed done on routed =
      if-Labelled s v h known (is_canceled done e) (some-Labelled s v h known s _ h routed)
        (some-Labelled s v h known s _ h routed)
  after_attempt-Labelled c r (answered resp) elapsed done on routed =
      let l =
        observed-Labels s v h known r (bytes "response") elapsed s on routed response-fixed h in
      elim (Option-cases (retryable_status resp.status_code)) [
        | inl final ↦ rw (final, after_attempt) (some-Labelled s v h known _ _ l tt)
        | inr (reason, retry) ↦
            rw (retry, after_attempt)
              (some-Labelled s v h known _ _ l
                (routed, retryable_status-Fixed resp.status_code reason retry))
      ]

  module _ (parse_media_type : Text → Option Text) where
    forward-Labelled :
        (c : Call) (r : Route) (resp : Response)
        → Labelled s v h known (some (s, forward parse_media_type c r resp))
    unfolding forward
    forward-Labelled c r resp =
        elim (Bool-cases (is_event_stream parse_media_type resp.header && not c.flushable)) [
          | inl stuck ↦ rw (stuck, forward) (some-Labelled s v h known s _ h tt)
          | inr free ↦ elim (Bool-cases (sendable resp.status_code)) [
            | inl good ↦ rw (free, forward, good) (some-Labelled s v h known s _ h tt)
            | inr bad ↦ rw (free, forward, bad) (some-Labelled s v h known s _ h tt)
          ]
        ]

    pub advance_phase-Labelled :
        (c : Call) (p : Phase) (a : Attempt)
        → OnRoute s (holds p)
        → Tags s v h known p
        → Labelled s v h known (advance_phase parse_media_type c p a s)
    unfolding advance_phase
    advance_phase-Labelled c starting a on tags =
        let (s1, res, run, spec) = reserve-Reserves c.alias c.attempted s v in
        rw run (
          after_reserve-Labelled s v h known c s1
            (reserve-LabelsTo s.aliases s v h c.alias c.attempted s1 res run) res
            (Reserves-Grants s v h known c.alias c.attempted s1 res spec))
    advance_phase-Labelled c (attempting r) a on tags =
        after_attempt-Labelled c r a.result a.elapsed a.context_done on tags
    advance_phase-Labelled c (canceling r elapsed) a on tags =
        some-Labelled s v h known _ _
          (observed-Labels s v h known r (bytes "canceled") elapsed (release (some r) s) on tags
            canceled-fixed (release-Labels s.aliases s v h r))
          tt
    advance_phase-Labelled c (quarantining r e elapsed) a on tags =
        some-Labelled s v h known _ _ (set_health-Labels s.aliases s v h r.backend.name false) tags
    advance_phase-Labelled c (abandoning r e elapsed) a on tags =
        some-Labelled s v h known _ _
          (observed-Labels s v h known r (failure_result e) elapsed (release (some r) s) on tags
            (failure_result-fixed e) (release-Labels s.aliases s v h r))
          tt
    advance_phase-Labelled c (retrying e) a on tags =
        let (s1, res, run, spec) = reserve-Reserves c.alias c.attempted s v in
        rw run (
          after_retry-Labelled s v h known c s1
            (reserve-LabelsTo s.aliases s v h c.alias c.attempted s1 res run) e res
            (Reserves-Grants s v h known c.alias c.attempted s1 res spec))
    advance_phase-Labelled c (swapping r resp reason) a on tags =
        let (s1, res, run, spec) = swap_reservation-Swaps c.alias r c.attempted s v on in
        rw run (
          after_swap-Labelled s v h known c s1
            (swap_reservation-LabelsTo s.aliases s v h c.alias r c.attempted s1 res run) r resp
            reason res tags.1 (Swaps-Grants s v h known c.alias r c.attempted s1 res spec))
    advance_phase-Labelled c (forwarding r resp) a on tags = forward-Labelled c r resp
    advance_phase-Labelled c (releasing r reply) a on tags =
        some-Labelled s v h known _ _ (release-Labels s.aliases s v h r) tt
    advance_phase-Labelled c (finished reply) a on tags = some-Labelled s v h known s _ h tt
    advance_phase-Labelled c (panicked r) a on tags = some-Labelled s v h known s _ h tt
