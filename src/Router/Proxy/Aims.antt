-- ===== src/Router/Proxy/Aims.antt =====
-- Serve attempts only routes whose backend is up when it reserves them.
use local_inference_router.Base.{
  ℕ, ◌-◌, Text, Bool, true, false, ◌≡◌, ◌&&◌, not, Option, some, if◌then◌else◌, List, Option-cases,
  Bool-cases, ◌>>=◌, inl, inr,
}
use mathlib.Core.Path.{subst}
use mathlib.Core.Option.{some-injective}
use local_inference_router.Router.State.{Route, State}
use local_inference_router.Router.State.Valid.{IsValid, Routed, find_of_Routed}
use local_inference_router.Router.Errors.{AttemptError, retryable_status, is_canceled}
use local_inference_router.Router.Stream.{is_event_stream}
use local_inference_router.Router.Operations.{
  Reservation, granted, refused, no_route, unknown_alias,
}
use local_inference_router.Router.Operations.Keeps.{put-Keeps}
use local_inference_router.Router.Operations.Reserves.{
  Reserves, no_alias, nowhere, reserved, reserve-Reserves,
}
use local_inference_router.Router.Operations.Swaps.{
  Swaps, no_alias, not_held, nowhere, moved, vacated, swap_reservation-Swaps,
}
use local_inference_router.Router.Proxy.{
  Call, Phase, starting, attempting, canceling, quarantining, abandoning, retrying, swapping,
  forwarding, releasing, finished, panicked, sendable, Attempt, Response, Result, answered, failed,
  observe, count_failover, after_reserve, after_retry, after_swap, after_attempt, forward,
  advance_phase,
}
use local_inference_router.Router.Proxy.Sections.{holds, OnRoute}
use local_inference_router.Router.Proxy.Dims.{IsUp, Keeps-Dims}

module _ (s : State) (v : IsValid s) where
  -- The backend that a phase attempts is up.
  abbrev pub Aimed : Phase → Type 0
  Aimed (attempting r) = IsUp s r.backend.name
  Aimed _ = Unit

  abbrev Aims : Option (State × Call) → Type 0
  Aims o = (s' : State) (c' : Call) → o ≡ some (s', c') → Aimed c'.phase

  some-Aims : (t : State) (c : Call) → Aimed c.phase → Aims (some (t, c))
  some-Aims t c h s' c' e = subst (λ (p : State × Call). Aimed p.1.phase) (some-injective _ _ e) h

  if-Aims :
      (test : Bool) {x y : Option (State × Call)} → Aims x → Aims y → Aims (if test then x else y)
  if-Aims true x y = x
  if-Aims false x y = y

  counted-Aims :
      (alias reason : Text) (t : State) (c : Call)
      → Aimed c.phase
      → Aims (count_failover alias reason t >>= λ counted. some (counted, c))
  unfolding count_failover
  counted-Aims alias reason t c h = elim (Option-cases t.metrics) [
    | inl missing ↦ rw missing (λ s' c' e. cc)
    | inr (metrics, there) ↦ rw there (some-Aims _ c h)
  ]

  -- The backend of a granted route is up.
  abbrev Given : Reservation → Type 0
  Given (granted r) = IsUp s r.backend.name
  Given (refused e) = Unit

  Reserves-Given :
      (name : Text) (attempted : List ℕ) (s' : State) (res : Reservation)
      → Reserves name attempted s s' res
      → Given res
  Reserves-Given name attempted s' res (no_alias _ e) = tt
  Reserves-Given name attempted s' res (nowhere _ _ _ e) = tt
  Reserves-Given name attempted s' res (reserved a r at best g) =
      let (fresh, (b, here, (checked, healthy, room))) = best.eligible in
      (b, here, checked, healthy)

  Swaps-Given :
      (name : Text) (current : Route) (attempted : List ℕ) (s' : State) (res : Reservation)
      → Routed s.backends current
      → Swaps name current attempted s s' res
      → Given res
  Swaps-Given name current attempted s' res routed (no_alias _ e) = tt
  Swaps-Given name current attempted s' res routed (not_held _ _ _ e) = tt
  Swaps-Given name current attempted s' res routed (nowhere _ _ _ _ back) = tt
  Swaps-Given name current attempted s' res routed (moved a r at held best g) =
      let (b, here, _) = find_of_Routed s current v routed in
      let (fresh, (c, there, (checked, healthy, room))) = best.eligible in
      let kept = put-Keeps s current.backend.name b (b.inflight - 1) v.injective here in
      Keeps-Dims s (vacated s current.backend.name) (rw (here, vacated) kept) r.backend.name
        (c, there, checked, healthy)

  module _ (c : Call) (t : State) where
    after_reserve-Aims : (res : Reservation) → Given res → Aims (after_reserve c (t, res))
    unfolding after_reserve
    after_reserve-Aims (granted r) h = some-Aims t _ h
    after_reserve-Aims (refused no_route) h = some-Aims t _ tt
    after_reserve-Aims (refused unknown_alias) h = some-Aims t _ tt

    after_retry-Aims :
        (e : AttemptError) (res : Reservation) → Given res → Aims (after_retry c e (t, res))
    unfolding after_retry
    after_retry-Aims e (granted r) h = counted-Aims _ _ t _ h
    after_retry-Aims e (refused _) h = some-Aims t _ tt

    after_swap-Aims :
        (r : Route) (resp : Response) (reason : Text) (res : Reservation)
        → Given res
        → Aims (after_swap c r resp reason (t, res))
    unfolding after_swap
    after_swap-Aims r resp reason (granted next) h = counted-Aims _ _ t _ h
    after_swap-Aims r resp reason (refused _) h = some-Aims t _ tt

    after_attempt-Aims :
        (r : Route) (result : Result) (elapsed : ℕ) (done : Bool)
        → Aims (
            after_attempt c r
              (record { result = result; elapsed = elapsed; context_done = done })
              t)
    unfolding after_attempt observe
    after_attempt-Aims r (failed e) elapsed done =
        if-Aims (is_canceled done e) (some-Aims t _ tt) (some-Aims t _ tt)
    after_attempt-Aims r (answered resp) elapsed done =
        elim (Option-cases (retryable_status resp.status_code)) [
          | inl final ↦ rw (final, after_attempt) (some-Aims _ _ tt)
          | inr (reason, retry) ↦ rw (retry, after_attempt) (some-Aims _ _ tt)
        ]

  module _ (parse_media_type : Text → Option Text) where
    forward-Aims :
        (c : Call) (r : Route) (resp : Response)
        → Aims (some (s, forward parse_media_type c r resp))
    unfolding forward
    forward-Aims c r resp =
        elim (Bool-cases (is_event_stream parse_media_type resp.header && not c.flushable)) [
          | inl stuck ↦ rw (stuck, forward) (some-Aims s _ tt)
          | inr free ↦ elim (Bool-cases (sendable resp.status_code)) [
            | inl good ↦ rw (free, forward, good) (some-Aims s _ tt)
            | inr bad ↦ rw (free, forward, bad) (some-Aims s _ tt)
          ]
        ]

    -- What a section goes on to attempt is up when the section starts.
    pub advance_phase-Aims :
        (c : Call) (p : Phase) (a : Attempt)
        → OnRoute s (holds p)
        → Aims (advance_phase parse_media_type c p a s)
    unfolding advance_phase
    advance_phase-Aims c starting a on =
        let (s1, res, run, spec) = reserve-Reserves c.alias c.attempted s v in
        rw run (after_reserve-Aims c s1 res (Reserves-Given c.alias c.attempted s1 res spec))
    advance_phase-Aims c (attempting r) a on =
        after_attempt-Aims c s r a.result a.elapsed a.context_done
    advance_phase-Aims c (canceling r elapsed) a on = some-Aims _ _ tt
    advance_phase-Aims c (quarantining r e elapsed) a on = some-Aims _ _ tt
    advance_phase-Aims c (abandoning r e elapsed) a on = some-Aims _ _ tt
    advance_phase-Aims c (retrying e) a on =
        let (s1, res, run, spec) = reserve-Reserves c.alias c.attempted s v in
        rw run (after_retry-Aims c s1 e res (Reserves-Given c.alias c.attempted s1 res spec))
    advance_phase-Aims c (swapping r resp reason) a on =
        let (s1, res, run, spec) = swap_reservation-Swaps c.alias r c.attempted s v on in
        rw run (
          after_swap-Aims c s1 r resp reason res (Swaps-Given c.alias r c.attempted s1 res on spec))
    advance_phase-Aims c (forwarding r resp) a on = forward-Aims c r resp
    advance_phase-Aims c (releasing r reply) a on = some-Aims _ _ tt
    advance_phase-Aims c (finished reply) a on = some-Aims s _ tt
    advance_phase-Aims c (panicked r) a on = some-Aims s _ tt
