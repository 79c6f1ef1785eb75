-- ===== src/Router/Proxy/Sends.antt =====
-- Serve sends only statuses that an upstream answered with.
use local_inference_router.Base.{
  ℕ, Text, Bool, true, false, ◌≡◌, ◌&&◌, not, Option, some, if◌then◌else◌, Option-cases, Bool-cases,
  ◌>>=◌, >>=-eq-some, inl, inr,
}
use mathlib.Core.Path.{subst}
use mathlib.Core.Option.{some-injective}
use local_inference_router.Router.State.{Route, State}
use local_inference_router.Router.Errors.{AttemptError, retryable_status, is_canceled}
use local_inference_router.Router.Stream.{is_event_stream}
use local_inference_router.Router.Operations.{
  Reservation, granted, refused, no_route, unknown_alias, reserve, swap_reservation,
}
use local_inference_router.Router.Proxy.{
  Call, Phase, starting, attempting, canceling, quarantining, abandoning, retrying, swapping,
  forwarding, releasing, finished, panicked, sendable, Attempt, Response, Result, answered, failed,
  try_route, count_failover, after_reserve, after_retry, after_swap, after_attempt, forward,
  advance_phase, advance,
}

-- A response that WriteHeader takes the status of.
abbrev pub Accepted : Result → Type 0
Accepted (answered resp) = sendable resp.status_code ≡ true
Accepted (failed e) = Unit

-- What is to be sent can be sent, and nothing has panicked.
abbrev pub Sends : Phase → Type 0
Sends (swapping r resp reason) = sendable resp.status_code ≡ true
Sends (forwarding r resp) = sendable resp.status_code ≡ true
Sends (panicked r) = ⊥
Sends _ = Unit

abbrev Sent : Option (State × Call) → Type 0
Sent o = (s' : State) (c' : Call) → o ≡ some (s', c') → Sends c'.phase

some-Sent : (s : State) (c : Call) → Sends c.phase → Sent (some (s, c))
some-Sent s c h s' c' e = subst (λ (p : State × Call). Sends p.1.phase) (some-injective _ _ e) h

if-Sent :
    (test : Bool) {x y : Option (State × Call)} → Sent x → Sent y → Sent (if test then x else y)
if-Sent true x y = x
if-Sent false x y = y

bind-Sent :
    (m : Option (State × Reservation)) (k : State × Reservation → Option (State × Call))
    → ((s : State) (res : Reservation) → Sent (k (s, res)))
    → Sent (m >>= k)
bind-Sent m k h s' c' e = let ((s, res), _, e') = >>=-eq-some m k e in h s res s' c' e'

module _ (c : Call) where
  counted-Sent :
      (alias reason : Text) (s : State) (r : Route)
      → Sent (count_failover alias reason s >>= λ counted. some (counted, try_route c r))
  counted-Sent alias reason s r s' c' e =
      let (t, _, e') = >>=-eq-some (count_failover alias reason s) _ e in
      some-Sent t (try_route c r) tt s' c' e'

  after_reserve-Sent : (s : State) (res : Reservation) → Sent (after_reserve c (s, res))
  unfolding after_reserve
  after_reserve-Sent s (granted r) = some-Sent s _ tt
  after_reserve-Sent s (refused no_route) = some-Sent s _ tt
  after_reserve-Sent s (refused unknown_alias) = some-Sent s _ tt

  after_retry-Sent :
      (e : AttemptError) (s : State) (res : Reservation) → Sent (after_retry c e (s, res))
  unfolding after_retry
  after_retry-Sent e s (granted r) = counted-Sent _ _ s r
  after_retry-Sent e s (refused _) = some-Sent s _ tt

  after_swap-Sent :
      (r : Route) (resp : Response) (reason : Text) (s : State) (res : Reservation)
      → sendable resp.status_code ≡ true
      → Sent (after_swap c r resp reason (s, res))
  unfolding after_swap
  after_swap-Sent r resp reason s (granted next) h = counted-Sent _ _ s next
  after_swap-Sent r resp reason s (refused _) h = some-Sent s _ h

  after_attempt-Sent :
      (r : Route) (result : Result) (elapsed : ℕ) (done : Bool) (s : State)
      → Accepted result
      → Sent
          (after_attempt c r (record { result = result; elapsed = elapsed; context_done = done }) s)
  unfolding after_attempt
  after_attempt-Sent r (failed e) elapsed done s h =
      if-Sent (is_canceled done e) (some-Sent s _ tt) (some-Sent s _ tt)
  after_attempt-Sent r (answered resp) elapsed done s h =
      elim (Option-cases (retryable_status resp.status_code)) [
        | inl final ↦ rw (final, after_attempt) (some-Sent _ _ h)
        | inr (reason, retry) ↦ rw (retry, after_attempt) (some-Sent _ _ h)
      ]

module _ (parse_media_type : Text → Option Text) where
  forward-Sent :
      (c : Call) (r : Route) (resp : Response) (s : State)
      → sendable resp.status_code ≡ true
      → Sent (some (s, forward parse_media_type c r resp))
  unfolding forward
  forward-Sent c r resp s good =
      elim (Bool-cases (is_event_stream parse_media_type resp.header && not c.flushable)) [
        | inl stuck ↦ rw (stuck, forward) (some-Sent s _ tt)
        | inr free ↦ rw (free, forward, good) (some-Sent s _ tt)
      ]

  advance_phase-Sent :
      (c : Call) (p : Phase) (a : Attempt) (s : State)
      → Sends p
      → Accepted a.result
      → Sent (advance_phase parse_media_type c p a s)
  unfolding advance_phase
  advance_phase-Sent c starting a s h ok =
      bind-Sent (reserve c.alias c.attempted s) _ (after_reserve-Sent c)
  advance_phase-Sent c (attempting r) a s h ok =
      after_attempt-Sent c r a.result a.elapsed a.context_done s ok
  advance_phase-Sent c (canceling r elapsed) a s h ok = some-Sent _ _ tt
  advance_phase-Sent c (quarantining r e elapsed) a s h ok = some-Sent _ _ tt
  advance_phase-Sent c (abandoning r e elapsed) a s h ok = some-Sent _ _ tt
  advance_phase-Sent c (retrying e) a s h ok =
      bind-Sent (reserve c.alias c.attempted s) _ (after_retry-Sent c e)
  advance_phase-Sent c (swapping r resp reason) a s h ok =
      bind-Sent (swap_reservation c.alias (some r) c.attempted s) _
        (λ t res. after_swap-Sent c r resp reason t res h)
  advance_phase-Sent c (forwarding r resp) a s h ok = forward-Sent c r resp s h
  advance_phase-Sent c (releasing r reply) a s h ok = some-Sent _ _ tt
  advance_phase-Sent c (finished reply) a s h ok = some-Sent s _ tt
  advance_phase-Sent c (panicked r) a s h ok = absurd h

  -- A section after which nothing has panicked, if the response it got can be sent.
  pub advance-Sends :
      (c c' : Call) (a : Attempt) (s s' : State)
      → Sends c.phase
      → Accepted a.result
      → advance parse_media_type c a s ≡ some (s', c')
      → Sends c'.phase
  unfolding advance
  advance-Sends c c' a s s' h ok e = advance_phase-Sent c c.phase a s h ok s' c' e
