-- ===== src/Router/Proxy/Commit.antt =====
-- When a request writes its response, and what it reports of it.
use local_inference_router.Base.{
  ℕ, Text, ◌≡◌, ◌≢◌, arith, refl, ap, ◌⊎◌, inl, inr, Bool, true, false, Option, none, some, List,
  [], ◌∷◌, ◌>>=◌, not, ◌&&◌, Bool-cases, >>=-eq-some, if◌then◌else◌,
}
use mathlib.Core.Path.{subst}
use mathlib.Core.Option.{some-injective}
use local_inference_router.Router.State.{Route, State}
use local_inference_router.Router.Operations.{
  Reservation, granted, refused, no_route, unknown_alias, reserve, swap_reservation,
}
use local_inference_router.Router.Errors.{
  ApiError, AttemptError, status_client_closed, is_canceled, retryable_status,
}
use local_inference_router.Router.Stream.{is_event_stream}
use local_inference_router.Router.Proxy.{
  Call, Phase, starting, attempting, canceling, quarantining, abandoning, retrying, swapping,
  forwarding, releasing, finished, panicked, sendable, Attempt, Result, answered, failed, Response,
  Reply, goto, try_route, advance_phase, advance, count_failover, after_reserve, after_attempt,
  after_retry, after_swap, forward,
}

-- Either one status was written, and it is the one that is returned, or none was, and the client
-- gets an error of the router or has left.
abbrev pub Replied : Reply → List ℕ → Type 0
Replied reply written =
    ((written ≡ reply.status ∷ []) × (reply.error ≡ none))
    ⊎ ((written ≡ [])
        × (((e : ApiError) × (reply.error ≡ some e)) ⊎ (reply.status ≡ status_client_closed)))

-- Nothing is written before a reply is fixed.
abbrev pub Written : Phase → List ℕ → Type 0
Written starting w = w ≡ []
Written (attempting r) w = w ≡ []
Written (canceling r elapsed) w = w ≡ []
Written (quarantining r e elapsed) w = w ≡ []
Written (abandoning r e elapsed) w = w ≡ []
Written (retrying e) w = w ≡ []
Written (swapping r resp reason) w = w ≡ []
Written (forwarding r resp) w = w ≡ []
Written (releasing r reply) w = Replied reply w
Written (finished reply) w = Replied reply w
Written (panicked r) w = w ≡ []

-- A result of a section that keeps `Written`.
abbrev KeepsWritten : Option (State × Call) → Type 0
KeepsWritten r = (s' : State) (c' : Call) → r ≡ some (s', c') → Written c'.phase c'.written

some-KeepsWritten : (s : State) (c : Call) → Written c.phase c.written → KeepsWritten (some (s, c))
some-KeepsWritten s c w s' c' e =
    subst (λ (p : State × Call). Written p.1.phase p.1.written) (some-injective _ _ e) w

bind-KeepsWritten :
    (m : Option (State × Reservation)) (k : State × Reservation → Option (State × Call))
    → ((s : State) (res : Reservation) → KeepsWritten (k (s, res)))
    → KeepsWritten (m >>= k)
bind-KeepsWritten none k h s' c' e = cc
bind-KeepsWritten (some (s, res)) k h s' c' e = h s res s' c' e

module _ (c : Call) (w : c.written ≡ []) where
  count-KeepsWritten :
      (alias reason : Text) (s : State) (r : Route)
      → KeepsWritten (count_failover alias reason s >>= λ counted. some (counted, try_route c r))
  count-KeepsWritten alias reason s r s' c' e =
      let (t, counted, e') = >>=-eq-some (count_failover alias reason s) _ e in
      some-KeepsWritten t (try_route c r) w s' c' e'

  after_reserve-KeepsWritten :
      (s : State) (res : Reservation) → KeepsWritten (after_reserve c (s, res))
  unfolding after_reserve
  after_reserve-KeepsWritten s (granted r) = some-KeepsWritten s (try_route c r) w
  after_reserve-KeepsWritten s (refused unknown_alias) =
      some-KeepsWritten s (goto c (finished _)) (inr (w, inl (_, refl)))
  after_reserve-KeepsWritten s (refused no_route) =
      some-KeepsWritten s (goto c (finished _)) (inr (w, inl (_, refl)))

  after_retry-KeepsWritten :
      (e : AttemptError) (s : State) (res : Reservation) → KeepsWritten (after_retry c e (s, res))
  unfolding after_retry
  after_retry-KeepsWritten e s (granted r) = count-KeepsWritten c.alias _ s r
  after_retry-KeepsWritten e s (refused x) =
      some-KeepsWritten s (goto c (finished _)) (inr (w, inl (_, refl)))

  after_swap-KeepsWritten :
      (r : Route) (resp : Response) (reason : Text) (s : State) (res : Reservation)
      → KeepsWritten (after_swap c r resp reason (s, res))
  unfolding after_swap
  after_swap-KeepsWritten r resp reason s (granted q) = count-KeepsWritten c.alias reason s q
  after_swap-KeepsWritten r resp reason s (refused x) =
      some-KeepsWritten s (goto c (forwarding r resp)) w

  fail-KeepsWritten :
      (r : Route) (e : AttemptError) (elapsed : ℕ) (s : State) (canceled : Bool)
      → KeepsWritten (
          if canceled
          then some (s, goto c (canceling r elapsed))
          else some (s, goto c (quarantining r e elapsed)))
  fail-KeepsWritten r e elapsed s true = some-KeepsWritten s (goto c (canceling r elapsed)) w
  fail-KeepsWritten r e elapsed s false = some-KeepsWritten s (goto c (quarantining r e elapsed)) w

  answer-KeepsWritten :
      (r : Route) (resp : Response) (s : State) (o : Option Text)
      → KeepsWritten (elim o [
        | some reason ↦ some (s, goto c (swapping r resp reason))
        | none ↦ some (s, goto c (forwarding r resp))
      ])
  answer-KeepsWritten r resp s none = some-KeepsWritten s (goto c (forwarding r resp)) w
  answer-KeepsWritten r resp s (some reason) =
      some-KeepsWritten s (goto c (swapping r resp reason)) w

  after_attempt-KeepsWritten :
      (r : Route) (res : Result) (elapsed : ℕ) (done : Bool) (s : State)
      → KeepsWritten
          (after_attempt c r (record { result = res; elapsed = elapsed; context_done = done }) s)
  unfolding after_attempt
  after_attempt-KeepsWritten r (failed e) elapsed done s =
      fail-KeepsWritten r e elapsed s (is_canceled done e)
  after_attempt-KeepsWritten r (answered resp) elapsed done s =
      answer-KeepsWritten r resp _ (retryable_status resp.status_code)

module _ (parse_media_type : Text → Option Text) where
  forward-KeepsWritten :
      (c : Call) (r : Route) (resp : Response) (s : State)
      → c.written ≡ []
      → KeepsWritten (some (s, forward parse_media_type c r resp))
  unfolding forward
  forward-KeepsWritten c r resp s w =
      elim (Bool-cases (is_event_stream parse_media_type resp.header && not c.flushable)) [
        | inl stuck ↦
            rw stuck (some-KeepsWritten s (goto c (releasing r _)) (inr (w, inl (_, refl))))
        | inr free ↦ elim (Bool-cases (sendable resp.status_code)) [
          | inl good ↦
              rw (free, good) (some-KeepsWritten s _ (inl (ap (◌∷◌ resp.status_code) w, refl)))
          | inr bad ↦ rw (free, bad) (some-KeepsWritten s _ w)
        ]
      ]

  advance_phase-KeepsWritten :
      (c : Call) (p : Phase) (a : Attempt) (s : State)
      → Written p c.written
      → KeepsWritten (advance_phase parse_media_type c p a s)
  unfolding advance_phase
  advance_phase-KeepsWritten c starting a s w =
      bind-KeepsWritten (reserve c.alias c.attempted s) _ (after_reserve-KeepsWritten c w)
  advance_phase-KeepsWritten c (attempting r) a s w =
      after_attempt-KeepsWritten c w r a.result a.elapsed a.context_done s
  advance_phase-KeepsWritten c (canceling r elapsed) a s w =
      some-KeepsWritten _ (goto c (finished _)) (inr (w, inr refl))
  advance_phase-KeepsWritten c (quarantining r e elapsed) a s w =
      some-KeepsWritten _ (goto c (abandoning r e elapsed)) w
  advance_phase-KeepsWritten c (abandoning r e elapsed) a s w =
      some-KeepsWritten _ (goto c (retrying e)) w
  advance_phase-KeepsWritten c (retrying e) a s w =
      bind-KeepsWritten (reserve c.alias c.attempted s) _ (after_retry-KeepsWritten c w e)
  advance_phase-KeepsWritten c (swapping r resp reason) a s w =
      bind-KeepsWritten (swap_reservation c.alias (some r) c.attempted s) _
        (after_swap-KeepsWritten c w r resp reason)
  advance_phase-KeepsWritten c (forwarding r resp) a s w = forward-KeepsWritten c r resp s w
  advance_phase-KeepsWritten c (releasing r reply) a s w =
      some-KeepsWritten _ (goto c (finished reply)) w
  advance_phase-KeepsWritten c (finished reply) a s w =
      some-KeepsWritten s (goto c (finished reply)) w
  advance_phase-KeepsWritten c (panicked r) a s w = some-KeepsWritten s (goto c (panicked r)) w

  -- If nothing is written before a reply is fixed, and a fixed reply is either the one status
  -- that was written or comes with nothing written (a router error, or a client that left), then
  -- so it is after the next critical section of Serve.
  pub advance-Written :
      (c c' : Call) (a : Attempt) (s s' : State)
      → Written c.phase c.written
      → advance parse_media_type c a s ≡ some (s', c')
      → Written c'.phase c'.written
  unfolding advance
  advance-Written c c' a s s' w e = advance_phase-KeepsWritten c c.phase a s w s' c' e

  -- The phases in which a status is written.
  pub advance_phase-committed :
      (c c' : Call) (p : Phase) (a : Attempt) (s s' : State)
      → Written p c.written
      → c.written ≢ []
      → advance_phase parse_media_type c p a s ≡ some (s', c')
      → (c'.attempted ≡ c.attempted) × (c'.written ≡ c.written)
  unfolding advance_phase
  advance_phase-committed c c' starting a s s' w committed e = absurd (committed w)
  advance_phase-committed c c' (attempting r) a s s' w committed e = absurd (committed w)
  advance_phase-committed c c' (canceling r elapsed) a s s' w committed e = absurd (committed w)
  advance_phase-committed c c' (quarantining r x elapsed) a s s' w committed e =
      absurd (committed w)
  advance_phase-committed c c' (abandoning r x elapsed) a s s' w committed e = absurd (committed w)
  advance_phase-committed c c' (retrying x) a s s' w committed e = absurd (committed w)
  advance_phase-committed c c' (swapping r resp reason) a s s' w committed e = absurd (committed w)
  advance_phase-committed c c' (forwarding r resp) a s s' w committed e = absurd (committed w)
  advance_phase-committed c c' (panicked r) a s s' w committed e = absurd (committed w)
  advance_phase-committed c c' (releasing r reply) a s s' w committed e = ground arith
  advance_phase-committed c c' (finished reply) a s s' w committed e = ground arith
