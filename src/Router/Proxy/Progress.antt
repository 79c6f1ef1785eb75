-- ===== src/Router/Proxy/Progress.antt =====
-- Every critical section of Serve, on every branch.
use local_inference_router.Base.{
  ℕ, ◌+◌, ◌≤◌, ◌<◌, Text, bytes, ◌≡◌, refl, sym, ap, Bool, true, false, Option, none, some, arith,
  List, [], lookup, Option-cases, Bool-cases, inl, inr, not, ◌&&◌, if◌then◌else◌,
}
use mathlib.Core.Path.{subst}
use local_inference_router.Router.State.{Route, AliasState, State}
use local_inference_router.Router.State.Valid.{IsValid, Routed}
use local_inference_router.Router.Operations.{release, set_health}
use local_inference_router.Router.Operations.Slots.{inflight_of, slot}
use local_inference_router.Router.Operations.Keeps.{Keeps-refl, metered}
use local_inference_router.Router.Operations.Reserves.{reserve-Reserves}
use local_inference_router.Router.Operations.Swaps.{swap_reservation-Swaps}
use local_inference_router.Router.Operations.Releases.{release-Releases, set_health-Reports}
use local_inference_router.Router.Errors.{AttemptError, is_canceled, retryable_status}
use local_inference_router.Router.Headers.{Header}
use local_inference_router.Router.Stream.{is_event_stream}
use local_inference_router.Router.Proxy.{
  Call, Phase, starting, attempting, canceling, quarantining, abandoning, retrying, swapping,
  forwarding, releasing, finished, panicked, sendable, Attempt, Result, answered, failed, Response,
  goto, advance_phase, advance, observe, after_attempt, forward,
}
use local_inference_router.Router.Proxy.Untried.{routes_of}
use local_inference_router.Router.Proxy.Sections.{
  holds, held, OnRoute, rank, is_over, Advanced, goto-Advanced,
}
use local_inference_router.Router.Proxy.Advance.{
  Steps, publish-Advanced, after_reserve-Steps, after_retry-Steps, after_swap-Steps,
}

module _ (c : Call) (s : State) (v : IsValid s) where
  quiet :
      (p q : Phase)
      → OnRoute s (holds q)
      → ((n : Text) → held (holds p) n ≡ held (holds q) n)
      → rank q < rank p
      → Advanced s s c p (goto c q)
  quiet p q on same lower =
      goto-Advanced s s c p v (Keeps-refl s) q on (λ n. ap (◌+◌ (inflight_of s n)) (same n)) lower

  answer-Steps :
      (r : Route) (resp : Response) (elapsed : ℕ)
      → Routed s.backends r
      → Steps s c (attempting r) (elim (retryable_status resp.status_code) [
        | some reason ↦
            some (observe r (bytes "response") elapsed s, goto c (swapping r resp reason))
        | none ↦ some (observe r (bytes "response") elapsed s, goto c (forwarding r resp))
      ])
  unfolding observe
  answer-Steps r resp elapsed on = elim (Option-cases (retryable_status resp.status_code)) [
    | inl final ↦ (
      observe r (bytes "response") elapsed s,
      goto c (forwarding r resp),
      rw final,
      publish-Advanced _ s s c (attempting r) (goto c (forwarding r resp))
          (quiet (attempting r) (forwarding r resp) on (λ n. refl) (omega arith)),
    )
    | inr (reason, retry) ↦ (
      observe r (bytes "response") elapsed s,
      goto c (swapping r resp reason),
      rw retry,
      publish-Advanced _ s s c (attempting r) (goto c (swapping r resp reason))
          (quiet (attempting r) (swapping r resp reason) on (λ n. refl) (omega arith)),
    )
  ]

  fail-Steps :
      (r : Route) (e : AttemptError) (elapsed : ℕ) (canceled : Bool)
      → Routed s.backends r
      → Steps s c (attempting r) (
          if canceled
          then some (s, goto c (canceling r elapsed))
          else some (s, goto c (quarantining r e elapsed)))
  fail-Steps r e elapsed true on =
      (s, _, refl, quiet (attempting r) (canceling r elapsed) on (λ n. refl) (omega arith))
  fail-Steps r e elapsed false on =
      (s, _, refl, quiet (attempting r) (quarantining r e elapsed) on (λ n. refl) (omega arith))

  after_attempt-Steps :
      (r : Route) (res : Result) (elapsed : ℕ) (done : Bool)
      → Routed s.backends r
      → Steps s c
          (attempting r)
          (after_attempt c r (record { result = res; elapsed = elapsed; context_done = done }) s)
  unfolding after_attempt
  after_attempt-Steps r (failed e) elapsed done on = fail-Steps r e elapsed (is_canceled done e) on
  after_attempt-Steps r (answered resp) elapsed done on = answer-Steps r resp elapsed on

  -- The slot that a release gives back is one that the count has.
  release-Advanced :
      (r : Route) (p q : Phase)
      → Routed s.backends r
      → held (holds p) ≡ held (some r)
      → holds q ≡ none
      → ((n : Text) → slot r.backend.name n ≤ inflight_of s n)
      → rank q < rank p
      → Advanced s (release (some r) s) c p (goto c q)
  release-Advanced r p q on from to enough lower =
      let done = release-Releases r s v on in
      goto-Advanced s (release (some r) s) c p done.valid done.keeps q
        (subst (OnRoute s) (sym to) tt)
        (λ n. rw (from, to) (omega (arith, done.counts n, enough n))) lower

  quarantine-Advanced :
      (r : Route) (e : AttemptError) (elapsed : ℕ)
      → Routed s.backends r
      → Advanced s
          (set_health r.backend.name false s)
          c
          (quarantining r e elapsed)
          (goto c (abandoning r e elapsed))
  quarantine-Advanced r e elapsed (i, at) =
      let done = set_health-Reports r.backend.name false s v in
      let routes : routes_of (set_health r.backend.name false s) c.alias ≡ routes_of s c.alias =
        ap
          (λ (m : List (Text × AliasState)). elim (lookup c.alias m) [
            | none ↦ []
            | some a ↦ a.routes
          ])
          done.aliases in
      record {
        valid = done.valid;
        backends = done.backends;
        aliases = done.aliases;
        metrics = done.metrics;
        same_alias = refl;
        on_route = (i, rw done.backends at);
        counts = λ n. rw (done.counts n);
        attempts = rw routes (omega arith);
        progress = inr (rw routes (omega arith));
      }

-- A request that is over stays as it is.
over-Steps :
    (c : Call) (s : State) (v : IsValid s) (p : Phase)
    → OnRoute s (holds p)
    → is_over p ≡ true
    → Steps s c p (some (s, goto c p))
over-Steps c s v p on over = (
  s,
  goto c p,
  refl,
  record {
    valid = v;
    backends = refl;
    aliases = refl;
    metrics = refl;
    same_alias = refl;
    on_route = on;
    counts = λ n. refl;
    attempts = omega arith;
    progress = inl over;
  },
)

-- What forward leaves of the header and of the written statuses does not count.
sent-Advanced :
    (c : Call) (s : State) (r : Route) (resp : Response)
    → IsValid s
    → (q : Phase) → OnRoute s (holds q)
    → holds q ≡ some r
    → rank q < 2
    → (header : Header) (written : List ℕ)
    → Advanced s s c
        (forwarding r resp)
        (record c { header = header; written = written; phase = q })
sent-Advanced c s r resp v q on same lower header written =
    let moved = quiet c s v (forwarding r resp) q on (λ n. rw same refl) lower in
    record {
      valid = v;
      backends = refl;
      aliases = refl;
      metrics = refl;
      same_alias = refl;
      on_route = on;
      counts = moved.counts;
      attempts = moved.attempts;
      progress = moved.progress;
    }

module _ (parse_media_type : Text → Option Text) where
  forward-Advanced :
      (c : Call) (s : State) (r : Route) (resp : Response)
      → IsValid s
      → Routed s.backends r
      → Advanced s s c (forwarding r resp) (forward parse_media_type c r resp)
  unfolding forward
  forward-Advanced c s r resp v on =
      elim (Bool-cases (is_event_stream parse_media_type resp.header && not c.flushable)) [
        | inl stuck ↦
            rw stuck (quiet c s v (forwarding r resp) (releasing r _) on (λ n. refl) (omega arith))
        | inr free ↦ elim (Bool-cases (sendable resp.status_code)) [
          | inr bad ↦
              rw (free, bad) (sent-Advanced c s r resp v (panicked r) on refl (omega arith) _ _)
          | inl good ↦
              rw (free, good) (sent-Advanced c s r resp v (releasing r _) on refl (omega arith) _ _)
        ]
      ]

  advance_phase-Steps :
      (c : Call) (p : Phase) (a : Attempt) (s : State)
      → IsValid s
      → metered s ≡ true
      → OnRoute s (holds p)
      → ((n : Text) → held (holds p) n ≤ inflight_of s n)
      → Steps s c p (advance_phase parse_media_type c p a s)
  unfolding advance_phase observe
  advance_phase-Steps c starting a s v m on enough =
      let (s', res, run, spec) = reserve-Reserves c.alias c.attempted s v in
      rw run (after_reserve-Steps c s v s' res spec)
  advance_phase-Steps c (attempting r) a s v m on enough =
      after_attempt-Steps c s v r a.result a.elapsed a.context_done on
  advance_phase-Steps c (canceling r elapsed) a s v m on enough = (
    _,
    _,
    refl,
    publish-Advanced _ s (release (some r) s) c (canceling r elapsed) (goto c (finished _)) (
        release-Advanced c s v r (canceling r elapsed) (finished _) on refl refl enough
          (omega arith)),
  )
  advance_phase-Steps c (quarantining r e elapsed) a s v m on enough =
      (_, _, refl, quarantine-Advanced c s v r e elapsed on)
  advance_phase-Steps c (abandoning r e elapsed) a s v m on enough = (
    _,
    _,
    refl,
    publish-Advanced _ s (release (some r) s) c (abandoning r e elapsed) (goto c (retrying e)) (
        release-Advanced c s v r (abandoning r e elapsed) (retrying e) on refl refl enough
          (omega arith)),
  )
  advance_phase-Steps c (retrying e) a s v m on enough =
      let (s', res, run, spec) = reserve-Reserves c.alias c.attempted s v in
      rw run (after_retry-Steps c s v e s' res m spec)
  advance_phase-Steps c (swapping r resp reason) a s v m on enough =
      let (s', res, run, spec) = swap_reservation-Swaps c.alias r c.attempted s v on in
      rw run (after_swap-Steps c s v r resp reason s' res m on spec)
  advance_phase-Steps c (forwarding r resp) a s v m on enough =
      (s, forward parse_media_type c r resp, refl, forward-Advanced c s r resp v on)
  advance_phase-Steps c (releasing r reply) a s v m on enough = (
    _,
    _,
    refl,
    release-Advanced c s v r (releasing r reply) (finished reply) on refl refl enough (omega arith),
  )
  advance_phase-Steps c (finished reply) a s v m on enough =
      over-Steps c s v (finished reply) tt refl
  advance_phase-Steps c (panicked r) a s v m on enough = over-Steps c s v (panicked r) on refl

  -- From a state that counts the slot of the call, a section ends without a fault.
  pub advance-Steps :
      (c : Call) (a : Attempt) (s : State)
      → IsValid s
      → metered s ≡ true
      → OnRoute s (holds c.phase)
      → ((n : Text) → held (holds c.phase) n ≤ inflight_of s n)
      → Steps s c c.phase (advance parse_media_type c a s)
  unfolding advance
  advance-Steps c a s v m on enough = advance_phase-Steps c c.phase a s v m on enough
