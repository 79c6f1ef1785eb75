-- ===== src/Router/Proxy/Policy.antt =====
-- Which outcomes of an attempt fail over, and what they do to the health of a backend.
use local_inference_router.Base.{
  ℕ, ◌-◌, Text, bytes, ◌≡◌, refl, sym, ap, ◌∙◌, true, false, Option, none, some, List, [], ◌∷◌,
  ◌++◌, arith, contains, if◌then◌else◌, ◌>>=◌,
}
use mathlib.Core.Option.{some-injective}
use local_inference_router.Metrics.Labels.{decimal}
use local_inference_router.Router.State.{Route, State, find}
use local_inference_router.Router.State.Valid.{IsValid, Routed, find_of_Routed}
use local_inference_router.Router.Select.Best.{Eligible}
use local_inference_router.Router.Operations.{release, set_health}
use local_inference_router.Router.Operations.Slots.{inflight_of, slot, inflight_of-publish}
use local_inference_router.Router.Operations.Keeps.{Keeps, Keeps-trans, publish-Keeps}
use local_inference_router.Router.Operations.Releases.{release-Releases, set_health-Reports}
use local_inference_router.Router.Errors.{
  AttemptError, retryable_status, is_canceled, status_client_closed,
}
use local_inference_router.Router.Proxy.{
  Call, attempting, canceling, quarantining, abandoning, finished, Attempt, failed, goto, advance,
  after_attempt, observe,
}

-- The statuses that may move a request to another route.
abbrev pub retryable : List ℕ
retryable = 429 ∷ 502 ∷ 503 ∷ 504 ∷ []

-- An upstream status may move a request to another route exactly if it is 429, 502, 503 or 504,
-- and the reason is then status_ followed by its decimal digits.
pub retryable_status_lem :
    (status : ℕ)
    → retryable_status status
      ≡ (if contains retryable status then some (bytes "status_" ++ decimal status) else none)
unfolding retryable_status contains
retryable_status_lem status = ground arith

module _ (parse_media_type : Text → Option Text) where
  quarantining-phase :
      (c : Call) (a : Attempt) (s : State) (r : Route) (e : AttemptError) (elapsed : ℕ)
      → c.phase ≡ quarantining r e elapsed
      → advance parse_media_type c a s
        ≡ some (set_health r.backend.name false s, goto c (abandoning r e elapsed))
  unfolding advance
  quarantining-phase c a s r e elapsed at = rw at

  -- On a valid state, after the section that quarantines the backend of a failed attempt, no
  -- route on a backend of that name is eligible, whatever is attempted.
  pub quarantine-Eligible :
      (c : Call) (a : Attempt) (s s' : State) (c' : Call) (r q : Route) (e : AttemptError)
      (elapsed : ℕ) (attempted : List ℕ)
      → IsValid s
      → Routed s.backends r
      → c.phase ≡ quarantining r e elapsed
      → advance parse_media_type c a s ≡ some (s', c')
      → q.backend.name ≡ r.backend.name
      → ¬ Eligible s' attempted q
  quarantine-Eligible c a s s' c' r q e elapsed attempted v on at ran same
        (fresh, (b, here, room)) =
      let (b', there, _) = find_of_Routed s r v on in
      let flagged = (set_health-Reports r.backend.name false s v).reported b' there in
      let pair = some-injective _ _ (sym ran ∙ quarantining-phase c a s r e elapsed at) in
      let state : s' ≡ set_health r.backend.name false s = ap (λ p. p.0) pair in
      let found : find (set_health r.backend.name false s) r.backend.name ≡ some b =
        rw (← state, ← same) here in
      ground (arith, room, flagged, found)

  canceled_twice :
      (c : Call) (a b : Attempt) (s : State) (r : Route) (e : AttemptError)
      → c.phase ≡ attempting r
      → a.result ≡ failed e
      → is_canceled a.context_done e ≡ true
      → (advance parse_media_type c a s ≡ some (s, goto c (canceling r a.elapsed)))
        × (advance parse_media_type (goto c (canceling r a.elapsed)) b s
            ≡ some (
              observe r (bytes "canceled") a.elapsed (release (some r) s),
              goto c (finished (record { status = status_client_closed; error = none })),
            ))
  unfolding advance after_attempt
  canceled_twice c a b s r e at is gone = (rw (at, after_attempt) (rw (is, gone)), refl)

  -- What a canceled request leaves: its slot given back, and every health flag as it was.
  pub record Leaves (s s' : State) (c c' : Call) (r : Route) : Type 0 where
    pub reply : c'.phase ≡ finished (record { status = status_client_closed; error = none })
    pub silent : c'.written ≡ c.written
    pub keeps : Keeps s s'
    pub counts : (n : Text) → inflight_of s' n ≡ inflight_of s n - slot r.backend.name n

  -- On a valid state, an attempt whose error says that the client left ends the request in its
  -- next two critical sections with 499: nothing is written, no other route is attempted, the
  -- slot of the attempt is given back, and no other count, no health flag and no alias changes.
  pub canceled-Leaves :
      (c : Call) (a b : Attempt) (s : State) (r : Route) (e : AttemptError)
      → IsValid s
      → Routed s.backends r
      → c.phase ≡ attempting r
      → a.result ≡ failed e
      → is_canceled a.context_done e ≡ true
      → (s' : State) × (c' : Call) × ((advance parse_media_type c a s >>= λ (t, d).
            advance parse_media_type d b t)
          ≡ some (s', c'))
        × (c'.attempted ≡ c.attempted)
        × Leaves s s' c c' r
  unfolding observe
  canceled-Leaves c a b s r e v on at is gone =
      let (first, second) = canceled_twice c a b s r e at is gone in
      let done = release-Releases r s v on in
      (
        observe r (bytes "canceled") a.elapsed (release (some r) s),
        goto c (finished (record { status = status_client_closed; error = none })),
        rw first second,
        refl,
        record {
          reply = refl;
          silent = refl;
          keeps = Keeps-trans done.keeps (publish-Keeps _ (release (some r) s));
          counts = λ n. inflight_of-publish _ (release (some r) s) n ∙ done.counts n;
        },
      )
