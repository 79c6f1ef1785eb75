-- ===== src/Router/Proxy/Run.antt =====
-- Proxy.Serve as one call: its critical sections in turn, with no other request in between.
pub mod Statuses
use local_inference_router.Base.{
  ℕ, zero, suc, ◌+◌, ◌*◌, ◌<◌, ◌≤◌, Text, Bool, true, false, Option, none, some, ◌>>=◌, [], length,
  arith, ◌≡◌, refl, ◌∙◌, ◌⊎◌, inl, inr,
}
use local_inference_router.Router.State.{State}
use local_inference_router.Router.State.Valid.{IsValid}
use local_inference_router.Router.Operations.{route_count}
use local_inference_router.Router.Operations.Slots.{inflight_of}
use local_inference_router.Router.Operations.Keeps.{metered}
use local_inference_router.Router.Proxy.{
  Call, Reply, Phase, starting, finished, panicked, Attempt, advance, start_call,
}
use local_inference_router.Router.Proxy.Untried.{untried, untried-le, routes_of}
use local_inference_router.Router.Proxy.Sections.{holds, held, OnRoute, is_over, left}
use local_inference_router.Router.Proxy.Progress.{advance-Steps}
use local_inference_router.Router.Proxy.Sends.{Sends, Accepted, advance-Sends}

abbrev reply_of : Phase → Option Reply
reply_of (finished reply) = some reply
reply_of _ = none

reply_cases :
    (p : Phase)
    → Sends p
    → ((reply : Reply) × (p ≡ finished reply) × (reply_of p ≡ some reply))
      ⊎ ((is_over p ≡ false) × (reply_of p ≡ none))
reply_cases (finished reply) h = inl (reply, refl, refl)
reply_cases (panicked r) h = absurd h
reply_cases starting h = inr (refl, refl)
reply_cases _ h = inr (refl, refl)

shorter :
    (s s1 : State) (c c1 : Call) (fuel : ℕ)
    → is_over c.phase ≡ false
    → left s c.alias c.attempted c.phase < suc fuel
    → (is_over c.phase ≡ true)
      ⊎ (left s1 c1.alias c1.attempted c1.phase < left s c.alias c.attempted c.phase)
    → left s1 c1.alias c1.attempted c1.phase < fuel
shorter s s1 c c1 fuel going small (inl ended) = absurd (ground (arith, going, ended))
shorter s s1 c c1 fuel going small (inr less) = omega arith

route_count-routes_of :
    (alias : Text) (s : State) → route_count alias s ≡ length (routes_of s alias)
unfolding route_count
route_count-routes_of alias s = ground arith

module _ (parse_media_type : Text → Option Text) where
  -- `answers k` is what the k-th attempt of the request returns. A panic has no reply: it is `none`,
  -- where the fuel ends.
  run : ℕ → (ℕ → Attempt) → Call → State → Option (State × Call × Reply)
  run zero answers c s = none
  run (suc fuel) answers c s = elim (reply_of c.phase) [
    | some reply ↦ some (s, c, reply)
    | none ↦
        (advance parse_media_type c (answers (length c.attempted)) s >>= λ (s', c').
        run fuel answers c' s')
  ]

  -- The fuel is above `left` of the new call.
  unfoldable pub serve : (ℕ → Attempt) → Text → Bool → State → Option (State × Call × Reply)
  unfolding run
  serve answers alias flushable s =
      run (8 * route_count alias s + 5) answers (start_call alias flushable) s

  record Served (s s' : State) (c c' : Call) (reply : Reply) : Type 0 where
    valid : IsValid s'
    aliases : s'.aliases ≡ s.aliases
    ended : c'.phase ≡ finished reply
    counts : (n : Text) → inflight_of s' n + held (holds c.phase) n ≡ inflight_of s n
    attempts : length c'.attempted ≤ length c.attempted + untried c.attempted (routes_of s c.alias)

  run_total :
      (fuel : ℕ) (answers : ℕ → Attempt) (c : Call) (s : State)
      → left s c.alias c.attempted c.phase < fuel
      → Sends c.phase
      → ((k : ℕ) → Accepted (answers k).result)
      → IsValid s
      → metered s ≡ true
      → OnRoute s (holds c.phase)
      → ((n : Text) → held (holds c.phase) n ≤ inflight_of s n)
      → (s' : State) × (c' : Call) × (reply : Reply) × (run fuel answers c s ≡ some (s', c', reply))
        × Served s s' c c' reply
  unfolding run
  run_total zero answers c s small send ok v m on enough = absurd (omega arith)
  run_total (suc fuel) answers c s small send ok v m on enough = elim (reply_cases c.phase send) [
    | inl (reply, ended, is) ↦
        let free : holds c.phase ≡ none = rw ended in
        (
          s,
          c,
          reply,
          rw (is, run),
          record {
            valid = v;
            aliases = refl;
            ended = ended;
            counts = λ n. rw free (omega arith);
            attempts = omega arith;
          },
        )
    | inr (going, open_) ↦
        let (s1, c1, stepped, a) =
          advance-Steps parse_media_type c (answers (length c.attempted)) s v m on enough in
        let (s', c', reply, ran, served) =
          run_total fuel answers c1 s1 (shorter s s1 c c1 fuel going small a.progress)
            (advance-Sends parse_media_type c c1 (answers (length c.attempted)) s s1 send
              (ok (length c.attempted)) stepped)
            ok a.valid (a.metrics ∙ m) a.on_route (λ n. omega (arith, a.counts n, enough n)) in
        (
          s',
          c',
          reply,
          rw (open_, run, stepped) ran,
          record {
            valid = served.valid;
            aliases = served.aliases ∙ a.aliases;
            ended = served.ended;
            counts = λ n. omega (arith, served.counts n, a.counts n);
            attempts = omega (arith, served.attempts, a.attempts);
          },
        )
  ]

  -- What Serve leaves behind: a valid state with the same counts.
  pub record Returned (s s' : State) (alias : Text) (c' : Call) (reply : Reply) : Type 0 where
    pub valid : IsValid s'
    pub aliases : s'.aliases ≡ s.aliases
    pub ended : c'.phase ≡ finished reply
    pub counts : (n : Text) → inflight_of s' n ≡ inflight_of s n
    pub attempts : length c'.attempted ≤ route_count alias s

  -- On a valid state with metrics, without other requests in between, if each status that an
  -- upstream answers is from 100 to 999, Serve returns a reply within the fuel, attempts at most
  -- as many routes as the alias has, keeps the state valid and the aliases as they are, and
  -- leaves every backend with the count that it had.
  pub serve-Returned :
      (answers : ℕ → Attempt) (alias : Text) (flushable : Bool) (s : State)
      → ((k : ℕ) → Accepted (answers k).result)
      → IsValid s
      → metered s ≡ true
      → (s' : State) × (c' : Call) × (reply : Reply) × (serve answers alias flushable s
          ≡ some (s', c', reply))
        × Returned s s' alias c' reply
  unfolding serve start_call
  serve-Returned answers alias flushable s ok v m =
      let routes = route_count-routes_of alias s in
      let few = untried-le [] (routes_of s alias) in
      let (s', c', reply, ran, served) =
        run_total (8 * route_count alias s + 5) answers (start_call alias flushable) s
          (omega (arith, routes, few)) tt ok v m tt (λ n. omega arith) in
      (
        s',
        c',
        reply,
        ran,
        record {
          valid = served.valid;
          aliases = served.aliases;
          ended = served.ended;
          counts = λ n. omega (arith, served.counts n);
          attempts = omega (arith, served.attempts, routes, few);
        },
      )
