-- ===== src/Router/Proxy/Run/Statuses.antt =====
-- internal/router/proxy.go: what a whole run of Serve writes.
use local_inference_router.Base.{
  ℕ, zero, suc, ◌+◌, ◌*◌, Text, Bool, Option, some, length, ◌≡◌, refl, inl, inr, arith,
  Option-cases, >>=-eq-some,
}
use mathlib.Core.Path.{subst}
use local_inference_router.Router.State.{State}
use local_inference_router.Router.Operations.{route_count}
use local_inference_router.Router.Proxy.{Call, Attempt, Reply, finished, advance, start_call}
use local_inference_router.Router.Proxy.Commit.{Written, Replied, advance-Written}
use local_inference_router.Router.Proxy.Run.{reply_of, run, serve}

module _ (parse_media_type : Text → Option Text) where
  run-Written :
      (fuel : ℕ) (answers : ℕ → Attempt) (c c' : Call) (s s' : State) (reply : Reply)
      → Written c.phase c.written
      → run parse_media_type fuel answers c s ≡ some (s', c', reply)
      → Written c'.phase c'.written
  unfolding run
  run-Written zero answers c c' s s' reply w e = absurd (ground (arith, e))
  run-Written (suc fuel) answers c c' s s' reply w e = elim (Option-cases (reply_of c.phase)) [
    | inr (rep, at) ↦
        let same : c ≡ c' = ground (arith, e, at) in
        subst (λ (d : Call). Written d.phase d.written) same w
    | inl at ↦
        let ((s1, c1), stepped, rest) =
          >>=-eq-some (advance parse_media_type c (answers (length c.attempted)) s)
            (λ (t, d). run parse_media_type fuel answers d t) (ground (arith, e, at)) in
        run-Written fuel answers c1 c' s1 s' reply
          (advance-Written parse_media_type c c1 (answers (length c.attempted)) s s1 w stepped) rest
  ]

  -- What a finished run of Serve has written fits what it returns.
  pub serve-Replied :
      (answers : ℕ → Attempt) (alias : Text) (flushable : Bool) (s s' : State) (c' : Call)
      (reply : Reply)
      → serve parse_media_type answers alias flushable s ≡ some (s', c', reply)
      → c'.phase ≡ finished reply
      → Replied reply c'.written
  unfolding serve start_call
  serve-Replied answers alias flushable s s' c' reply e ended =
      subst (λ p. Written p c'.written) ended
        (run-Written (8 * route_count alias s + 5) answers (start_call alias flushable) c' s s'
          reply refl e)
