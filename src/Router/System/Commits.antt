-- ===== src/Router/System/Commits.antt =====
-- Once a request has written its status it is committed, in every interleaving.
use local_inference_router.Base.{
  ℕ, Text, ◌≡◌, ◌≢◌, refl, Option, some, [], get_elem?, All, All-append, All-set, All-get_elem?,
}
use local_inference_router.Router.State.{State}
use local_inference_router.Router.Proxy.{Call, Attempt, start_call, advance}
use local_inference_router.Router.Proxy.Commit.{Written, advance-Written, advance_phase-committed}
use local_inference_router.Router.System.{
  System, arrives, advances, reports, Reach, begins, continues,
}

module _ (parse_media_type : Text → Option Text) where
  Reach-AllWritten :
      {s : State} {t : System}
      → Reach parse_media_type s t
      → All (λ c. Written c.phase c.written) t.calls
  unfolding start_call
  Reach-AllWritten begins = tt
  Reach-AllWritten (continues {t} r (arrives alias flushable)) =
      All-append _ t.calls _ (Reach-AllWritten r) (refl, tt)
  Reach-AllWritten (continues {t} r (advances i c c' a s' at e)) =
      All-set _ t.calls i c' (Reach-AllWritten r) (
        advance-Written parse_media_type c c' a t.state s'
          (All-get_elem? _ t.calls i (Reach-AllWritten r) at) e)
  Reach-AllWritten (continues r (reports name up)) = Reach-AllWritten r

  -- In every system that a state becomes by arriving requests, critical sections of requests and
  -- health results in any order, a request that has written a status attempts no other route and
  -- writes nothing more in its next critical section.
  pub Reach-committed :
      {s : State} {t : System} (i : ℕ) (c c' : Call) (a : Attempt) (s' : State)
      → Reach parse_media_type s t
      → get_elem? t.calls i ≡ some c
      → c.written ≢ []
      → advance parse_media_type c a t.state ≡ some (s', c')
      → (c'.attempted ≡ c.attempted) × (c'.written ≡ c.written)
  unfolding advance
  Reach-committed {t} i c c' a s' r at committed e =
      advance_phase-committed parse_media_type c c' c.phase a t.state s'
        (All-get_elem? _ t.calls i (Reach-AllWritten r) at) committed e
