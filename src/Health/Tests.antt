-- ===== src/Health/Tests.antt =====
-- Three checks of a backend.
use local_inference_router.Base.{Bool, ◌↔◌, bytes, arith, pos, ◌≢◌, ◌≡◌, refl, true, false, [], ◌∷◌}
use local_inference_router.Router.Operations.{set_health}
use local_inference_router.Router.Tests.Samples.{backend_a, backend_b, up, up-IsValid}
use local_inference_router.Health.Checks.{Checks, new_checker_of}
use local_inference_router.Health.Run.{Loop, run_checks, next_check, started, checks}
use local_inference_router.Health.Run.Tracks.{Tracks, Checked-Tracks}
use local_inference_router.Health.{status_of, no_answer, loop, check, note, new_checker, probe}
use local_inference_router.Health.Follows.{Follows, loop-Follows}

loop-Follows_example :
    (healthy : Bool) × ((healthy ≡ true) ↔ (no_answer ≡ status_of 200))
    × Follows
        (bytes "a")
        healthy
        up
        (loop set_health
          (bytes "a")
          (status_of 200 ∷ status_of 200 ∷ no_answer ∷ [])
          (new_checker, up)).0
        (loop set_health
          (bytes "a")
          (status_of 200 ∷ status_of 200 ∷ no_answer ∷ [])
          (new_checker, up)).1
loop-Follows_example =
    loop-Follows (bytes "a") (status_of 200) (status_of 200 ∷ no_answer ∷ []) up up-IsValid

log_test :
    (loop set_health
      (bytes "a")
      (status_of 200 ∷ status_of 200 ∷ no_answer ∷ [])
      (new_checker, up)).0.logged
    ≡ false ∷ true ∷ []
unfolding loop check note probe
log_test = refl

-- The loops of both backends, which take turns.
abbrev both : Checks
both =
    new_checker_of
      (record {
        dial_timeout = pos 0;
        tls_handshake_timeout = pos 0;
        idle_conn_timeout = pos 0;
        response_header_timeout = pos 0;
        force_attempt_http2 = false;
      })
      (backend_a ∷ backend_b ∷ [])

abbrev loop_a : Loop
loop_a = record { backend = backend_a; checker = new_checker }

abbrev loop_b : Loop
loop_b = record { backend = backend_b; checker = new_checker }

names_differ : bytes "a" ≢ bytes "b"
names_differ e = ground arith

Checked-Tracks_example :
    Tracks up
      (next_check 1 loop_b (status_of 200) (next_check 0 loop_a no_answer (run_checks both up)))
unfolding next_check check note
Checked-Tracks_example =
    Checked-Tracks both up up-IsValid ((names_differ, tt), (tt, tt))
      (checks 1 loop_b (status_of 200) (checks 0 loop_a no_answer started refl) refl)
