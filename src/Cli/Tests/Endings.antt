-- ===== src/Cli/Tests/Endings.antt =====
-- The server fails while a health check runs, and runServe returns after it.
use local_inference_router.Base.{bytes, true, refl}
use local_inference_router.Cli.{exit_error, server_failed}
use local_inference_router.Cli.Stopping.{
  Process, Runs, begins, goes, returned, selects, proceeds, loop_ends, run_ends, step, selected,
  proceed,
}
use local_inference_router.Cli.Stopping.Ends.{Fate, start-Fate}
use local_inference_router.Cli.Tests.{env, started, started_test}

abbrev ended : Process
ended = record { stage = returned server_failed exit_error; canceled = true; loops = 0; checks = 0 }

ended-Runs : Runs started.checks ended
unfolding step selected proceed
ended-Runs =
    goes proceeds
      (goes run_ends
        (goes loop_ends (goes proceeds (goes (selects server_failed) begins refl) refl) refl) refl)
      refl

start-Fate_example : Fate env (bytes "f") ended
start-Fate_example = start-Fate env (bytes "f") started started_test ended ended-Runs
