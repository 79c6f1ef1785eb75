-- ===== src/Cli/Stopping.antt =====
-- internal/cli/app.go: the end of runServe, from its select to its return, beside the goroutines of
-- the server and of the health loops. The two wait groups are their counters.
pub mod Ends
use local_inference_router.Base.{
  ℕ, ◌-◌, Bool, true, false, ◌==◌, ◌&&◌, ltb, ◌≡◌, Option, none, some, length, if◌then◌else◌,
}
use local_inference_router.Health.Checks.{Checks}
use local_inference_router.Cli.{
  Outcome, server_failed, signaled, server_closed, exit_error, exit_success,
}

-- Where runServe is, with the case that its select took, and its exit code.
pub data Stage : Type 0 where
  listening : Stage
  shutting_down : Outcome → Stage
  stopping : Outcome → Stage
  waiting : Outcome → Stage
  returned : Outcome → ℕ → Stage

-- The context is canceled or not; `loops` is the counter of Run, and `checks` that of runServe.
pub record Process : Type 0 where
  pub stage : Stage
  pub canceled : Bool
  pub loops : ℕ
  pub checks : ℕ

abbrev pub serve_process : Checks → Process
serve_process c = record {
  stage = listening;
  canceled = false;
  loops = length c.backends;
  checks = 1;
}

pub data ProcessEvent : Type 0 where
  -- A signal cancels the context.
  interrupt : ProcessEvent
  -- The select takes a case, and the goroutine of runServe goes on after it.
  selects : Outcome → ProcessEvent
  proceeds : ProcessEvent
  -- A loop returns, and Run after all of them.
  loop_ends run_ends : ProcessEvent

abbrev pub exit_code : Outcome → ℕ
exit_code server_failed = exit_error
exit_code server_closed = exit_success
exit_code signaled = exit_success

-- The cases of the select.
unfoldable pub selected : Stage → Outcome → Process → Option Process
selected listening server_failed p = some (record p { stage = stopping server_failed })
selected listening server_closed p = some (record p { stage = shutting_down server_closed })
selected listening signaled p =
    if p.canceled then some (record p { stage = shutting_down signaled }) else none
selected _ o p = none

-- Shutdown returns, stop cancels the context, and checks.Wait returns.
unfoldable pub proceed : Stage → Process → Option Process
proceed listening p = none
proceed (shutting_down o) p = some (record p { stage = stopping o })
proceed (stopping o) p = some (record p { stage = waiting o; canceled = true })
proceed (waiting o) p =
    if p.checks == 0 then some (record p { stage = returned o (exit_code o) }) else none
proceed (returned o code) p = none

-- One event, `none` where it cannot happen.
unfoldable pub step : ProcessEvent → Process → Option Process
unfolding selected proceed
step interrupt p = some (record p { canceled = true })
step (selects o) p = selected p.stage o p
step proceeds p = proceed p.stage p
step loop_ends p =
    if p.canceled && ltb 0 p.loops then some (record p { loops = p.loops - 1 }) else none
step run_ends p =
    if p.loops == 0 && ltb 0 p.checks then some (record p { checks = p.checks - 1 }) else none

pub data Runs (c : Checks) : Process → Type 0 where
  begins : Runs c (serve_process c)
  goes : {p p' : Process} (e : ProcessEvent) → Runs c p → step e p ≡ some p' → Runs c p'
