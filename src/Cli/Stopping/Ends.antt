-- ===== src/Cli/Stopping/Ends.antt =====
-- internal/cli/app.go: runServe returns, after all the goroutines of the health checks.
use local_inference_router.Base.{
  ℕ, zero, suc, ◌+◌, ◌-◌, ◌<◌, ◌≤◌, ltb, ◌==◌, ◌&&◌, if◌then◌else◌, none, ◌∙◌, Text, Bool, true,
  false, ◌≡◌, ◌⊎◌, refl, ap, sym, Option, some, ok, arith, inl, inr,
}
use mathlib.Core.Path.{subst}
use mathlib.Core.Option.{some-injective}
use local_inference_router.Health.Checks.{Checks}
use local_inference_router.Cli.{
  Environment, Started, Outcome, server_failed, server_closed, signaled, start, run_serve,
}
use local_inference_router.Cli.Stopping.{
  Stage, listening, shutting_down, stopping, waiting, returned, Process, ProcessEvent, interrupt,
  selects, proceeds, loop_ends, run_ends, exit_code, selected, proceed, step, Runs, begins, goes,
}

-- What each stage says of the rest.
abbrev Fits : Stage → Process → Type 0
Fits listening p = Unit
Fits (shutting_down o) p = Unit
Fits (stopping o) p = Unit
Fits (waiting o) p = p.canceled ≡ true
Fits (returned o code) p = (p.checks ≡ 0) × (code ≡ exit_code o)

-- Run has returned after its loops, or has not returned.
abbrev Counted : Process → Type 0
Counted p = ((p.checks ≡ 0) × (p.loops ≡ 0)) ⊎ (p.checks ≡ 1)

record IsSound (p : Process) : Type 0 where
  fits : Fits p.stage p
  counted : Counted p

abbrev Keeps : Option Process → Type 0
Keeps o = (p' : Process) → o ≡ some p' → IsSound p'

some-Keeps : (p : Process) → IsSound p → Keeps (some p)
some-Keeps p h p' e = subst IsSound (some-injective _ _ e) h

canceled-Fits :
    (stage : Stage) (p : Process) → Fits stage p → Fits stage (record p { canceled = true })
canceled-Fits listening p h = tt
canceled-Fits (shutting_down o) p h = tt
canceled-Fits (stopping o) p h = tt
canceled-Fits (waiting o) p h = refl
canceled-Fits (returned o code) p h = h

if-Keeps :
    (test : Bool) (p : Process) → (test ≡ true → IsSound p) → Keeps (if test then some p else none)
if-Keeps true p h = some-Keeps p (h refl)
if-Keeps false p h = λ p' e. cc

selected-Keeps :
    (stage : Stage) (o : Outcome) (p : Process) → IsSound p → Keeps (selected stage o p)
unfolding selected
selected-Keeps listening server_failed p h =
    some-Keeps _ (record { fits = tt; counted = h.counted })
selected-Keeps listening server_closed p h =
    some-Keeps _ (record { fits = tt; counted = h.counted })
selected-Keeps listening signaled p h =
    if-Keeps p.canceled _ (λ t. record { fits = tt; counted = h.counted })
selected-Keeps (shutting_down _) o p h = λ p' e. cc
selected-Keeps (stopping _) o p h = λ p' e. cc
selected-Keeps (waiting _) o p h = λ p' e. cc
selected-Keeps (returned _ _) o p h = λ p' e. cc

proceed-Keeps : (stage : Stage) (p : Process) → IsSound p → Keeps (proceed stage p)
unfolding proceed
proceed-Keeps listening p h = λ p' e. cc
proceed-Keeps (shutting_down o) p h = some-Keeps _ (record { fits = tt; counted = h.counted })
proceed-Keeps (stopping o) p h = some-Keeps _ (record { fits = refl; counted = h.counted })
proceed-Keeps (waiting o) p h =
    if-Keeps (p.checks == 0) _
      (λ t. record { fits = (ground (arith, t), refl); counted = h.counted })
proceed-Keeps (returned o code) p h = λ p' e. cc

-- A stage fits where the context and the counter of runServe are as they were, or the counter is 0.
same-Fits :
    (stage : Stage) (p p' : Process)
    → p'.canceled ≡ p.canceled
    → p'.checks ≤ p.checks
    → Fits stage p
    → Fits stage p'
same-Fits listening p p' c k h = tt
same-Fits (shutting_down o) p p' c k h = tt
same-Fits (stopping o) p p' c k h = tt
same-Fits (waiting o) p p' c k h = c ∙ h
same-Fits (returned o code) p p' c k (none_left, e) = (omega arith, e)

step-Keeps : (e : ProcessEvent) (p : Process) → IsSound p → Keeps (step e p)
unfolding step
step-Keeps interrupt p h =
    some-Keeps _ (record { fits = canceled-Fits p.stage p h.fits; counted = h.counted })
step-Keeps (selects o) p h = selected-Keeps p.stage o p h
step-Keeps proceeds p h = proceed-Keeps p.stage p h
step-Keeps loop_ends p h = if-Keeps (p.canceled && ltb 0 p.loops) _ (λ t. record {
  fits = same-Fits p.stage p _ refl (omega arith) h.fits;
  counted = ground (arith, h.counted, t);
})
step-Keeps run_ends p h = if-Keeps (p.loops == 0 && ltb 0 p.checks) _ (λ t. record {
  fits = same-Fits p.stage p _ refl (omega arith) h.fits;
  counted = ground (arith, h.counted, t);
})

Runs-IsSound : (c : Checks) {p : Process} → Runs c p → IsSound p
Runs-IsSound c begins = record { fits = tt; counted = inr refl }
Runs-IsSound c (goes {p} {p'} e r at) = step-Keeps e p (Runs-IsSound c r) p' at

rank : Stage → ℕ
rank listening = 4
rank (shutting_down o) = 3
rank (stopping o) = 2
rank (waiting o) = 1
rank (returned o code) = 0

-- What is left to happen but for signals.
unfoldable pub left : Process → ℕ
unfolding rank
left p = rank p.stage + p.loops + p.checks

-- A process waits for its server or a signal; or something can happen that leaves less; or it is
-- over, with the exit code that run_serve has for the case of its select, and all loops and Run have returned.
pub data Fate (env : Environment) (path : Text) (p : Process) : Type 0 where
  serving : p.stage ≡ listening → Fate env path p
  ending :
      (e : ProcessEvent) (p' : Process) → step e p ≡ some p' → left p' < left p → Fate env path p
  over :
      (o : Outcome)
      → p.stage ≡ returned o (run_serve env path o)
      → p.loops ≡ 0
      → p.checks ≡ 0
      → Fate env path p

module _ (env : Environment) (path : Text) (st : Started) (started : start env path ≡ ok st) where
  run_serve-started : (o : Outcome) → run_serve env path o ≡ exit_code o
  unfolding run_serve
  run_serve-started server_failed = rw (started, run_serve) refl
  run_serve-started server_closed = rw (started, run_serve) refl
  run_serve-started signaled = rw (started, run_serve) refl

  abbrev at : Stage → Bool → ℕ → ℕ → Process
  at stage canceled loops checks = record {
    stage = stage;
    canceled = canceled;
    loops = loops;
    checks = checks;
  }

  -- The wait for Run, whose loops end since the context is canceled.
  waiting-Fate :
      (o : Outcome) (canceled : Bool) (loops checks : ℕ)
      → canceled ≡ true
      → Counted (at (waiting o) canceled loops checks)
      → Fate env path (at (waiting o) canceled loops checks)
  unfolding step left proceed
  waiting-Fate o canceled loops checks stopped (inl (c, _)) =
      ending proceeds (at (returned o (exit_code o)) canceled loops checks) (rw c refl)
        (omega arith)
  waiting-Fate o canceled zero checks stopped (inr c) =
      ending run_ends (at (waiting o) canceled zero (checks - 1)) (rw c refl) (omega arith)
  waiting-Fate o canceled (suc loops) checks stopped (inr c) =
      ending loop_ends (at (waiting o) canceled (suc loops - 1) checks) (ground (arith, stopped))
        (omega arith)

  sound-Fate :
      (stage : Stage) (canceled : Bool) (loops checks : ℕ)
      → IsSound (at stage canceled loops checks)
      → Fate env path (at stage canceled loops checks)
  unfolding step left proceed
  sound-Fate listening canceled loops checks h = serving refl
  sound-Fate (shutting_down o) canceled loops checks h = ending proceeds _ refl (omega arith)
  sound-Fate (stopping o) canceled loops checks h = ending proceeds _ refl (omega arith)
  sound-Fate (waiting o) canceled loops checks h =
      waiting-Fate o canceled loops checks h.fits h.counted
  sound-Fate (returned o code) canceled loops checks h =
      let (none_left, e) = h.fits in
      over o (ap (returned o) (e ∙ sym (run_serve-started o))) (ground (arith, h.counted)) none_left

  -- Once runServe has started the server and the loops of the health checks, whatever happens in
  -- whatever order, it waits in its select for the server or a signal; or something that is not a
  -- signal can happen and leaves less to happen; or it has returned, with the exit code that
  -- run_serve has for the case of its select, and then all the loops and Run have returned.
  pub start-Fate : (p : Process) → Runs st.checks p → Fate env path p
  start-Fate p r = sound-Fate p.stage p.canceled p.loops p.checks (Runs-IsSound st.checks r)
