-- ===== src/Router/Labels.antt =====
-- What a label of a sample can be: the name of a backend or of an alias of the routing state, or one
-- of the fixed results and reasons of internal/metrics/metrics.go.
use local_inference_router.Base.{
  ℕ, Text, bytes, Bool, true, List, Option, none, some, ◌≡◌, lookup, mem_text, All, All2,
}
use mathlib.Core.Option
use local_inference_router.Metrics.{
  Metrics, Sample, set_inflight, set_healthy, observe_attempt, failover, init_backend,
}
use local_inference_router.Metrics.Instruments.{
  label_names, instrument_of, labels_of, results, reasons,
}
use local_inference_router.Router.State.{AliasState, State, publish}

abbrev pub HasKey {ℓ} : {V : Type ℓ} → Text → List (Text × V) → Type ℓ
HasKey {V} k m = (v : V) × (lookup k m ≡ some v)

-- The aliases of the routes of an alias are known.
abbrev pub Aliased : List (Text × AliasState) → Type 0
Aliased aliases =
    (n : Text) (a : AliasState)
    → lookup n aliases ≡ some a
    → All (λ r. HasKey r.alias aliases) a.routes

module _ (backends : List (Text × ℕ)) (aliases : List (Text × AliasState)) where
  -- The label of a name has a value.
  pub data Allowed : Text → Text → Type 0 where
    of_backend : (v : Text) → HasKey v backends → Allowed (bytes "backend") v
    of_alias : (v : Text) → HasKey v aliases → Allowed (bytes "alias") v
    of_result : (v : Text) → mem_text v results ≡ true → Allowed (bytes "result") v
    of_reason : (v : Text) → mem_text v reasons ≡ true → Allowed (bytes "reason") v

  -- As many labels as the instrument has, each with a value that its name allows.
  abbrev pub IsLabelled : Sample → Type 0
  IsLabelled x = All2 Allowed (label_names (instrument_of x)) (labels_of x)

  abbrev pub AllLabelled : Option Metrics → Type 0
  AllLabelled none = Unit
  AllLabelled (some m) = All IsLabelled m.samples

  -- A call of the metrics adds such samples.
  abbrev pub Adds : (Metrics → Metrics) → Type 0
  Adds f = (m : Metrics) → All IsLabelled m.samples → All IsLabelled (f m).samples

  map-AllLabelled :
      (f : Metrics → Metrics) (o : Option Metrics)
      → Adds f
      → AllLabelled o
      → AllLabelled (Option.map f o)
  map-AllLabelled f none adds h = tt
  map-AllLabelled f (some m) adds h = adds m h

  pub publish-AllLabelled :
      (f : Metrics → Metrics) (s : State)
      → Adds f
      → AllLabelled s.metrics
      → AllLabelled (publish f s).metrics
  unfolding publish
  publish-AllLabelled f s adds h = map-AllLabelled f s.metrics adds h

  pub set_inflight-Adds : (n : Text) (k : ℕ) → HasKey n backends → Adds (set_inflight n k)
  unfolding set_inflight
  set_inflight-Adds n k known m h = ((of_backend n known, tt), h)

  pub set_healthy-Adds : (n : Text) (up : Bool) → HasKey n backends → Adds (set_healthy n up)
  unfolding set_healthy
  set_healthy-Adds n up known m h = ((of_backend n known, tt), h)

  pub init_backend-Adds : (n : Text) → HasKey n backends → Adds (init_backend n)
  unfolding init_backend
  init_backend-Adds n known m h = ((of_backend n known, tt), ((of_backend n known, tt), h))

  pub observe_attempt-Adds :
      (n alias result : Text) (elapsed : ℕ)
      → HasKey n backends
      → HasKey alias aliases
      → mem_text result results ≡ true
      → Adds (observe_attempt n alias result elapsed)
  unfolding observe_attempt
  observe_attempt-Adds n alias result elapsed known routed fixed m h = (
    (of_backend n known, (of_alias alias routed, tt)),
    ((of_backend n known, (of_alias alias routed, (of_result result fixed, tt))), h),
  )

  pub failover-Adds :
      (alias reason : Text)
      → HasKey alias aliases
      → mem_text reason reasons ≡ true
      → Adds (failover alias reason)
  unfolding failover
  failover-Adds alias reason routed fixed m h =
      ((of_alias alias routed, (of_reason reason fixed, tt)), h)
