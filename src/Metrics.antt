-- ===== src/Metrics.antt =====
-- internal/metrics/metrics.go. The Prometheus library is not modelled: the state of the metrics is
-- the list of the calls that the program makes of its instruments, the newest first.
pub mod Labels
pub mod Instruments
use local_inference_router.Base.{
  ℕ, Text, Bool, bytes, List, [], ◌∷◌, ◌&&◌, ◌==◌, leb, ltb, if◌then◌else◌,
}

pub data Instrument : Type 0 where
  http_requests http_duration attempts attempt_seconds inflight healthy failovers : Instrument

-- The arguments of WithLabelValues stand in the order of the source; durations are nanoseconds.
pub data Sample : Type 0 where
  increased : Instrument → List Text → Sample
  observed : Instrument → List Text → ℕ → Sample
  set_to : Instrument → List Text → ℕ → Sample

pub record Metrics : Type 0 where
  pub samples : List Sample

abbrev pub record_sample : Sample → Metrics → Metrics
record_sample x m = record m { samples = x ∷ m.samples }

unfoldable pub status_label : ℕ → Text
status_label status =
    if status == 200
    then bytes "200"
    else if status == 400
    then bytes "400"
    else if status == 401
    then bytes "401"
    else if status == 404
    then bytes "404"
    else if status == 413
    then bytes "413"
    else if status == 415
    then bytes "415"
    else if status == 429
    then bytes "429"
    else if status == 500
    then bytes "500"
    else if status == 502
    then bytes "502"
    else if status == 503
    then bytes "503"
    else if status == 504
    then bytes "504"
    else if leb 200 status && ltb status 300
    then bytes "2xx"
    else if leb 300 status && ltb status 400
    then bytes "3xx"
    else if leb 400 status && ltb status 500
    then bytes "4xx"
    else bytes "5xx"

unfoldable pub observe_http : Text → ℕ → ℕ → Metrics → Metrics
observe_http route status elapsed m =
    record_sample (observed http_duration (route ∷ []) elapsed)
      (record_sample (increased http_requests (route ∷ status_label status ∷ [])) m)

unfoldable pub observe_attempt : Text → Text → Text → ℕ → Metrics → Metrics
observe_attempt backend alias result elapsed m =
    record_sample (observed attempt_seconds (backend ∷ alias ∷ []) elapsed)
      (record_sample (increased attempts (backend ∷ alias ∷ result ∷ [])) m)

unfoldable pub set_inflight : Text → ℕ → Metrics → Metrics
set_inflight backend value m = record_sample (set_to inflight (backend ∷ []) value) m

unfoldable pub set_healthy : Text → Bool → Metrics → Metrics
set_healthy backend up m = record_sample (set_to healthy (backend ∷ []) (if up then 1 else 0)) m

unfoldable pub failover : Text → Text → Metrics → Metrics
failover alias reason m = record_sample (increased failovers (alias ∷ reason ∷ [])) m

unfoldable pub init_backend : Text → Metrics → Metrics
init_backend backend m =
    record_sample (set_to healthy (backend ∷ []) 0)
      (record_sample (set_to inflight (backend ∷ []) 0) m)
