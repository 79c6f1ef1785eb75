-- ===== src/Metrics/Instruments.antt =====
-- internal/metrics/metrics.go: the instruments that New makes, with their names and the names of their
-- labels, in the order in which it registers them.
use local_inference_router.Base.{Text, bytes, List, [], ◌∷◌}
use local_inference_router.Metrics.{
  Instrument, http_requests, http_duration, attempts, attempt_seconds, inflight, healthy, failovers,
  Sample, increased, observed, set_to,
}

abbrev pub instrument_name : Instrument → Text
instrument_name http_requests = bytes "local_inference_router_http_requests_total"
instrument_name http_duration = bytes "local_inference_router_http_request_duration_seconds"
instrument_name attempts = bytes "local_inference_router_backend_attempts_total"
instrument_name attempt_seconds = bytes "local_inference_router_backend_attempt_duration_seconds"
instrument_name inflight = bytes "local_inference_router_backend_inflight"
instrument_name healthy = bytes "local_inference_router_backend_healthy"
instrument_name failovers = bytes "local_inference_router_failovers_total"

abbrev pub label_names : Instrument → List Text
label_names http_requests = bytes "route" ∷ bytes "status" ∷ []
label_names http_duration = bytes "route" ∷ []
label_names attempts = bytes "backend" ∷ bytes "alias" ∷ bytes "result" ∷ []
label_names attempt_seconds = bytes "backend" ∷ bytes "alias" ∷ []
label_names inflight = bytes "backend" ∷ []
label_names healthy = bytes "backend" ∷ []
label_names failovers = bytes "alias" ∷ bytes "reason" ∷ []

abbrev pub instrument_of : Sample → Instrument
instrument_of (increased i labels) = i
instrument_of (observed i labels x) = i
instrument_of (set_to i labels x) = i

abbrev pub labels_of : Sample → List Text
labels_of (increased i labels) = labels
labels_of (observed i labels x) = labels
labels_of (set_to i labels x) = labels

-- The results of an attempt.
abbrev pub results : List Text
results = bytes "response" ∷ bytes "transport_error" ∷ bytes "timeout" ∷ bytes "canceled" ∷ []

-- The reasons of a failover.
abbrev pub reasons : List Text
reasons =
    bytes "transport_error"
    ∷ bytes "timeout"
    ∷ bytes "status_429"
    ∷ bytes "status_502"
    ∷ bytes "status_503"
    ∷ bytes "status_504"
    ∷ []
