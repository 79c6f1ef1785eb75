-- ===== src/Router/Errors.antt =====
-- internal/router/proxy.go: the errors of the router, the statuses that may fail over, and the
-- reading of a transport error.
pub mod Fixed
use local_inference_router.Base.{
  ℕ, Text, bytes, Bool, true, false, ◌||◌, Option, none, some, ◌==◌, if◌then◌else◌,
}

abbrev pub status_client_closed : ℕ
status_client_closed = 499

pub record ApiError : Type 0 where
  pub status : ℕ
  pub message : Text
  pub error_type : Text
  pub code : Text

unfoldable pub err_unknown_alias : ApiError
err_unknown_alias = record {
  status = 404;
  message = bytes "model alias not found";
  error_type = bytes "invalid_request_error";
  code = bytes "model_not_found";
}

unfoldable pub err_no_route : ApiError
err_no_route = record {
  status = 503;
  message = bytes "no healthy backend route available";
  error_type = bytes "router_unavailable";
  code = bytes "no_route_available";
}

unfoldable pub err_upstream_timeout : ApiError
err_upstream_timeout = record {
  status = 504;
  message = bytes "upstream request timed out";
  error_type = bytes "router_upstream_error";
  code = bytes "upstream_timeout";
}

unfoldable pub err_upstream_unavailable : ApiError
err_upstream_unavailable = record {
  status = 502;
  message = bytes "upstream backend unavailable";
  error_type = bytes "router_upstream_error";
  code = bytes "upstream_unavailable";
}

unfoldable pub err_stream_unsupported : ApiError
err_stream_unsupported = record {
  status = 500;
  message = bytes "router cannot stream this response";
  error_type = bytes "router_error";
  code = bytes "streaming_unsupported";
}

-- The reason of a failover; `none` for a status that is forwarded.
unfoldable pub retryable_status : ℕ → Option Text
retryable_status status =
    if status == 429
    then some (bytes "status_429")
    else if status == 502
    then some (bytes "status_502")
    else if status == 503
    then some (bytes "status_503")
    else if status == 504
    then some (bytes "status_504")
    else none

-- What the program asks of the error of an attempt: whether it is context.Canceled or
-- context.DeadlineExceeded, what os.IsTimeout says, and the Timeout method where there is one.
pub record AttemptError : Type 0 where
  pub is_context_canceled : Bool
  pub is_deadline_exceeded : Bool
  pub is_os_timeout : Bool
  pub timeout_method : Option Bool

-- context_done says that the context of the request has an error.
unfoldable pub is_canceled : Bool → AttemptError → Bool
is_canceled context_done e = e.is_context_canceled || context_done

unfoldable pub is_timeout : AttemptError → Bool
is_timeout e =
    if e.is_deadline_exceeded || e.is_os_timeout
    then true
    else elim e.timeout_method [ none ↦ false | some b ↦ b ]

-- final and reason of Serve, and the result label of the attempt.
unfoldable pub failure_error : AttemptError → ApiError
failure_error e = if is_timeout e then err_upstream_timeout else err_upstream_unavailable

unfoldable pub failure_reason : AttemptError → Text
failure_reason e = if is_timeout e then bytes "timeout" else bytes "transport_error"

unfoldable pub failure_result : AttemptError → Text
failure_result e = if is_timeout e then bytes "timeout" else bytes "transport_error"
