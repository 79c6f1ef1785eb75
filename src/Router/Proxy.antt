-- ===== src/Router/Proxy.antt =====
-- internal/router/proxy.go: Proxy.Serve, one request of a client against the routes of an alias.
-- Other requests and the health checks run between the critical sections of Serve, so the method
-- is cut there: a `Call` holds its local variables and says which section comes next, and
-- `advance` runs one section with the code up to the next one. The answer of the upstream is an
-- argument of the sections that wait for it. `none` is a nil dereference. The other panic of Serve is
-- the one of WriteHeader, which leaves the request in the phase `panicked`.
pub mod Untried
pub mod Sections
pub mod Advance
pub mod Progress
pub mod Commit
pub mod Policy
pub mod Run
pub mod Leads
pub mod Dims
pub mod Aims
pub mod Sends
pub mod Labelling
use local_inference_router.Base.{
  ℕ, ◌+◌, leb, Text, bytes, Bool, true, false, not, ◌&&◌, Option, none, some, List, [], ◌∷◌,
  if◌then◌else◌, ◌>>=◌,
}
use local_inference_router.Metrics.{observe_attempt, failover}
use local_inference_router.Router.State.{Route, State, publish}
use local_inference_router.Router.Operations.{
  Reservation, granted, refused, no_route, unknown_alias, reserve, swap_reservation, release,
  set_health,
}
use local_inference_router.Router.Headers.{Header, copy_response_headers}
use local_inference_router.Router.Errors.{
  ApiError, AttemptError, status_client_closed, err_unknown_alias, err_no_route,
  err_stream_unsupported, retryable_status, is_canceled, failure_error, failure_reason,
  failure_result,
}
use local_inference_router.Router.Stream.{is_event_stream}

pub record Response : Type 0 where
  pub status_code : ℕ
  pub header : Header

pub data Result : Type 0 where
  answered : Response → Result
  failed : AttemptError → Result

-- One call of attempt: what it returns, how long it took, and whether the context of the client's
-- request has an error when Serve looks.
pub record Attempt : Type 0 where
  pub result : Result
  pub elapsed : ℕ
  pub context_done : Bool

-- What Serve returns.
pub record Reply : Type 0 where
  pub status : ℕ
  pub error : Option ApiError

pub data Phase : Type 0 where
  -- before the first Reserve
  starting : Phase
  -- the request is with the upstream of the route
  attempting : Route → Phase
  -- the client left: before Release
  canceling : Route → ℕ → Phase
  -- the attempt failed: before SetHealth, before Release, before Reserve
  quarantining abandoning : Route → AttemptError → ℕ → Phase
  retrying : AttemptError → Phase
  -- the upstream answered with a retryable status, for the reason: before SwapReservation
  swapping : Route → Response → Text → Phase
  -- before forward
  forwarding : Route → Response → Phase
  -- before the last Release
  releasing : Route → Reply → Phase
  finished : Reply → Phase
  -- WriteHeader panicked: neither the code after forward nor its Release runs
  panicked : Route → Phase

-- attempted holds the addresses of its routes; `header` is the header of the writer, and `written`
-- are the statuses that WriteHeader took.
pub record Call : Type 0 where
  pub alias : Text
  pub flushable : Bool
  pub attempted : List ℕ
  pub header : Header
  pub written : List ℕ
  pub phase : Phase

unfoldable pub start_call : Text → Bool → Call
start_call alias flushable = record {
  alias = alias;
  flushable = flushable;
  attempted = [];
  header = [];
  written = [];
  phase = starting;
}

abbrev pub goto : Call → Phase → Call
goto c p = record c { phase = p }

-- The top of the loop: attempted[route] = true, and the attempt.
abbrev pub try_route : Call → Route → Call
try_route c r = record c { attempted = r.address ∷ c.attempted; phase = attempting r }

abbrev pub reply_error : ApiError → Reply
reply_error e = record { status = 0; error = some e }

-- p.observe, which does without metrics
unfoldable pub observe : Route → Text → ℕ → State → State
observe r result elapsed s = publish (observe_attempt r.backend.name r.alias result elapsed) s

-- p.metrics.Failover, which does not
unfoldable pub count_failover : Text → Text → State → Option State
count_failover alias reason s = elim s.metrics [
  | none ↦ none
  | some m ↦ some (record s { metrics = some (failover alias reason m) })
]

-- The first Reserve and its errors.
pub after_reserve : Call → State × Reservation → Option (State × Call)
after_reserve c (s, granted r) = some (s, try_route c r)
after_reserve c (s, refused unknown_alias) =
    some (s, goto c (finished (reply_error err_unknown_alias)))
after_reserve c (s, refused no_route) = some (s, goto c (finished (reply_error err_no_route)))

-- Up to the next critical section after an attempt.
pub after_attempt : Call → Route → Attempt → State → Option (State × Call)
after_attempt c r a s = elim a.result [
  | failed e ↦
      if is_canceled a.context_done e
      then some (s, goto c (canceling r a.elapsed))
      else some (s, goto c (quarantining r e a.elapsed))
  | answered resp ↦
      let observed = observe r (bytes "response") a.elapsed s in
      elim (retryable_status resp.status_code) [
        | some reason ↦ some (observed, goto c (swapping r resp reason))
        | none ↦ some (observed, goto c (forwarding r resp))
      ]
]

-- The Reserve that follows a failed attempt.
pub after_retry : Call → AttemptError → State × Reservation → Option (State × Call)
after_retry c e (s, granted next) = do
  counted ← count_failover c.alias (failure_reason e) s
  some (counted, try_route c next)
after_retry c e (s, refused _) = some (s, goto c (finished (reply_error (failure_error e))))

-- The SwapReservation that follows a retryable status.
pub after_swap : Call → Route → Response → Text → State × Reservation → Option (State × Call)
after_swap c r resp reason (s, granted next) = do
  counted ← count_failover c.alias reason s
  some (counted, try_route c next)
after_swap c r resp reason (s, refused _) = some (s, goto c (forwarding r resp))

-- What WriteHeader takes: it panics on any other status.
unfoldable pub sendable : ℕ → Bool
sendable code = leb 100 code && leb code 999

module _ (parse_media_type : Text → Option Text) where
  -- forward: the header and the status that it writes downstream, and what it returns. The relay,
  -- whose failure is only logged, is in Router/Stream/Relay.
  unfoldable pub forward : Call → Route → Response → Call
  forward c r resp =
      if is_event_stream parse_media_type resp.header && not c.flushable
      then goto c (releasing r (reply_error err_stream_unsupported))
      else if not (sendable resp.status_code)
      then record c { header = copy_response_headers c.header resp.header; phase = panicked r }
      else record c {
        header = copy_response_headers c.header resp.header;
        written = resp.status_code ∷ c.written;
        phase = releasing r (record { status = resp.status_code; error = none });
      }

  -- One critical section of Serve, and the code up to the next one.
  pub advance_phase : Call → Phase → Attempt → State → Option (State × Call)
  unfolding forward after_reserve after_attempt after_retry after_swap
  advance_phase c starting a s = reserve c.alias c.attempted s >>= after_reserve c
  advance_phase c (attempting r) a s = after_attempt c r a s
  advance_phase c (canceling r elapsed) a s = some (
    observe r (bytes "canceled") elapsed (release (some r) s),
    goto c (finished (record { status = status_client_closed; error = none })),
  )
  advance_phase c (quarantining r e elapsed) a s =
      some (set_health r.backend.name false s, goto c (abandoning r e elapsed))
  advance_phase c (abandoning r e elapsed) a s =
      some (observe r (failure_result e) elapsed (release (some r) s), goto c (retrying e))
  advance_phase c (retrying e) a s = reserve c.alias c.attempted s >>= after_retry c e
  advance_phase c (swapping r resp reason) a s =
      swap_reservation c.alias (some r) c.attempted s >>= after_swap c r resp reason
  advance_phase c (forwarding r resp) a s = some (s, forward c r resp)
  advance_phase c (releasing r reply) a s = some (release (some r) s, goto c (finished reply))
  advance_phase c (finished reply) a s = some (s, goto c (finished reply))
  advance_phase c (panicked r) a s = some (s, goto c (panicked r))

  unfoldable pub advance : Call → Attempt → State → Option (State × Call)
  unfolding advance_phase
  advance c a s = advance_phase c c.phase a s
