-- ===== src/Router/Tests/Policies.antt =====
-- The failover policy, the headers and the reader with the idle timeout at concrete inputs.
use local_inference_router.Base.{
  contains, pos, bytes, ◌≡◌, ◌≢◌, ◌⊎◌, refl, true, false, none, some, [], ◌∷◌, ◌++◌, ◌>>=◌, arith,
}
use local_inference_router.Router.State.{State}
use local_inference_router.Router.State.Valid.{Routed}
use local_inference_router.Router.Select.Best.{Eligible}
use local_inference_router.Metrics.{status_label}
use local_inference_router.Metrics.Labels.{status_label_lem}
use local_inference_router.Router.Errors.{AttemptError, is_canceled}
use local_inference_router.Router.Operations.{set_health}
use local_inference_router.Router.Proxy.{
  Call, Attempt, Reply, advance, failed, goto, quarantining, attempting, abandoning, releasing,
}
use local_inference_router.Router.Proxy.Policy.{quarantine-Eligible, canceled-Leaves, Leaves}
use local_inference_router.Router.Headers.{Header, header_values, copy_response_headers}
use local_inference_router.Router.Headers.Blocking.{Blocked}
use local_inference_router.Router.Headers.Copying.{values-copy_response_headers, gather}
use local_inference_router.Router.Stream.Idle.{
  Reader, eof, new_reader, fire, expire, read, close, Events, here, next, fires, expires, IsSound,
  Events-IsSound, read-close,
}
use local_inference_router.Router.Tests.Samples.{up, up-IsValid, first_route, second_route}
use local_inference_router.Router.Tests.Examples.{chat, no_media_type}

up-first : Routed up.backends first_route
unfolding up
up-first = (0, refl)

abbrev reset : AttemptError
reset = record {
  is_context_canceled = false;
  is_deadline_exceeded = false;
  is_os_timeout = false;
  timeout_method = none;
}

abbrev failing : Attempt
failing = record { result = failed reset; elapsed = 1; context_done = false }

abbrev gone : Attempt
gone = record failing { context_done = true }

abbrev call_at : Call
call_at = record {
  alias = chat;
  flushable = true;
  attempted = 0 ∷ [];
  header = [];
  written = [];
  phase = attempting first_route;
}

abbrev condemning : Call
condemning = goto call_at (quarantining first_route reset 1)

-- The second route is on the same backend.
quarantine-Eligible_example : ¬ Eligible (set_health (bytes "a") false up) [] second_route
unfolding up advance
quarantine-Eligible_example =
    quarantine-Eligible no_media_type condemning failing up (set_health (bytes "a") false up)
      (goto condemning (abandoning first_route reset 1)) first_route second_route reset 1 []
      up-IsValid up-first refl refl refl

canceled-Leaves_example :
    (s' : State) × (c' : Call) × ((advance no_media_type call_at gone up >>= λ (t, d).
    advance no_media_type d failing t)
      ≡ some (s', c'))
    × (c'.attempted ≡ 0 ∷ [])
    × Leaves no_media_type up s' call_at c' first_route
unfolding is_canceled
canceled-Leaves_example =
    canceled-Leaves no_media_type call_at gone failing up first_route reset up-IsValid up-first refl
      refl refl

abbrev sent : Reply
sent = record { status = 200; error = none }

abbrev replied : Call
replied = record call_at { written = 200 ∷ []; phase = releasing first_route sent }

some_written : replied.written ≢ []
some_written e = cc

abbrev upstream_header : Header
upstream_header =
    (bytes "Connection", bytes "x-hop" ∷ [])
    ∷ (bytes "X-Hop", bytes "1" ∷ [])
    ∷ (bytes "Content-Type", bytes "text/plain" ∷ [])
    ∷ []

values-copy_response_headers_example :
    (Blocked upstream_header (bytes "x-hop")
      × (header_values (copy_response_headers [] upstream_header) (bytes "x-hop")
          ≡ header_values [] (bytes "x-hop")))
    ⊎ ((¬ Blocked upstream_header (bytes "x-hop"))
        × (header_values (copy_response_headers [] upstream_header) (bytes "x-hop")
            ≡ header_values [] (bytes "x-hop") ++ gather upstream_header (bytes "x-hop")))
values-copy_response_headers_example =
    values-copy_response_headers (bytes "x-hop") [] upstream_header

abbrev reader : Reader
reader = record { timed_out = false; closed = false; armed = true; firing = 0; body_closes = 0 }

-- The timer fires, Close comes first, and then the waiting expire runs.
abbrev fired : Reader
fired = record reader { armed = false; firing = 1 }

late_expire : Events (close fired) (expire (close fired))
unfolding close
late_expire = next here (expires (omega arith))

Events-IsSound_example : IsSound (expire (fire reader))
unfolding fire new_reader
Events-IsSound_example =
    Events-IsSound (pos 1000) {r = reader} refl (next (next here fires) (expires (omega arith)))

read-close_example :
    ((read 0 (some eof) (expire (close fired))).1 ≡ 0)
    × ((read 0 (some eof) (expire (close fired))).2 ≡ some eof)
read-close_example = read-close fired 0 (some eof) refl refl late_expire

status_label_lem_example : status_label 418 ≡ bytes "4xx"
unfolding contains
status_label_lem_example = status_label_lem 418
