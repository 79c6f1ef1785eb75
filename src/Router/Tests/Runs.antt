-- ===== src/Router/Tests/Runs.antt =====
-- Runs of Serve and of the whole system, and the theorems about them at concrete inputs.
use local_inference_router.Base.{
  ℕ, pos, ◌≤ℤ◌, ◌<◌, bytes, ◌≡◌, ◌≢◌, refl, ◌⊎◌, true, Option, none, some, List, [], ◌∷◌, contains,
  lookup,
}
use local_inference_router.Router.State.{State, BackendState, find}
use local_inference_router.Router.Select.{select_locked, select_step}
use local_inference_router.Router.Operations.{
  reserve, swap_reservation, release, set_health, route_count,
}
use local_inference_router.Router.Operations.Slots.{inflight_of}
use local_inference_router.Router.Errors.{retryable_status, err_no_route}
use local_inference_router.Router.Stream.{is_event_stream}
use local_inference_router.Router.Headers.{header_get, header_values, copy_response_headers}
use local_inference_router.Router.Proxy.{
  Call, Reply, Response, advance, start_call, observe, count_failover, starting, attempting,
  forwarding, releasing, finished, panicked, goto, forward, sendable,
}
use local_inference_router.Router.Proxy.Sections.{is_finished, work}
use local_inference_router.Router.Proxy.Commit.{Written, advance-Written}
use local_inference_router.Router.Proxy.Run.{serve}
use local_inference_router.Router.System.{
  System, Reach, arrives, advances, reports, begins, continues,
}
use local_inference_router.Router.System.Counts.{total}
use local_inference_router.Router.System.Safety.{
  requests-in_capacity, finished-inflight_of, next-left,
}
use local_inference_router.Router.Labels.{AllLabelled}
use local_inference_router.Router.System.Labelling.{Reach-AllLabelled}
use local_inference_router.Router.System.Commits.{Reach-committed}
use local_inference_router.Router.System.Refines.{Reach-Moved}
use local_inference_router.Router.Spec.{Moved, view}
use local_inference_router.Router.Tests.Samples.{
  config, backend_b, fresh_rooms, fresh_built, backend_a, fresh, fresh-Starts, fresh-metered, up,
  first_route,
}
use local_inference_router.Router.Tests.Examples.{chat, answers, no_media_type}

abbrev reply_of : Option (State × Call × Reply) → Option (ℕ × List ℕ × ℕ)
reply_of none = none
reply_of (some (s, c, reply)) = some (reply.status, c.attempted, inflight_of s (bytes "a"))

-- A 503 of the first route fails over to the second one on the same backend.
serve_test : reply_of (serve no_media_type answers chat true up) ≡ some (200, 1 ∷ 0 ∷ [], 0)
unfolding up serve route_count advance start_call reserve swap_reservation release select_locked
    select_step observe count_failover retryable_status is_event_stream header_get header_values
    inflight_of contains sendable
serve_test = refl

-- One backend comes up, and a request takes its only slot.
abbrev one_up : State
one_up = set_health (bytes "a") true fresh

abbrev new_call : Call
new_call = record {
  alias = chat;
  flushable = true;
  attempted = [];
  header = [];
  written = [];
  phase = starting;
}

abbrev trying : Call
trying = record new_call { attempted = 0 ∷ []; phase = attempting first_route }

abbrev state_after : Option (State × Call) → State
state_after none = fresh
state_after (some (s, c)) = s

unfoldable taken : State
unfolding up advance reserve select_locked select_step
taken = state_after (advance no_media_type new_call (answers 1) one_up)

abbrev loaded : System
loaded = record { state = taken; calls = trying ∷ [] }

loaded-Reach : Reach no_media_type fresh loaded
unfolding taken start_call contains
loaded-Reach =
    continues (continues (continues begins (reports (bytes "a") true)) (arrives chat true))
      (advances 0 new_call trying (answers 1) taken refl refl)

abbrev state_a : BackendState
state_a = record { backend = backend_a; checked = true; healthy = true; inflight = 1 }

taken_a : find taken (bytes "a") ≡ some state_a
unfolding taken contains
taken_a = refl

requests-in_capacity_example :
    (◌≡◌ {A = ℕ} 1 (total (trying ∷ []) (bytes "a")))
    × (pos (total (trying ∷ []) (bytes "a")) ≤ℤ pos 1)
requests-in_capacity_example =
    requests-in_capacity no_media_type (bytes "a") state_a fresh-Starts fresh-metered loaded-Reach
      taken_a

next-left_example :
    (s' : State) × (c' : Call) × (advance no_media_type trying (answers 1) taken ≡ some (s', c'))
    × ((is_finished trying.phase ≡ true) ⊎ (work s' c' < work taken trying))
next-left_example =
    next-left no_media_type 0 trying (answers 1) fresh-Starts fresh-metered loaded-Reach refl

-- A request that found no healthy backend is over.
abbrev refused_call : Call
refused_call = record new_call {
  phase = finished (record { status = 0; error = some err_no_route });
}

abbrev idle : System
idle = record { state = fresh; calls = refused_call ∷ [] }

idle-Reach : Reach no_media_type fresh idle
unfolding fresh advance reserve select_locked select_step start_call contains
idle-Reach =
    continues (continues begins (arrives chat true))
      (advances 0 new_call refused_call (answers 1) fresh refl refl)

finished-inflight_of_example : inflight_of fresh (bytes "a") ≡ 0
finished-inflight_of_example =
    finished-inflight_of no_media_type (bytes "a") fresh-Starts fresh-metered idle-Reach (refl, tt)

advance-Written_example : Written trying.phase trying.written
unfolding taken contains
advance-Written_example =
    advance-Written no_media_type new_call trying (answers 1) one_up taken refl refl

Reach-Moved_example : Moved (view fresh) (view taken)
Reach-Moved_example = Reach-Moved no_media_type fresh-Starts fresh-metered loaded-Reach

Reach-AllLabelled_example : AllLabelled fresh.backends fresh.aliases taken.metrics
Reach-AllLabelled_example =
    Reach-AllLabelled no_media_type fresh config (backend_a ∷ backend_b ∷ []) fresh_rooms
      fresh_built loaded-Reach

-- The request of `loaded` gets a 200 and relays it.
unfoldable responded : State
unfolding taken advance retryable_status
responded = state_after (advance no_media_type trying (answers 0) taken)

abbrev ok_response : Response
ok_response = record { status_code = 200; header = [] }

abbrev relaying : Call
relaying = record trying { phase = forwarding first_route ok_response }

abbrev relayed_call : Call
relayed_call = record trying {
  written = 200 ∷ [];
  phase = releasing first_route (record { status = 200; error = none });
}

relayed-Reach : Reach no_media_type fresh (record { state = responded; calls = relayed_call ∷ [] })
unfolding responded taken contains retryable_status forward sendable is_event_stream header_get
    header_values copy_response_headers
relayed-Reach =
    continues (continues loaded-Reach (advances 0 trying relaying (answers 0) responded refl refl))
      (advances 0 relaying relayed_call (answers 0) responded refl refl)

status_written : relayed_call.written ≢ []
status_written e = cc

Reach-committed_example :
    (relayed_call.attempted ≡ relayed_call.attempted)
    × (relayed_call.written ≡ relayed_call.written)
unfolding advance
Reach-committed_example =
    Reach-committed no_media_type 0 relayed_call (goto relayed_call (finished _)) (answers 0) _
      relayed-Reach refl status_written refl

-- WriteHeader panics on the status 0 of an upstream, and the slot of the request stays taken.
abbrev zero_response : Response
zero_response = record { status_code = 0; header = [] }

leaked_test :
    advance no_media_type
      (record trying { phase = forwarding first_route zero_response })
      (answers 0)
      taken
    ≡ some (taken, record trying { phase = panicked first_route })
unfolding advance forward sendable is_event_stream header_get header_values lookup
    copy_response_headers
leaked_test = refl

panicked_test :
    advance no_media_type (record trying { phase = panicked first_route }) (answers 0) taken
    ≡ some (taken, record trying { phase = panicked first_route })
unfolding advance
panicked_test = refl
