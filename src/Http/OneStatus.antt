-- ===== src/Http/OneStatus.antt =====
-- internal/httpapi: the status that a request gets, and the state that it leaves.
use local_inference_router.Base.{
  ℕ, Text, bytes, text_eq, Bool, true, false, not, ◌||◌, Option, some, [], ◌∷◌, ok, Result-cases,
  Option-cases, Bool-cases, inl, inr, ◌≡◌, ◌⊎◌, refl, ap, ◌∙◌, arith, if◌then◌else◌, ◌>>=◌,
}
use local_inference_router.Router.State.{State, publish}
use local_inference_router.Router.State.Valid.{IsValid, publish-IsValid}
use local_inference_router.Router.Operations.{Status, ready, snapshot}
use local_inference_router.Router.Headers.{header_set}
use local_inference_router.Router.Operations.Slots.{inflight_of, inflight_of-publish}
use local_inference_router.Router.Operations.Keeps.{metered}
use local_inference_router.Router.Operations.Readiness.{ready-Decides, snapshot-Shows}
use local_inference_router.Router.Proxy.{Call, Reply, Attempt}
use local_inference_router.Router.Proxy.Commit.{Replied}
use local_inference_router.Router.Proxy.Sends.{Accepted}
use local_inference_router.Router.Proxy.Run.{serve, serve-Returned}
use local_inference_router.Router.Proxy.Run.Statuses.{serve-Replied}
use local_inference_router.Metrics.{observe_http}
use local_inference_router.Http.{
  Request, Response, Endpoint, chat_completions, models, router_status, healthz, readyz,
  handle_models, handle_healthz, handle_readyz, handle_router_status, instrumented,
  write_unauthorized, write_error, method_not_allowed, readiness, routing_state, authorized,
  is_protected, route_label,
}
use local_inference_router.Http.Chat.{Codec, handle_chat, chat_alias, finish_chat}
use local_inference_router.Http.Mux.{Serving, handler_of, handle}

-- The status that is returned was written, once; or nothing was, and it is 499, of a client that
-- has left.
abbrev pub OneStatus : Response → Type 0
OneStatus a = (a.written ≡ a.status ∷ []) ⊎ ((a.written ≡ []) × (a.status ≡ 499))

-- What a request leaves: a valid state with the same aliases and reservations.
pub record Answers (s s' : State) (a : Response) : Type 0 where
  pub valid : IsValid s'
  pub aliases : s'.aliases ≡ s.aliases
  pub counts : (n : Text) → inflight_of s' n ≡ inflight_of s n
  pub one_status : OneStatus a

-- A handler that answers.
Answered : (Request → State → Option (State × Response)) → Request → State → Type 0
Answered next r s = (s' : State) × (a : Response) × (next r s ≡ some (s', a)) × Answers s s' a

finish_chat-OneStatus :
    (s : State) (c : Call) (reply : Reply)
    → Replied reply c.written
    → ((finish_chat (s, c, reply)).0 ≡ s) × OneStatus (finish_chat (s, c, reply)).1
unfolding finish_chat write_error
finish_chat-OneStatus s c reply h = ground (arith, Option-cases reply.error)

Answers-same : (s : State) (a : Response) → IsValid s → OneStatus a → Answers s s a
Answers-same s a v one = record { valid = v; aliases = refl; counts = λ n. refl; one_status = one }

handle_chat-serve :
    (codec : Codec) (answers : ℕ → Attempt) (flushable : Bool) (r : Request) (s : State)
    (alias : Text) (t : State × Call × Reply)
    → text_eq r.method (bytes "POST") ≡ true
    → chat_alias codec r ≡ ok alias
    → serve codec.parse_media_type answers alias flushable s ≡ some t
    → handle_chat codec answers flushable r s ≡ some (finish_chat t)
unfolding handle_chat
handle_chat-serve codec answers flushable r s alias t post at ran = ground (arith, post, at, ran)

handle_chat-Answered :
    (codec : Codec) (answers : ℕ → Attempt) (flushable : Bool) (r : Request) (s : State)
    → ((k : ℕ) → Accepted (answers k).result)
    → IsValid s
    → metered s ≡ true
    → Answered (handle_chat codec answers flushable) r s
unfolding Answered handle_chat method_not_allowed write_error
handle_chat-Answered codec answers flushable r s sent v m =
    elim (Bool-cases (text_eq r.method (bytes "POST"))) [
      | inr other ↦ (
        s,
        method_not_allowed (bytes "POST"),
        ground (arith, other),
        Answers-same s (method_not_allowed (bytes "POST")) v (inl refl),
      )
      | inl post ↦ elim (Result-cases (chat_alias codec r)) [
        | inl (e, at) ↦ (
          s,
          write_error [] e,
          ground (arith, post, at),
          Answers-same s (write_error [] e) v (inl refl),
        )
        | inr (alias, at) ↦
            let (s', c', reply, ran, done) =
              serve-Returned codec.parse_media_type answers alias flushable s sent v m in
            let replied =
              serve-Replied codec.parse_media_type answers alias flushable s s' c' reply ran
                done.ended in
            let (state, one) = finish_chat-OneStatus s' c' reply replied in
            (
              s',
              (finish_chat (s', c', reply)).1,
              handle_chat-serve codec answers flushable r s alias (s', c', reply) post at ran
                  ∙ ap (λ x. some (x, (finish_chat (s', c', reply)).1)) state,
              record {
                valid = done.valid;
                aliases = done.aliases;
                counts = done.counts;
                one_status = one;
              },
            )
      ]
    ]

-- A test that answers at once in one of its cases.
guard-Answers :
    (b : Bool) (s : State) (early : Response) (m : Option (State × Response))
    → IsValid s
    → OneStatus early
    → (s' : State) × (a : Response) × (m ≡ some (s', a)) × Answers s s' a
    → (s' : State) × (a : Response) × ((if b then some (s, early) else m) ≡ some (s', a))
      × Answers s s' a
guard-Answers true s early m v one h = (s, early, refl, Answers-same s early v one)
guard-Answers false s early m v one h = h

abbrev status_page : Status → Response
status_page st = record {
  status = 200;
  written = 200 ∷ [];
  header = header_set (bytes "Content-Type") (bytes "application/json") [];
  content = routing_state st;
}

module _ (r : Request) (s : State) (v : IsValid s) where
  handle_models-Answered : Answered handle_models r s
  unfolding Answered handle_models method_not_allowed write_error
  handle_models-Answered =
      guard-Answers _ s (method_not_allowed (bytes "GET")) _ v (inl refl)
        (s, _, refl, Answers-same s _ v (inl refl))

  handle_healthz-Answered : Answered handle_healthz r s
  unfolding Answered handle_healthz method_not_allowed write_error
  handle_healthz-Answered =
      guard-Answers _ s (method_not_allowed (bytes "GET")) _ v (inl refl)
        (s, _, refl, Answers-same s _ v (inl refl))

  handle_readyz-Answered : Answered handle_readyz r s
  unfolding Answered handle_readyz method_not_allowed write_error readiness
  handle_readyz-Answered =
      guard-Answers (not (text_eq r.method (bytes "GET"))) s (method_not_allowed (bytes "GET"))
        (ready s >>= λ b. some (s, readiness b)) v (inl refl)
        (elim (ready-Decides s v) [
          | inl (e, _) ↦
              (s, readiness true, rw e refl, Answers-same s (readiness true) v (inl refl))
          | inr (e, _) ↦
              (s, readiness false, rw e refl, Answers-same s (readiness false) v (inl refl))
        ])

  handle_router_status-Answered : Answered handle_router_status r s
  unfolding Answered handle_router_status method_not_allowed write_error
  handle_router_status-Answered =
      let (st, e, _) = snapshot-Shows s v in
      guard-Answers (not (text_eq r.method (bytes "GET"))) s (method_not_allowed (bytes "GET"))
        (snapshot s >>= λ t. some (s, status_page t)) v (inl refl)
        (s, status_page st, rw e refl, Answers-same s (status_page st) v (inl refl))

  handler_of-Answered :
      (serving : Serving) (e : Endpoint)
      → ((k : ℕ) → Accepted (serving.answers k).result)
      → metered s ≡ true
      → Answered (handler_of serving e) r s
  handler_of-Answered serving chat_completions sent m =
      handle_chat-Answered serving.codec serving.answers serving.flushable r s sent v m
  handler_of-Answered serving models sent m = handle_models-Answered
  handler_of-Answered serving router_status sent m = handle_router_status-Answered
  handler_of-Answered serving healthz sent m = handle_healthz-Answered
  handler_of-Answered serving readyz sent m = handle_readyz-Answered

  Answers-publish :
      (s' : State) (a : Response) (label : Text) (elapsed : ℕ)
      → Answers s s' a
      → Answers s (publish (observe_http label a.status elapsed) s') a
  unfolding publish
  Answers-publish s' a label elapsed h = record {
    valid = publish-IsValid _ s' h.valid;
    aliases = h.aliases;
    counts = λ n. inflight_of-publish _ s' n ∙ h.counts n;
    one_status = h.one_status;
  }

  handle-bind :
      (serving : Serving) (e : Endpoint) (s' : State) (a : Response)
      → (if not (is_protected e) || authorized serving.token r
          then handler_of serving e r s
          else some (s, write_unauthorized))
        ≡ some (s', a)
      → handle serving e r s
        ≡ some (publish (observe_http (route_label e) a.status serving.elapsed) s', a)
  unfolding handle instrumented
  handle-bind serving e s' a h = rw h

  -- On a valid state with metrics, without other requests in between, if each status that an
  -- upstream answers is from 100 to 999, a request to any instrumented endpoint is answered: one
  -- status is written, the one that is returned, or none and 499 is returned for a client that
  -- left; the state stays valid, with the same aliases and the same reservations.
  pub handle-Answers :
      (serving : Serving) (e : Endpoint)
      → ((k : ℕ) → Accepted (serving.answers k).result)
      → metered s ≡ true
      → (s' : State) × (a : Response) × (handle serving e r s ≡ some (s', a)) × Answers s s' a
  unfolding Answered write_unauthorized write_error
  handle-Answers serving e sent m =
      elim (Bool-cases (not (is_protected e) || authorized serving.token r)) [
        | inl through ↦
            let (s', a, ran, h) = handler_of-Answered serving e sent m in
            (
              publish (observe_http (route_label e) a.status serving.elapsed) s',
              a,
              handle-bind serving e s' a (rw through ran),
              Answers-publish s' a (route_label e) serving.elapsed h,
            )
        | inr refused ↦ (
          publish (observe_http (route_label e) 401 serving.elapsed) s,
          write_unauthorized,
          handle-bind serving e s write_unauthorized (rw refused refl),
          Answers-publish s write_unauthorized (route_label e) serving.elapsed
              (Answers-same s write_unauthorized v (inl refl)),
        )
      ]
