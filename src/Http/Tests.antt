-- ===== src/Http/Tests.antt =====
-- Requests to a state of two healthy backends.
use local_inference_router.Base.{
  bytes, lookup, some, [], ◌∷◌, ◌≡◌, ◌≢◌, ◌↔◌, ◌⊎◌, refl, true, false, ok, All, text_eq, equal_fold,
}
use local_inference_router.Router.State.{State}
use local_inference_router.Router.Operations.Readiness.{AnyUp}
use local_inference_router.Router.Headers.{header_get, header_values}
use local_inference_router.Router.Headers.Canonical.{canonical_header_key}
use local_inference_router.Router.Tests.Samples.{up, up-IsValid, up-metered}
use local_inference_router.Router.Tests.Examples.{answers, answers-Accepted}
use local_inference_router.Http.{Request, Response, chat_completions, authorized, handle_readyz}
use local_inference_router.Http.Authorized.{Bears, authorized_iff}
use local_inference_router.Http.Chat.{Codec, chat_alias, max_chat_request_bytes}
use local_inference_router.Http.Chat.Decoding.{Asks, chat_alias_iff}
use local_inference_router.Http.Mux.{Serving, handle, Served, serve_http}
use local_inference_router.Http.Mux.Unauthorized.{Denied, serve_http-Denied}
use local_inference_router.Http.OneStatus.{Answers, handle-Answers}
use local_inference_router.Http.Probes.{handle_readyz-Decides}

-- A codec that takes every body for the same object.
abbrev codec : Codec
codec = record {
  parse_media_type = λ t. some t;
  parse_object = λ body. some (some ((bytes "model", bytes "\"chat\"") ∷ []));
  parse_string = λ raw. some (bytes "chat");
}

abbrev serving : Serving
serving = record {
  codec = codec;
  token = bytes "t0";
  answers = answers;
  flushable = true;
  elapsed = 1;
}

abbrev post : Request
post = record {
  method = bytes "POST";
  header =
      (bytes "Authorization", bytes "bearer t0" ∷ [])
      ∷ (bytes "Content-Type", bytes "application/json" ∷ [])
      ∷ [];
  body = bytes "{}";
  broken = false;
}

abbrev get : Request
get = record post { method = bytes "GET"; header = [] }

authorized_test : authorized (bytes "t0") post ≡ true
unfolding authorized header_get header_values canonical_header_key lookup text_eq equal_fold
authorized_test = refl

refused_test : authorized (bytes "t0") get ≡ false
unfolding authorized header_get header_values canonical_header_key lookup text_eq equal_fold
refused_test = refl

authorized_iff_example :
    (authorized (bytes "t0") post ≡ true) ↔ ((bytes "t0" ≡ []) ⊎ Bears post (bytes "t0"))
authorized_iff_example = authorized_iff (bytes "t0") post

chat_alias_iff_example :
    (chat_alias codec post ≡ ok (bytes "chat"))
    ↔ Asks max_chat_request_bytes codec post (bytes "chat")
chat_alias_iff_example = chat_alias_iff codec post (bytes "chat")

handle-Answers_example :
    (s' : State) × (a : Response) × (handle serving chat_completions post up ≡ some (s', a))
    × Answers up s' a
handle-Answers_example =
    handle-Answers post up up-IsValid serving chat_completions answers-Accepted up-metered

handle_readyz-Decides_example :
    (a : Response) × (handle_readyz get up ≡ some (up, a))
    × (((a.status ≡ 200) × All (λ x. AnyUp up x.routes) up.alias_order)
        ⊎ ((a.status ≡ 503) × (¬ All (λ x. AnyUp up x.routes) up.alias_order)))
handle_readyz-Decides_example = handle_readyz-Decides get up refl up-IsValid

status_path-closed : bytes "/router/status" ≢ bytes "/healthz"
status_path-closed e = cc

status_path-unready : bytes "/router/status" ≢ bytes "/readyz"
status_path-unready e = cc

serve_http-Denied_example :
    (s' : State) × (a : Served) × (serve_http serving (bytes "/router/status") get up
      ≡ some (s', a))
    × Denied (bytes "/router/status") up s' a
serve_http-Denied_example =
    serve_http-Denied serving get up refused_test (bytes "/router/status") status_path-closed
      status_path-unready
