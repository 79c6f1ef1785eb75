-- ===== src/Http.antt =====
-- internal/httpapi: the endpoints. A handler is a function on the routing state that gives the
-- response; `none` is a nil dereference.
pub mod Chat
pub mod Authorized
pub mod Mux
pub mod OneStatus
pub mod Probes
pub mod Server
mod Tests
use local_inference_router.Base.{
  ℕ, suc, Text, bytes, text_eq, is_empty, equal_fold, length, leb, map, Bool, true, false, not,
  ◌||◌, Option, none, some, List, [], ◌∷◌, if◌then◌else◌, ◌>>=◌,
}
use local_inference_router.Router.State.{State, publish}
use local_inference_router.Router.Errors.{ApiError}
use local_inference_router.Router.Headers.{Header, header_get, header_set}
use local_inference_router.Router.Operations.{Status, ready, snapshot, alias_names}
use local_inference_router.Metrics.{observe_http}

-- A body is the bytes that can be read, and whether the reading then fails.
pub record Request : Type 0 where
  pub method : Text
  pub header : Header
  pub body : Text
  pub broken : Bool

pub record ModelEntry : Type 0 where
  pub id : Text
  pub object : Text
  pub created : ℕ
  pub owned_by : Text

-- What is written as the body: an error, a text, the list of models, the routing state, or what
-- Serve relays.
pub data Content : Type 0 where
  error_body : ApiError → Content
  plain : Text → Content
  model_list : List ModelEntry → Content
  routing_state : Status → Content
  relayed : Content

-- The status that a handler returns, the statuses that WriteHeader got, the latest first, and the
-- headers that this package sets: those that Serve copies from upstream are not among them.
pub record Response : Type 0 where
  pub status : ℕ
  pub written : List ℕ
  pub header : Header
  pub content : Content

abbrev pub invalid_request : Text → Text → ℕ → ApiError
invalid_request message code status = record {
  status = status;
  message = message;
  error_type = bytes "invalid_request_error";
  code = code;
}

-- writeError, on the headers so far.
unfoldable pub write_error : Header → ApiError → Response
write_error header e = record {
  status = e.status;
  written = e.status ∷ [];
  header = header_set (bytes "Content-Type") (bytes "application/json") header;
  content = error_body e;
}

unfoldable pub write_unauthorized : Response
unfolding write_error
write_unauthorized =
    write_error (header_set (bytes "WWW-Authenticate") (bytes "Bearer") [])
      (invalid_request (bytes "unauthorized") (bytes "unauthorized") 401)

unfoldable pub method_not_allowed : Text → Response
unfolding write_error
method_not_allowed allowed =
    write_error (header_set (bytes "Allow") allowed [])
      (invalid_request (bytes "method not allowed") (bytes "method_not_allowed") 405)

-- header[:n] and header[n:]
pub take : ℕ → Text → Text
take ℕ.zero s = []
take (suc n) [] = []
take (suc n) (c ∷ s) = c ∷ take n s

pub drop : ℕ → Text → Text
drop ℕ.zero s = s
drop (suc n) [] = []
drop (suc n) (c ∷ s) = drop n s

-- authenticator.authorized; the comparison in constant time is equality.
unfoldable pub authorized : Text → Request → Bool
unfolding take drop
authorized token r =
    if is_empty token
    then true
    else (let header = header_get r.header (bytes "Authorization") in
        if leb (length header) 7 || not (equal_fold (take 7 header) (bytes "Bearer "))
        then false
        else text_eq (drop 7 header) token)

abbrev answer : ℕ → Text → Content → Response
answer status content_type content = record {
  status = status;
  written = status ∷ [];
  header = header_set (bytes "Content-Type") content_type [];
  content = content;
}

model_entry : Text → ModelEntry
model_entry name = record {
  id = name;
  object = bytes "model";
  created = 0;
  owned_by = bytes "local-inference-router";
}

unfoldable pub handle_models : Request → State → Option (State × Response)
unfolding model_entry method_not_allowed
handle_models r s =
    if not (text_eq r.method (bytes "GET"))
    then some (s, method_not_allowed (bytes "GET"))
    else some
        (s, answer 200 (bytes "application/json") (model_list (map model_entry (alias_names s))))

unfoldable pub handle_healthz : Request → State → Option (State × Response)
unfolding method_not_allowed
handle_healthz r s =
    if not (text_eq r.method (bytes "GET"))
    then some (s, method_not_allowed (bytes "GET"))
    else some (s, answer 200 (bytes "text/plain; charset=utf-8") (plain (bytes "ok\n")))

readiness : Bool → Response
readiness true = answer 200 (bytes "text/plain; charset=utf-8") (plain (bytes "ready\n"))
readiness false = answer 503 (bytes "text/plain; charset=utf-8") (plain (bytes "not ready\n"))

unfoldable pub handle_readyz : Request → State → Option (State × Response)
unfolding method_not_allowed readiness
handle_readyz r s =
    if not (text_eq r.method (bytes "GET"))
    then some (s, method_not_allowed (bytes "GET"))
    else (ready s >>= λ b. some (s, readiness b))

unfoldable pub handle_router_status : Request → State → Option (State × Response)
unfolding method_not_allowed
handle_router_status r s =
    if not (text_eq r.method (bytes "GET"))
    then some (s, method_not_allowed (bytes "GET"))
    else (snapshot s >>= λ st. some (s, answer 200 (bytes "application/json") (routing_state st)))

-- The endpoints that are instrumented.
pub data Endpoint : Type 0 where
  chat_completions models router_status healthz readyz : Endpoint

-- The mux of Handler, for a clean path; /metrics and what is not found are not among them.
unfoldable pub endpoint_of : Text → Option Endpoint
endpoint_of path =
    if text_eq path (bytes "/v1/chat/completions")
    then some chat_completions
    else if text_eq path (bytes "/v1/models")
    then some models
    else if text_eq path (bytes "/router/status")
    then some router_status
    else if text_eq path (bytes "/healthz")
    then some healthz
    else if text_eq path (bytes "/readyz")
    then some readyz
    else none

abbrev pub route_label : Endpoint → Text
route_label chat_completions = bytes "chat_completions"
route_label models = bytes "models"
route_label router_status = bytes "router_status"
route_label healthz = bytes "healthz"
route_label readyz = bytes "readyz"

abbrev pub is_protected : Endpoint → Bool
is_protected chat_completions = true
is_protected models = true
is_protected router_status = true
is_protected healthz = false
is_protected readyz = false

-- instrumented; `elapsed` is what its clock shows.
unfoldable pub instrumented :
    Text
    → Endpoint
    → ℕ
    → (Request → State → Option (State × Response))
    → Request
    → State
    → Option (State × Response)
instrumented token e elapsed next r s = do
  (s', response) ←
      if not (is_protected e) || authorized token r then next r s else some (s, write_unauthorized)
  some (publish (observe_http (route_label e) response.status elapsed) s', response)

-- protectedRaw; `none` hands the request to the handler of the Prometheus library.
unfoldable pub protected_raw : Text → Request → Option Response
protected_raw token r = if not (authorized token r) then some write_unauthorized else none
