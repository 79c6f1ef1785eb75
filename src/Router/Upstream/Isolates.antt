-- ===== src/Router/Upstream/Isolates.antt =====
-- internal/router/proxy.go, headers.go: what of a client's request goes upstream.
use local_inference_router.Base.{
  Text, bytes, text_eq, text_eq_iff, is_empty, not, length, lookup, lookup-insert, Bool, true,
  false, none, some, List, [], ◌∷◌, ◌++◌, if◌then◌else◌, ◌≡◌, ◌≢◌, refl, inl, inr, arith,
  Option-cases,
}
use mathlib.Core.Path.{subst}
use local_inference_router.Config.Url.{chat_completions_path, endpoint_url}
use local_inference_router.Backend.Build.{chat_url}
use local_inference_router.Router.State.{Route}
use local_inference_router.Router.Headers.{
  Header, header_get, header_set, header_values, authorize, set_upstream_headers,
}
use local_inference_router.Router.Headers.Canonical.{canonical_header_key}
use local_inference_router.Router.Upstream.{
  Payload, Encoder, UpstreamRequest, copy_payload, rewrite_model, encode_with_model,
  upstream_request,
}

-- The values of an upstream request under a canonical name: the media type, the Accept of the
-- client, and the token of the backend; nothing else of the client's headers.
abbrev pub sent_values : Header → Route → Text → List Text
sent_values client route name =
    if text_eq (bytes "Authorization") name
    then (if not (is_empty route.backend.token)
        then (bytes "Bearer " ++ route.backend.token) ∷ []
        else [])
    else if text_eq (bytes "Accept") name
    then (if not (is_empty (header_get client (bytes "Accept")))
        then header_get client (bytes "Accept") ∷ []
        else [])
    else if text_eq (bytes "Content-Type") name
    then bytes "application/json" ∷ []
    else []

values-set :
    (name v : Text) (h : Header) (key : Text)
    → header_values (header_set name v h) key ≡ (
        if text_eq (canonical_header_key name) (canonical_header_key key)
        then v ∷ []
        else header_values h key)
unfolding header_values header_set
values-set name v h key =
    ground (arith, lookup-insert (canonical_header_key name) (canonical_header_key key) (v ∷ []) h)

-- A header that is set on a condition, under a name that had no values.
values-set_if :
    (b : Bool) (name v : Text) (h : Header) (key : Text)
    → canonical_header_key name ≡ name
    → (text_eq name (canonical_header_key key) ≡ true → header_values h key ≡ [])
    → header_values (if b then header_set name v h else h) key ≡ (
        if text_eq name (canonical_header_key key)
        then (if b then v ∷ [] else [])
        else header_values h key)
values-set_if true name v h key same none_ = rw (values-set name v h key, same) refl
values-set_if false name v h key same none_ = ground (arith, none_)

apart : (a b k : Text) → a ≢ b → text_eq a k ≡ true → text_eq b k ≡ false
apart a b k ne e = ground (arith, ne, text_eq_iff a k, text_eq_iff b k)

accept_name : canonical_header_key (bytes "Accept") ≡ bytes "Accept"
unfolding canonical_header_key
accept_name = refl

authorization_name : canonical_header_key (bytes "Authorization") ≡ bytes "Authorization"
unfolding canonical_header_key
authorization_name = refl

type_name : canonical_header_key (bytes "Content-Type") ≡ bytes "Content-Type"
unfolding canonical_header_key
type_name = refl

typed : Header
typed = header_set (bytes "Content-Type") (bytes "application/json") []

typed-values :
    (key : Text)
    → header_values typed key ≡ (
        if text_eq (bytes "Content-Type") (canonical_header_key key)
        then bytes "application/json" ∷ []
        else [])
unfolding typed header_values lookup
typed-values key =
    rw (values-set (bytes "Content-Type") (bytes "application/json") [] key, type_name) refl

accepting : Header → Header
accepting client =
    if not (is_empty (header_get client (bytes "Accept")))
    then header_set (bytes "Accept") (header_get client (bytes "Accept")) typed
    else typed

accepting-values :
    (client : Header) (key : Text)
    → header_values (accepting client) key ≡ (
        if text_eq (bytes "Accept") (canonical_header_key key)
        then (if not (is_empty (header_get client (bytes "Accept")))
            then header_get client (bytes "Accept") ∷ []
            else [])
        else if text_eq (bytes "Content-Type") (canonical_header_key key)
        then bytes "application/json" ∷ []
        else [])
unfolding accepting
accepting-values client key = rw (← typed-values key) (
    values-set_if _ (bytes "Accept") (header_get client (bytes "Accept")) typed key accept_name
      (λ e.
        rw (typed-values key, apart (bytes "Accept") (bytes "Content-Type") _ (λ x. cc) e) refl))

set_upstream_headers-values :
    (client : Header) (route : Route) (key : Text)
    → header_values (set_upstream_headers [] client route) key
      ≡ sent_values client route (canonical_header_key key)
unfolding set_upstream_headers authorize accepting typed
set_upstream_headers-values client route key = rw (← accepting-values client key) (
    values-set_if (not (is_empty route.backend.token)) (bytes "Authorization")
      (bytes "Bearer " ++ route.backend.token) (accepting client) key authorization_name
      (λ e.
        rw
          (
            accepting-values client key,
            apart (bytes "Authorization") (bytes "Accept") _ (λ x. cc) e,
            apart (bytes "Authorization") (bytes "Content-Type") _ (λ x. cc) e,
          )
          refl))

lookup-copy_payload :
    (payload : Payload) (k : Text) → lookup k (copy_payload payload) ≡ lookup k payload
unfolding copy_payload lookup
lookup-copy_payload [] k = refl
lookup-copy_payload ((j, v) ∷ payload) k =
    ground (arith, lookup-insert j k v (copy_payload payload), lookup-copy_payload payload k)

lookup-rewrite_model :
    (payload : Payload) (model k : Text)
    → lookup k (rewrite_model payload model)
      ≡ (if text_eq (bytes "model") k then some model else lookup k payload)
unfolding rewrite_model
lookup-rewrite_model payload model k =
    rw (lookup-insert (bytes "model") k model (copy_payload payload), lookup-copy_payload payload k)

-- An upstream request for a route: to the chat endpoint of its backend, with the headers above, and
-- with the members of the client's payload except for the model, which is that of the route.
pub record Isolates (encoder : Encoder) (client : Header) (route : Route) (payload : Payload)
    (u : UpstreamRequest) : Type 0 where
  pub method : u.method ≡ bytes "POST"
  pub scheme : u.url.scheme ≡ route.backend.base_url.scheme
  pub host : u.url.host ≡ route.backend.base_url.host
  pub path : u.url.path ≡ chat_completions_path
  pub no_user : u.url.user ≡ none
  pub no_query : u.url.raw_query ≡ []
  pub header :
      (key : Text)
      → header_values u.header key ≡ sent_values client route (canonical_header_key key)
  pub model : Text
  pub model_text : encoder.marshal_string route.upstream_model ≡ some model
  pub object : Payload
  pub members :
      (k : Text)
      → lookup k object ≡ (if text_eq (bytes "model") k then some model else lookup k payload)
  pub body : encoder.marshal_object object ≡ some u.body
  pub content_length : u.content_length ≡ length u.body

sent_request : Header → Route → Text → UpstreamRequest
sent_request client route body = record {
  method = bytes "POST";
  url = chat_url route.backend;
  header = set_upstream_headers [] client route;
  body = body;
  content_length = length body;
}

-- A request that attempt sends is a POST to the chat endpoint of the route's backend, without
-- user or query; its headers are the JSON media type, the client's Accept if there is one, and as
-- Authorization the token of the backend if it has one, and no other header of the client; its
-- body encodes the client's payload with the model replaced by the route's upstream model and
-- every other member as it was.
pub upstream_request-Isolates :
    (encoder : Encoder) (client : Header) (route : Route) (payload : Payload) (u : UpstreamRequest)
    → upstream_request encoder client route payload ≡ some u
    → Isolates encoder client route payload u
unfolding upstream_request encode_with_model chat_url endpoint_url sent_request
upstream_request-Isolates encoder client route payload u e =
    elim (Option-cases (encoder.marshal_string route.upstream_model)) [
      | inl at ↦ absurd (ground (arith, e, at))
      | inr (model, at) ↦
          elim (Option-cases (encoder.marshal_object (rewrite_model payload model))) [
            | inl at' ↦ absurd (ground (arith, e, at, at'))
            | inr (body, at') ↦
                let same : sent_request client route body ≡ u = ground (arith, e, at, at') in
                subst (Isolates encoder client route payload) same (record {
                  method = refl;
                  scheme = refl;
                  host = refl;
                  path = refl;
                  no_user = refl;
                  no_query = refl;
                  header = λ key. set_upstream_headers-values client route key;
                  model = model;
                  model_text = at;
                  object = rewrite_model payload model;
                  members = λ k. lookup-rewrite_model payload model k;
                  body = at';
                  content_length = refl;
                })
          ]
    ]
