-- ===== src/Router/Tests/Upstreams.antt =====
-- The request that goes to the backend of a route.
use local_inference_router.Base.{bytes, some, [], ◌∷◌, ◌≡◌, refl, true}
use local_inference_router.Backend.Build.{chat_url}
use local_inference_router.Router.Headers.{Header, set_upstream_headers}
use local_inference_router.Router.Upstream.{
  Payload, Encoder, UpstreamRequest, upstream_request, encode_with_model,
}
use local_inference_router.Router.Upstream.Isolates.{Isolates, upstream_request-Isolates}
use local_inference_router.Router.Tests.Samples.{first_route}

abbrev encoder : Encoder
encoder = record {
  marshal_string = λ s. some s;
  marshal_object = λ payload. some (bytes "{}");
  takes_url = λ url. true;
}

abbrev client : Header
client = (bytes "Authorization", bytes "Bearer mine" ∷ []) ∷ (bytes "Accept", bytes "*/*" ∷ []) ∷ []

abbrev payload : Payload
payload = (bytes "model", bytes "\"chat\"") ∷ (bytes "n", bytes "1") ∷ []

abbrev sent : UpstreamRequest
sent = record {
  method = bytes "POST";
  url = chat_url first_route.backend;
  header = set_upstream_headers [] client first_route;
  body = bytes "{}";
  content_length = 2;
}

sent_test : upstream_request encoder client first_route payload ≡ some sent
unfolding upstream_request encode_with_model
sent_test = refl

upstream_request-Isolates_example : Isolates encoder client first_route payload sent
upstream_request-Isolates_example =
    upstream_request-Isolates encoder client first_route payload sent sent_test
