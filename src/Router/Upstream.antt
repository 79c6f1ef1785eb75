-- ===== src/Router/Upstream.antt =====
-- internal/router/proxy.go: the request that attempt sends upstream.
pub mod Isolates
use local_inference_router.Base.{
  ℕ, ℤ, pos, Text, bytes, length, insert, Bool, Option, none, some, List, [], ◌∷◌, if◌then◌else◌,
  ◌>>=◌,
}
use local_inference_router.Config.Url.{Url}
use local_inference_router.Backend.Build.{chat_url}
use local_inference_router.Router.State.{Route}
use local_inference_router.Router.Headers.{Header, set_upstream_headers}

abbrev pub Payload : Type 0
Payload = List (Text × Text)

-- What the program leaves to encoding/json and net/http: the text of a string and of an object of
-- raw values, `none` for an error, and whether NewRequestWithContext takes a URL.
pub record Encoder : Type 0 where
  pub marshal_string : Text → Option Text
  pub marshal_object : Payload → Option Text
  pub takes_url : Url → Bool

pub record UpstreamRequest : Type 0 where
  pub method : Text
  pub url : Url
  pub header : Header
  pub body : Text
  pub content_length : ℕ

-- The copy of the payload. A range visits the members of a map in any order; here from the end.
copy_payload : Payload → Payload
copy_payload [] = []
copy_payload ((key, value) ∷ payload) = insert key value (copy_payload payload)

-- The members that encodeWithModel encodes, for the text of the model.
pub rewrite_model : Payload → Text → Payload
unfolding copy_payload
rewrite_model payload model = insert (bytes "model") model (copy_payload payload)

module _ (encoder : Encoder) where
  unfoldable pub encode_with_model : Payload → Text → Option Text
  unfolding rewrite_model
  encode_with_model payload upstream_model =
      (encoder.marshal_string upstream_model >>= λ model.
      encoder.marshal_object (rewrite_model payload model))

  -- attempt up to Do; `none` is an error.
  unfoldable pub upstream_request : Header → Route → Payload → Option UpstreamRequest
  unfolding encode_with_model
  upstream_request client route payload =
      (encode_with_model payload route.upstream_model >>= λ body.
      if encoder.takes_url (chat_url route.backend)
      then some (record {
        method = bytes "POST";
        url = chat_url route.backend;
        header = set_upstream_headers [] client route;
        body = body;
        content_length = length body;
      })
      else none)
