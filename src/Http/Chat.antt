-- ===== src/Http/Chat.antt =====
-- internal/httpapi/chat.go: the tests of a chat request, and its way through Serve.
pub mod Decoding
use local_inference_router.Base.{
  ℕ, Text, bytes, text_eq, is_empty, equal_fold, trim_space, length, ltb, lookup, Bool, true, false,
  not, Option, none, some, List, [], ◌∷◌, if◌then◌else◌, ◌>>=◌, Result, fail, ok,
}
use local_inference_router.Router.State.{State}
use local_inference_router.Router.Errors.{ApiError}
use local_inference_router.Router.Headers.{Header, header_get}
use local_inference_router.Router.Proxy.{Call, Reply, Attempt}
use local_inference_router.Router.Proxy.Run.{serve}
use local_inference_router.Http.{
  Request, Response, relayed, invalid_request, write_error, method_not_allowed,
}

abbrev pub max_chat_request_bytes : ℕ
max_chat_request_bytes = 4194304

-- What encoding/json and mime make of bytes; `none` is an error. parse_object gives the members of
-- an object with their raw values, `some none` for null, parse_string the value of a string or the
-- empty text for null.
pub record Codec : Type 0 where
  pub parse_media_type : Text → Option Text
  pub parse_object : Text → Option (Option (List (Text × Text)))
  pub parse_string : Text → Option Text

abbrev pub unsupported : Text → ApiError
unsupported message = invalid_request message (bytes "unsupported_media_type") 415

-- The media type test of checkChatHeaders.
media_type_error : Option Text → Option ApiError
media_type_error none = some (unsupported (bytes "content type must be application/json"))
media_type_error (some media_type) =
    if not (equal_fold media_type (bytes "application/json"))
    then some (unsupported (bytes "content type must be application/json"))
    else none

unfoldable pub check_chat_headers : Codec → Request → Option ApiError
unfolding media_type_error
check_chat_headers codec r =
    if not (is_empty (trim_space (header_get r.header (bytes "Content-Encoding"))))
    then some (unsupported (bytes "content encoding is not supported"))
    else media_type_error (codec.parse_media_type (header_get r.header (bytes "Content-Type")))

-- ReadAll of a MaxBytesReader.
read_body : ℕ → Request → Result ApiError Text
read_body limit r =
    if ltb limit (length r.body)
    then fail (invalid_request (bytes "request body is too large") (bytes "request_too_large") 413)
    else if r.broken
    then fail (invalid_request (bytes "request body could not be read") (bytes "invalid_body") 400)
    else ok r.body

abbrev pub Payload : Type 0
Payload = List (Text × Text)

-- The rest of decodeChatBody: the payload, with the raw value of its model.
decode_payload : Option (Option Payload) → Result ApiError (Payload × Text)
decode_payload none =
    fail (invalid_request (bytes "request body must be a JSON object") (bytes "invalid_body") 400)
decode_payload (some none) =
    fail (invalid_request (bytes "request body must be a JSON object") (bytes "invalid_body") 400)
decode_payload (some (some payload)) = elim (lookup (bytes "model") payload) [
  | none ↦ fail (invalid_request (bytes "model is required") (bytes "invalid_model") 400)
  | some raw ↦ ok (payload, raw)
]

decode_body : ℕ → Codec → Request → Result ApiError (Payload × Text)
unfolding read_body decode_payload
decode_body limit codec r = elim (read_body limit r) [
  | fail e ↦ fail e
  | ok body ↦ decode_payload (codec.parse_object body)
]

-- The alias that the raw model names.
decode_alias : Option Text → Result ApiError Text
decode_alias none =
    fail (invalid_request (bytes "model must be a non-empty string") (bytes "invalid_model") 400)
decode_alias (some alias) =
    if is_empty (trim_space alias)
    then fail
        (invalid_request (bytes "model must be a non-empty string") (bytes "invalid_model") 400)
    else ok alias

-- handleChat up to Serve, on a POST, for any limit of the body.
chat_alias_within : ℕ → Codec → Request → Result ApiError Text
unfolding decode_body decode_alias
chat_alias_within limit codec r = elim (check_chat_headers codec r) [
  | some e ↦ fail e
  | none ↦ elim (decode_body limit codec r) [
    | fail e ↦ fail e
    | ok (payload, raw) ↦ decode_alias (codec.parse_string raw)
  ]
]

unfoldable pub chat_alias : Codec → Request → Result ApiError Text
unfolding chat_alias_within
chat_alias codec r = chat_alias_within max_chat_request_bytes codec r

-- The end of handleChat, on what Serve returned and wrote.
unfoldable pub finish_chat : State × Call × Reply → State × Response
finish_chat (s, c, reply) = elim reply.error [
  | some e ↦
      let answer = write_error c.header e in
      (
        s,
        record {
          status = answer.status;
          written = e.status ∷ c.written;
          header = answer.header;
          content = answer.content;
        },
      )
  | none ↦ (
    s,
    record { status = reply.status; written = c.written; header = c.header; content = relayed },
  )
]

-- `answers k` is what the k-th attempt of the request returns, `flushable` whether the writer of
-- the response can be flushed.
unfoldable pub handle_chat :
    Codec → (ℕ → Attempt) → Bool → Request → State → Option (State × Response)
unfolding method_not_allowed finish_chat
handle_chat codec answers flushable r s =
    if not (text_eq r.method (bytes "POST"))
    then some (s, method_not_allowed (bytes "POST"))
    else elim (chat_alias codec r) [
      | fail e ↦ some (s, write_error [] e)
      | ok alias ↦
          (serve codec.parse_media_type answers alias flushable s >>= λ t. some (finish_chat t))
    ]
