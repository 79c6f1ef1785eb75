-- ===== src/Router/Stream.antt =====
-- internal/router/stream.go: which responses are event streams, and the reader that bounds the
-- silence of an upstream body.
pub mod Idle
pub mod Relay
use local_inference_router.Base.{
  Text, bytes, is_empty, Bool, true, false, Option, none, some, List, [], ◌∷◌, if◌then◌else◌,
  equal_fold, trim_space, split_byte,
}
use local_inference_router.Router.Headers.{Header, header_get}

-- strings.SplitN(s, ";", 2)[0]
abbrev leading_token : Text → Text
leading_token s = elim (split_byte s b';') [ [] ↦ [] | field ∷ fields ↦ field ]

-- `parse_media_type` stands for mime.ParseMediaType: the media type, or `none` for an error.
unfoldable pub is_event_stream : (Text → Option Text) → Header → Bool
is_event_stream parse_media_type header =
    let content_type = header_get header (bytes "Content-Type") in
    if is_empty content_type then false else elim (parse_media_type content_type) [
      | some media_type ↦ equal_fold media_type (bytes "text/event-stream")
      | none ↦ equal_fold (trim_space (leading_token content_type)) (bytes "text/event-stream")
    ]
