-- ===== src/Http/Chat/Decoding.antt =====
-- internal/httpapi/chat.go: which requests reach Serve, and for which alias.
use local_inference_router.Base.{
  ℕ, ◌≤◌, Text, bytes, equal_fold, trim_space, length, lookup, true, false, Option, none, some, [],
  ok, Result-cases, Option-cases, inl, inr, ◌≡◌, ◌≢◌, ◌↔◌, ap, ◌∙◌, arith,
}
use local_inference_router.Router.Headers.{header_get}
use local_inference_router.Http.{Request}
use local_inference_router.Http.Chat.{
  Codec, Payload, max_chat_request_bytes, media_type_error, check_chat_headers, read_body,
  decode_payload, decode_body, decode_alias, chat_alias_within, chat_alias,
}

-- A request that names an alias: not encoded, of JSON, with a body within the limit that is read
-- to its end and holds an object, whose model is a string that is not blank.
pub record Asks (limit : ℕ) (codec : Codec) (r : Request) (alias : Text) : Type 0 where
  pub plain : trim_space (header_get r.header (bytes "Content-Encoding")) ≡ []
  pub media_type : Text
  pub media : codec.parse_media_type (header_get r.header (bytes "Content-Type")) ≡ some media_type
  pub json : equal_fold media_type (bytes "application/json") ≡ true
  pub short : length r.body ≤ limit
  pub whole : r.broken ≡ false
  pub payload : Payload
  pub parsed : codec.parse_object r.body ≡ some (some payload)
  pub raw : Text
  pub model : lookup (bytes "model") payload ≡ some raw
  pub name : codec.parse_string raw ≡ some alias
  pub filled : trim_space alias ≢ []

check_headers-media :
    (codec : Codec) (r : Request)
    → check_chat_headers codec r ≡ none
    → (m : Text) × (codec.parse_media_type (header_get r.header (bytes "Content-Type")) ≡ some m)
      × (equal_fold m (bytes "application/json") ≡ true)
unfolding check_chat_headers media_type_error
check_headers-media codec r e =
    elim (Option-cases (codec.parse_media_type (header_get r.header (bytes "Content-Type")))) [
      | inl at ↦ absurd (ground (arith, e, at))
      | inr (m, at) ↦ (m, at, ground (arith, e, at))
    ]

check_headers-plain :
    (codec : Codec) (r : Request)
    → check_chat_headers codec r ≡ none
    → trim_space (header_get r.header (bytes "Content-Encoding")) ≡ []
unfolding check_chat_headers
check_headers-plain codec r e = ground (arith, e)

decode_body-ok :
    (limit : ℕ) (codec : Codec) (r : Request) (payload : Payload) (raw : Text)
    → decode_body limit codec r ≡ ok (payload, raw)
    → (length r.body ≤ limit)
      × (r.broken ≡ false)
      × (codec.parse_object r.body ≡ some (some payload))
      × (lookup (bytes "model") payload ≡ some raw)
unfolding decode_body read_body decode_payload
decode_body-ok limit codec r payload raw e = elim (Option-cases (codec.parse_object r.body)) [
  | inl at ↦ absurd (ground (arith, e, at))
  | inr (none, at) ↦ absurd (ground (arith, e, at))
  | inr (some p, at) ↦ elim (Option-cases (lookup (bytes "model") p)) [
    | inl at' ↦ absurd (ground (arith, e, at, at'))
    | inr (x, at') ↦
        let short : length r.body ≤ limit = ground (arith, e) in
        let whole : r.broken ≡ false = ground (arith, e) in
        let same : p ≡ payload = ground (arith, e, at, at') in
        let same' : x ≡ raw = ground (arith, e, at, at') in
        (short, whole, at ∙ ap (λ q. some (some q)) same, rw (← same, ← same') at')
  ]
]

decode_alias-ok :
    (o : Option Text) (alias : Text)
    → decode_alias o ≡ ok alias
    → (o ≡ some alias) × (trim_space alias ≢ [])
unfolding decode_alias
decode_alias-ok none alias e = absurd (ground (arith, e))
decode_alias-ok (some a) alias e =
    let same : a ≡ alias = ground (arith, e) in (ap some same, λ h. ground (arith, e, same, h))

Asks-chat_alias :
    (limit : ℕ) (codec : Codec) (r : Request) (alias : Text)
    → Asks limit codec r alias
    → chat_alias_within limit codec r ≡ ok alias
unfolding chat_alias_within check_chat_headers media_type_error decode_body read_body decode_payload
    decode_alias
Asks-chat_alias limit codec r alias h =
    ground (arith, h.plain, h.media, h.json, h.short, h.whole, h.parsed, h.model, h.name, h.filled)

-- A POST reaches Serve exactly if it asks for an alias, and then for that alias.
chat_alias_within_iff :
    (limit : ℕ) (codec : Codec) (r : Request) (alias : Text)
    → (chat_alias_within limit codec r ≡ ok alias) ↔ Asks limit codec r alias
unfolding chat_alias_within
chat_alias_within_iff limit codec r alias = (
  λ e. elim (Option-cases (check_chat_headers codec r)) [
    | inr (x, at) ↦ absurd (ground (arith, e, at))
    | inl at ↦ elim (Result-cases (decode_body limit codec r)) [
      | inl (x, at') ↦ absurd (ground (arith, e, at, at'))
      | inr ((payload, raw), at') ↦
          let (media_type, media, json) = check_headers-media codec r at in
          let (short, whole, parsed, model) = decode_body-ok limit codec r payload raw at' in
          let (name, filled) =
            decode_alias-ok (codec.parse_string raw) alias (ground (arith, e, at, at')) in
          record {
            plain = check_headers-plain codec r at;
            media_type = media_type;
            media = media;
            json = json;
            short = short;
            whole = whole;
            payload = payload;
            parsed = parsed;
            raw = raw;
            model = model;
            name = name;
            filled = filled;
          }
    ]
  ],
  λ h. Asks-chat_alias limit codec r alias h,
)

-- The tests of a chat request that is a POST give an alias exactly if the request has no content
-- encoding, the media type application/json, a body of at most 4194304 bytes that is read to its
-- end and holds a JSON object, and in it a model that is a string which is not blank, the alias.
pub chat_alias_iff :
    (codec : Codec) (r : Request) (alias : Text)
    → (chat_alias codec r ≡ ok alias) ↔ Asks max_chat_request_bytes codec r alias
unfolding chat_alias
chat_alias_iff codec r alias = chat_alias_within_iff max_chat_request_bytes codec r alias
