-- ===== src/Backend/Build.antt =====
-- internal/backend/backend.go: Build, from validated configuration.
pub mod Builds
use local_inference_router.Base.{
  ℕ, ℤ, pos, times, wrap_int64, Text, bytes, text_eq, is_empty, Bool, true, false, not, ◌||◌,
  Option, none, some, List, [], ◌∷◌, if◌then◌else◌, Result, fail, ok, ◌≡◌, ◌≢◌, refl, arith, All,
  Result-cases, Option-cases, inl, inr, ◌↔◌, ◌⊎◌, map,
}
use local_inference_router.Config.{BackendConfig}
use local_inference_router.Config.Url.{
  Net, Url, UrlError, parse_base_url, chat_completions_path, endpoint_url,
}
use local_inference_router.Config.{health_path}
use local_inference_router.Config.Validate.Valid.{IsBackend}
use local_inference_router.Backend.{Backend}

-- The errors of Build, with the names that their texts hold.
pub data BuildError : Type 0 where
  bad_base_url : Text → UrlError → BuildError
  secret_not_set : Text → Text → BuildError

unfoldable pub chat_url : Backend → Url
chat_url b = endpoint_url b.base_url chat_completions_path

unfoldable pub health_url : Backend → Url
health_url b = endpoint_url b.base_url (health_path b.kind)

-- time.Duration(ms) * time.Millisecond, on 64 bits.
abbrev pub milliseconds : ℤ → ℤ
milliseconds ms = wrap_int64 (times ms 1000000)

-- The token of a backend; `secrets` is a SecretResolver.
resolve_token : (Text → Option Text) → BackendConfig → Result BuildError Text
resolve_token secrets cfg =
    if is_empty cfg.bearer_token_env then ok [] else elim (secrets cfg.bearer_token_env) [
      | none ↦ fail (secret_not_set cfg.name cfg.bearer_token_env)
      | some value ↦
          if is_empty value then fail (secret_not_set cfg.name cfg.bearer_token_env) else ok value
    ]

make_backend : BackendConfig → Url → Text → Backend
make_backend cfg base token = record {
  name = cfg.name;
  kind = cfg.kind;
  base_url = base;
  max_inflight = cfg.max_inflight;
  response_header_timeout = milliseconds cfg.response_header_timeout_ms;
  response_idle_timeout = milliseconds cfg.response_idle_timeout_ms;
  token = token;
}

module _ (net : Net) (secrets : Text → Option Text) where
  -- One round of Build.
  build_backend : BackendConfig → Result BuildError Backend
  unfolding resolve_token make_backend
  build_backend cfg = elim (parse_base_url net cfg.base_url) [
    | fail e ↦ fail (bad_base_url cfg.name e)
    | ok base ↦ elim (resolve_token secrets cfg) [
      | fail e ↦ fail e
      | ok token ↦ ok (make_backend cfg base token)
    ]
  ]

  unfoldable pub build : List BackendConfig → Result BuildError (List Backend)
  unfolding build_backend
  build [] = ok []
  build (cfg ∷ cfgs) =
      let rest = build cfgs in
      elim (build_backend cfg) [
        | fail e ↦ fail e
        | ok b ↦ elim rest [ fail e ↦ fail e | ok bs ↦ ok (b ∷ bs) ]
      ]
