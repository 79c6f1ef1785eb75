-- ===== src/Config/Validate/Rounds.antt =====
-- internal/config/validate.go: one round of validateBackends.
use local_inference_router.Base.{
  pos, Text, text_eq, text_eq_iff, lookup, insert, lookup-insert, mem_text, Bool, true, false, ◌||◌,
  none, some, List, ◌≡◌, ◌↔◌, ◌⊎◌, inl, inr, arith, Result-cases, ok,
}
use local_inference_router.Config.{BackendConfig, kind_ollama, kind_llama_cpp, kind_vllm}
use local_inference_router.Config.Url.{Net, parse_base_url, canonical_origin_key}
use local_inference_router.Config.Checks.{validate_name, validate_env_name, is_backend_name_byte}
use local_inference_router.Config.Checks.Names.{validate_name_iff, validate_env_name_iff}
use local_inference_router.Config.Validate.{
  limits_error, identity_error, origin_of_backend, check_url, check_backend,
}
use local_inference_router.Config.Validate.Valid.{IsBackend, Within, origin}

abbrev pub has_key : List (Text × Text) → Text → Bool
has_key m k = elim (lookup k m) [ none ↦ false | some _ ↦ true ]

pub has_key-insert :
    (k v : Text) (m : List (Text × Text)) (j : Text)
    → has_key (insert k v m) j ≡ (text_eq k j || has_key m j)
has_key-insert k v m j = ground (arith, lookup-insert k j v m)

record Limited (b : BackendConfig) : Type 0 where
  pub max_inflight : Within (pos 1) (pos 100000) b.max_inflight
  pub header_timeout : Within (pos 1000) (pos 900000) b.response_header_timeout_ms
  pub idle_timeout : Within (pos 1000) (pos 900000) b.response_idle_timeout_ms
  pub token_env : validate_env_name b.bearer_token_env ≡ none

limits_error_iff : (b : BackendConfig) → (limits_error b ≡ none) ↔ Limited b
unfolding limits_error
limits_error_iff b = (
  λ e. record {
    max_inflight = ground (arith, e);
    header_timeout = ground (arith, e);
    idle_timeout = ground (arith, e);
    token_env = ground (arith, e);
  },
  λ h. ground (arith, h.max_inflight, h.header_timeout, h.idle_timeout, h.token_env),
)

identity_error_iff :
    (known : List Text) (b : BackendConfig)
    → (identity_error known b ≡ none) ↔ (
        (validate_name b.name 64 is_backend_name_byte ≡ none)
        × (mem_text b.name known ≡ false)
        × ((b.kind ≡ kind_ollama) ⊎ ((b.kind ≡ kind_llama_cpp) ⊎ (b.kind ≡ kind_vllm))))
unfolding identity_error
identity_error_iff known b = ground (
  arith,
  text_eq_iff b.kind kind_ollama,
  text_eq_iff b.kind kind_llama_cpp,
  text_eq_iff b.kind kind_vllm,
)

module _ (net : Net) where
  -- What a round asks of a backend, after the names and the origins before it.
  pub record Passed (known : List Text) (origins : List (Text × Text)) (b : BackendConfig)
      : Type 0 where
    pub backend : IsBackend net b
    pub new_name : mem_text b.name known ≡ false
    pub new_origin : has_key origins (origin net b) ≡ false

  pub check_backend-ok :
      (known : List Text) (origins next : List (Text × Text)) (b : BackendConfig)
      → check_backend net known origins b ≡ ok next
      → Passed known origins b × (next ≡ insert (origin net b) b.name origins)
  unfolding check_backend check_url origin_of_backend
  check_backend-ok known origins next b e = elim (Result-cases (parse_base_url net b.base_url)) [
    | inl (x, at) ↦ absurd (ground (arith, e, at))
    | inr (u, at) ↦
        let (named, unseen, kind) = (identity_error_iff known b).0 (ground (arith, e)) in
        let limits = (limits_error_iff b).0 (ground (arith, e, at)) in
        let unused : lookup (canonical_origin_key net u) origins ≡ none = ground (arith, e, at) in
        (
          record {
            backend = record {
              name = (validate_name_iff b.name 64 is_backend_name_byte).0 named;
              kind = kind;
              url = (u, at);
              max_inflight = limits.max_inflight;
              header_timeout = limits.header_timeout;
              idle_timeout = limits.idle_timeout;
              token_env = (validate_env_name_iff b.bearer_token_env).0 limits.token_env;
            };
            new_name = unseen;
            new_origin = ground (arith, at, unused);
          },
          ground (arith, e, at),
        )
  ]

  pub check_backend-Passed :
      (known : List Text) (origins : List (Text × Text)) (b : BackendConfig)
      → Passed known origins b
      → check_backend net known origins b ≡ ok (insert (origin net b) b.name origins)
  unfolding check_backend check_url origin_of_backend
  check_backend-Passed known origins b p =
      let (u, at) = p.backend.url in
      ground (
        arith,
        at,
        p.new_name,
        p.new_origin,
        identity_error_iff known b,
        validate_name_iff b.name 64 is_backend_name_byte,
        p.backend.name,
        p.backend.kind,
        limits_error_iff b,
        limits,
      )
    where
      limits : Limited b
      limits = record {
        max_inflight = p.backend.max_inflight;
        header_timeout = p.backend.header_timeout;
        idle_timeout = p.backend.idle_timeout;
        token_env = (validate_env_name_iff b.bearer_token_env).1 p.backend.token_env;
      }
