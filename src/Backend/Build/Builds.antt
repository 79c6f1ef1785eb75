-- ===== src/Backend/Build/Builds.antt =====
-- internal/backend/backend.go: what Build makes of validated configuration.
use local_inference_router.Base.{
  ℤ, pos, times, Text, Option, some, List, [], ◌∷◌, ok, Result-cases, Option-cases, inl, inr, ◌≡◌,
  ◌≢◌, ◌↔◌, ◌⊎◌, refl, arith, All, All2,
}
use mathlib.Core.Path.{subst}
use local_inference_router.Config.{BackendConfig}
use local_inference_router.Config.Url.{Net, parse_base_url}
use local_inference_router.Config.Validate.Valid.{IsBackend, Within}
use local_inference_router.Backend.{Backend}
use local_inference_router.Backend.Build.{
  milliseconds, resolve_token, make_backend, build_backend, build,
}

-- The token of a backend: empty if none is configured, and else the value of its variable, which
-- is not empty.
abbrev pub HasToken : (Text → Option Text) → Text → Text → Type 0
HasToken secrets env token =
    ((env ≡ []) × (token ≡ [])) ⊎ ((env ≢ []) × (secrets env ≡ some token) × (token ≢ []))

pub record Builds (net : Net) (secrets : Text → Option Text) (cfg : BackendConfig) (b : Backend)
    : Type 0 where
  pub name : b.name ≡ cfg.name
  pub kind : b.kind ≡ cfg.kind
  pub base_url : parse_base_url net cfg.base_url ≡ ok b.base_url
  pub max_inflight : b.max_inflight ≡ cfg.max_inflight
  pub header_timeout : b.response_header_timeout ≡ times cfg.response_header_timeout_ms 1000000
  pub idle_timeout : b.response_idle_timeout ≡ times cfg.response_idle_timeout_ms 1000000
  pub token : HasToken secrets cfg.bearer_token_env b.token

-- No overflow for a timeout of at most 900 seconds.
milliseconds-Within :
    (ms : ℤ) → Within (pos 1000) (pos 900000) ms → milliseconds ms ≡ times ms 1000000
milliseconds-Within ms h = ground arith

resolve_token_iff :
    (secrets : Text → Option Text) (cfg : BackendConfig) (token : Text)
    → (resolve_token secrets cfg ≡ ok token) ↔ HasToken secrets cfg.bearer_token_env token
unfolding resolve_token
resolve_token_iff secrets cfg token = ground (arith, Option-cases (secrets cfg.bearer_token_env))

module _ (net : Net) (secrets : Text → Option Text) where
  build_backend-ok :
      (cfg : BackendConfig) (b : Backend)
      → IsBackend net cfg
      → build_backend net secrets cfg ≡ ok b
      → Builds net secrets cfg b
  unfolding build_backend make_backend
  build_backend-ok cfg b v e = elim (Result-cases (resolve_token secrets cfg)) [
    | inl (x, at) ↦ let (u, parsed) = v.url in absurd (ground (arith, e, at, parsed))
    | inr (token, at) ↦
        let (u, parsed) = v.url in
        let same : make_backend cfg u token ≡ b = ground (arith, e, at, parsed) in
        subst (Builds net secrets cfg) same (record {
          name = refl;
          kind = refl;
          base_url = parsed;
          max_inflight = refl;
          header_timeout = milliseconds-Within cfg.response_header_timeout_ms v.header_timeout;
          idle_timeout = milliseconds-Within cfg.response_idle_timeout_ms v.idle_timeout;
          token = (resolve_token_iff secrets cfg token).0 at;
        })
  ]

  make_backend-Builds :
      (cfg : BackendConfig) (b : Backend)
      → IsBackend net cfg
      → Builds net secrets cfg b
      → make_backend cfg b.base_url b.token ≡ b
  unfolding make_backend
  make_backend-Builds cfg b v h = cc (
    h.name,
    h.kind,
    h.max_inflight,
    h.header_timeout,
    h.idle_timeout,
    milliseconds-Within cfg.response_header_timeout_ms v.header_timeout,
    milliseconds-Within cfg.response_idle_timeout_ms v.idle_timeout,
  )

  Builds-build_backend :
      (cfg : BackendConfig) (b : Backend)
      → IsBackend net cfg
      → Builds net secrets cfg b
      → build_backend net secrets cfg ≡ ok b
  unfolding build_backend make_backend
  Builds-build_backend cfg b v h =
      let resolved = (resolve_token_iff secrets cfg b.token).1 h.token in
      let made = make_backend-Builds cfg b v h in ground (arith, h.base_url, resolved, made)

  build-cons :
      (cfg : BackendConfig) (cfgs : List BackendConfig) (b : Backend) (bs : List Backend)
      → (build net secrets (cfg ∷ cfgs) ≡ ok (b ∷ bs))
        ↔ ((build_backend net secrets cfg ≡ ok b) × (build net secrets cfgs ≡ ok bs))
  unfolding build
  build-cons cfg cfgs b bs =
      ground
        (arith, Result-cases (build_backend net secrets cfg), Result-cases (build net secrets cfgs))

  -- On valid backend configurations Build succeeds with exactly the backends that they describe,
  -- in their order: name, kind, origin and capacity as configured, both timeouts as milliseconds
  -- without overflow, and as token nothing if no variable is configured and else the value of the
  -- variable, which is not empty.
  pub build_iff :
      (cfgs : List BackendConfig) (bs : List Backend)
      → All (IsBackend net) cfgs
      → (build net secrets cfgs ≡ ok bs) ↔ All2 (Builds net secrets) cfgs bs
  unfolding build
  build_iff [] [] v = (λ e. tt, λ h. refl)
  build_iff [] (b ∷ bs) v = (λ e. absurd (ground (arith, e)), λ h. absurd h)
  build_iff (cfg ∷ cfgs) [] (v, vs) = (λ e. ground (arith, e), λ h. absurd h)
  build_iff (cfg ∷ cfgs) (b ∷ bs) (v, vs) = (
    λ e.
        let (first, rest) = (build-cons cfg cfgs b bs).0 e in
        (build_backend-ok cfg b v first, (build_iff cfgs bs vs).0 rest),
    λ (h, hs).
        (build-cons cfg cfgs b bs).1 (Builds-build_backend cfg b v h, (build_iff cfgs bs vs).1 hs),
  )
