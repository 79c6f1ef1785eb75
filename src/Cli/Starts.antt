-- ===== src/Cli/Starts.antt =====
-- internal/cli/app.go: what runServe needs to get to its server.
use local_inference_router.Base.{
  pos, times, ◌≤ℤ◌, Text, Option, List, [], ◌∷◌, map, ok, ◌≡◌, ◌≢◌, ◌↔◌, inl, inr, refl, ◌∙◌, arith,
  Result-cases, Option-cases, All, All-map, All2,
}
use mathlib.Core.Path.{subst}
use local_inference_router.Config.{Config, BackendConfig}
use local_inference_router.Config.Url.{Net}
use local_inference_router.Config.Validate.Valid.{IsConfig, IsBackend, IsListen}
use local_inference_router.Config.Load.{load}
use local_inference_router.Config.Load.Loaded.{load_iff}
use local_inference_router.Backend.{Backend}
use local_inference_router.Backend.Build.{build}
use local_inference_router.Backend.Build.Builds.{HasToken, Builds, build_iff}
use local_inference_router.Health.Checks.{new_checker_of}
use local_inference_router.Http.Server.{new_http_server}
use local_inference_router.Router.State.{built, new_state}
use local_inference_router.Router.State.Building.{Starts, new_state-Starts}
use local_inference_router.Router.State.Starting.{new_state-built}
use local_inference_router.Cli.{
  Environment, Started, inbound, start_state, start_backends, start_config, start, new_metrics,
}

inbound_iff :
    (lookup_env : Text → Option Text) (cfg : Config) (token : Text)
    → (inbound lookup_env cfg ≡ ok token) ↔ HasToken lookup_env cfg.bearer_token_env token
unfolding inbound
inbound_iff lookup_env cfg token = ground (arith, Option-cases (lookup_env cfg.bearer_token_env))

-- The backends that are built have the names of the configuration, and room.
built-names :
    (net : Net) (secrets : Text → Option Text) (cfgs : List BackendConfig) (bs : List Backend)
    (n : Text)
    → All2 (Builds net secrets) cfgs bs
    → All (λ b. b.name ≢ n) bs
    → All (λ name. name ≢ n) (map (λ c. c.name) cfgs)
built-names net secrets [] [] n h k = tt
built-names net secrets [] (b ∷ bs) n h k = absurd h
built-names net secrets (c ∷ cfgs) [] n h k = absurd h
built-names net secrets (c ∷ cfgs) (b ∷ bs) n (h, hs) (k, ks) =
    (λ e. k (h.name ∙ e), built-names net secrets cfgs bs n hs ks)

built-rooms :
    (net : Net) (secrets : Text → Option Text) (cfgs : List BackendConfig) (bs : List Backend)
    → All (IsBackend net) cfgs
    → All2 (Builds net secrets) cfgs bs
    → All (λ b. pos 1 ≤ℤ b.max_inflight) bs
built-rooms net secrets [] [] v h = tt
built-rooms net secrets [] (b ∷ bs) v h = absurd h
built-rooms net secrets (c ∷ cfgs) [] v h = absurd h
built-rooms net secrets (c ∷ cfgs) (b ∷ bs) (v, vs) (h, hs) =
    (rw (h.max_inflight) v.max_inflight.0, built-rooms net secrets cfgs bs vs hs)

-- The server that is started: from a valid configuration, with its tokens, and a new state.
pub record Ready (env : Environment) (cfg : Config) (st : Started) : Type 0 where
  pub config : st.config ≡ cfg
  pub token : HasToken env.lookup_env cfg.bearer_token_env st.inbound_token
  pub backends : All2 (Builds env.net env.lookup_env) cfg.backends st.backends
  pub rooms : All (λ b. pos 1 ≤ℤ b.max_inflight) st.backends
  pub state : new_state cfg st.backends new_metrics ≡ built st.state
  pub starts : Starts st.state
  pub server : st.server ≡ new_http_server cfg.listen
  pub listen : IsListen st.server.addr
  pub checks : st.checks ≡ new_checker_of env.default_transport st.backends

-- The variable of a token is not configured, or set to a value that is not empty.
abbrev pub HasSecret : (Text → Option Text) → Text → Type 0
HasSecret secrets env = (token : Text) × HasToken secrets env token

Builds-exist :
    (net : Net) (secrets : Text → Option Text) (cfgs : List BackendConfig)
    → All (IsBackend net) cfgs
    → All (λ c. HasSecret secrets c.bearer_token_env) cfgs
    → (bs : List Backend) × All2 (Builds net secrets) cfgs bs
Builds-exist net secrets [] v h = ([], tt)
Builds-exist net secrets (c ∷ cfgs) (v, vs) ((token, has), h) =
    let (bs, done) = Builds-exist net secrets cfgs vs h in
    let (u, parsed) = v.url in
    (
      record {
        name = c.name;
        kind = c.kind;
        base_url = u;
        max_inflight = c.max_inflight;
        response_header_timeout = times c.response_header_timeout_ms 1000000;
        response_idle_timeout = times c.response_idle_timeout_ms 1000000;
        token = token;
      }
          ∷ bs,
      (
        record {
          name = refl;
          kind = refl;
          base_url = parsed;
          max_inflight = refl;
          header_timeout = refl;
          idle_timeout = refl;
          token = has;
        },
        done,
      ),
    )

module _ (env : Environment) (cfg : Config) (v : IsConfig env.net cfg) where
  -- NewState cannot fail after a successful Build.
  start_state-Ready :
      (token : Text) (bs : List Backend)
      → HasToken env.lookup_env cfg.bearer_token_env token
      → All2 (Builds env.net env.lookup_env) cfg.backends bs
      → (st : Started) × (start_state env.default_transport cfg token bs ≡ ok st) × Ready env cfg st
  unfolding start_state
  start_state-Ready token bs has built_ =
      let rooms = built-rooms env.net env.lookup_env cfg.backends bs v.backends built_ in
      let room = All-map _ (λ b. pos 0 ≤ℤ b.max_inflight) (λ b h. omega (arith, h)) bs rooms in
      let (s, e) = new_state-built cfg bs new_metrics room (
        All-map _ _
          (λ a h.
            All-map _ _
              (λ r k none_.
                k.known (built-names env.net env.lookup_env cfg.backends bs r.backend built_ none_))
              a.routes h.routes)
          cfg.aliases v.aliases) in
      (
        record {
          config = cfg;
          inbound_token = token;
          backends = bs;
          state = s;
          server = new_http_server cfg.listen;
          checks = new_checker_of env.default_transport bs;
        },
        ground (arith, e),
        record {
          config = refl;
          token = has;
          backends = built_;
          rooms = rooms;
          state = e;
          starts = new_state-Starts cfg bs new_metrics s room e;
          server = refl;
          listen = v.listen;
          checks = refl;
        },
      )

  start_config-ok : (st : Started) → start_config env cfg ≡ ok st → Ready env cfg st
  unfolding start_config start_backends
  start_config-ok st e = elim (Result-cases (inbound env.lookup_env cfg)) [
    | inl (x, at) ↦ absurd (ground (arith, e, at))
    | inr (token, at) ↦ elim (Result-cases (build env.net env.lookup_env cfg.backends)) [
      | inl (x, at') ↦ absurd (ground (arith, e, at, at'))
      | inr (bs, at') ↦
          let (st', e', ready) =
            start_state-Ready token bs ((inbound_iff env.lookup_env cfg token).0 at)
              ((build_iff env.net env.lookup_env cfg.backends bs v.backends).0 at') in
          let same : st' ≡ st = ground (arith, e, e', at, at') in subst (Ready env cfg) same ready
    ]
  ]

  start_config-Ready :
      HasSecret env.lookup_env cfg.bearer_token_env
      → All (λ c. HasSecret env.lookup_env c.bearer_token_env) cfg.backends
      → (st : Started) × (start_config env cfg ≡ ok st) × Ready env cfg st
  unfolding start_config start_backends
  start_config-Ready (token, has) secrets =
      let (bs, built_) = Builds-exist env.net env.lookup_env cfg.backends v.backends secrets in
      let (st, e, ready) = start_state-Ready token bs has built_ in
      let at = (inbound_iff env.lookup_env cfg token).1 has in
      let at' = (build_iff env.net env.lookup_env cfg.backends bs v.backends).1 built_ in
      (st, ground (arith, at, at', e), ready)

-- If runServe gets to its server, the configuration was loaded, and the server has the inbound
-- token, the backends that the configuration describes, each with a capacity of at least 1, a
-- valid state without reservations, the configured address with the settings of NewHTTPServer,
-- which has a host and a port from 1 to 65535, and the health checks of exactly these backends
-- with the settings of NewChecker.
pub start-ok :
    (env : Environment) (path : Text) (st : Started)
    → start env path ≡ ok st
    → (cfg : Config) × (load env.decode_yaml env.net (env.file_at path) ≡ ok cfg) × Ready env cfg st
unfolding start
start-ok env path st e = elim (Result-cases (load env.decode_yaml env.net (env.file_at path))) [
  | inl (x, at) ↦ absurd (ground (arith, e, at))
  | inr (cfg, at) ↦
      let (_, _, _, v) = (load_iff env.decode_yaml env.net (env.file_at path) cfg).0 at in
      (cfg, at, start_config-ok env cfg v st (ground (arith, e, at)))
]

-- If a configuration is loaded, and each environment variable that it names for a token is set to
-- a value that is not empty, runServe gets to its server: Build and NewState succeed, with the
-- backends that the configuration describes and a valid state without reservations.
pub start-Ready :
    (env : Environment) (path : Text) (cfg : Config)
    → load env.decode_yaml env.net (env.file_at path) ≡ ok cfg
    → HasSecret env.lookup_env cfg.bearer_token_env
    → All (λ c. HasSecret env.lookup_env c.bearer_token_env) cfg.backends
    → (st : Started) × (start env path ≡ ok st) × Ready env cfg st
unfolding start
start-Ready env path cfg at token secrets =
    let (_, _, _, v) = (load_iff env.decode_yaml env.net (env.file_at path) cfg).0 at in
    let (st, e, ready) = start_config-Ready env cfg v token secrets in
    (st, ground (arith, e, at), ready)
