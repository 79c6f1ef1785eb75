-- ===== src/Config/Validate/Valid.antt =====
-- What a valid configuration is, apart from how Validate finds it out.
use local_inference_router.Base.{
  ℤ, pos, ◌≤ℤ◌, ◌≤◌, Text, length, trim_space, split_host_port, atoi, List, [], some, ◌≡◌, ◌≢◌, ◌⊎◌,
  All, map, Pairwise, Result, ok, fail,
}
use local_inference_router.Config.{
  Config, BackendConfig, AliasConfig, RouteConfig, kind_ollama, kind_llama_cpp, kind_vllm,
}
use local_inference_router.Config.Url.{Net, Url, UrlError, parse_base_url, canonical_origin_key}
use local_inference_router.Config.Checks.{is_backend_name_byte, is_alias_name_byte}
use local_inference_router.Config.Checks.Names.{IsName, IsEnvName, IsPrintable}

abbrev pub Within : ℤ → ℤ → ℤ → Type 0
Within low high x = (low ≤ℤ x) × (x ≤ℤ high)

-- A host that is not blank, and a port from 1 to 65535.
pub record IsListen (listen : Text) : Type 0 where
  pub host : Text
  pub port : Text
  pub number : ℤ
  pub parts : split_host_port listen ≡ some (host, port)
  pub filled : trim_space host ≢ []
  pub decimal : atoi port ≡ some number
  pub in_range : Within (pos 1) (pos 65535) number

pub record IsRoute (backends : List Text) (r : RouteConfig) : Type 0 where
  pub known : ¬ All (λ name. name ≢ r.backend) backends
  pub filled : trim_space r.upstream_model ≢ []
  pub short : length (trim_space r.upstream_model) ≤ 256
  pub printable : IsPrintable (trim_space r.upstream_model)
  pub priority : Within (pos 0) (pos 1000000) r.priority

-- To the same backend, with the same model up to the spaces around it.
abbrev pub SameRoute : RouteConfig → RouteConfig → Type 0
SameRoute r q =
    (r.backend ≡ q.backend) × (trim_space r.upstream_model ≡ trim_space q.upstream_model)

pub record IsAlias (backends : List Text) (a : AliasConfig) : Type 0 where
  pub name : IsName 128 is_alias_name_byte a.name
  pub some_route : a.routes ≢ []
  pub routes : All (IsRoute backends) a.routes
  pub distinct : Pairwise (λ r q. ¬ SameRoute r q) a.routes

module _ (net : Net) where
  abbrev origin_of : Result UrlError Url → Text
  origin_of (fail e) = []
  origin_of (ok u) = canonical_origin_key net u

  -- The origin that the URL of a backend stands for.
  abbrev pub origin : BackendConfig → Text
  origin b = origin_of (parse_base_url net b.base_url)

  pub record IsBackend (b : BackendConfig) : Type 0 where
    pub name : IsName 64 is_backend_name_byte b.name
    pub kind : (b.kind ≡ kind_ollama) ⊎ ((b.kind ≡ kind_llama_cpp) ⊎ (b.kind ≡ kind_vllm))
    pub url : (u : Url) × (parse_base_url net b.base_url ≡ ok u)
    pub max_inflight : Within (pos 1) (pos 100000) b.max_inflight
    pub header_timeout : Within (pos 1000) (pos 900000) b.response_header_timeout_ms
    pub idle_timeout : Within (pos 1000) (pos 900000) b.response_idle_timeout_ms
    pub token_env : IsEnvName b.bearer_token_env

  pub record IsConfig (cfg : Config) : Type 0 where
    pub version : cfg.version ≡ pos 1
    pub listen : IsListen cfg.listen
    pub token_env : IsEnvName cfg.bearer_token_env
    pub some_backend : cfg.backends ≢ []
    pub backends : All IsBackend cfg.backends
    pub distinct_names : Pairwise (λ b c. b.name ≢ c.name) cfg.backends
    pub distinct_origins : Pairwise (λ b c. origin b ≢ origin c) cfg.backends
    pub some_alias : cfg.aliases ≢ []
    pub aliases : All (IsAlias (map (λ b. b.name) cfg.backends)) cfg.aliases
    pub distinct_aliases : Pairwise (λ a c. a.name ≢ c.name) cfg.aliases
