-- ===== src/Config/Validate.antt =====
-- internal/config/validate.go: the loops over the backends, the aliases and their routes.
pub mod Valid
pub mod Rounds
pub mod Backends
pub mod Aliases
pub mod Accepts
use local_inference_router.Base.{
  ℕ, ℤ, pos, ◌+◌, Text, bytes, text_eq, is_empty, length, trim_space, lookup, insert, mem_text,
  Bool, true, false, not, ◌&&◌, ◌||◌, ◌==◌, leb, ltb, ltb_ℤ, eqb_ℤ, Option, none, some, List, [],
  ◌∷◌, ◌++◌, if◌then◌else◌, split_host_port, Result, fail, ok,
}
use local_inference_router.Config.{
  Config, BackendConfig, AliasConfig, RouteConfig, kind_ollama, kind_llama_cpp, kind_vllm,
}
use local_inference_router.Config.Url.{Net, Url, parse_base_url, canonical_origin_key}
use local_inference_router.Config.Checks.{
  NameError, BackendError, backend_name, duplicate_name, bad_kind, bad_max_inflight,
  bad_header_timeout, bad_idle_timeout, bad_url, bad_token_env, duplicate_origin, RouteError,
  unknown_backend, empty_model, long_model, control_characters, priority_range, duplicate_route,
  AliasError, alias_name, duplicate_alias, no_routes, bad_route, ConfigError, file_empty,
  bad_version, bad_listen, no_backends, no_aliases, bad_env, bad_backend, bad_alias,
  min_max_inflight, max_max_inflight, min_response_header_timeout_ms,
  max_response_header_timeout_ms, min_response_idle_timeout_ms, max_response_idle_timeout_ms,
  max_priority, max_backend_name_len, max_alias_name_len, max_upstream_model_len,
  is_backend_name_byte, is_alias_name_byte, has_control_bytes, validate_env_name, validate_name,
  validate_listen,
}

-- The tests of one backend that follow the one of its URL, in their order.
limits_error : BackendConfig → Option BackendError
limits_error b =
    if ltb_ℤ b.max_inflight min_max_inflight || ltb_ℤ max_max_inflight b.max_inflight
    then some bad_max_inflight
    else if ltb_ℤ b.response_header_timeout_ms min_response_header_timeout_ms
        || ltb_ℤ max_response_header_timeout_ms b.response_header_timeout_ms
    then some bad_header_timeout
    else if ltb_ℤ b.response_idle_timeout_ms min_response_idle_timeout_ms
        || ltb_ℤ max_response_idle_timeout_ms b.response_idle_timeout_ms
    then some bad_idle_timeout
    else elim (validate_env_name b.bearer_token_env) [
      | some name ↦ some (bad_token_env name)
      | none ↦ none
    ]

-- The tests that come before it.
identity_error : List Text → BackendConfig → Option BackendError
identity_error known b = elim (validate_name b.name max_backend_name_len is_backend_name_byte) [
  | some e ↦ some (backend_name e)
  | none ↦
      if mem_text b.name known
      then some (duplicate_name b.name)
      else if text_eq b.kind kind_ollama
          || text_eq b.kind kind_llama_cpp
          || text_eq b.kind kind_vllm
      then none
      else some bad_kind
]

-- The last test, of the origin; the origin is added to the map.
origin_of_backend :
    List (Text × Text) → BackendConfig → Text → Result BackendError (List (Text × Text))
origin_of_backend origins b origin = elim (lookup origin origins) [
  | some previous ↦ fail (duplicate_origin origin previous)
  | none ↦ ok (insert origin b.name origins)
]

module _ (net : Net) where
  check_url : List (Text × Text) → BackendConfig → Result BackendError (List (Text × Text))
  unfolding limits_error origin_of_backend
  check_url origins b = elim (parse_base_url net b.base_url) [
    | fail e ↦ fail (bad_url e)
    | ok base_url ↦ elim (limits_error b) [
      | some e ↦ fail e
      | none ↦ origin_of_backend origins b (canonical_origin_key net base_url)
    ]
  ]

  -- One round of validateBackends, up to the map of origins after it.
  pub check_backend :
      List Text → List (Text × Text) → BackendConfig → Result BackendError (List (Text × Text))
  unfolding identity_error check_url
  check_backend known origins b = elim (identity_error known b) [
    | some e ↦ fail e
    | none ↦ check_url origins b
  ]

  -- The loop from position i on.
  backends_from :
      ℕ → List Text → List (Text × Text) → List BackendConfig → Result ConfigError (List Text)
  unfolding check_backend
  backends_from i known origins [] = ok known
  backends_from i known origins (b ∷ bs) = elim (check_backend known origins b) [
    | fail e ↦ fail (bad_backend i e)
    | ok origins' ↦ backends_from (i + 1) (b.name ∷ known) origins' bs
  ]

  unfoldable pub validate_backends : List BackendConfig → Result ConfigError (List Text)
  unfolding backends_from
  validate_backends [] = fail no_backends
  validate_backends (b ∷ bs) = backends_from 0 [] [] (b ∷ bs)

-- route.Backend + "\x00" + model
abbrev pub route_key : RouteConfig → Text
route_key route = route.backend ++ (0 ∷ trim_space route.upstream_model)

-- One round of the loop over the routes of an alias.
route_error : List Text → List Text → RouteConfig → Option RouteError
unfolding has_control_bytes
route_error backends seen route =
    let model = trim_space route.upstream_model in
    if not (mem_text route.backend backends)
    then some (unknown_backend route.backend)
    else if is_empty model
    then some empty_model
    else if ltb max_upstream_model_len (length model)
    then some long_model
    else if has_control_bytes model
    then some control_characters
    else if ltb_ℤ route.priority (pos 0) || ltb_ℤ max_priority route.priority
    then some priority_range
    else if mem_text (route_key route) seen
    then some (duplicate_route route.backend model)
    else none

routes_from : List Text → ℕ → List Text → List RouteConfig → Option AliasError
unfolding route_error
routes_from backends j seen [] = none
routes_from backends j seen (r ∷ rs) = elim (route_error backends seen r) [
  | some e ↦ some (bad_route j e)
  | none ↦ routes_from backends (j + 1) (route_key r ∷ seen) rs
]

-- The routes of an alias.
routes_error : List Text → List RouteConfig → Option AliasError
unfolding routes_from
routes_error backends [] = some no_routes
routes_error backends (r ∷ rs) = routes_from backends 0 [] (r ∷ rs)

-- One round of validateAliases.
alias_error : List Text → List Text → AliasConfig → Option AliasError
unfolding routes_error
alias_error backends seen alias =
    elim (validate_name alias.name max_alias_name_len is_alias_name_byte) [
      | some e ↦ some (alias_name e)
      | none ↦
          if mem_text alias.name seen
          then some (duplicate_alias alias.name)
          else routes_error backends alias.routes
    ]

aliases_from : List Text → ℕ → List Text → List AliasConfig → Option ConfigError
unfolding alias_error
aliases_from backends i seen [] = none
aliases_from backends i seen (a ∷ as_) = elim (alias_error backends seen a) [
  | some e ↦ some (bad_alias i e)
  | none ↦ aliases_from backends (i + 1) (a.name ∷ seen) as_
]

unfoldable pub validate_aliases : List AliasConfig → List Text → Option ConfigError
unfolding aliases_from
validate_aliases [] backends = some no_aliases
validate_aliases (a ∷ as_) backends = aliases_from backends 0 [] (a ∷ as_)

module _ (net : Net) where
  validate_parts : Config → Option ConfigError
  validate_parts cfg = elim (validate_listen cfg.listen) [
    | some e ↦ some e
    | none ↦ elim (validate_env_name cfg.bearer_token_env) [
      | some name ↦ some (bad_env name)
      | none ↦ elim (validate_backends net cfg.backends) [
        | fail e ↦ some e
        | ok backends ↦ validate_aliases cfg.aliases backends
      ]
    ]
  ]

  -- Validate; `none` for a nil configuration, and for no error.
  unfoldable pub validate : Option Config → Option ConfigError
  unfolding validate_parts
  validate none = some file_empty
  validate (some cfg) =
      if not (eqb_ℤ cfg.version (pos 1)) then some bad_version else validate_parts cfg
