-- ===== src/Config/Tests.antt =====
-- A configuration with one backend and one alias, and the theorems about it.
mod Keys
use local_inference_router.Base.{
  ℕ, suc, zero, pos, Text, bytes, Option, none, some, [], ◌∷◌, ◌≡◌, ◌≢◌, ◌↔◌, refl, ok, All2,
  lookup, text_eq, mem_text, trim_space, has_suffix, has_prefix, count_byte, atoi, itoa,
  split_host_port, join_host_port, insert, arith,
}
use local_inference_router.Config.{Config, BackendConfig, max_config_bytes}
use local_inference_router.Config.Url.{
  Net, parse_base_url, canonical_origin_key, hostname, port_of, bad_port, bare_origin,
}
use local_inference_router.Config.Url.Origin.{IsOrigin, parse_base_url-IsOrigin}
use local_inference_router.Config.Checks.{
  validate_name, validate_env_name, validate_listen, has_control_bytes, duplicate_origin,
  bad_backend,
}
use local_inference_router.Config.Validate.{validate, validate_backends, validate_aliases}
use local_inference_router.Config.Validate.Valid.{IsConfig}
use local_inference_router.Config.Validate.Accepts.{validate-IsConfig}
use local_inference_router.Config.Load.{File, Document, decoded, end_of_input, load, apply_defaults}
use local_inference_router.Config.Load.Loaded.{Fits, Decodes, load_iff}
use local_inference_router.Backend.{Backend}
use local_inference_router.Backend.Build.{build}
use local_inference_router.Backend.Build.Builds.{Builds, build_iff}

abbrev skip : ℕ → Text → Text
skip zero s = s
skip (suc n) [] = []
skip (suc n) (c ∷ s) = skip n s

-- URLs of the form http://host.
abbrev pub simple_net : Net
simple_net = record {
  parse_url = λ raw. some (bare_origin (bytes "http") (skip 7 raw));
  canonical_ip = λ host. none;
  to_lower = λ s. s;
}

abbrev pub one_backend : BackendConfig
one_backend = record {
  name = bytes "a";
  kind = bytes "vllm";
  base_url = bytes "http://a:8000";
  max_inflight = pos 1;
  response_header_timeout_ms = pos 0;
  response_idle_timeout_ms = pos 5000;
  bearer_token_env = bytes "KEY";
}

-- The document, before its defaults.
abbrev pub document : Config
document = record {
  version = pos 1;
  listen = [];
  bearer_token_env = [];
  backends = one_backend ∷ [];
  aliases =
      record {
        name = bytes "chat";
        routes =
            record { backend = bytes "a"; upstream_model = bytes " m1 "; priority = pos 10 } ∷ [];
      }
      ∷ [];
}

unfoldable pub config : Config
unfolding apply_defaults
config = apply_defaults document

pub accepted : validate simple_net (some config) ≡ none
unfolding config validate validate_name validate_env_name validate_listen has_control_bytes
    validate_backends validate_aliases parse_base_url canonical_origin_key hostname port_of bad_port
    text_eq lookup mem_text trim_space has_suffix has_prefix count_byte atoi itoa split_host_port
    join_host_port insert
accepted = refl

pub config-IsConfig : IsConfig simple_net config
config-IsConfig = (validate-IsConfig simple_net config).0 accepted

-- A second backend on the same origin, written another way.
duplicate_test :
    validate simple_net (
      some (record config {
        backends =
            record one_backend { response_header_timeout_ms = pos 1000 }
            ∷ record one_backend {
              name = bytes "b";
              base_url = bytes " http://a:08000";
              response_header_timeout_ms = pos 1000;
            }
            ∷ [];
      }))
    ≡ some (bad_backend 1 (duplicate_origin (bytes "http://a:8000") (bytes "a")))
unfolding config validate validate_name validate_env_name validate_listen has_control_bytes
    validate_backends validate_aliases parse_base_url canonical_origin_key hostname port_of bad_port
    text_eq lookup mem_text trim_space has_suffix has_prefix count_byte atoi itoa split_host_port
    join_host_port insert
duplicate_test = refl

validate-IsConfig_example : (validate simple_net (some config) ≡ none) ↔ IsConfig simple_net config
validate-IsConfig_example = validate-IsConfig simple_net config

pub base_a :
    parse_base_url simple_net (bytes "http://a:8000")
    ≡ ok (bare_origin (bytes "http") (bytes "a:8000"))
unfolding parse_base_url hostname port_of bad_port text_eq trim_space has_suffix has_prefix
    count_byte atoi split_host_port
base_a = refl

parse_base_url-IsOrigin_example : IsOrigin (bare_origin (bytes "http") (bytes "a:8000"))
parse_base_url-IsOrigin_example =
    parse_base_url-IsOrigin simple_net (bytes "http://a:8000")
      (bare_origin (bytes "http") (bytes "a:8000")) base_a

abbrev pub file : File
file = record { size = some 4; content = some (bytes "yaml") }

abbrev pub simple_yaml : Text → Document × Document
simple_yaml data_ = (decoded document, end_of_input)

load_iff_example : (load simple_yaml simple_net file ≡ ok config) ↔ (
    (data_ : Text) × Fits max_config_bytes file data_
    × Decodes simple_yaml data_ config
    × IsConfig simple_net config)
load_iff_example = load_iff simple_yaml simple_net file config

yaml-filled : trim_space (bytes "yaml") ≢ []
unfolding trim_space
yaml-filled e = cc

pub loaded : load simple_yaml simple_net file ≡ ok config
unfolding config
loaded = (load_iff simple_yaml simple_net file config).1 (
  bytes "yaml",
  record { size = 4; stat = refl; small = omega arith; whole = refl; short = omega arith },
  record { filled = yaml-filled; document = document; first = refl; last = refl; defaults = refl },
  config-IsConfig,
)

abbrev pub secrets : Text → Option Text
secrets name = some (bytes "secret")

abbrev pub built_backend : Backend
built_backend = record {
  name = bytes "a";
  kind = bytes "vllm";
  base_url = bare_origin (bytes "http") (bytes "a:8000");
  max_inflight = pos 1;
  response_header_timeout = pos 120000000000;
  response_idle_timeout = pos 5000000000;
  token = bytes "secret";
}

build_iff_example :
    (build simple_net secrets config.backends ≡ ok (built_backend ∷ []))
    ↔ All2 (Builds simple_net secrets) config.backends (built_backend ∷ [])
build_iff_example =
    build_iff simple_net secrets config.backends (built_backend ∷ []) config-IsConfig.backends
