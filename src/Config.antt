-- ===== src/Config.antt =====
-- internal/config/types.go: the configuration file, its defaults and the fixed health endpoints.
-- A Go string is the list of its bytes, an int of the file is an integer.
pub mod Url
pub mod Checks
pub mod Validate
pub mod Load
pub mod Tests
use local_inference_router.Base.{ℕ, ℤ, pos, Text, bytes, text_eq, List, [], ◌||◌, if◌then◌else◌}

abbrev pub default_listen : Text
default_listen = bytes "127.0.0.1:8080"

abbrev pub default_response_header_timeout_ms : ℤ
default_response_header_timeout_ms = pos 120000

abbrev pub default_response_idle_timeout_ms : ℤ
default_response_idle_timeout_ms = pos 120000

abbrev pub max_config_bytes : ℕ
max_config_bytes = 1048576

pub record RouteConfig : Type 0 where
  pub backend : Text
  pub upstream_model : Text
  pub priority : ℤ

pub record AliasConfig : Type 0 where
  pub name : Text
  pub routes : List RouteConfig

pub record BackendConfig : Type 0 where
  pub name : Text
  pub kind : Text
  pub base_url : Text
  pub max_inflight : ℤ
  pub response_header_timeout_ms : ℤ
  pub response_idle_timeout_ms : ℤ
  pub bearer_token_env : Text

pub record Config : Type 0 where
  pub version : ℤ
  pub listen : Text
  pub bearer_token_env : Text
  pub backends : List BackendConfig
  pub aliases : List AliasConfig

abbrev pub kind_ollama : Text
kind_ollama = bytes "ollama"

abbrev pub kind_llama_cpp : Text
kind_llama_cpp = bytes "llama_cpp"

abbrev pub kind_vllm : Text
kind_vllm = bytes "vllm"

unfoldable pub health_path : Text → Text
health_path kind =
    if text_eq kind kind_ollama
    then bytes "/api/version"
    else if text_eq kind kind_llama_cpp || text_eq kind kind_vllm
    then bytes "/health"
    else []
