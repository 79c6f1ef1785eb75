-- ===== src/Config/Checks.antt =====
-- internal/config/validate.go: its bounds, its errors and the tests of one text.
pub mod Names
use local_inference_router.Base.{
  ℕ, ℤ, pos, ◌+◌, Text, is_empty, length, trim_space, Bool, true, false, not, ◌&&◌, ◌||◌, ◌==◌, leb,
  ltb, Option, none, some, [], ◌∷◌, if◌then◌else◌, split_host_port,
}
use local_inference_router.Config.Url.{UrlError, bad_port}

abbrev pub min_max_inflight : ℤ
min_max_inflight = pos 1

abbrev pub max_max_inflight : ℤ
max_max_inflight = pos 100000

abbrev pub min_response_header_timeout_ms : ℤ
min_response_header_timeout_ms = pos 1000

abbrev pub max_response_header_timeout_ms : ℤ
max_response_header_timeout_ms = pos 900000

abbrev pub min_response_idle_timeout_ms : ℤ
min_response_idle_timeout_ms = pos 1000

abbrev pub max_response_idle_timeout_ms : ℤ
max_response_idle_timeout_ms = pos 900000

abbrev pub max_priority : ℤ
max_priority = pos 1000000

abbrev pub max_backend_name_len : ℕ
max_backend_name_len = 64

abbrev pub max_alias_name_len : ℕ
max_alias_name_len = 128

abbrev pub max_upstream_model_len : ℕ
max_upstream_model_len = 256

-- The errors, with what their texts hold.
pub data NameError : Type 0 where
  empty_name long_name unsupported_character : NameError

pub data BackendError : Type 0 where
  backend_name : NameError → BackendError
  duplicate_name : Text → BackendError
  bad_kind bad_max_inflight bad_header_timeout bad_idle_timeout : BackendError
  bad_url : UrlError → BackendError
  bad_token_env : Text → BackendError
  duplicate_origin : Text → Text → BackendError

pub data RouteError : Type 0 where
  unknown_backend : Text → RouteError
  empty_model long_model control_characters priority_range : RouteError
  duplicate_route : Text → Text → RouteError

pub data AliasError : Type 0 where
  alias_name : NameError → AliasError
  duplicate_alias : Text → AliasError
  no_routes : AliasError
  bad_route : ℕ → RouteError → AliasError

pub data ConfigError : Type 0 where
  file_empty bad_version bad_listen no_backends no_aliases : ConfigError
  bad_env : Text → ConfigError
  bad_backend : ℕ → BackendError → ConfigError
  bad_alias : ℕ → AliasError → ConfigError

abbrev pub is_alphanumeric : ℕ → Bool
is_alphanumeric c = leb b'A' c && leb c b'Z' || leb b'a' c && leb c b'z' || leb b'0' c && leb c b'9'

abbrev pub is_backend_name_byte : ℕ → Bool
is_backend_name_byte c = is_alphanumeric c || c == b'_' || c == b'.' || c == b'-'

abbrev pub is_alias_name_byte : ℕ → Bool
is_alias_name_byte c =
    is_alphanumeric c || c == b'_' || c == b'.' || c == b':' || c == b'/' || c == b'-'

unfoldable pub has_control_bytes : Text → Bool
has_control_bytes [] = false
has_control_bytes (c ∷ s) = if ltb c 0x20 || c == 0x7f then true else has_control_bytes s

-- The loop of validateEnvName at position i: whether it reaches the end.
env_bytes_from : ℕ → Text → Bool
env_bytes_from i [] = true
env_bytes_from i (c ∷ s) =
    let rest = env_bytes_from (i + 1) s in
    if c == b'_'
    then rest
    else if leb b'A' c && leb c b'Z' || leb b'a' c && leb c b'z'
    then rest
    else if leb b'0' c && leb c b'9' && ltb 0 i
    then rest
    else false

-- The invalid name, if it is one.
unfoldable pub validate_env_name : Text → Option Text
unfolding env_bytes_from
validate_env_name name =
    if is_empty name then none else if env_bytes_from 0 name then none else some name

-- The loop of validateName.
all_allowed : (ℕ → Bool) → Text → Bool
all_allowed allowed [] = true
all_allowed allowed (c ∷ s) = if not (allowed c) then false else all_allowed allowed s

unfoldable pub validate_name : Text → ℕ → (ℕ → Bool) → Option NameError
unfolding all_allowed
validate_name name max_len allowed =
    if is_empty name
    then some empty_name
    else if ltb max_len (length name)
    then some long_name
    else if not (all_allowed allowed name)
    then some unsupported_character
    else none

unfoldable pub validate_listen : Text → Option ConfigError
validate_listen listen = elim (split_host_port listen) [
  | none ↦ some bad_listen
  | some (host, port) ↦
      if is_empty (trim_space host) || bad_port port then some bad_listen else none
]
