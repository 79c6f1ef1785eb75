-- ===== src/Config/Load.antt =====
-- internal/config/load.go. What the file system and the YAML decoder do is an argument: a file is
-- what Stat, Open and ReadAll would give, and a document is what one call of Decode returns.
pub mod Loaded
use local_inference_router.Base.{
  ℕ, suc, ◌+◌, ℤ, pos, eqb_ℤ, Text, is_empty, trim_space, length, ltb, Bool, true, false, Option,
  none, some, List, [], ◌∷◌, map, if◌then◌else◌, Result, fail, ok, zero,
}
use local_inference_router.Config.{
  Config, BackendConfig, max_config_bytes, default_listen, default_response_header_timeout_ms,
  default_response_idle_timeout_ms,
}
use local_inference_router.Config.Url.{Net}
use local_inference_router.Config.Checks.{ConfigError}
use local_inference_router.Config.Validate.{validate}

-- The size that Stat gives, and the bytes that a reader of the opened file would give; `none` is
-- an error, of Open or of a Read.
pub record File : Type 0 where
  pub size : Option ℕ
  pub content : Option Text

-- The result of one call of Decode of a YAML decoder.
pub data Document : Type 0 where
  decoded : Config → Document
  end_of_input malformed : Document

pub data LoadError : Type 0 where
  stat_error read_error too_large empty_file malformed_file several_documents : LoadError
  invalid : ConfigError → LoadError

-- The bytes that come through a limited reader.
pub limit_reader : ℕ → Text → Text
limit_reader zero s = []
limit_reader (suc n) [] = []
limit_reader (suc n) (c ∷ s) = c ∷ limit_reader n s

-- The data that is read, with the test of its length.
bounded_read : ℕ → Text → Result LoadError Text
unfolding limit_reader
bounded_read limit content =
    let data_ = limit_reader (suc limit) content in
    if ltb limit (length data_) then fail too_large else ok data_

read_content : ℕ → Option Text → Result LoadError Text
unfolding bounded_read
read_content limit none = fail read_error
read_content limit (some content) = bounded_read limit content

-- readFile, for any limit.
read_within : ℕ → File → Result LoadError Text
unfolding read_content
read_within limit file = elim file.size [
  | none ↦ fail stat_error
  | some size ↦ if ltb limit size then fail too_large else read_content limit file.content
]

unfoldable pub read_file : File → Result LoadError Text
unfolding read_within
read_file file = read_within max_config_bytes file

default_timeouts : BackendConfig → BackendConfig
default_timeouts b = record b {
  response_header_timeout_ms =
      if eqb_ℤ b.response_header_timeout_ms (pos 0)
      then default_response_header_timeout_ms
      else b.response_header_timeout_ms;
  response_idle_timeout_ms =
      if eqb_ℤ b.response_idle_timeout_ms (pos 0)
      then default_response_idle_timeout_ms
      else b.response_idle_timeout_ms;
}

unfoldable pub apply_defaults : Config → Config
unfolding default_timeouts
apply_defaults cfg = record cfg {
  listen = if is_empty (trim_space cfg.listen) then default_listen else cfg.listen;
  backends = map default_timeouts cfg.backends;
}

-- The end of Decode, on the second document.
second_document : Config → Document → Result LoadError Config
unfolding apply_defaults
second_document cfg (decoded _) = fail several_documents
second_document cfg end_of_input = ok (apply_defaults cfg)
second_document cfg malformed = fail malformed_file

first_document : Document → Document → Result LoadError Config
unfolding second_document
first_document (decoded cfg) next = second_document cfg next
first_document end_of_input next = fail empty_file
first_document malformed next = fail malformed_file

-- `decode_yaml` gives what the first two calls of Decode return on the data.
module _ (decode_yaml : Text → Document × Document) where
  unfoldable pub decode : Text → Result LoadError Config
  unfolding first_document
  decode data_ =
      if is_empty (trim_space data_)
      then fail empty_file
      else first_document (decode_yaml data_).0 (decode_yaml data_).1

  validated : Net → Config → Result LoadError Config
  validated net cfg = elim (validate net (some cfg)) [ none ↦ ok cfg | some e ↦ fail (invalid e) ]

  unfoldable pub load : Net → File → Result LoadError Config
  unfolding validated
  load net file = elim (read_file file) [
    | fail e ↦ fail e
    | ok data_ ↦ elim (decode data_) [ fail e ↦ fail e | ok cfg ↦ validated net cfg ]
  ]
