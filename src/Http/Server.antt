-- ===== src/Http/Server.antt =====
-- internal/httpapi/server.go: the settings of the net/http server. Durations are nanoseconds.
use local_inference_router.Base.{ℕ, Text}

abbrev pub read_header_timeout : ℕ
read_header_timeout = 5000000000

abbrev pub read_timeout : ℕ
read_timeout = 30000000000

abbrev pub write_timeout : ℕ
write_timeout = 0

abbrev pub idle_timeout : ℕ
idle_timeout = 120000000000

abbrev pub max_header_bytes : ℕ
max_header_bytes = 1048576

-- http.Server, without its handler.
pub record HttpServer : Type 0 where
  pub addr : Text
  pub read_header_timeout : ℕ
  pub read_timeout : ℕ
  pub write_timeout : ℕ
  pub idle_timeout : ℕ
  pub max_header_bytes : ℕ

abbrev pub new_http_server : Text → HttpServer
new_http_server addr = record {
  addr = addr;
  read_header_timeout = read_header_timeout;
  read_timeout = read_timeout;
  write_timeout = write_timeout;
  idle_timeout = idle_timeout;
  max_header_bytes = max_header_bytes;
}
