-- ===== src/Backend/Client.antt =====
-- internal/backend/client.go: the HTTP clients for inference and for health checks. Durations are
-- nanoseconds; a timeout of 0 is none.
use local_inference_router.Base.{ℤ, pos, Bool, true, false}
use local_inference_router.Backend.{Backend}

abbrev pub dial_timeout : ℤ
dial_timeout = pos 5000000000

abbrev pub tls_handshake_timeout : ℤ
tls_handshake_timeout = pos 5000000000

abbrev pub idle_conn_timeout : ℤ
idle_conn_timeout = pos 90000000000

abbrev pub health_timeout : ℤ
health_timeout = pos 2000000000

-- The fields of http.Transport that the program sets; the dialer is held by its timeout.
pub record Transport : Type 0 where
  pub dial_timeout : ℤ
  pub tls_handshake_timeout : ℤ
  pub idle_conn_timeout : ℤ
  pub response_header_timeout : ℤ
  pub force_attempt_http2 : Bool

-- http.Client; CheckRedirect returns ErrUseLastResponse where redirects are not followed.
pub record Client : Type 0 where
  pub transport : Transport
  pub timeout : ℤ
  pub follows_redirects : Bool

-- `base` is the clone of http.DefaultTransport.
abbrev pub new_transport : Transport → ℤ → Transport
new_transport base header_timeout = record base {
  dial_timeout = dial_timeout;
  tls_handshake_timeout = tls_handshake_timeout;
  idle_conn_timeout = idle_conn_timeout;
  response_header_timeout = header_timeout;
  force_attempt_http2 = true;
}

abbrev pub new_client : Transport → ℤ → Client
new_client base header_timeout = record {
  transport = new_transport base header_timeout;
  timeout = pos 0;
  follows_redirects = false;
}

abbrev pub new_health_client : Transport → Client
new_health_client base = record {
  transport = new_transport base health_timeout;
  timeout = health_timeout;
  follows_redirects = false;
}

-- b.Client(), as Build makes it.
abbrev pub client : Transport → Backend → Client
client base b = new_client base b.response_header_timeout
