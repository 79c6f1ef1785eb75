-- ===== src/Cli/Tests.antt =====
-- The start of a server with one backend.
mod Endings
use local_inference_router.Base.{
  ℕ, ◌≤◌, ◌≤ℤ◌, Option, none, get_elem?, contains, text_eq, trim_space, has_suffix, has_prefix,
  count_byte, atoi, split_host_port, lookup, insert, bytes, some, ◌≡◌, ◌≢◌, refl, false, true, pos,
  ◌∷◌, inl, inr, ok, All, [],
}
use local_inference_router.Config.{Config, BackendConfig}
use local_inference_router.Config.Load.{load}
use local_inference_router.Config.Tests.{
  simple_net, simple_yaml, file, config, loaded, secrets, built_backend,
}
use local_inference_router.Config.Url.{parse_base_url, hostname, port_of, bad_port}
use local_inference_router.Backend.Build.{build}
use local_inference_router.Backend.Client.{Transport}
use local_inference_router.Health.Checks.{new_checker_of}
use local_inference_router.Http.Server.{new_http_server}
use local_inference_router.Metrics.{init_backend}
use local_inference_router.Router.State.{
  Route, BackendState, AliasState, State, new_state, publish, find, put,
}
use local_inference_router.Router.Select.{select_locked, select_step}
use local_inference_router.Router.Operations.{reserve, set_health}
use local_inference_router.Router.Proxy.{
  Call, Attempt, starting, attempting, answered, start_call, advance,
}
use local_inference_router.Router.System.{Reach, arrives, advances, reports, begins, continues}
use local_inference_router.Router.System.Counts.{total}
use local_inference_router.Router.Tests.Examples.{no_media_type}
use local_inference_router.Cli.Bounds.{start-in_capacity}
use local_inference_router.Health.{status_of, new_checker, note, check, probe}
use local_inference_router.Health.Run.{Loop, next_check}
use local_inference_router.Cli.Serving.{Program, probed, Serves, launched, accepts, probes}
use local_inference_router.Cli.Serving.Confirmed.{Confirmed, start-Confirmed}
use local_inference_router.Cli.{Environment, Started, start, main, signaled}
use local_inference_router.Cli.Starts.{Ready, HasSecret, start-ok, start-Ready}

abbrev default_transport : Transport
default_transport = record {
  dial_timeout = pos 30000000000;
  tls_handshake_timeout = pos 10000000000;
  idle_conn_timeout = pos 90000000000;
  response_header_timeout = pos 0;
  force_attempt_http2 = true;
}

abbrev pub env : Environment
env = record {
  net = simple_net;
  decode_yaml = simple_yaml;
  parse_flags = λ args. some (bytes "f", 0);
  file_at = λ path. file;
  lookup_env = secrets;
  default_transport = default_transport;
}

no_token : HasSecret secrets config.bearer_token_env
unfolding config
no_token = ([], inl (refl, refl))

key_set : bytes "KEY" ≢ []
key_set e = cc

secret_set : bytes "secret" ≢ []
secret_set e = cc

backend_tokens : All (λ c. HasSecret secrets c.bearer_token_env) config.backends
unfolding config
backend_tokens = ((bytes "secret", inr (key_set, refl, secret_set)), tt)

start-Ready_example : (st : Started) × (start env (bytes "f") ≡ ok st) × Ready env config st
start-Ready_example = start-Ready env (bytes "f") config loaded no_token backend_tokens

abbrev server : Started
server = (start-Ready env (bytes "f") config loaded no_token backend_tokens).0

start-ok_example :
    (cfg : Config) × (load simple_yaml simple_net file ≡ ok cfg) × Ready env cfg server
start-ok_example =
    start-ok env (bytes "f") server
      (start-Ready env (bytes "f") config loaded no_token backend_tokens).1

-- The started server.
abbrev first_route : Route
first_route = record {
  alias = bytes "chat";
  backend = built_backend;
  upstream_model = bytes " m1 ";
  priority = pos 10;
  order = 0;
  address = 0;
}

abbrev chat_routes : AliasState
chat_routes = record { name = bytes "chat"; routes = first_route ∷ [] }

abbrev started_state : State
started_state = record {
  backends = (bytes "a", 0) ∷ [];
  order = record { backend = built_backend; checked = false; healthy = false; inflight = 0 } ∷ [];
  aliases = (bytes "chat", chat_routes) ∷ [];
  alias_order = chat_routes ∷ [];
  metrics = some (init_backend (bytes "a") (record { samples = [] }));
}

abbrev pub started : Started
started = record {
  config = config;
  inbound_token = [];
  backends = built_backend ∷ [];
  state = started_state;
  server = new_http_server config.listen;
  checks = new_checker_of default_transport (built_backend ∷ []);
}

pub started_test : start env (bytes "f") ≡ ok started
unfolding start config build parse_base_url hostname port_of bad_port text_eq trim_space has_suffix
    has_prefix count_byte atoi split_host_port new_state lookup insert publish find
started_test = rw (loaded, start) refl

-- A health result makes the backend eligible, and a request takes its only slot.
abbrev checked_state : State
checked_state = set_health (bytes "a") true started_state

abbrev new_call : Call
new_call = record {
  alias = bytes "chat";
  flushable = true;
  attempted = [];
  header = [];
  written = [];
  phase = starting;
}

abbrev trying : Call
trying = record new_call { attempted = 0 ∷ []; phase = attempting first_route }

abbrev answer : Attempt
answer = record {
  result = answered (record { status_code = 200; header = [] });
  elapsed = 0;
  context_done = false;
}

abbrev state_after : Option (State × Call) → State
state_after none = started_state
state_after (some (s, c)) = s

unfoldable taken : State
unfolding advance reserve select_locked select_step set_health find put publish lookup
taken = state_after (advance no_media_type new_call answer checked_state)

loaded-Reach : Reach no_media_type started.state (record { state = taken; calls = trying ∷ [] })
unfolding taken start_call contains text_eq
loaded-Reach =
    continues
      (continues (continues begins (reports (bytes "a") true)) (arrives (bytes "chat") true))
      (advances 0 new_call trying answer taken refl refl)

abbrev busy : BackendState
busy = record { backend = built_backend; checked = true; healthy = true; inflight = 1 }

taken_a : find taken (bytes "a") ≡ some busy
unfolding taken contains text_eq
taken_a = refl

start-in_capacity_example :
    (cfg : Config) × (load simple_yaml simple_net file ≡ ok cfg)
    × (i : ℕ) × (c : BackendConfig) × (get_elem? cfg.backends i ≡ some c)
    × (c.name ≡ bytes "a")
    × (pos (total (trying ∷ []) (bytes "a")) ≤ℤ c.max_inflight)
    × (total (trying ∷ []) (bytes "a") ≤ 100000)
start-in_capacity_example =
    start-in_capacity no_media_type env (bytes "f") started
      (record { state = taken; calls = trying ∷ [] }) (bytes "a") busy started_test loaded-Reach
      taken_a

-- Without a command, and with an unknown one, main ends with the usage code.
main_test :
    (main env (bytes "router" ∷ []) signaled ≡ some 2)
    × (main env (bytes "router" ∷ bytes "run" ∷ []) signaled ≡ some 2)
unfolding main text_eq
main_test = (refl, refl)

-- The loop of the only backend finds it up, and a request arrives.
abbrev first_loop : Loop
first_loop = record { backend = built_backend; checker = new_checker }

abbrev confirmed_loop : Loop
confirmed_loop = record first_loop {
  checker = record { previous = true; known = true; logged = true ∷ [] };
}

abbrev serving : Program
serving = record {
  system = record { state = checked_state; calls = new_call ∷ [] };
  loops = confirmed_loop ∷ [];
}

serving-Serves : Serves no_media_type started.checks started.state serving
unfolding probed next_check check note probe start_call
serving-Serves = accepts (bytes "chat") true (probes 0 first_loop (status_of 200) launched refl)

taken_step : advance no_media_type new_call answer checked_state ≡ some (taken, trying)
unfolding taken contains text_eq
taken_step = refl

start-Confirmed_example : Confirmed (confirmed_loop ∷ []) (bytes "a")
start-Confirmed_example =
    start-Confirmed no_media_type env (bytes "f") started serving 0 new_call trying answer taken
      first_route started_test serving-Serves refl taken_step refl
