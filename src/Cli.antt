-- ===== src/Cli.antt =====
-- internal/cli/app.go: the commands and their exit codes. The texts that they print are left out.
pub mod Starts
pub mod Bounds
pub mod Serving
pub mod Stopping
mod Tests
use local_inference_router.Base.{
  ℕ, Text, bytes, text_eq, is_empty, ltb, Bool, true, false, ◌||◌, Option, none, some, List, [],
  ◌∷◌, if◌then◌else◌, Result, fail, ok,
}
use local_inference_router.Config.{Config}
use local_inference_router.Config.Url.{Net}
use local_inference_router.Config.Load.{File, Document, LoadError, load}
use local_inference_router.Backend.{Backend}
use local_inference_router.Backend.Build.{BuildError, build}
use local_inference_router.Backend.Client.{Transport}
use local_inference_router.Health.Checks.{Checks, new_checker_of}
use local_inference_router.Http.Server.{HttpServer, new_http_server}
use local_inference_router.Metrics.{Metrics}
use local_inference_router.Router.State.{State, Built, built, unknown_backend, new_state}

abbrev pub exit_success : ℕ
exit_success = 0

abbrev pub exit_error : ℕ
exit_error = 1

abbrev pub exit_usage : ℕ
exit_usage = 2

-- What the program gets from its libraries and from the operating system; default_transport stands
-- for a clone of http.DefaultTransport. parse_flags stands for
-- Parse of its flag set: the value of -config and the number of other arguments, or `none` for an
-- error.
pub record Environment : Type 0 where
  pub net : Net
  pub decode_yaml : Text → Document × Document
  pub parse_flags : List Text → Option (Text × ℕ)
  pub file_at : Text → File
  pub lookup_env : Text → Option Text
  pub default_transport : Transport

-- How the wait of runServe ends.
pub data Outcome : Type 0 where
  server_failed server_closed signaled : Outcome

-- The errors of runServe before it listens.
pub data StartError : Type 0 where
  load_failed : LoadError → StartError
  token_not_set : Text → StartError
  build_failed : BuildError → StartError
  state_failed : Text → Text → StartError

-- What the server is started with.
pub record Started : Type 0 where
  pub config : Config
  pub inbound_token : Text
  pub backends : List Backend
  pub state : State
  pub server : HttpServer
  pub checks : Checks

-- metrics.New
abbrev pub new_metrics : Option Metrics
new_metrics = some (record { samples = [] })

-- The token that clients have to send.
inbound : (Text → Option Text) → Config → Result StartError Text
inbound lookup_env cfg =
    if is_empty cfg.bearer_token_env then ok [] else elim (lookup_env cfg.bearer_token_env) [
      | none ↦ fail (token_not_set cfg.bearer_token_env)
      | some value ↦ if is_empty value then fail (token_not_set cfg.bearer_token_env) else ok value
    ]

start_state : Transport → Config → Text → List Backend → Result StartError Started
start_state base cfg token backends = elim (new_state cfg backends new_metrics) [
  | unknown_backend name backend ↦ fail (state_failed name backend)
  | built state ↦ ok (record {
    config = cfg;
    inbound_token = token;
    backends = backends;
    state = state;
    server = new_http_server cfg.listen;
    checks = new_checker_of base backends;
  })
]

module _ (env : Environment) where
  start_backends : Config → Text → Result StartError Started
  unfolding start_state
  start_backends cfg token = elim (build env.net env.lookup_env cfg.backends) [
    | fail e ↦ fail (build_failed e)
    | ok backends ↦ start_state env.default_transport cfg token backends
  ]

  start_config : Config → Result StartError Started
  unfolding inbound start_backends
  start_config cfg = elim (inbound env.lookup_env cfg) [
    | fail e ↦ fail e
    | ok token ↦ start_backends cfg token
  ]

  -- runServe up to NewServer.
  unfoldable pub start : Text → Result StartError Started
  unfolding start_config
  start path = elim (load env.decode_yaml env.net (env.file_at path)) [
    | fail e ↦ fail (load_failed e)
    | ok cfg ↦ start_config cfg
  ]

  unfoldable pub run_validate : Text → ℕ
  run_validate path = elim (load env.decode_yaml env.net (env.file_at path)) [
    | fail e ↦ exit_error
    | ok cfg ↦ exit_success
  ]

  unfoldable pub run_serve : Text → Outcome → ℕ
  unfolding start
  run_serve path outcome = elim (start path) [
    | fail e ↦ exit_error
    | ok started ↦ elim outcome [ server_failed ↦ exit_error | _ ↦ exit_success ]
  ]

  -- One of the two commands, with its flags.
  run_command : Text → List Text → Outcome → ℕ
  unfolding run_validate run_serve
  run_command command args outcome = elim (env.parse_flags args) [
    | none ↦ exit_usage
    | some (config_path, rest) ↦
        if is_empty config_path || ltb 0 rest
        then exit_usage
        else if text_eq command (bytes "validate")
        then run_validate config_path
        else run_serve config_path outcome
  ]

  unfoldable pub run : List Text → Outcome → ℕ
  unfolding run_command
  run [] outcome = exit_usage
  run (command ∷ args) outcome =
      if text_eq command (bytes "serve") || text_eq command (bytes "validate")
      then run_command command args outcome
      else exit_usage

  -- main, on os.Args; `none` is the panic of os.Args[1:] without a program name.
  unfoldable pub main : List Text → Outcome → Option ℕ
  unfolding run
  main [] outcome = none
  main (program ∷ args) outcome = some (run args outcome)
