-- ===== src/Lib.antt =====
-- Verification library of the local inference router, a reverse proxy that routes chat-completion
-- requests to inference backends with health checks, capacities and bounded failover.
--
-- The program and its model, by part (paths from the repository's root):
--   internal/config     Config (types.go), Config/Url (url.go, with the parts of net/url that it
--                       reads), Config/Checks and Config/Validate (validate.go: the tests of one
--                       text, and the loops over the lists), Config/Load (load.go).
--                       Config/Validate/Valid specifies a valid configuration.
--                       Config/Url/Ports and Config/Url/Keys: the canonical key of an origin.
--   internal/backend    Backend: the record of a backend; Backend/Build: Build and the URLs;
--                       Backend/Client: the settings of the HTTP clients (client.go).
--                       Health: the probes and the checks of one backend (health.go);
--                       Health/Checks: the checker; Health/Run: the loops of all backends.
--   internal/metrics    Metrics: the calls that the program makes of its Prometheus instruments;
--                       Metrics/Instruments: their names and labels.
--   internal/cli        Cli: Run, runValidate, and runServe up to its server; main, the function of
--                       cmd/local-inference-router/main.go. Cli/Serving: the requests and the
--                       health loops of one process. Cli/Stopping: the end of runServe.
--   internal/router     Router/State (state.go: the data, NewState), Router/Select (select.go),
--                       Router/Operations (state.go: Reserve, SwapReservation, Release, SetHealth,
--                       Ready, Snapshot), Router/Headers (headers.go), Router/Stream (stream.go),
--                       Router/Stream/Idle (stream.go: the reader with the idle timeout),
--                       Router/Stream/Relay (stream.go: flushWriter, relay),
--                       Router/Errors and Router/Proxy (proxy.go: Serve, forward), Router/Upstream
--                       (proxy.go: attempt, encodeWithModel).
--   internal/httpapi    Http (auth.go, errors.go, models.go, status.go, server.go), Http/Chat
--                       (chat.go), Http/Mux (server.go: Handler), Http/Server (server.go: the
--                       settings of the server).
--   Router/System puts the requests and the health checks together. Router/Spec specifies the
--   routing state without its representation, as a line of slots for each backend name; Router/Labels
--   says what a label of a sample can be.
--   Base holds what the modules share: lists over native numbers, Go strings as lists of bytes, maps
--   with string keys as association lists, signed integers.
--
-- How the state corresponds to the code. A State of the code has one mutex, and each method takes it
-- for all its accesses, so a method is a function on the state. The model of a *backendState is its
-- position in `order`, where NewState puts each one when it allocates it; the map `backends` holds
-- positions. A *Route is compared by pointer in the map `attempted`, so a route keeps its address.
-- A nil dereference is the result `none`, and a request whose WriteHeader panics keeps its slot.
-- The counts of reservations are natural numbers, since the code decrements them only where they
-- are positive; priorities and capacities are integers, of any size. Serve is cut at its critical
-- sections: `advance` runs one of them with the code up to the next, `serve` runs them all in turn,
-- and Router/System runs those of many requests in any order.
-- A sample is published together with its critical section; Router/Gauge has Release in two parts,
-- since its sample is published after the unlock.
--
-- Fuel: `serve` has eight sections for each route of the alias and five more; each section lowers a
-- bound that is below that, so the fuel runs out only after a panic of WriteHeader.
--
-- The reader with the idle timeout is a machine of its own: its events are the timer, a waiting call
-- of expire, a Read and a Close, in any order. The relay gets a list of what happens around it: the
-- timer runs out, a waiting call of expire runs, or a Read of the body returns; it is structural on
-- that list, at whose end the body is at its end. The copying loop is the documented one of
-- io.CopyBuffer, and what Write accepts is an arbitrary function.
--
-- How the start of the program corresponds to the code. An error is a value of a data type per
-- function, with the parts of its text that are not constant. A Go int of the configuration is an
-- integer; a duration is wrapped to 64 bits, strconv.Atoi refuses what an int does not hold.
--
-- Parameters, each an arbitrary function: mime.ParseMediaType, url.Parse, net.ParseIP with String,
-- strings.ToLower, the YAML decoder, encoding/json, the flag set, the files and the environment
-- variables. What an upstream answers, and for run_serve how its wait ends, are arguments.
--
-- Not modelled: sockets, TLS, the clock and the scheduler, the log apart from the health changes, the
-- YAML, JSON and Prometheus libraries, and what Shutdown does: only that it returns.
mod Base
pub mod Config
pub mod Backend
pub mod Metrics
pub mod Router
pub mod Health
pub mod Http
pub mod Cli
