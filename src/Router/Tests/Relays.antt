-- ===== src/Router/Tests/Relays.antt =====
-- Relays of an upstream body, and the theorems about them at concrete inputs.
use local_inference_router.Base.{
  ℕ, pos, Text, bytes, length, ◌≡◌, refl, false, true, Bool, none, some, List, [], ◌∷◌, arith,
}
use local_inference_router.Router.Stream.Idle.{Reader, eof, idle_timeout}
use local_inference_router.Router.Stream.Relay.{
  Tick, runs_out, wakes, returns, read_failed, Writer, relay, forward_body,
}
use local_inference_router.Router.Stream.Relay.Forwards.{Forwards, forward_body-Forwards}
use local_inference_router.Router.Stream.Relay.Silence.{relay-wakes}

abbrev accept : Text → Text → ℕ × Bool
accept sent p = (length p, false)

abbrev unsent : Writer
unsent = record { sent = []; flushed = 0 }

-- An upstream that falls silent after its first event.
abbrev stalled : List Tick
stalled = returns (bytes "one") none ∷ runs_out ∷ wakes ∷ returns (bytes "two") none ∷ []

abbrev finished : List Tick
finished = returns (bytes "one") none ∷ returns (bytes "two") (some eof) ∷ []

relay_test :
    (relay accept true none finished unsent).writer ≡ record { sent = bytes "onetwo"; flushed = 6 }
unfolding relay
relay_test = refl

forward_body-Forwards_example :
    Forwards true (pos 5) stalled unsent (forward_body accept true (pos 5) stalled unsent)
forward_body-Forwards_example = forward_body-Forwards accept true (pos 5) stalled unsent

abbrev silent : Reader
silent = record { timed_out = false; closed = false; armed = false; firing = 1; body_closes = 0 }

relay-wakes_example :
    ((relay accept true (some silent) (wakes ∷ finished) unsent).error
      ≡ some (read_failed idle_timeout))
    × ((relay accept true (some silent) (wakes ∷ finished) unsent).writer.sent ≡ bytes "one")
relay-wakes_example =
    relay-wakes accept true (λ sent p. refl) silent finished unsent refl (omega arith)
