-- ===== src/Router/Stream/Relay.antt =====
-- internal/router/stream.go: relay and flushWriter, and the part of forward (proxy.go) that relays an
-- upstream body through the reader with the idle timeout.
pub mod Delivers
pub mod Forwards
pub mod Silence
use local_inference_router.Base.{
  ℕ, ℤ, Text, List, [], ◌∷◌, ◌++◌, length, take, is_empty, Bool, true, false, not, ◌==◌, ltb,
  Option, none, some, ◌>>=◌, if◌then◌else◌,
}
use mathlib.Core.Option
use local_inference_router.Router.Stream.Idle.{
  ReadError, eof, Reader, new_reader, fire, expire, read, close,
}

-- What happens while a body is relayed: the timer of its reader runs out, a waiting call of expire
-- runs, or a Read of the body returns bytes and perhaps an error.
pub data Tick : Type 0 where
  runs_out wakes : Tick
  returns : Text → Option ReadError → Tick

pub data RelayError : Type 0 where
  read_failed : ReadError → RelayError
  write_failed invalid_write short_write : RelayError

-- The client's side: the bytes that were written, and how many of them were flushed explicitly.
pub record Writer : Type 0 where
  pub sent : Text
  pub flushed : ℕ

pub record Relayed : Type 0 where
  pub writer : Writer
  pub error : Option RelayError
  pub reader : Option Reader

-- The reader may be missing, when the body has no timeout.
tick_reader : Tick → Option Reader → Option Reader
tick_reader t none = none
tick_reader runs_out (some r) = some (fire r)
tick_reader wakes (some r) = some (if ltb 0 r.firing then expire r else r)
tick_reader (returns p err) (some r) = some (read (length p) err r).0

-- The error that a Read returns which the body answers with `err`.
read_error : ℕ → Option ReadError → Option Reader → Option ReadError
read_error n err none = err
read_error n err (some r) = (read n err r).2

-- The error that io.CopyBuffer returns for one of a Read.
end_error : ReadError → Option RelayError
end_error eof = none
end_error e = some (read_failed e)

-- `write` stands for Write of the http.ResponseWriter: from the bytes that were sent before and the
-- bytes to write, the number of bytes that it accepts and whether it returns an error.
module _ (write : Text → Text → ℕ × Bool) (streaming : Bool) where
  -- flushWriter.Write for an event stream, and else Write of the http.ResponseWriter.
  sink_write : Text → Writer → Writer × ℕ × Bool
  sink_write p w =
      let (n, failed) = write w.sent p in
      let sent = w.sent ++ take n p in
      (record { sent = sent; flushed = if streaming then length sent else w.flushed }, n, failed)

  -- The Write of one round of io.CopyBuffer, with the error that ends the loop.
  write_chunk : Text → Writer → Writer × Option RelayError
  unfolding sink_write
  write_chunk p w =
      if is_empty p
      then (w, none)
      else (let (after, n, failed) = sink_write p w in
          (
            after,
            if failed
                then some write_failed
                else if ltb (length p) n
                then some invalid_write
                else if n == length p
                then none
                else some short_write,
          ))

  -- relay. Where there are no more ticks, the body is at its end.
  unfoldable pub relay : Option Reader → List Tick → Writer → Relayed
  unfolding tick_reader read_error end_error write_chunk
  relay r [] w = record {
    writer = w;
    error = (read_error 0 (some eof) r >>= end_error);
    reader = tick_reader (returns [] (some eof)) r;
  }
  relay r (runs_out ∷ ts) w = relay (tick_reader runs_out r) ts w
  relay r (wakes ∷ ts) w = relay (tick_reader wakes r) ts w
  relay r (returns p err ∷ ts) w =
      let (after, failure) = write_chunk p w in
      let next = tick_reader (returns p err) r in
      elim failure [
        | some e ↦ record { writer = after; error = some e; reader = next }
        | none ↦ elim (read_error (length p) err r) [
          | some e ↦ record { writer = after; error = end_error e; reader = next }
          | none ↦ relay next ts after
        ]
      ]

  -- The relaying part of forward: a reader for the body, relay, and the deferred Close.
  unfoldable pub forward_body : ℤ → List Tick → Writer → Relayed
  unfolding relay
  forward_body timeout ts w =
      let done = relay (new_reader timeout) ts w in
      record done { reader = Option.map close done.reader }
