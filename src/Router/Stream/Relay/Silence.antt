-- ===== src/Router/Stream/Relay/Silence.antt =====
-- What the idle timeout does to a relay.
use local_inference_router.Base.{
  ℕ, ◌<◌, Text, List, [], ◌∷◌, ◌++◌, append-nil, length, take-length, Bool, true, false, ltb,
  ==_iff, Option, none, some, ◌≡◌, refl, sym, arith, if◌then◌else◌,
}
use local_inference_router.Router.Stream.Idle.{ReadError, idle_timeout, Reader, fire, expire, read}
use local_inference_router.Router.Stream.Relay.{
  Tick, runs_out, wakes, returns, read_failed, Writer, tick_reader, read_error, end_error,
  sink_write, write_chunk, relay,
}

-- The bytes of the next Read.
abbrev pub next_bytes : List Tick → Text
next_bytes [] = []
next_bytes (runs_out ∷ ts) = next_bytes ts
next_bytes (wakes ∷ ts) = next_bytes ts
next_bytes (returns p err ∷ ts) = p

-- A Write that accepts all bytes, with no error.
abbrev pub AcceptsAll : (Text → Text → ℕ × Bool) → Type 0
AcceptsAll write = (sent p : Text) → write sent p ≡ (length p, false)

module _ (write : Text → Text → ℕ × Bool) (streaming : Bool) (all : AcceptsAll write) where
  accepted :
      (p : Text) (w : Writer)
      → ((write_chunk write streaming p w).0.sent ≡ w.sent ++ p)
        × ((write_chunk write streaming p w).1 ≡ none)
  unfolding write_chunk sink_write
  accepted [] w = (sym (append-nil w.sent), refl)
  accepted (x ∷ p) w =
      ground
        (arith, all w.sent (x ∷ p), take-length (x ∷ p), ==_iff (length (x ∷ p)) (length (x ∷ p)))

  late_error :
      (r : Reader) (n : ℕ) (err : Option ReadError)
      → r.timed_out ≡ true
      → read_error n err (some r) ≡ some idle_timeout
  unfolding read_error read
  late_error r n err late = ground arith

  expired :
      (r : Reader) (ts : List Tick) (w : Writer)
      → r.timed_out ≡ true
      → ((relay write streaming (some r) ts w).error ≡ some (read_failed idle_timeout))
        × ((relay write streaming (some r) ts w).writer.sent ≡ w.sent ++ next_bytes ts)
  unfolding relay tick_reader read_error end_error read fire expire
  expired r [] w late = (rw late refl, sym (append-nil w.sent))
  expired r (runs_out ∷ ts) w late = expired (fire r) ts w (ground arith)
  expired r (wakes ∷ ts) w late =
      expired (if ltb 0 r.firing then expire r else r) ts w (ground arith)
  expired r (returns p err ∷ ts) w late =
      rw ((accepted p w).1, late_error r (length p) err late, relay) (refl, (accepted p w).0)

  -- If a waiting call of expire runs while the reader is open, and Write accepts all bytes, the
  -- relay writes the bytes of the next Read and no more, and returns the idle timeout as its
  -- error, whatever the body has left.
  pub relay-wakes :
      (r : Reader) (ts : List Tick) (w : Writer)
      → r.closed ≡ false
      → 0 < r.firing
      → ((relay write streaming (some r) (wakes ∷ ts) w).error ≡ some (read_failed idle_timeout))
        × ((relay write streaming (some r) (wakes ∷ ts) w).writer.sent ≡ w.sent ++ next_bytes ts)
  unfolding relay tick_reader expire
  relay-wakes r ts w shut waits =
      expired (if ltb 0 r.firing then expire r else r) ts w (ground arith)
