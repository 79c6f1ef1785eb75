-- ===== src/Router/Stream/Relay/Forwards.antt =====
-- The relay of a body through the reader with the idle timeout, from its timer to its Close.
use local_inference_router.Base.{
  ℕ, ℤ, pos, ◌<ℤ◌, Text, List, [], ◌∷◌, length, Bool, true, ltb, Option, none, some, ◌≡◌, ◌≢◌, refl,
  arith, Option-cases, Bool-cases, inl, inr,
}
use local_inference_router.Router.Stream.Idle.{
  eof, Reader, new_reader, fire, expire, read, close, fires, expires, reads, closes, Events, here,
  next, Events-IsSound,
}
use local_inference_router.Router.Stream.Relay.{
  Tick, runs_out, wakes, returns, Writer, Relayed, tick_reader, read_error, write_chunk, relay,
  forward_body,
}
use local_inference_router.Router.Stream.Relay.Delivers.{Delivers, body_bytes, relay-Delivers}

-- A reader that the events of `r` lead to.
abbrev Led : Reader → Option Reader → Type 0
Led r o = (s : Reader) × (o ≡ some s) × Events r s

tick-Led : (r s : Reader) (t : Tick) → Events r s → Led r (tick_reader t (some s))
unfolding tick_reader
tick-Led r s runs_out es = (fire s, refl, next es fires)
tick-Led r s wakes es = elim (Bool-cases (ltb 0 s.firing)) [
  | inl waits ↦ (expire s, rw waits refl, next es (expires (ground arith)))
  | inr idle ↦ (s, rw idle refl, es)
]
tick-Led r s (returns p err) es = ((read (length p) err s).0, refl, next es (reads (length p) err))

new_reader_some : (timeout : ℤ) → pos 0 <ℤ timeout → new_reader timeout ≢ none
unfolding new_reader
new_reader_some timeout p = ground arith

close-closed : (s : Reader) → (close s).closed ≡ true
unfolding close
close-closed s = ground arith

closed_once :
    (timeout : ℤ) (r s : Reader)
    → new_reader timeout ≡ some r
    → Events r s
    → (close s).body_closes ≡ 1
closed_once timeout r s made es =
    let sound = Events-IsSound timeout made (next es closes) in
    ground (arith, sound.closed_once, close-closed s)

pub record Forwards (streaming : Bool) (timeout : ℤ) (ts : List Tick) (w : Writer) (done : Relayed)
    : Type 0 where
  pub delivers : Delivers streaming w done.writer (body_bytes ts) done.error
  pub closed :
      pos 0 <ℤ timeout
      → (r : Reader) × (done.reader ≡ some r) × (r.closed ≡ true) × (r.body_closes ≡ 1)

module _ (write : Text → Text → ℕ × Bool) (streaming : Bool) where
  relay-Led :
      (r s : Reader) (ts : List Tick) (w : Writer)
      → Events r s
      → Led r (relay write streaming (some s) ts w).reader
  unfolding relay
  relay-Led r s [] w es = tick-Led r s (returns [] (some eof)) es
  relay-Led r s (runs_out ∷ ts) w es =
      let (s', e, es') = tick-Led r s runs_out es in rw (e, relay) (relay-Led r s' ts w es')
  relay-Led r s (wakes ∷ ts) w es =
      let (s', e, es') = tick-Led r s wakes es in rw (e, relay) (relay-Led r s' ts w es')
  relay-Led r s (returns p err ∷ ts) w es =
      let (s', e, es') = tick-Led r s (returns p err) es in
      elim (Option-cases (write_chunk write streaming p w).1) [
        | inr (x, broken) ↦ rw (broken, relay) (s', e, es')
        | inl done ↦ elim (Option-cases (read_error (length p) err (some s))) [
          | inr (x, at) ↦ rw (done, at, relay) (s', e, es')
          | inl more ↦
              rw (done, more, relay, e) (relay-Led r s' ts (write_chunk write streaming p w).0 es')
        ]
      ]

  -- Whatever Write accepts of the bytes that it gets, the relay of a body writes a prefix of the
  -- bytes of the body, up to its end or first error, and all of them if it returns no error; for
  -- an event stream everything that was written has been flushed, if it was before; and if the
  -- timeout is positive, the body is closed exactly once.
  pub forward_body-Forwards :
      (timeout : ℤ) (ts : List Tick) (w : Writer)
      → Forwards streaming timeout ts w (forward_body write streaming timeout ts w)
  unfolding forward_body
  forward_body-Forwards timeout ts w = record {
    delivers = relay-Delivers write streaming (new_reader timeout) ts w;
    closed = λ p. elim (Option-cases (new_reader timeout)) [
      | inl unbounded ↦ absurd (new_reader_some timeout p unbounded)
      | inr (r, made) ↦
          let (s, e, es) = relay-Led r r ts w here in
          rw (made, e) (close s, refl, close-closed s, closed_once timeout r s made es)
    ];
  }
