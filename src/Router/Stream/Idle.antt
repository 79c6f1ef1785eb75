-- ===== src/Router/Stream/Idle.antt =====
-- internal/router/stream.go: idleTimeoutReadCloser. The runtime's timer, the goroutine that runs
-- expire and the relay meet at one mutex, so the reader is a machine whose events are its locked
-- sections. A timer that has fired calls expire later: `firing` counts the calls that wait.
use local_inference_router.Base.{
  ℕ, ◌+◌, ◌-◌, ◌<◌, ◌≡◌, ◌⊎◌, Bool, true, false, not, ◌&&◌, Option, none, some, arith, ltb,
  if◌then◌else◌, ℤ, pos, leb_ℤ,
}

-- The errors that a Read of an upstream body returns.
pub data ReadError : Type 0 where
  eof other idle_timeout : ReadError

-- body_closes counts the calls of body.Close.
pub record Reader : Type 0 where
  pub timed_out : Bool
  pub closed : Bool
  pub armed : Bool
  pub firing : ℕ
  pub body_closes : ℕ

-- newIdleTimeoutReadCloser; `none` is the body itself, with no timeout.
unfoldable pub new_reader : ℤ → Option Reader
new_reader timeout =
    if leb_ℤ timeout (pos 0)
    then none
    else some
        (record { timed_out = false; closed = false; armed = true; firing = 0; body_closes = 0 })

-- The timer runs out.
unfoldable pub fire : Reader → Reader
fire r = if r.armed then record r { armed = false; firing = r.firing + 1 } else r

-- One waiting call of expire.
unfoldable pub expire : Reader → Reader
expire r = if r.closed then record r { firing = r.firing - 1 } else record r {
  timed_out = true;
  closed = true;
  firing = r.firing - 1;
  body_closes = r.body_closes + 1;
}

-- Read, when the body has returned n bytes and an error; what it returns, and the reader after it.
unfoldable pub read : ℕ → Option ReadError → Reader → Reader × ℕ × Option ReadError
read n err r =
    let after = if ltb 0 n && not r.closed then record r { armed = true } else r in
    if r.timed_out then (after, n, some idle_timeout) else (after, n, err)

-- Close; it returns the result of body.Close only if it is the first to close.
unfoldable pub close : Reader → Reader
close r =
    if r.closed
    then r
    else record r { closed = true; armed = false; body_closes = r.body_closes + 1 }

pub data Event (r : Reader) : Reader → Type 0 where
  fires : Event r (fire r)
  expires : 0 < r.firing → Event r (expire r)
  reads : (n : ℕ) (err : Option ReadError) → Event r (read n err r).0
  closes : Event r (close r)

pub data Events (r : Reader) : Reader → Type 0 where
  here : Events r r
  next : {s t : Reader} → Events r s → Event s t → Events r t

-- The body is closed once, by whoever closes the reader, and only a closed reader has timed out; a
-- reader that is open and has not fired keeps its timer running.
pub record IsSound (r : Reader) : Type 0 where
  pub closed_once : r.body_closes ≡ (if r.closed then 1 else 0)
  pub timeout_closed : r.timed_out ≡ true → r.closed ≡ true
  pub watched : (r.closed ≡ true) ⊎ ((r.armed ≡ true) ⊎ (0 < r.firing))

Event-IsSound : {r s : Reader} → Event r s → IsSound r → IsSound s
unfolding fire expire read close
Event-IsSound fires h = ground arith
Event-IsSound (expires p) h = ground arith
Event-IsSound (reads n err) h = ground arith
Event-IsSound closes h = ground arith

new_reader-IsSound : (timeout : ℤ) (r : Reader) → new_reader timeout ≡ some r → IsSound r
unfolding new_reader
new_reader-IsSound timeout r e = ground arith

-- A reader made with a positive timeout, after timer runs, waiting calls of expire, Reads and
-- Closes in any order, has closed its body exactly once if it is closed and never if it is not,
-- is closed if it has timed out, and while it is open has a running timer or a waiting call of
-- expire.
pub Events-IsSound :
    (timeout : ℤ) {r s : Reader} → new_reader timeout ≡ some r → Events r s → IsSound s
Events-IsSound timeout {r} e here = new_reader-IsSound timeout r e
Events-IsSound timeout e (next es ev) = Event-IsSound ev (Events-IsSound timeout e es)

-- Closed by Close, without a timeout before it.
abbrev pub ClosedQuietly : Reader → Type 0
ClosedQuietly r = (r.closed ≡ true) × (r.timed_out ≡ false)

Event-ClosedQuietly : {r s : Reader} → Event r s → ClosedQuietly r → ClosedQuietly s
unfolding fire expire read close
Event-ClosedQuietly fires h = ground arith
Event-ClosedQuietly (expires p) h = ground arith
Event-ClosedQuietly (reads n err) h = ground arith
Event-ClosedQuietly closes h = ground arith

Events-ClosedQuietly : {r s : Reader} → Events r s → ClosedQuietly r → ClosedQuietly s
Events-ClosedQuietly here h = h
Events-ClosedQuietly (next es ev) h = Event-ClosedQuietly ev (Events-ClosedQuietly es h)

-- If Close is called on an open reader that has not timed out, then after any later events a Read
-- returns the bytes and the error of the body, a call of expire that already waited
-- notwithstanding.
pub read-close :
    (r : Reader) {s : Reader} (n : ℕ) (err : Option ReadError)
    → r.closed ≡ false
    → r.timed_out ≡ false
    → Events (close r) s
    → ((read n err s).1 ≡ n) × ((read n err s).2 ≡ err)
unfolding read close
read-close r n err open_ quiet es =
    let (shut, in_time) = Events-ClosedQuietly es (ground arith, ground arith) in ground arith

Event-timed_out : {r s : Reader} → Event r s → r.timed_out ≡ true → s.timed_out ≡ true
unfolding fire expire read close
Event-timed_out fires h = ground arith
Event-timed_out (expires p) h = ground arith
Event-timed_out (reads n err) h = ground arith
Event-timed_out closes h = ground arith

Events-timed_out : {r s : Reader} → Events r s → r.timed_out ≡ true → s.timed_out ≡ true
Events-timed_out here h = h
Events-timed_out (next es ev) h = Event-timed_out ev (Events-timed_out es h)

-- If expire runs on an open reader, then after any later events a Read returns the bytes of the
-- body with the idle timeout as its error.
pub read-expire :
    (r : Reader) {s : Reader} (n : ℕ) (err : Option ReadError)
    → r.closed ≡ false
    → Events (expire r) s
    → ((read n err s).1 ≡ n) × ((read n err s).2 ≡ some idle_timeout)
unfolding read expire
read-expire r n err open_ es = let late = Events-timed_out es (ground arith) in ground arith
