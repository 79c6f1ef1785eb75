-- ===== src/Router/Stream/Relay/Delivers.antt =====
-- What a client gets of an upstream body.
use local_inference_router.Base.{
  ℕ, Text, List, [], ◌∷◌, ◌++◌, append_assoc, append-nil, length, take, drop, take_append_drop,
  drop-length, Bool, true, Option, none, some, ◌≡◌, refl, ap, sym, ◌∙◌, arith, Option-cases, inl,
  inr,
}
use mathlib.Core.Path.{subst}
use local_inference_router.Router.Stream.Idle.{ReadError, Reader, read}
use local_inference_router.Router.Stream.Relay.{
  Tick, runs_out, wakes, returns, RelayError, Writer, tick_reader, read_error, end_error,
  sink_write, write_chunk, relay,
}

-- The bytes of the body, up to its end or its first error.
abbrev pub body_bytes : List Tick → Text
body_bytes [] = []
body_bytes (runs_out ∷ ts) = body_bytes ts
body_bytes (wakes ∷ ts) = body_bytes ts
body_bytes (returns p none ∷ ts) = p ++ body_bytes ts
body_bytes (returns p (some e) ∷ ts) = p

-- A writer goes from `w` to `after` with the bytes `data_` before it.
pub record Delivers (streaming : Bool) (w after : Writer) (data_ : Text)
    (failure : Option RelayError) : Type 0 where
  pub lost : Text
  pub in_order : after.sent ++ lost ≡ w.sent ++ data_
  pub whole : failure ≡ none → lost ≡ []
  pub flushed : streaming ≡ true → w.flushed ≡ length w.sent → after.flushed ≡ length after.sent

module _ (streaming : Bool) (w after : Writer) (p : Text)
    (d : Delivers streaming w after p none) where
  sent_before : (more : Text) → after.sent ++ more ≡ w.sent ++ (p ++ more)
  sent_before more =
      ap (λ s. s ++ more)
        (sym (append-nil after.sent) ∙ ap (◌++◌ after.sent) (sym (d.whole refl)) ∙ d.in_order)
      ∙ append_assoc w.sent p more

  then-Delivers :
      (out : Writer) (data_ : Text) (failure : Option RelayError)
      → Delivers streaming after out data_ failure
      → Delivers streaming w out (p ++ data_) failure
  then-Delivers out data_ failure later = record {
    lost = later.lost;
    in_order = later.in_order ∙ sent_before data_;
    whole = later.whole;
    flushed = λ s f. later.flushed s (d.flushed s f);
  }

module _ (write : Text → Text → ℕ × Bool) (streaming : Bool) where
  write_chunk-Delivers :
      (p : Text) (w : Writer)
      → Delivers streaming w
          (write_chunk write streaming p w).0
          p
          (write_chunk write streaming p w).1
  unfolding write_chunk sink_write
  write_chunk-Delivers [] w = record {
    lost = [];
    in_order = refl;
    whole = λ e. refl;
    flushed = λ s f. f;
  }
  write_chunk-Delivers (x ∷ p) w =
      let n = (write w.sent (x ∷ p)).0 in
      record {
        lost = drop n (x ∷ p);
        in_order =
            append_assoc w.sent (take n (x ∷ p)) (drop n (x ∷ p))
            ∙ ap (◌++◌ w.sent) (take_append_drop n (x ∷ p));
        whole = λ e. ground (arith, drop-length (x ∷ p));
        flushed = λ s f. ground arith;
      }

  -- A Read that ends the relay after its bytes.
  end-Delivers :
      (p : Text) (err : Option ReadError) (ts : List Tick) (r : Option Reader) (w after : Writer)
      (e : ReadError)
      → Delivers streaming w after p none
      → read_error (length p) err r ≡ some e
      → Delivers streaming w after (body_bytes (returns p err ∷ ts)) (end_error e)
  unfolding read_error end_error read
  end-Delivers p none ts r w after e d at = record {
    lost = body_bytes ts;
    in_order = sent_before streaming w after p d (body_bytes ts);
    whole = λ q. absurd (ground arith);
    flushed = d.flushed;
  }
  end-Delivers p (some e') ts r w after e d at = record {
    lost = d.lost;
    in_order = d.in_order;
    whole = λ q. d.whole refl;
    flushed = d.flushed;
  }

  -- A Write that ends it.
  fail-Delivers :
      (p : Text) (err : Option ReadError) (ts : List Tick) (w after : Writer) (e : RelayError)
      → Delivers streaming w after p (some e)
      → Delivers streaming w after (body_bytes (returns p err ∷ ts)) (some e)
  fail-Delivers p none ts w after e d = record {
    lost = d.lost ++ body_bytes ts;
    in_order =
        sym (append_assoc after.sent d.lost (body_bytes ts))
        ∙ ap (λ s. s ++ body_bytes ts) d.in_order
        ∙ append_assoc w.sent p (body_bytes ts);
    whole = λ q. cc;
    flushed = d.flushed;
  }
  fail-Delivers p (some e') ts w after e d = d

  -- Only a Read without an error goes on.
  goes_on :
      (p : Text) (err : Option ReadError) (ts : List Tick) (r : Option Reader)
      → read_error (length p) err r ≡ none
      → body_bytes (returns p err ∷ ts) ≡ p ++ body_bytes ts
  unfolding read_error read
  goes_on p err ts r e = ground arith

  -- Whatever Write accepts, the client gets a prefix of the upstream's bytes, up to the end of the
  -- body or its first error, in their order.
  pub relay-Delivers :
      (r : Option Reader) (ts : List Tick) (w : Writer)
      → Delivers streaming w
          (relay write streaming r ts w).writer
          (body_bytes ts)
          (relay write streaming r ts w).error
  unfolding relay
  relay-Delivers r [] w = record {
    lost = [];
    in_order = refl;
    whole = λ e. refl;
    flushed = λ s f. f;
  }
  relay-Delivers r (runs_out ∷ ts) w = relay-Delivers (tick_reader runs_out r) ts w
  relay-Delivers r (wakes ∷ ts) w = relay-Delivers (tick_reader wakes r) ts w
  relay-Delivers r (returns p err ∷ ts) w =
      let after = (write_chunk write streaming p w).0 in
      let ends : (f : Option RelayError)
          → (write_chunk write streaming p w).1 ≡ f
          → Delivers streaming w after p f =
        λ f e. subst (Delivers streaming w after p) e (write_chunk-Delivers p w) in
      elim (Option-cases (write_chunk write streaming p w).1) [
        | inr (e, broken) ↦ rw (broken, relay) (fail-Delivers p err ts w _ e (ends (some e) broken))
        | inl done ↦ elim (Option-cases (read_error (length p) err r)) [
          | inr (e, at) ↦ rw (done, at, relay) (end-Delivers p err ts r w _ e (ends none done) at)
          | inl more ↦
              rw (done, more, relay, goes_on p err ts r more)
                (then-Delivers streaming w _ p (ends none done) _ _ _ (
                  relay-Delivers (tick_reader (returns p err) r) ts
                    (write_chunk write streaming p w).0))
        ]
      ]
