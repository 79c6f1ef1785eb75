-- ===== src/Router/State/Store.antt =====
-- Reading a backend's state after a write through its pointer.
use local_inference_router.Base.{
  ℕ, Text, ◌≡◌, ◌≢◌, refl, ap, sym, ◌∙◌, inl, inr, some, arith, lookup, get_elem?, set,
  get_elem?-set_self, get_elem?-set_ne, Option-cases, >>=-eq-some, if◌then◌else◌, text_eq,
  text_eq_iff, Bool-cases,
}
use local_inference_router.Metrics.{Metrics}
use local_inference_router.Router.State.{State, BackendState, find, put, publish}

-- No two names share a pointer.
abbrev pub Injective : State → Type 0
Injective s =
    (n m : Text) (i : ℕ) → lookup n s.backends ≡ some i → lookup m s.backends ≡ some i → n ≡ m

pub find-eq-some :
    (s : State) (n : Text) {b : BackendState}
    → find s n ≡ some b
    → (i : ℕ) × (lookup n s.backends ≡ some i) × (get_elem? s.order i ≡ some b)
unfolding find
find-eq-some s n e = >>=-eq-some (lookup n s.backends) (get_elem? s.order) e

pub find_of_lookup :
    (s : State) (n : Text) {i : ℕ} → lookup n s.backends ≡ some i → find s n ≡ get_elem? s.order i
unfolding find
find_of_lookup s n e = rw e

pub put_of_lookup :
    (s : State) (n : Text) (b : BackendState) {i : ℕ}
    → lookup n s.backends ≡ some i
    → put s n b ≡ record s { order = set s.order i b }
unfolding put
put_of_lookup s n b e = rw (e, put)

pub find-put_self :
    (s : State) (n : Text) (b : BackendState) {b' : BackendState}
    → find s n ≡ some b'
    → find (put s n b) n ≡ some b
find-put_self s n b e =
    let (i, at, here) = find-eq-some s n e in
    rw (put_of_lookup s n b at) (
      find_of_lookup (record s { order = set s.order i b }) n at
      ∙ get_elem?-set_self s.order i b here)

pub find-put_ne :
    (s : State) (n m : Text) (b : BackendState)
    → Injective s
    → n ≢ m
    → find (put s n b) m ≡ find s m
unfolding find put
find-put_ne s n m b inj ne = elim (Option-cases (lookup n s.backends)) [
  | inl missing ↦ rw (missing, put)
  | inr (i, at) ↦ elim (Option-cases (lookup m s.backends)) [
    | inl missing ↦ rw (at, put) (rw missing)
    | inr (j, to) ↦
        rw (at, put)
          (rw to (get_elem?-set_ne s.order i j b (λ e. ne (inj n m i at (to ∙ ap some (sym e))))))
  ]
]

pub put-backends : (s : State) (n : Text) (b : BackendState) → (put s n b).backends ≡ s.backends
unfolding put
put-backends s n b = ground arith

pub put-aliases : (s : State) (n : Text) (b : BackendState) → (put s n b).aliases ≡ s.aliases
unfolding put
put-aliases s n b = ground arith

pub put-alias_order :
    (s : State) (n : Text) (b : BackendState) → (put s n b).alias_order ≡ s.alias_order
unfolding put
put-alias_order s n b = ground arith

pub put-metrics : (s : State) (n : Text) (b : BackendState) → (put s n b).metrics ≡ s.metrics
unfolding put
put-metrics s n b = ground arith

pub find-publish : (f : Metrics → Metrics) (s : State) (n : Text) → find (publish f s) n ≡ find s n
unfolding find publish
find-publish f s n = refl

pub find-put :
    (s : State) (n m : Text) (b : BackendState) {b' : BackendState}
    → Injective s
    → find s n ≡ some b'
    → find (put s n b) m ≡ (if text_eq n m then some b else find s m)
find-put s n m b inj e = elim (Bool-cases (text_eq n m)) [
  | inl same ↦ rw (same, ← (text_eq_iff n m).0 same) (find-put_self s n b e)
  | inr other ↦ rw other (find-put_ne s n m b inj (λ p. cc (other, (text_eq_iff n m).1 p)))
]
