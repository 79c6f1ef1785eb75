-- ===== src/Router/State/Valid.antt =====
-- The well-formedness of the routing state that its operations keep.
use local_inference_router.Base.{
  ℕ, pos, ◌≤ℤ◌, Text, ◌≡◌, ◌∙◌, some, List, arith, lookup, get_elem?, set, get_elem?-set_self,
  get_elem?-set_ne, All, All-set, All-get_elem?,
}
use native.Mathlib.Decide.{ℕ_discrete}
use local_inference_router.Metrics.{Metrics}
use local_inference_router.Router.State.{Route, State, BackendState, AliasState, find, put, publish}
use local_inference_router.Router.State.Store.{
  Injective, find-eq-some, find_of_lookup, put_of_lookup,
}

-- The backend of a route is a key of the map of backends.
abbrev pub Routed : List (Text × ℕ) → Route → Type 0
Routed backends r = (i : ℕ) × (lookup r.backend.name backends ≡ some i)

-- No more reservations than the backend allows.
abbrev pub InCapacity : BackendState → Type 0
InCapacity b = pos b.inflight ≤ℤ b.backend.max_inflight

abbrev pub Resolves : State → Text → ℕ → Type 0
Resolves s n i = (b : BackendState) × (get_elem? s.order i ≡ some b) × (b.backend.name ≡ n)

pub record IsValid (s : State) : Type 0 where
  pub injective : Injective s
  pub resolves : (n : Text) (i : ℕ) → lookup n s.backends ≡ some i → Resolves s n i
  pub routed :
      (n : Text) (a : AliasState) → lookup n s.aliases ≡ some a → All (Routed s.backends) a.routes
  pub routed_order : All (λ a. All (Routed s.backends) a.routes) s.alias_order
  pub in_capacity : All InCapacity s.order

-- A route of a valid state has its backend's state, under its own name.
pub find_of_Routed :
    (s : State) (r : Route)
    → IsValid s
    → Routed s.backends r
    → (b : BackendState) × (find s r.backend.name ≡ some b) × (b.backend.name ≡ r.backend.name)
find_of_Routed s r v (i, at) =
    let (b, here, named) = v.resolves r.backend.name i at in
    (b, find_of_lookup s r.backend.name at ∙ here, named)

pub find-name :
    (s : State) (n : Text) {b : BackendState} → IsValid s → find s n ≡ some b → b.backend.name ≡ n
find-name s n v e =
    let (i, at, here) = find-eq-some s n e in
    let (b', there, named) = v.resolves n i at in ground (arith, here, there, named)

pub find-InCapacity :
    (s : State) (n : Text) {b : BackendState} → IsValid s → find s n ≡ some b → InCapacity b
find-InCapacity s n v e =
    let (i, at, here) = find-eq-some s n e in All-get_elem? InCapacity s.order i v.in_capacity here

set-Resolves :
    (s : State) (i : ℕ) (b : BackendState) {b' : BackendState}
    → get_elem? s.order i ≡ some b'
    → b.backend ≡ b'.backend
    → (n : Text) (j : ℕ) → Resolves s n j
    → Resolves (record s { order = set s.order i b }) n j
set-Resolves s i b here same n j (c, there, named) = elim (ℕ_discrete i j) [
  | yes e ↦ (b, rw (← e) (get_elem?-set_self s.order i b here), ground (arith, here, there))
  | no ne ↦ (c, get_elem?-set_ne s.order i j b ne ∙ there, named)
]

-- A write through a pointer that keeps the backend and its capacity keeps the state valid.
pub put-IsValid :
    (s : State) (n : Text) (b : BackendState) {b' : BackendState}
    → IsValid s
    → find s n ≡ some b'
    → b.backend ≡ b'.backend
    → InCapacity b
    → IsValid (put s n b)
put-IsValid s n b v e same fits =
    let (i, at, here) = find-eq-some s n e in
    rw (put_of_lookup s n b at) (record {
      injective = v.injective;
      resolves = λ m j to. set-Resolves s i b here same m j (v.resolves m j to);
      routed = v.routed;
      routed_order = v.routed_order;
      in_capacity = All-set InCapacity s.order i b v.in_capacity fits;
    })

pub publish-IsValid : (f : Metrics → Metrics) (s : State) → IsValid s → IsValid (publish f s)
unfolding publish
publish-IsValid f s v = record {
  injective = v.injective;
  resolves = v.resolves;
  routed = v.routed;
  routed_order = v.routed_order;
  in_capacity = v.in_capacity;
}
