-- ===== src/Router/State/Building.antt =====
-- The state that NewState builds.
use local_inference_router.Base.{
  ℕ, suc, ◌+◌, pos, ◌≤ℤ◌, Text, ◌≡◌, ◌≢◌, refl, ◌⊎◌, inl, inr, false, Option, some, List, [], ◌∷◌,
  arith, length, lookup, lookup-insert, text_eq, text_eq_iff, Bool-cases, Option-cases, All,
  All-append, if◌then◌else◌, get_elem?-length, get_elem?-append_left, get_elem?-append_length,
}
use mathlib.Core.Path.{subst}
use mathlib.Core.Option.{some-injective}
use local_inference_router.Config.{Config, AliasConfig, RouteConfig}
use local_inference_router.Backend.{Backend}
use local_inference_router.Metrics.{Metrics}
use local_inference_router.Router.State.{
  Route, BackendState, AliasState, State, find, add_backend, add_backends, Built, built,
  unknown_backend, make_route, build_routes, add_alias, add_aliases, empty_state, new_state,
  publish,
}
use local_inference_router.Router.State.Store.{Injective, find-eq-some}
use local_inference_router.Router.State.Valid.{IsValid, Routed, Resolves, InCapacity, find-name}

-- Not probed and not used yet.
abbrev pub IsFresh : BackendState → Type 0
IsFresh b = (b.inflight ≡ 0) × (b.checked ≡ false) × (b.healthy ≡ false)

abbrev fresh_state : Backend → BackendState
fresh_state b = record { backend = b; checked = false; healthy = false; inflight = 0 }

-- What the loop over the backends keeps.
pub record Loading (s : State) : Type 0 where
  injective : Injective s
  pub resolves : (n : Text) (i : ℕ) → lookup n s.backends ≡ some i → Resolves s n i
  fresh : All IsFresh s.order
  roomy : All InCapacity s.order

module _ (s : State) (b : Backend) (l : Loading s) where
  added :
      (n : Text)
      → lookup n (add_backend s b).backends
        ≡ (if text_eq b.name n then some (length s.order) else lookup n s.backends)
  unfolding add_backend
  added n = lookup-insert b.name n (length s.order) s.backends

  in_range : (n : Text) → lookup n s.backends ≢ some (length s.order)
  in_range n e =
      let (c, here, _) = l.resolves n (length s.order) e in cc (here, get_elem?-length s.order)

  add_backend-Injective : Injective (add_backend s b)
  add_backend-Injective n m i p q = ground (
    arith,
    added n,
    added m,
    text_eq_iff b.name n,
    text_eq_iff b.name m,
    in_range n,
    in_range m,
    l.injective n m i,
  )

  add_backend-Resolves :
      (n : Text) (i : ℕ)
      → lookup n (add_backend s b).backends ≡ some i
      → Resolves (add_backend s b) n i
  unfolding add_backend
  add_backend-Resolves n i p = elim (Bool-cases (text_eq b.name n)) [
    | inl same ↦
        let last : length s.order ≡ i = ground (arith, added n) in
        (
          fresh_state b,
          rw (← last) (get_elem?-append_length s.order (fresh_state b) []),
          (text_eq_iff b.name n).0 same,
        )
    | inr other ↦
        let (c, here, named) = l.resolves n i (ground (arith, added n)) in
        (c, get_elem?-append_left s.order _ i here, named)
  ]

  add_backend-Loading : pos 0 ≤ℤ b.max_inflight → Loading (add_backend s b)
  unfolding add_backend
  add_backend-Loading room = record {
    injective = add_backend-Injective;
    resolves = add_backend-Resolves;
    fresh = All-append IsFresh s.order _ l.fresh ((refl, refl, refl), tt);
    roomy = All-append InCapacity s.order _ l.roomy (room, tt);
  }

pub empty-Loading : (m : Option Metrics) → Loading (empty_state m)
unfolding empty_state lookup
empty-Loading m = record {
  injective = λ n k i p q. cc;
  resolves = λ n i p. cc;
  fresh = tt;
  roomy = tt;
}

Loading-IsValid : (s : State) → Loading s → s.aliases ≡ [] → s.alias_order ≡ [] → IsValid s
unfolding lookup
Loading-IsValid s l no_aliases no_order = record {
  injective = l.injective;
  resolves = l.resolves;
  routed = λ n a known. ground arith;
  routed_order = rw no_order tt;
  in_capacity = l.roomy;
}

pub add_backends-Loading :
    (bs : List Backend) (s : State)
    → All (λ b. pos 0 ≤ℤ b.max_inflight) bs
    → Loading s
    → Loading (add_backends s bs)
unfolding add_backends
add_backends-Loading [] s rooms l = l
add_backends-Loading (b ∷ bs) s (room, rooms) l =
    add_backends-Loading bs (add_backend s b) rooms (add_backend-Loading s b l room)

-- The loop over the backends leaves the aliases alone.
pub add_backends-aliases :
    (bs : List Backend) (s : State)
    → ((add_backends s bs).aliases ≡ s.aliases) × ((add_backends s bs).alias_order ≡ s.alias_order)
unfolding add_backends add_backend publish
add_backends-aliases [] s = (refl, refl)
add_backends-aliases (b ∷ bs) s = add_backends-aliases bs (add_backend s b)

-- What the loop over the aliases keeps.
record Routing (s : State) : Type 0 where
  valid : IsValid s
  fresh : All IsFresh s.order

pub Built-cases {ℓ} :
    {A : Type ℓ} (r : Built A)
    → ((a : A) × (r ≡ built a)) ⊎ ((name backend : Text) × (r ≡ unknown_backend name backend))
Built-cases (built a) = inl (a, refl)
Built-cases (unknown_backend name backend) = inr (name, backend, refl)

build_routes-Routed :
    (s : State) (name : Text) (base i : ℕ) (cfgs : List RouteConfig) (routes : List Route)
    → IsValid s
    → build_routes s name base i cfgs ≡ built routes
    → All (Routed s.backends) routes
unfolding build_routes
build_routes-Routed s name base i [] routes v e =
    let same : [] ≡ routes = ground arith in subst (All (Routed s.backends)) same tt
build_routes-Routed s name base i (cfg ∷ cfgs) routes v e =
    elim (Option-cases (find s cfg.backend)) [
      | inl missing ↦ absurd (ground arith)
      | inr (b, here) ↦ elim (Built-cases (build_routes s name base (suc i) cfgs)) [
        | inr (x, y, failed) ↦ absurd (ground arith)
        | inl (rest, done) ↦
            let same : make_route name base i cfg b ∷ rest ≡ routes = ground arith in
            let (j, at, _) = find-eq-some s cfg.backend here in
            subst (All (Routed s.backends)) same (
              (j, rw (find-name s cfg.backend v here) at),
              build_routes-Routed s name base (suc i) cfgs rest v done,
            )
      ]
    ]

add_alias-Routing :
    (s : State) (a : AliasState)
    → Routing s
    → All (Routed s.backends) a.routes
    → Routing (add_alias s a)
unfolding add_alias
add_alias-Routing s a r routed = record {
  valid = record {
    injective = r.valid.injective;
    resolves = r.valid.resolves;
    routed = λ n b known. elim (Bool-cases (text_eq a.name n)) [
      | inl same ↦
          subst (λ c. All (Routed s.backends) c.routes)
            (some-injective a b (ground (arith, lookup-insert a.name n a s.aliases))) routed
      | inr other ↦ r.valid.routed n b (ground (arith, lookup-insert a.name n a s.aliases))
    ];
    routed_order = All-append _ s.alias_order (a ∷ []) r.valid.routed_order (routed, tt);
    in_capacity = r.valid.in_capacity;
  };
  fresh = r.fresh;
}

add_aliases-Routing :
    (cfgs : List AliasConfig) (s s' : State) (base : ℕ)
    → Routing s
    → add_aliases s base cfgs ≡ built s'
    → Routing s'
unfolding add_aliases
add_aliases-Routing [] s s' base r e = subst Routing (ground arith) r
add_aliases-Routing (cfg ∷ cfgs) s s' base r e =
    elim (Built-cases (build_routes s cfg.name base 0 cfg.routes)) [
      | inr (x, y, failed) ↦ absurd (ground arith)
      | inl (routes, done) ↦
          add_aliases-Routing cfgs (add_alias s (record { name = cfg.name; routes = routes })) s'
            (base + length routes)
            (add_alias-Routing s (record { name = cfg.name; routes = routes }) r
              (build_routes-Routed s cfg.name base 0 cfg.routes routes r.valid done))
            (ground arith)
    ]

-- What a new state is: valid, with no reservation and no health result yet.
pub record Starts (s : State) : Type 0 where
  pub valid : IsValid s
  pub fresh : All IsFresh s.order

-- If NewState succeeds on backends whose capacities are not negative, its state is valid, and
-- every backend is unchecked, not healthy and without a reservation.
pub new_state-Starts :
    (cfg : Config) (backends : List Backend) (m : Option Metrics) (s : State)
    → All (λ b. pos 0 ≤ℤ b.max_inflight) backends
    → new_state cfg backends m ≡ built s
    → Starts s
unfolding new_state
new_state-Starts cfg backends m s rooms e =
    let loaded = add_backends (empty_state m) backends in
    let l = add_backends-Loading backends (empty_state m) rooms (empty-Loading m) in
    let (no_aliases, no_order) = add_backends-aliases backends (empty_state m) in
    let r =
      add_aliases-Routing cfg.aliases loaded s 0
        (record { valid = Loading-IsValid loaded l no_aliases no_order; fresh = l.fresh }) e in
    record { valid = r.valid; fresh = r.fresh }
