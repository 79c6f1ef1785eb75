-- ===== src/Router/Operations/Readiness.antt =====
-- Readiness and the snapshot of a valid state.
use local_inference_router.Base.{
  pos, ◌≤ℤ◌, ◌≡◌, refl, ◌⊎◌, inl, inr, Bool, true, false, ◌&&◌, Option, some, List, [], ◌∷◌, map,
  length, arith, All, All2, All-map, Bool-cases,
}
use local_inference_router.Router.State.{Route, BackendState, AliasState, State, find}
use local_inference_router.Router.State.Valid.{IsValid, InCapacity}
use local_inference_router.Router.Select.Best.{Found}
use local_inference_router.Router.Operations.Keeps.{All-Found}
use local_inference_router.Router.Operations.{
  alias_ready, all_ready, ready, snapshot, alias_statuses, backend_status, AliasStatus,
  BackendStatus, Status,
}

-- Some route's backend has been checked and is healthy.
abbrev pub AnyUp : State → List Route → Type 0
AnyUp s [] = ⊥
AnyUp s (r ∷ rs) =
    ((b : BackendState) × (find s r.backend.name ≡ some b)
      × (b.checked ≡ true)
      × (b.healthy ≡ true))
    ⊎ AnyUp s rs

-- The value of a test, and that it decides a statement.
abbrev pub Decides {ℓ} : Option Bool → Type ℓ → Type ℓ
Decides r P = ((r ≡ some true) × P) ⊎ ((r ≡ some false) × (¬ P))

none_up :
    (s : State) (r : Route) (rs : List Route) (b : BackendState)
    → find s r.backend.name ≡ some b
    → (b.checked && b.healthy) ≡ false
    → ¬ AnyUp s rs
    → ¬ AnyUp s (r ∷ rs)
none_up s r rs b here down no_one (inl (c, there, checked, healthy)) =
    ground (arith, here, there, checked, healthy, down)
none_up s r rs b here down no_one (inr any) = no_one any

alias_ready-Decides :
    (s : State) (rs : List Route) → All (Found s) rs → Decides (alias_ready s rs) (AnyUp s rs)
unfolding alias_ready
alias_ready-Decides s [] h = inr (refl, λ x. x)
alias_ready-Decides s (r ∷ rs) ((b, here), h) = elim (Bool-cases (b.checked && b.healthy)) [
  | inl up ↦ inl (rw (here, alias_ready, up), inl (b, here, ground arith, ground arith))
  | inr down ↦ elim (alias_ready-Decides s rs h) [
    | inl (e, any) ↦ inl (rw (here, alias_ready, down) e, inr any)
    | inr (e, no_one) ↦ inr (rw (here, alias_ready, down) e, none_up s r rs b here down no_one)
  ]
]

all_ready-Decides :
    (s : State) (as_ : List AliasState)
    → All (λ a. All (Found s) a.routes) as_
    → Decides (all_ready s as_) (All (λ a. AnyUp s a.routes) as_)
unfolding all_ready
all_ready-Decides s [] h = inl (refl, tt)
all_ready-Decides s (a ∷ as_) (here, h) = elim (alias_ready-Decides s a.routes here) [
  | inr (e, no_one) ↦ inr (rw (e, all_ready), λ p. no_one p.0)
  | inl (e, any) ↦ elim (all_ready-Decides s as_ h) [
    | inl (e', all) ↦ inl (rw (e, all_ready) e', (any, all))
    | inr (e', not_all) ↦ inr (rw (e, all_ready) e', λ p. not_all p.1)
  ]
]

order-Found : (s : State) → IsValid s → All (λ a. All (Found s) a.routes) s.alias_order
order-Found s v = All-map _ _ (λ a h. All-Found s a.routes v h) s.alias_order v.routed_order

-- On a valid state Ready returns without a nil dereference, true exactly when every alias has a
-- route whose backend is checked and healthy.
pub ready-Decides :
    (s : State) → IsValid s → Decides (ready s) (All (λ a. AnyUp s a.routes) s.alias_order)
unfolding ready
ready-Decides s v = all_ready-Decides s s.alias_order (order-Found s v)

-- An entry shows an alias: ready exactly if one of its routes is up.
pub record ShowsAlias (s : State) (a : AliasState) (e : AliasStatus) : Type 0 where
  pub name : e.name ≡ a.name
  pub ready : ((e.ready ≡ true) × AnyUp s a.routes) ⊎ ((e.ready ≡ false) × (¬ AnyUp s a.routes))
  pub route_count : e.route_count ≡ length a.routes

-- An entry shows a backend.
pub record ShowsBackend (b : BackendState) (e : BackendStatus) : Type 0 where
  pub name : e.name ≡ b.backend.name
  pub kind : e.kind ≡ b.backend.kind
  pub checked : e.checked ≡ b.checked
  pub healthy : e.healthy ≡ b.healthy
  pub inflight : e.inflight ≡ b.inflight
  pub max_inflight : e.max_inflight ≡ b.backend.max_inflight
  pub in_capacity : pos e.inflight ≤ℤ e.max_inflight

-- The entries of a snapshot's aliases show them, and agree with the readiness of the state.
abbrev Lists : State → List AliasState → List AliasStatus → Type 0
Lists s as_ entries =
    All2 (ShowsAlias s) as_ entries × Decides (all_ready s as_) (All (λ e. e.ready ≡ true) entries)

alias_statuses-Lists :
    (s : State) (as_ : List AliasState)
    → All (λ a. All (Found s) a.routes) as_
    → (entries : List AliasStatus) × (alias_statuses s as_ ≡ some entries) × Lists s as_ entries
unfolding alias_statuses all_ready
alias_statuses-Lists s [] h = ([], refl, (tt, inl (refl, tt)))
alias_statuses-Lists s (a ∷ as_) (here, h) =
    let (entries, e, (shown, flags)) = alias_statuses-Lists s as_ h in
    elim (alias_ready-Decides s a.routes here) [
      | inr (down, no_one) ↦ (
        record { name = a.name; ready = false; route_count = length a.routes } ∷ entries,
        rw (down, alias_statuses, e),
        (
          (record { name = refl; ready = inr (refl, no_one); route_count = refl }, shown),
          inr (rw (down, all_ready), λ p. cc (p.0)),
        ),
      )
      | inl (up, any) ↦ (
        record { name = a.name; ready = true; route_count = length a.routes } ∷ entries,
        rw (up, alias_statuses, e),
        (
          (record { name = refl; ready = inl (refl, any); route_count = refl }, shown),
          elim flags [
            | inl (all, ups) ↦ inl (rw (up, all_ready) all, (refl, ups))
            | inr (not_all, some_down) ↦ inr (rw (up, all_ready) not_all, λ p. some_down p.1)
          ],
        ),
      )
    ]

-- What a snapshot shows: each backend and each alias of the state, in their orders, and all aliases
-- ready exactly when the router is.
pub record Shows (s : State) (st : Status) : Type 0 where
  pub backends : All2 ShowsBackend s.order st.backends
  pub aliases : All2 (ShowsAlias s) s.alias_order st.aliases
  pub flags : Decides (ready s) (All (λ a. a.ready ≡ true) st.aliases)

backends-shown :
    (bs : List BackendState) → All InCapacity bs → All2 ShowsBackend bs (map backend_status bs)
unfolding backend_status
backends-shown [] h = tt
backends-shown (b ∷ bs) (here, h) = (
  record {
    name = refl;
    kind = refl;
    checked = refl;
    healthy = refl;
    inflight = refl;
    max_inflight = refl;
    in_capacity = here;
  },
  backends-shown bs h,
)

-- On a valid state Snapshot returns without a nil dereference. It has one entry for each backend
-- in their order, with its name, kind, health flags, reservations and max_inflight, which is not
-- exceeded, and one for each alias in their order, with its name, the number of its routes, and
-- ready exactly if a route of it has a backend that is checked and healthy; and all aliases are
-- ready exactly when Ready is true.
pub snapshot-Shows : (s : State) → IsValid s → (st : Status) × (snapshot s ≡ some st) × Shows s st
unfolding snapshot ready
snapshot-Shows s v =
    let (entries, e, (shown, flags)) = alias_statuses-Lists s s.alias_order (order-Found s v) in
    (
      record { backends = map backend_status s.order; aliases = entries },
      rw e,
      record { backends = backends-shown s.order v.in_capacity; aliases = shown; flags = flags },
    )
