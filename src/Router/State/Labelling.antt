-- ===== src/Router/State/Labelling.antt =====
-- The samples of the state that NewState builds, and the aliases of its routes.
use local_inference_router.Base.{
  ℕ, suc, ◌+◌, Text, text_eq, ◌≡◌, refl, ap, sym, ◌∙◌, inl, inr, Option, List, [], ◌∷◌, arith,
  length, lookup, insert, lookup-insert, lookup-insert_self, All, All-map, Bool-cases, Option-cases,
}
use mathlib.Core.Path.{subst}
use mathlib.Core.Option.{some-injective}
use local_inference_router.Config.{Config, AliasConfig, RouteConfig}
use local_inference_router.Backend.{Backend}
use local_inference_router.Metrics.{Metrics}
use local_inference_router.Router.State.{
  Route, AliasState, State, built, find, add_backend, add_backends, build_routes, make_route,
  add_alias, add_aliases, empty_state, new_state, publish,
}
use local_inference_router.Router.State.Building.{Built-cases, add_backends-aliases}
use local_inference_router.Router.Labels.{
  HasKey, Aliased, AllLabelled, publish-AllLabelled, init_backend-Adds,
}

-- An entry stays when another is added.
insert-HasKey {ℓ} :
    {V : Type ℓ} (k n : Text) (v : V) (m : List (Text × V)) → HasKey n m → HasKey n (insert k v m)
insert-HasKey k n v m (w, at) = elim (Bool-cases (text_eq k n)) [
  | inl same ↦ (v, lookup-insert k n v m ∙ rw same refl)
  | inr other ↦ (w, lookup-insert k n v m ∙ rw other at)
]

add_backends-HasKey :
    (bs : List Backend) (s : State) (n : Text)
    → HasKey n s.backends
    → HasKey n (add_backends s bs).backends
unfolding add_backends add_backend publish
add_backends-HasKey [] s n h = h
add_backends-HasKey (b ∷ bs) s n h =
    add_backends-HasKey bs (add_backend s b) n (insert-HasKey b.name n _ s.backends h)

add_backends-AllLabelled :
    (bs : List Backend) (s : State) (backends : List (Text × ℕ))
    (aliases : List (Text × AliasState))
    → (add_backends s bs).backends ≡ backends
    → AllLabelled backends aliases s.metrics
    → AllLabelled backends aliases (add_backends s bs).metrics
unfolding add_backends add_backend publish
add_backends-AllLabelled [] s backends aliases e h = h
add_backends-AllLabelled (b ∷ bs) s backends aliases e h =
    let added : HasKey b.name (add_backend s b).backends =
      (length s.order, lookup-insert_self b.name (length s.order) s.backends) in
    let known : HasKey b.name backends =
      subst (HasKey b.name) e (add_backends-HasKey bs (add_backend s b) b.name added) in
    add_backends-AllLabelled bs (add_backend s b) backends aliases e
      (publish-AllLabelled backends aliases _ s (init_backend-Adds backends aliases b.name known) h)

build_routes-alias :
    (s : State) (name : Text) (base i : ℕ) (cfgs : List RouteConfig) (routes : List Route)
    → build_routes s name base i cfgs ≡ built routes
    → All (λ r. r.alias ≡ name) routes
unfolding build_routes
build_routes-alias s name base i [] routes e =
    let same : [] ≡ routes = ground arith in subst (All (λ r. r.alias ≡ name)) same tt
build_routes-alias s name base i (cfg ∷ cfgs) routes e = elim (Option-cases (find s cfg.backend)) [
  | inl missing ↦ absurd (ground arith)
  | inr (b, here) ↦ elim (Built-cases (build_routes s name base (suc i) cfgs)) [
    | inr (x, y, failed) ↦ absurd (ground arith)
    | inl (rest, done) ↦
        let same : make_route name base i cfg b ∷ rest ≡ routes = ground arith in
        subst (All (λ r. r.alias ≡ name)) same
          (refl, build_routes-alias s name base (suc i) cfgs rest done)
  ]
]

add_alias-Aliased :
    (s : State) (a : AliasState)
    → Aliased s.aliases
    → All (λ r. r.alias ≡ a.name) a.routes
    → Aliased (add_alias s a).aliases
unfolding add_alias
add_alias-Aliased s a h named n b at = elim (Bool-cases (text_eq a.name n)) [
  | inl same ↦
      subst (λ c. All (λ r. HasKey r.alias (insert a.name a s.aliases)) c.routes)
        (some-injective a b (ground (arith, lookup-insert a.name n a s.aliases)))
        (All-map _ _
          (λ r e. (
            a,
            ap (λ m. lookup m (insert a.name a s.aliases)) e
                ∙ lookup-insert_self a.name a s.aliases,
          ))
          a.routes named)
  | inr other ↦
      All-map _ _ (λ r k. insert-HasKey a.name r.alias a s.aliases k) b.routes
        (h n b (ground (arith, lookup-insert a.name n a s.aliases)))
]

-- What the loop over the aliases does to the labels.
add_aliases-Aliased :
    (cfgs : List AliasConfig) (s s' : State) (base : ℕ)
    → Aliased s.aliases
    → add_aliases s base cfgs ≡ built s'
    → Aliased s'.aliases × (s'.backends ≡ s.backends) × (s'.metrics ≡ s.metrics)
unfolding add_aliases add_alias
add_aliases-Aliased [] s s' base h e =
    let same : s ≡ s' = ground arith in
    subst (λ t. Aliased t.aliases × (t.backends ≡ s.backends) × (t.metrics ≡ s.metrics)) same
      (h, refl, refl)
add_aliases-Aliased (cfg ∷ cfgs) s s' base h e =
    elim (Built-cases (build_routes s cfg.name base 0 cfg.routes)) [
      | inr (x, y, failed) ↦ absurd (ground arith)
      | inl (routes, done) ↦
          add_aliases-Aliased cfgs (add_alias s (record { name = cfg.name; routes = routes })) s'
            (base + length routes)
            (add_alias-Aliased s (record { name = cfg.name; routes = routes }) h
              (build_routes-alias s cfg.name base 0 cfg.routes routes done))
            (ground arith)
    ]

no_aliases-Aliased : Aliased []
unfolding lookup
no_aliases-Aliased n a at = cc

-- The routes of a new state name its aliases, and its samples its backends.
pub new_state-AllLabelled :
    (cfg : Config) (backends : List Backend) (m : Option Metrics) (s : State)
    → ((b : List (Text × ℕ)) (a : List (Text × AliasState)) → AllLabelled b a m)
    → new_state cfg backends m ≡ built s
    → Aliased s.aliases × AllLabelled s.backends s.aliases s.metrics
unfolding new_state empty_state
new_state-AllLabelled cfg backends m s h e =
    let loaded = add_backends (empty_state m) backends in
    let (aliased, same, metrics) =
      add_aliases-Aliased cfg.aliases loaded s 0
        (subst Aliased (sym (add_backends-aliases backends (empty_state m)).0) no_aliases-Aliased)
        e in
    (
      aliased,
      subst (AllLabelled s.backends s.aliases) (sym metrics) (
          add_backends-AllLabelled backends (empty_state m) s.backends s.aliases (sym same)
            (h s.backends s.aliases)),
    )
