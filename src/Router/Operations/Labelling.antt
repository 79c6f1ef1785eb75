-- ===== src/Router/Operations/Labelling.antt =====
-- The labels of the samples that the operations of the routing state publish.
use local_inference_router.Base.{
  ℕ, ◌+◌, ◌-◌, Text, Bool, ltb, text_eq, ◌≡◌, refl, Option, none, some, List, lookup, ◌>>=◌, arith,
  Option-cases, Bool-cases, inl, inr,
}
use mathlib.Core.Path.{subst}
use mathlib.Core.Option.{some-injective}
use local_inference_router.Metrics.{Metrics, set_inflight}
use local_inference_router.Router.State.{Route, BackendState, AliasState, State, find, put, publish}
use local_inference_router.Router.State.Store.{Injective, find-eq-some, put-metrics, put-backends}
use local_inference_router.Router.State.Valid.{IsValid, find-name}
use local_inference_router.Router.Select.{select_locked}
use local_inference_router.Router.Labels.{
  HasKey, AllLabelled, publish-AllLabelled, set_inflight-Adds, set_healthy-Adds,
}
use local_inference_router.Router.Operations.{
  Reservation, take_slot, reserve_from, reserve, publish_swap, swap_to, swap_from, swap_reservation,
  release, set_health,
}
use local_inference_router.Router.Operations.Slots.{with_inflight}
use local_inference_router.Router.Operations.Keeps.{Keeps, Keeps-refl, Keeps-trans, put-Keeps}

-- A backend that is found has its name in the map.
found-HasKey : (s : State) (n : Text) {b : BackendState} → find s n ≡ some b → HasKey n s.backends
found-HasKey s n here = let (i, at, _) = find-eq-some s n here in (i, at)

named-HasKey :
    (s : State) (n : Text) {b : BackendState}
    → IsValid s
    → find s n ≡ some b
    → HasKey b.backend.name s.backends
named-HasKey s n v here = rw (find-name s n v here) (found-HasKey s n here)

-- The same where only counts have changed.
kept-HasKey :
    (s t : State) (n : Text) {b : BackendState}
    → IsValid s
    → Keeps s t
    → find t n ≡ some b
    → HasKey b.backend.name s.backends
kept-HasKey s t n {b} v k here = elim (Option-cases (find s n)) [
  | inl missing ↦ absurd (ground (arith, k.profiles n, here, missing))
  | inr (c, there) ↦
      let same : c.backend.name ≡ b.backend.name = ground (arith, k.profiles n, here, there) in
      subst (λ m. HasKey m s.backends) same (named-HasKey s n v there)
]

module _ (aliases : List (Text × AliasState)) (s : State) (v : IsValid s)
    (h : AllLabelled s.backends aliases s.metrics) where
  abbrev pub Labels : Option Metrics → Type 0
  Labels = AllLabelled s.backends aliases

  put-Labels :
      (t : State) (n : Text) (b : BackendState) → Labels t.metrics → Labels (put t n b).metrics
  put-Labels t n b k = rw (put-metrics t n b) k

  pub set_health-Labels : (name : Text) (up : Bool) → Labels (set_health name up s).metrics
  unfolding set_health
  set_health-Labels name up = elim (Option-cases (find s name)) [
    | inl missing ↦ rw (missing, set_health) h
    | inr (b, here) ↦
        rw (here, set_health)
          (publish-AllLabelled s.backends aliases _ _
            (set_healthy-Adds s.backends aliases name up (found-HasKey s name here))
            (put-Labels s name _ h))
  ]

  pub release-Labels : (r : Route) → Labels (release (some r) s).metrics
  unfolding release
  release-Labels r = elim (Option-cases (find s r.backend.name)) [
    | inl missing ↦ rw (missing, release) h
    | inr (b, here) ↦
        rw (here, release)
          (publish-AllLabelled s.backends aliases _ _
            (set_inflight-Adds s.backends aliases r.backend.name _
              (found-HasKey s r.backend.name here))
            (put-Labels s r.backend.name _ h))
  ]

  -- The samples of a result, if there is one.
  abbrev LabelsTo : Option (State × Reservation) → Type 0
  LabelsTo r = (s' : State) (res : Reservation) → r ≡ some (s', res) → Labels s'.metrics

  some-LabelsTo : (t : State) (res : Reservation) → Labels t.metrics → LabelsTo (some (t, res))
  some-LabelsTo t res k s' res' e =
      subst (λ (p : State × Reservation). Labels p.0.metrics) (some-injective _ _ e) k

  bind-LabelsTo {ℓ} :
      {A : Type ℓ} (m : Option A) (f : A → Option (State × Reservation))
      → ((a : A) → m ≡ some a → LabelsTo (f a))
      → LabelsTo (m >>= f)
  bind-LabelsTo none f k s' res e = cc
  bind-LabelsTo (some a) f k s' res e = k a refl s' res e

  -- The sample of a count, from a state that differs from the first one in counts.
  counted-Labels :
      (t u : State) (n : Text) (b : BackendState) (k : ℕ)
      → Keeps s t
      → find t n ≡ some b
      → Labels u.metrics
      → Labels (publish (set_inflight b.backend.name k) u).metrics
  counted-Labels t u n b k kept here l =
      publish-AllLabelled s.backends aliases _ u
        (set_inflight-Adds s.backends aliases b.backend.name k (kept-HasKey s t n v kept here)) l

  reserve_from-LabelsTo : (chosen : Option Route) → LabelsTo (reserve_from s chosen)
  unfolding reserve_from take_slot
  reserve_from-LabelsTo none = some-LabelsTo s _ h
  reserve_from-LabelsTo (some r) = bind-LabelsTo (find s r.backend.name) _ (λ b here.
      some-LabelsTo _ _
        (counted-Labels s _ r.backend.name b _ (Keeps-refl s) here (put-Labels s _ _ h)))

  pub reserve-LabelsTo : (name : Text) (attempted : List ℕ) → LabelsTo (reserve name attempted s)
  unfolding reserve
  reserve-LabelsTo name attempted = elim (Option-cases (lookup name s.aliases)) [
    | inl unknown ↦ rw (unknown, reserve) (some-LabelsTo s _ h)
    | inr (a, known) ↦
        rw (known, reserve)
          (bind-LabelsTo (select_locked s a attempted) _ (λ chosen e. reserve_from-LabelsTo chosen))
  ]

  -- The samples of a swap: of both backends, or of the one that keeps its slot.
  publish_swap-Labels :
      (t : State) (n m : Text) (c d : BackendState)
      → Keeps s t
      → find t n ≡ some c
      → find t m ≡ some d
      → Labels t.metrics
      → Labels (publish_swap c d t).metrics
  unfolding publish_swap
  publish_swap-Labels t n m c d kept here there l =
      elim (Bool-cases (text_eq c.backend.name d.backend.name)) [
        | inl same ↦ rw (same, publish_swap) (counted-Labels t t m d _ kept there l)
        | inr apart ↦
            rw (apart, publish_swap)
              (counted-Labels t _ m d _ kept there (counted-Labels t t n c _ kept here l))
      ]

  swap_to-LabelsTo :
      (current : Text) (freed : State) (chosen : Option Route)
      → Injective freed
      → Keeps s freed
      → Labels freed.metrics
      → LabelsTo (swap_to current freed chosen)
  unfolding swap_to
  swap_to-LabelsTo current freed none inj kept l =
      bind-LabelsTo (find freed current) _ (λ b here. some-LabelsTo _ _ (put-Labels freed _ _ l))
  swap_to-LabelsTo current freed (some r) inj kept l =
      bind-LabelsTo (find freed r.backend.name) _ (λ chosen there.
        let taken = put freed r.backend.name (with_inflight chosen (chosen.inflight + 1)) in
        let kept' : Keeps s taken =
          Keeps-trans kept (put-Keeps freed r.backend.name chosen _ inj there) in
        bind-LabelsTo (find taken current) _ (λ c here.
          bind-LabelsTo (find taken r.backend.name) _ (λ d here'. some-LabelsTo _ _ (
            publish_swap-Labels taken current r.backend.name c d kept' here here'
              (put-Labels freed r.backend.name _ l)))))

  swap_from-LabelsTo :
      (current : Text) (a : AliasState) (attempted : List ℕ) (b : BackendState)
      → find s current ≡ some b
      → LabelsTo (swap_from current a attempted s b)
  unfolding swap_from
  swap_from-LabelsTo current a attempted b here = elim (Bool-cases (ltb 0 b.inflight)) [
    | inr idle ↦ rw (idle, swap_from) (some-LabelsTo s _ h)
    | inl held ↦
        let freed = put s current (with_inflight b (b.inflight - 1)) in
        rw (held, swap_from)
          (bind-LabelsTo (select_locked freed a attempted) _ (λ chosen e.
            swap_to-LabelsTo current freed chosen
              (rw (put-backends s current (with_inflight b (b.inflight - 1))) v.injective)
              (put-Keeps s current b (b.inflight - 1) v.injective here) (put-Labels s current _ h)))
  ]

  pub swap_reservation-LabelsTo :
      (name : Text) (current : Route) (attempted : List ℕ)
      → LabelsTo (swap_reservation name (some current) attempted s)
  unfolding swap_reservation
  swap_reservation-LabelsTo name current attempted = elim (Option-cases (lookup name s.aliases)) [
    | inl unknown ↦ rw (unknown, swap_reservation) (some-LabelsTo s _ h)
    | inr (a, known) ↦ elim (Option-cases (find s current.backend.name)) [
      | inl missing ↦ rw (known, missing, swap_reservation) (some-LabelsTo s _ h)
      | inr (b, here) ↦
          rw (known, here, swap_reservation)
            (swap_from-LabelsTo current.backend.name a attempted b here)
    ]
  ]
