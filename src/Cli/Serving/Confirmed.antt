-- ===== src/Cli/Serving/Confirmed.antt =====
-- internal/cli/app.go: a backend of the serving program is up only by a check of its own.
use local_inference_router.Base.{
  ℕ, Text, ◌≡◌, ◌≢◌, refl, sym, ap, ◌∙◌, true, Option, some, List, ok, arith, All-of_all,
  All-get_elem?, get_elem?, set, get_elem?-set_self, get_elem?-set_ne, inl, inr, Bool-cases,
  text_eq, text_eq_iff,
}
use mathlib.Core.Path.{subst}
use mathlib.Core.Option.{some-injective}
use native.Mathlib.Decide.{ℕ_discrete}
use local_inference_router.Router.State.{Route, State}
use local_inference_router.Router.State.Store.{find-eq-some}
use local_inference_router.Router.State.Valid.{IsValid}
use local_inference_router.Router.State.Building.{Starts}
use local_inference_router.Router.State.Sources.{new_state-Sourced}
use local_inference_router.Router.Operations.{set_health}
use local_inference_router.Router.Operations.Keeps.{metered}
use local_inference_router.Router.Proxy.{Call, Attempt, attempting, advance}
use local_inference_router.Router.Proxy.Aims.{Aimed, advance_phase-Aims}
use local_inference_router.Router.Proxy.Leads.{advance_phase-Leads}
use local_inference_router.Router.Proxy.Dims.{
  IsUp, Dims, Dims-Closed, set_health-others, set_health-down,
}
use local_inference_router.Router.System.{Reach, begins, continues, arrives, advances, reports}
use local_inference_router.Router.System.Counts.{share-le-total}
use local_inference_router.Router.System.Safety.{Inv, Reach-Inv}
use local_inference_router.Health.{ProbeResult, probe, note, check}
use local_inference_router.Health.Checks.{Checks}
use local_inference_router.Health.Run.{Loop, next_check}
use local_inference_router.Cli.{Environment, Started, start}
use local_inference_router.Cli.Starts.{start-ok}
use local_inference_router.Cli.Serving.{
  Program, launch, probed, Serves, launched, accepts, serves, probes,
}

-- The last check of a loop of the name found the backend up.
abbrev pub Confirmed : List Loop → Text → Type 0
Confirmed loops n =
    (i : ℕ) × (l : Loop) × (get_elem? loops i ≡ some l)
    × (l.backend.name ≡ n)
    × (l.checker.known ≡ true)
    × (l.checker.previous ≡ true)

abbrev Confirms : Program → Type 0
Confirms p = (n : Text) → IsUp p.system.state n → Confirmed p.loops n

launch-Confirms : (c : Checks) (s : State) → Starts s → Confirms (launch c s)
launch-Confirms c s start n (b, here, checked, healthy) =
    let (i, _, at) = find-eq-some s n here in
    let (_, unchecked, _) = All-get_elem? _ s.order i start.fresh at in
    absurd (cc (checked, unchecked))

-- The loop of another name is as it was.
kept :
    (loops : List Loop) (i : ℕ) (l l' : Loop) (n : Text)
    → get_elem? loops i ≡ some l
    → n ≢ l.backend.name
    → Confirmed loops n
    → Confirmed (set loops i l') n
kept loops i l l' n at other (j, k, at_k, named, known, up) = elim (ℕ_discrete i j) [
  | yes e ↦ absurd (
      other (
        sym named
        ∙ ap (λ x. x.backend.name)
            (some-injective _ _ (sym at_k ∙ subst (λ m. get_elem? loops m ≡ some l) e at))))
  | no ne ↦ (j, k, get_elem?-set_ne loops i j l' ne ∙ at_k, named, known, up)
]

probed-Confirms :
    (p : Program) (i : ℕ) (l : Loop) (result : ProbeResult)
    → IsValid p.system.state
    → get_elem? p.loops i ≡ some l
    → Confirms p
    → Confirms (probed i l result p)
unfolding probed next_check check note
probed-Confirms p i l result v at h n up = elim (Bool-cases (text_eq n l.backend.name)) [
  | inr other ↦
      let apart : n ≢ l.backend.name = λ e. cc (other, (text_eq_iff n l.backend.name).1 e) in
      kept p.loops i l _ n at apart
        (h n (set_health-others l.backend.name (probe result) p.system.state n v apart up))
  | inl same ↦ elim (Bool-cases (probe result)) [
    | inl good ↦ (
      i,
      _,
      get_elem?-set_self p.loops i _ at,
      sym ((text_eq_iff n l.backend.name).0 same),
      refl,
      good,
    )
    | inr bad ↦ absurd (
        set_health-down l.backend.name p.system.state v (
          subst (λ t. IsUp t l.backend.name)
            (ap (λ u'. set_health l.backend.name u' p.system.state) bad)
            (subst (IsUp _) ((text_eq_iff n l.backend.name).0 same) up)))
  ]
]

module _ (parse_media_type : Text → Option Text) (c : Checks) (s : State) (start : Starts s)
    (m : metered s ≡ true) where
  -- The requests and the results of a program are a run of the router.
  Serves-Reach : {p : Program} → Serves parse_media_type c s p → Reach parse_media_type s p.system
  unfolding probed next_check check
  Serves-Reach launched = begins
  Serves-Reach (accepts alias flushable r) = continues (Serves-Reach r) (arrives alias flushable)
  Serves-Reach (serves i d d' a s' r at e) = continues (Serves-Reach r) (advances i d d' a s' at e)
  Serves-Reach (probes i l result r at) =
      continues (Serves-Reach r) (reports l.backend.name (probe result))

  Serves-Inv : {p : Program} → Serves parse_media_type c s p → Inv p.system
  Serves-Inv r = Reach-Inv parse_media_type start m (Serves-Reach r)

  Serves-Confirms : {p : Program} → Serves parse_media_type c s p → Confirms p
  unfolding advance
  Serves-Confirms launched = launch-Confirms c s start
  Serves-Confirms (accepts alias flushable r) = Serves-Confirms r
  Serves-Confirms (serves {p} i d d' a s' r at e) = λ n up.
      let inv = Serves-Inv r in
      let dims =
        advance_phase-Leads parse_media_type p.system.state (Dims p.system.state)
          (Dims-Closed p.system.state inv.valid) inv.valid d d.phase a
          (All-get_elem? _ p.system.calls i inv.on_route at)
          (λ k. omega (arith, inv.counted k, share-le-total p.system.calls i d k at)) s' d' e in
      Serves-Confirms r n (dims n up)
  Serves-Confirms (probes {p} i l result r at) =
      probed-Confirms p i l result (Serves-Inv r).valid at (Serves-Confirms r)

module _ (parse_media_type : Text → Option Text) where
  -- Once runServe gets to its server, after any requests and health checks in any order, a
  -- section of a request goes on to attempt a route only if a health loop of a backend with the
  -- name of its backend has made a check, and the last check of that loop found the backend up.
  pub start-Confirmed :
      (env : Environment) (path : Text) (st : Started) (p : Program) (i : ℕ) (d d' : Call)
      (a : Attempt) (s' : State) (r : Route)
      → start env path ≡ ok st
      → Serves parse_media_type st.checks st.state p
      → get_elem? p.system.calls i ≡ some d
      → advance parse_media_type d a p.system.state ≡ some (s', d')
      → d'.phase ≡ attempting r
      → Confirmed p.loops r.backend.name
  unfolding advance
  start-Confirmed env path st p i d d' a s' r e run at step aim =
      let (cfg, _, ready) = start-ok env path st e in
      let (m, _) =
        new_state-Sourced (λ _. Unit) cfg st.backends _ st.state
          (All-of_all _ (λ b. tt) st.backends) ready.state in
      let inv = Serves-Inv parse_media_type st.checks st.state ready.starts m run in
      Serves-Confirms parse_media_type st.checks st.state ready.starts m run r.backend.name (
        subst (Aimed p.system.state inv.valid) aim (
          advance_phase-Aims p.system.state inv.valid parse_media_type d d.phase a
            (All-get_elem? _ p.system.calls i inv.on_route at) s' d' step))
