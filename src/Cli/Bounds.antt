-- ===== src/Cli/Bounds.antt =====
-- internal/cli/app.go and internal/router: the server that runServe starts, under load.
use local_inference_router.Base.{
  ℕ, suc, pos, ◌≤ℤ◌, ◌≤◌, Text, ◌≡◌, refl, sym, ◌∙◌, inl, inr, Option, some, List, [], ◌∷◌, ok,
  arith, All, All-map, All-get_elem?, All2, get_elem?, Option-cases,
}
use local_inference_router.Config.{BackendConfig, Config}
use local_inference_router.Config.Url.{Net}
use local_inference_router.Config.Load.{load}
use local_inference_router.Config.Load.Loaded.{load_iff}
use local_inference_router.Config.Validate.Valid.{IsBackend}
use local_inference_router.Backend.{Backend}
use local_inference_router.Backend.Build.Builds.{Builds}
use local_inference_router.Router.State.{BackendState, State, find}
use local_inference_router.Router.State.Store.{find-eq-some}
use local_inference_router.Router.State.Valid.{find-name, find-InCapacity}
use local_inference_router.Router.State.Sources.{new_state-Sourced}
use local_inference_router.Router.Operations.Slots.{inflight_of-find}
use local_inference_router.Router.System.{System, Reach}
use local_inference_router.Router.System.Counts.{total}
use local_inference_router.Router.System.Safety.{Reach-Inv}
use local_inference_router.Router.System.Refines.{Reach-Moved}
use local_inference_router.Router.Spec.{view}
use local_inference_router.Router.Spec.Capacity.{Moved-capacity, capacity}
use local_inference_router.Cli.{Environment, Started, start}
use local_inference_router.Cli.Starts.{start-ok}

-- The backend is one of the configuration.
abbrev Configured : Net → List BackendConfig → Backend → Type 0
Configured net cfgs b =
    (i : ℕ) × (c : BackendConfig) × (get_elem? cfgs i ≡ some c)
    × IsBackend net c
    × (b.name ≡ c.name)
    × (b.max_inflight ≡ c.max_inflight)

built-Configured :
    (net : Net) (secrets : Text → Option Text) (cfgs : List BackendConfig) (bs : List Backend)
    → All (IsBackend net) cfgs
    → All2 (Builds net secrets) cfgs bs
    → All (Configured net cfgs) bs
built-Configured net secrets [] [] v h = tt
built-Configured net secrets [] (b ∷ bs) v h = absurd h
built-Configured net secrets (c ∷ cfgs) [] v h = absurd h
built-Configured net secrets (c ∷ cfgs) (b ∷ bs) (v, vs) (h, hs) = (
  (0, c, refl, v, h.name, h.max_inflight),
  All-map _ _ (λ d (i, e, at, w, named, room). (suc i, e, at, w, named, room)) bs
      (built-Configured net secrets cfgs bs vs hs),
)

find-capacity :
    (s t : State) (n : Text) {b : BackendState}
    → find t n ≡ some b
    → capacity (view t) n ≡ capacity (view s) n
    → (b0 : BackendState) × (find s n ≡ some b0)
      × (b.backend.max_inflight ≡ b0.backend.max_inflight)
unfolding view
find-capacity s t n here same = elim (Option-cases (find s n)) [
  | inl missing ↦ absurd (ground (arith, here, same, missing))
  | inr (b0, first) ↦ (b0, first, ground (arith, here, same, first))
]

module _ (parse_media_type : Text → Option Text) where
  -- For the server that runServe starts, after any requests and health results in any order, a
  -- backend of the state is one of the loaded configuration, and the number of requests that hold
  -- a slot of it is at most its max_inflight there, and at most 100000.
  pub start-in_capacity :
      (env : Environment) (path : Text) (st : Started) (t : System) (n : Text) (b : BackendState)
      → start env path ≡ ok st
      → Reach parse_media_type st.state t
      → find t.state n ≡ some b
      → (cfg : Config) × (load env.decode_yaml env.net (env.file_at path) ≡ ok cfg)
        × (i : ℕ) × (c : BackendConfig) × (get_elem? cfg.backends i ≡ some c)
        × (c.name ≡ n)
        × (pos (total t.calls n) ≤ℤ c.max_inflight)
        × (total t.calls n ≤ 100000)
  start-in_capacity env path st t n b e r here =
      let (cfg, loaded, ready) = start-ok env path st e in
      let (_, _, _, v) = (load_iff env.decode_yaml env.net (env.file_at path) cfg).0 loaded in
      let (m, sources) =
        new_state-Sourced (Configured env.net cfg.backends) cfg st.backends _ st.state
          (built-Configured env.net env.lookup_env cfg.backends st.backends v.backends
            ready.backends)
          ready.state in
      let inv = Reach-Inv parse_media_type ready.starts m r in
      let moves = Moved-capacity (Reach-Moved parse_media_type ready.starts m r) n in
      let (b0, first, same) = find-capacity st.state t.state n here moves in
      let (j, _, at) = find-eq-some st.state n first in
      let (i, c, there, w, named, room) = All-get_elem? _ st.state.order j sources at in
      let held : pos (total t.calls n) ≤ℤ c.max_inflight = rw (← (same ∙ room)) (
        omega (
          arith,
          find-InCapacity t.state n inv.valid here,
          inflight_of-find t.state n here,
          inv.counted n,
        )) in
      (
        cfg,
        loaded,
        i,
        c,
        there,
        sym named ∙ find-name st.state n ready.starts.valid first,
        held,
        omega (arith, held, w.max_inflight.1),
      )
