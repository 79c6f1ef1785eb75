-- ===== src/Router/Operations/Releases.antt =====
-- What Release and SetHealth do to a valid state.
use local_inference_router.Base.{
  ◌-◌, Text, ◌≡◌, refl, ap, ◌∙◌, inl, inr, Bool, none, some, arith, Option-cases, Bool-cases, ltb,
  text_eq_iff, text_eq_refl, ◌≢◌, true, false,
}
use local_inference_router.Router.State.{Route, BackendState, State, find, put, publish}
use local_inference_router.Router.State.Store.{find-put, find-publish}
use local_inference_router.Router.State.Store.{
  put-backends, put-aliases, put-alias_order, put-metrics,
}
use local_inference_router.Router.State.Valid.{
  IsValid, Routed, find_of_Routed, publish-IsValid, put-IsValid, find-InCapacity,
}
use local_inference_router.Metrics.{set_inflight, set_healthy}
use local_inference_router.Router.Operations.{release, set_health}
use local_inference_router.Router.Operations.Slots.{
  inflight_of, slot, with_inflight, inflight_of-publish, inflight_of-put, inflight_of-find,
  free-IsValid, free-inflight_of,
}
use local_inference_router.Router.Operations.Keeps.{
  Keeps, Keeps-trans, publish-Keeps, put-Keeps, metered, publish-metered,
}

pub record Releases (s s' : State) (route : Route) : Type 0 where
  pub valid : IsValid s'
  pub keeps : Keeps s s'
  pub counts : (n : Text) → inflight_of s' n ≡ inflight_of s n - slot route.backend.name n

release-some :
    (route : Route) (s : State) {b : BackendState}
    → find s route.backend.name ≡ some b
    → release (some route) s
      ≡ publish
          (set_inflight route.backend.name (b.inflight - 1))
          (put s route.backend.name (with_inflight b (b.inflight - 1)))
unfolding release
release-some route s {b} here = elim (Bool-cases (ltb 0 b.inflight)) [
  | inl held ↦ rw (here, release, held)
  | inr idle ↦
      let gone : b.inflight - 1 ≡ b.inflight = ground arith in rw (here, release, idle, gone)
]

-- On a valid state Release of a route whose backend is in the map takes one from the count of
-- that backend, where it is positive, changes no other count, no health flag and no alias, and
-- keeps the state valid.
pub release-Releases :
    (route : Route) (s : State)
    → IsValid s
    → Routed s.backends route
    → Releases s (release (some route) s) route
release-Releases route s v routed =
    let (b, here, _) = find_of_Routed s route v routed in
    let freed : State = put s route.backend.name (with_inflight b (b.inflight - 1)) in
    rw (release-some route s here) (record {
      valid = publish-IsValid _ freed (free-IsValid s route.backend.name b v here);
      keeps =
          Keeps-trans (put-Keeps s route.backend.name b (b.inflight - 1) v.injective here)
            (publish-Keeps _ freed);
      counts =
          λ n. inflight_of-publish _ freed n ∙ free-inflight_of s route.backend.name b v here n;
    })

-- What a health result changes: the flags of one backend.
pub record Reports (s s' : State) (name : Text) (up : Bool) : Type 0 where
  pub valid : IsValid s'
  pub backends : s'.backends ≡ s.backends
  pub aliases : s'.aliases ≡ s.aliases
  pub alias_order : s'.alias_order ≡ s.alias_order
  pub metrics : metered s' ≡ metered s
  pub reported :
      (b : BackendState)
      → find s name ≡ some b
      → find s' name ≡ some (record b { checked = true; healthy = up })
  pub others : (n : Text) → n ≢ name → find s' n ≡ find s n
  pub counts : (n : Text) → inflight_of s' n ≡ inflight_of s n

set_health-some :
    (name : Text) (up : Bool) (s : State) {b : BackendState}
    → find s name ≡ some b
    → set_health name up s
      ≡ publish (set_healthy name up) (put s name (record b { checked = true; healthy = up }))
unfolding set_health
set_health-some name up s here = rw (here, set_health)

pub set_health-none :
    (name : Text) (up : Bool) (s : State) → find s name ≡ none → set_health name up s ≡ s
unfolding set_health
set_health-none name up s missing = rw (missing, set_health)

-- On a valid state SetHealth marks the named backend, if it is in the map, as checked with the
-- given health, and changes no other backend, no count and no alias.
pub set_health-Reports :
    (name : Text) (up : Bool) (s : State) → IsValid s → Reports s (set_health name up s) name up
unfolding publish
set_health-Reports name up s v = elim (Option-cases (find s name)) [
  | inl missing ↦ rw (set_health-none name up s missing) (record {
    valid = v;
    backends = refl;
    aliases = refl;
    alias_order = refl;
    metrics = refl;
    reported = λ b here. cc;
    others = λ n ne. refl;
    counts = λ n. refl;
  })
  | inr (b, here) ↦
      let flagged : BackendState = record b { checked = true; healthy = up } in
      let written : State = put s name flagged in
      rw (set_health-some name up s here) (record {
        valid =
            publish-IsValid _ written
              (put-IsValid s name flagged v here refl (find-InCapacity s name v here));
        backends = put-backends s name flagged;
        aliases = put-aliases s name flagged;
        alias_order = put-alias_order s name flagged;
        metrics =
            publish-metered _ written
            ∙ ap (λ m. elim m [ none ↦ false | some x ↦ true ]) (put-metrics s name flagged);
        reported = λ b' here'.
            find-publish _ written name
            ∙ ground (arith, find-put s name name flagged v.injective here, text_eq_refl name);
        others = λ n ne.
            find-publish _ written n
            ∙ ground (arith, find-put s name n flagged v.injective here, text_eq_iff name n);
        counts = λ n.
            inflight_of-publish _ written n
            ∙ ground (
              arith,
              inflight_of-put s name n flagged v.injective here,
              inflight_of-find s name here,
              text_eq_iff name n,
            );
      })
]
