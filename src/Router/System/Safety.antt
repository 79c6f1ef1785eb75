-- ===== src/Router/System/Safety.antt =====
-- What holds of the routing state in every interleaving.
use local_inference_router.Base.{
  ℕ, ◌<◌, ◌⊎◌, pos, ◌≤ℤ◌, Text, Bool, ◌≡◌, sym, ◌∙◌, true, Option, none, some, [], ◌∷◌, arith,
  get_elem?, set, All, All-append, All-map, All-set, All-get_elem?, inl, inr, Option-cases,
}
use mathlib.Core.Path.{subst}
use mathlib.Core.Option.{some-injective}
use local_inference_router.Router.State.{Route, BackendState, State, find}
use local_inference_router.Router.State.Store.{find-eq-some}
use local_inference_router.Router.State.Valid.{IsValid, find-InCapacity}
use local_inference_router.Router.State.Building.{Starts, IsFresh}
use local_inference_router.Router.Operations.{set_health}
use local_inference_router.Router.Operations.Slots.{inflight_of, inflight_of-find}
use local_inference_router.Router.Operations.Keeps.{metered}
use local_inference_router.Router.Operations.Releases.{set_health-Reports}
use local_inference_router.Router.Proxy.{Call, Attempt, advance, start_call}
use local_inference_router.Router.Proxy.Sections.{
  holds, OnRoute, is_finished, is_over, Advanced, work,
}
use local_inference_router.Router.Proxy.Advance.{Steps}
use local_inference_router.Router.Proxy.Progress.{advance-Steps}
use local_inference_router.Router.System.{
  System, Step, arrives, advances, reports, Reach, begins, continues,
}
use local_inference_router.Router.System.Counts.{
  total, total-append, total-set, share-le-total, total-finished,
}

-- The count of each backend is the number of requests that hold a slot of it.
pub record Inv (t : System) : Type 0 where
  pub valid : IsValid t.state
  pub metrics : metered t.state ≡ true
  pub on_route : All (λ c. OnRoute t.state (holds c.phase)) t.calls
  pub counted : (n : Text) → inflight_of t.state n ≡ total t.calls n

OnRoute-same :
    (s s' : State) (o : Option Route) → s'.backends ≡ s.backends → OnRoute s o → OnRoute s' o
OnRoute-same s s' none e h = tt
OnRoute-same s s' (some r) e (i, at) = (i, rw e at)

start-OnRoute :
    (s : State) (alias : Text) (flushable : Bool)
    → OnRoute s (holds (start_call alias flushable).phase)
unfolding start_call
start-OnRoute s alias flushable = tt

start-total :
    (alias : Text) (flushable : Bool) (n : Text) → total (start_call alias flushable ∷ []) n ≡ 0
unfolding total start_call
start-total alias flushable n = omega arith

fresh-inflight_of : (s : State) (n : Text) → All IsFresh s.order → inflight_of s n ≡ 0
unfolding inflight_of
fresh-inflight_of s n fresh = elim (Option-cases (find s n)) [
  | inl missing ↦ rw (missing, inflight_of)
  | inr (b, here) ↦
      let (i, at, there) = find-eq-some s n here in
      rw (here, inflight_of) (All-get_elem? IsFresh s.order i fresh there).0
]

begins-Inv : (s : State) → Starts s → metered s ≡ true → Inv (record { state = s; calls = [] })
unfolding total
begins-Inv s start m = record {
  valid = start.valid;
  metrics = m;
  on_route = tt;
  counted = λ n. fresh-inflight_of s n start.fresh;
}

module _ (parse_media_type : Text → Option Text) where
  advances-Inv :
      (t : System) (i : ℕ) (c c' : Call) (s' : State)
      → Inv t
      → get_elem? t.calls i ≡ some c
      → Advanced t.state s' c c.phase c'
      → Inv (record { state = s'; calls = set t.calls i c' })
  advances-Inv t i c c' s' inv at a = record {
    valid = a.valid;
    metrics = a.metrics ∙ inv.metrics;
    on_route =
        All-set _ t.calls i c'
          (All-map _ _ (λ d. OnRoute-same t.state s' (holds d.phase) a.backends) t.calls
            inv.on_route)
          a.on_route;
    counted = λ n. omega (arith, a.counts n, inv.counted n, total-set t.calls i c c' n at);
  }

  pub advance-some :
      (t : System) (i : ℕ) (c : Call) (a : Attempt)
      → Inv t
      → get_elem? t.calls i ≡ some c
      → Steps t.state c c.phase (advance parse_media_type c a t.state)
  advance-some t i c a inv at =
      advance-Steps parse_media_type c a t.state inv.valid inv.metrics
        (All-get_elem? _ t.calls i inv.on_route at)
        (λ n. omega (arith, inv.counted n, share-le-total t.calls i c n at))

  -- Every step keeps the invariant.
  pub Step-Inv : {t u : System} → Step parse_media_type t u → Inv t → Inv u
  Step-Inv {t} (arrives alias flushable) inv = record {
    valid = inv.valid;
    metrics = inv.metrics;
    on_route = All-append _ t.calls _ inv.on_route (start-OnRoute t.state alias flushable, tt);
    counted = λ n. omega (
      arith,
      inv.counted n,
      total-append t.calls (start_call alias flushable ∷ []) n,
      start-total alias flushable n,
    );
  }
  Step-Inv {t} (advances i c c' a s' at e) inv =
      let (s1, c1, e1, adv) = advance-some t i c a inv at in
      advances-Inv t i c c' s' inv at (
        subst (λ (p : State × Call). Advanced t.state p.0 c c.phase p.1)
          (some-injective _ _ (sym e1 ∙ e)) adv)
  Step-Inv {t} (reports name up) inv =
      let done = set_health-Reports name up t.state inv.valid in
      record {
        valid = done.valid;
        metrics = done.metrics ∙ inv.metrics;
        on_route =
            All-map _ _
              (λ d. OnRoute-same t.state (set_health name up t.state) (holds d.phase) done.backends)
              t.calls inv.on_route;
        counted = λ n. done.counts n ∙ inv.counted n;
      }

  -- So it holds of every system that a new state becomes.
  pub Reach-Inv :
      {s : State} {t : System} → Starts s → metered s ≡ true → Reach parse_media_type s t → Inv t
  Reach-Inv {s} start m begins = begins-Inv s start m
  Reach-Inv start m (continues r st) = Step-Inv st (Reach-Inv start m r)

  -- In every system that a new state with metrics becomes by arriving requests, critical sections
  -- of requests and health results in any order, the count of a backend is the number of requests
  -- that hold a slot of it, and is at most its max_inflight.
  pub requests-in_capacity :
      {s : State} {t : System} (n : Text) (b : BackendState)
      → Starts s
      → metered s ≡ true
      → Reach parse_media_type s t
      → find t.state n ≡ some b
      → (b.inflight ≡ total t.calls n) × (pos (total t.calls n) ≤ℤ b.backend.max_inflight)
  requests-in_capacity {t} n b start m r here =
      let inv = Reach-Inv start m r in
      let same = sym (inflight_of-find t.state n here) ∙ inv.counted n in
      (same, rw (← same) (find-InCapacity t.state n inv.valid here))

  -- In every system that a new state with metrics becomes, when all requests have returned, no
  -- backend has a reservation.
  pub finished-inflight_of :
      {s : State} {t : System} (n : Text)
      → Starts s
      → metered s ≡ true
      → Reach parse_media_type s t
      → All (λ c. is_finished c.phase ≡ true) t.calls
      → inflight_of t.state n ≡ 0
  finished-inflight_of {t} n start m r over =
      (Reach-Inv start m r).counted n ∙ total-finished t.calls n over

  -- In every system that a new state with metrics becomes, the next critical section of a request
  -- ends without a nil dereference, and the bound of the sections that the request has left gets
  -- smaller unless it has returned or panicked in WriteHeader.
  pub next-left :
      {s : State} {t : System} (i : ℕ) (c : Call) (a : Attempt)
      → Starts s
      → metered s ≡ true
      → Reach parse_media_type s t
      → get_elem? t.calls i ≡ some c
      → (s' : State) × (c' : Call) × (advance parse_media_type c a t.state ≡ some (s', c'))
        × ((is_over c.phase ≡ true) ⊎ (work s' c' < work t.state c))
  unfolding work
  next-left {t} i c a start m r at =
      let (s', c', e, adv) = advance-some t i c a (Reach-Inv start m r) at in
      (s', c', e, adv.progress)
