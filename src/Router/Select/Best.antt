-- ===== src/Router/Select/Best.antt =====
-- The choice of a route, against its specification: the first of the best eligible routes.
mod Ranking
pub use Ranking.*
use local_inference_router.Base.{
  ℕ, pos, ◌<◌, ◌<ℤ◌, eq_of_parts, ◌≡◌, refl, sym, ◌⊎◌, inl, inr, true, false, Option, none, some,
  List, [], ◌∷◌, ◌++◌, append_assoc, append-nil, arith, contains, Bool-cases, >>=-eq-some, All,
  All-append, All-map,
}
use mathlib.Core.Path.{subst}
use mathlib.Core.Option.{map, some-injective}
use local_inference_router.Router.State.{Route, BackendState, AliasState, State, find}
use local_inference_router.Router.Select.{
  Best, prefer, consider, select_step, select_loop, select_locked,
}

load_of_find :
    (s : State) (r : Route) {b : BackendState}
    → find s r.backend.name ≡ some b
    → load s r ≡ b.inflight
load_of_find s r found = rw (found, load)

module _ (s : State) (attempted : List ℕ) where
  -- What a round of the loop does with a route.
  data Round (best next : Best) (r : Route) : Type 0 where
    passed : ¬ Eligible s attempted r → next ≡ best → Round best next r
    weighed :
        (b : BackendState)
        → Eligible s attempted r
        → load s r ≡ b.inflight
        → next ≡ prefer b r best
        → Round best next r

  consider-Round :
      (best next : Best) (r : Route) (b : BackendState)
      → contains attempted r.address ≡ false
      → find s r.backend.name ≡ some b
      → consider b r best ≡ next
      → (HasRoom b × (next ≡ prefer b r best)) ⊎ ((¬ HasRoom b) × (next ≡ best))
  unfolding consider
  consider-Round best next r b fresh found e = ground arith

  step-Round :
      (best next : Best) (r : Route)
      → select_step s attempted best r ≡ some next
      → Round best next r
  unfolding select_step
  step-Round best next r e = elim (Bool-cases (contains attempted r.address)) [
    | inl old ↦ passed (λ h. cc (h.0, old)) (ground arith)
    | inr fresh ↦
        let (b, found, e') = >>=-eq-some (find s r.backend.name) _ (rw fresh at e) in
        elim (consider-Round best next r b fresh found (ground (arith, e'))) [
          | inl (room, e'') ↦ weighed b (fresh, (b, found, room)) (load_of_find s r found) e''
          | inr (full, e'') ↦
              passed (λ (_, (c, found', room)). full (ground (arith, found, found', room))) e''
        ]
  ]

  Better-trans : (p q r : Route) → Better s p q → Better s q r → Better s p r
  Better-trans p q r h k = ground arith

  Better-of_not : (p q r : Route) → Better s p q → ¬ Better s r q → Better s p r
  Better-of_not p q r h k =
      ground (arith, eq_of_parts p.priority q.priority, eq_of_parts r.priority q.priority)

  -- The best of a prefix stays the best when the next route is not better.
  keep-IsBest :
      (seen : List Route) (q r : Route)
      → IsBest s attempted seen r
      → (Eligible s attempted q → ¬ Better s q r)
      → IsBest s attempted (seen ++ q ∷ []) r
  keep-IsBest seen q r best worse = record {
    before = best.before;
    after = best.after ++ q ∷ [];
    split = rw best.split (append_assoc best.before (r ∷ best.after) (q ∷ []));
    eligible = best.eligible;
    earlier = best.earlier;
    later = All-append _ best.after (q ∷ []) best.later (worse, tt);
  }

  -- A better route is the best of the prefix that ends with it.
  replace-IsBest :
      (seen : List Route) (q r : Route)
      → IsBest s attempted seen r
      → Eligible s attempted q
      → Better s q r
      → IsBest s attempted (seen ++ q ∷ []) q
  replace-IsBest seen q r best fit better = record {
    before = seen;
    after = [];
    split = refl;
    eligible = fit;
    earlier = rw best.split (
        All-append _ best.before (r ∷ best.after)
          (All-map _ _ (λ x h k. Better-trans q r x better (h k)) best.before best.earlier)
          (
            λ _. better,
            All-map _ _ (λ x h k. Better-of_not q r x better (h k)) best.after best.later,
          ));
    later = tt;
  }

  -- The loop's variables after a prefix of the routes.
  abbrev Chosen : List Route → Best → Type 0
  Chosen seen none = All (λ q. ¬ Eligible s attempted q) seen
  Chosen seen (some (r, l)) = IsBest s attempted seen r × (l ≡ load s r)

  prefer-cases :
      (b : BackendState) (q r : Route) (l : ℕ)
      → load s q ≡ b.inflight
      → l ≡ load s r
      → ((prefer b q (some (r, l)) ≡ some (q, b.inflight)) × Better s q r)
        ⊎ ((prefer b q (some (r, l)) ≡ some (r, l)) × (¬ Better s q r))
  unfolding prefer
  prefer-cases b q r l at l_is =
      ground (arith, eq_of_parts q.priority r.priority, eq_of_parts r.priority q.priority)

  prefer-Chosen :
      (seen : List Route) (b : BackendState) (q : Route) (best : Best)
      → Eligible s attempted q
      → load s q ≡ b.inflight
      → Chosen seen best
      → Chosen (seen ++ q ∷ []) (prefer b q best)
  unfolding prefer
  prefer-Chosen seen b q none fit at c = (
    record {
      before = seen;
      after = [];
      split = refl;
      eligible = fit;
      earlier = All-map _ _ (λ x h k. absurd (h k)) seen c;
      later = tt;
    },
    sym at,
  )
  prefer-Chosen seen b q (some (r, l)) fit at (best, l_is) = elim (prefer-cases b q r l at l_is) [
    | inl (e, better) ↦ rw e (replace-IsBest seen q r best fit better, sym at)
    | inr (e, worse) ↦ rw e (keep-IsBest seen q r best (λ _. worse), l_is)
  ]

  pass-Chosen :
      (seen : List Route) (q : Route) (best : Best)
      → ¬ Eligible s attempted q
      → Chosen seen best
      → Chosen (seen ++ q ∷ []) best
  pass-Chosen seen q none unfit c = All-append _ seen (q ∷ []) c (unfit, tt)
  pass-Chosen seen q (some (r, l)) unfit (best, at) =
      (keep-IsBest seen q r best (λ fit. absurd (unfit fit)), at)

  step-Chosen :
      (seen : List Route) (best next : Best) (q : Route)
      → Chosen seen best
      → Round best next q
      → Chosen (seen ++ q ∷ []) next
  step-Chosen seen best next q c (passed unfit e) = rw e (pass-Chosen seen q best unfit c)
  step-Chosen seen best next q c (weighed b fit at e) = rw e (prefer-Chosen seen b q best fit at c)

  loop-Chosen :
      (routes seen : List Route) (best last : Best)
      → Chosen seen best
      → select_loop s attempted best routes ≡ some last
      → Chosen (seen ++ routes) last
  unfolding select_loop
  loop-Chosen [] seen best last c e = ground (arith, append-nil seen, c)
  loop-Chosen (q ∷ routes) seen best last c e =
      let (next, stepped, rest) = >>=-eq-some (select_step s attempted best q) _ e in
      rw (← append_assoc seen (q ∷ []) routes) (
        loop-Chosen routes (seen ++ q ∷ []) next last
          (step-Chosen seen best next q c (step-Round best next q stepped)) rest)

  Selects-of_Chosen :
      (routes : List Route) (best : Best)
      → Chosen routes best
      → Selects s attempted routes (map (λ c. c.0) best)
  Selects-of_Chosen routes none c = c
  Selects-of_Chosen routes (some (r, l)) c = c.0

  -- If the selection returns without a nil dereference, a returned route is eligible (not
  -- attempted, its backend checked, healthy and below capacity), strictly better than each
  -- eligible route before it in the configuration, and no eligible route after it is better; if
  -- it returns no route, none is eligible. Better is a lower priority value, then fewer
  -- reservations.
  pub select_locked-Selects :
      (alias : AliasState) (chosen : Option Route)
      → select_locked s alias attempted ≡ some chosen
      → Selects s attempted alias.routes chosen
  unfolding select_locked
  select_locked-Selects alias chosen e =
      let (best, looped, same) = >>=-eq-some (select_loop s attempted none alias.routes) _ e in
      subst (Selects s attempted alias.routes) (some-injective _ _ same)
        (Selects-of_Chosen alias.routes best (loop-Chosen alias.routes [] none best tt looped))

  step_total :
      (best : Best) (r : Route) {b : BackendState}
      → find s r.backend.name ≡ some b
      → (next : Best) × (select_step s attempted best r ≡ some next)
  unfolding select_step
  step_total best r {b} found = elim (Bool-cases (contains attempted r.address)) [
    | inl old ↦ (best, rw old)
    | inr fresh ↦ (consider b r best, rw (fresh, found))
  ]

  loop_total :
      (routes : List Route) (best : Best)
      → All (Found s) routes
      → (last : Best) × (select_loop s attempted best routes ≡ some last)
  unfolding select_loop
  loop_total [] best h = (best, refl)
  loop_total (r ∷ routes) best (here, h) =
      let (next, stepped) = step_total best r here.1 in
      let (last, looped) = loop_total routes next h in (last, rw stepped looped)

  -- The selection dereferences no nil when each route's backend is there.
  pub select_locked_total :
      (alias : AliasState)
      → All (Found s) alias.routes
      → (chosen : Option Route) × (select_locked s alias attempted ≡ some chosen)
  unfolding select_locked
  select_locked_total alias h =
      let (last, looped) = loop_total alias.routes none h in (map (λ c. c.0) last, rw looped)
