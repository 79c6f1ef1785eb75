-- ===== src/Router/Spec/Views.antt =====
-- How the operations of the routing state move its view.
use local_inference_router.Base.{
  ℕ, suc, ◌+◌, ◌-◌, ◌<◌, Text, text_eq, text_eq_iff, ◌≡◌, refl, ap, sym, ◌∙◌, Bool, some, List,
  if◌then◌else◌, arith, Option-cases, Bool-cases, inl, inr,
}
use mathlib.Core.Option
use local_inference_router.Metrics.{Metrics}
use local_inference_router.Router.State.{Route, BackendState, State, find, publish}
use local_inference_router.Router.State.Store.{find-publish}
use local_inference_router.Router.State.Valid.{IsValid, Routed, find_of_Routed}
use local_inference_router.Router.Select.Best.{HasRoom}
use local_inference_router.Router.Operations.{Reservation, release, set_health}
use local_inference_router.Router.Operations.Slots.{
  inflight_of, inflight_of-find, slot, free-inflight_of,
}
use local_inference_router.Router.Operations.Keeps.{
  Keeps, put-Keeps, Keeps-trans, Keeps-refl, Keeps-sym,
}
use local_inference_router.Router.Operations.Reserves.{Reserves, no_alias, nowhere, reserved}
use local_inference_router.Router.Operations.Swaps.{
  Swaps, no_alias, not_held, nowhere, moved, vacated, Moves,
}
use local_inference_router.Router.Operations.Releases.{
  release-Releases, set_health-Reports, set_health-none,
}
use local_inference_router.Router.Spec.{
  View, retaken, Open, Changed, Move, keep, lend, regain, transfer, mark, line, view,
}

pub view-publish : (f : Metrics → Metrics) (s : State) (n : Text) → view (publish f s) n ≡ view s n
unfolding view
view-publish f s n = rw (find-publish f s n, view)

pub view-find :
    (s : State) (n : Text) {b : BackendState} → find s n ≡ some b → view s n ≡ some (line b)
unfolding view
view-find s n here = rw (here, view)

-- What an operation keeps but the count.
view-Keeps :
    (s s' : State) (n : Text)
    → Keeps s s'
    → view s' n ≡ Option.map (λ l. retaken l (inflight_of s' n)) (view s n)
unfolding view inflight_of
view-Keeps s s' n k = ground (arith, k.profiles n)

pub recounted :
    (s s' : State) (n : Text) (b : BackendState) (k : ℕ)
    → Keeps s s'
    → find s n ≡ some b
    → ((m : Text) → inflight_of s' m ≡ (if text_eq n m then k else inflight_of s m))
    → Changed n (retaken (line b) k) (view s) (view s')
unfolding view inflight_of
recounted s s' n b k keeps here counts m =
    ground (arith, view-Keeps s s' m keeps, counts m, here, text_eq_iff n m)

HasRoom-Open : (b : BackendState) → HasRoom b → Open (line b)
HasRoom-Open b (checked, healthy, room) = (rw (checked, healthy) refl, room)

lent :
    (s s' : State) (n : Text)
    → Keeps s s'
    → (b : BackendState) → find s n ≡ some b
    → ((m : Text) → inflight_of s' m ≡ inflight_of s m + slot n m)
    → Changed n (retaken (line b) (suc b.inflight)) (view s) (view s')
lent s s' n keeps b here counts =
    recounted s s' n b (suc b.inflight) keeps here
      (λ m. ground (arith, counts m, inflight_of-find s n here, text_eq_iff n m))

regained :
    (s s' : State) (n : Text)
    → Keeps s s'
    → (b : BackendState) → find s n ≡ some b
    → ((m : Text) → inflight_of s' m ≡ inflight_of s m - slot n m)
    → Changed n (retaken (line b) (b.inflight - 1)) (view s) (view s')
regained s s' n keeps b here counts =
    recounted s s' n b (b.inflight - 1) keeps here
      (λ m. ground (arith, counts m, inflight_of-find s n here, text_eq_iff n m))

pub Move-refl : (s s' : State) → s' ≡ s → Move (view s) (view s')
Move-refl s s' e = keep (λ n. rw e)

-- A move, up to the equality of all lines.
pub Move-same : {v w w' : View} → ((n : Text) → w' n ≡ w n) → Move v w → Move v w'
Move-same e (keep same) = keep (λ n. e n ∙ same n)
Move-same e (lend n l at room to) = lend n l at room (λ m. e m ∙ to m)
Move-same e (regain n l at held to) = regain n l at held (λ m. e m ∙ to m)
Move-same e (transfer n p l k u at held to at_p room to_p) =
    transfer n p l k u at held to at_p room (λ m. e m ∙ to_p m)
Move-same e (mark n l up at to) = mark n l up at (λ m. e m ∙ to m)

pub reserve-Move :
    (name : Text) (attempted : List ℕ) (s s' : State) (res : Reservation)
    → Reserves name attempted s s' res
    → Move (view s) (view s')
reserve-Move name attempted s s' res (no_alias unknown e) = Move-refl s s' e
reserve-Move name attempted s s' res (nowhere a known unfit e) = Move-refl s s' e
reserve-Move name attempted s s' res (reserved a r known best g) =
    let (fresh, (b, here, room)) = best.eligible in
    lend r.backend.name (line b) (view-find s r.backend.name here) (HasRoom-Open b room)
      (lent s s' r.backend.name g.keeps b here g.counts)

pub release-Move :
    (r : Route) (s : State)
    → IsValid s
    → Routed s.backends r
    → 0 < inflight_of s r.backend.name
    → Move (view s) (view (release (some r) s))
release-Move r s v routed held =
    let (b, here, _) = find_of_Routed s r v routed in
    let done = release-Releases r s v routed in
    regain r.backend.name (line b) (view-find s r.backend.name here)
      (omega (arith, inflight_of-find s r.backend.name here))
      (regained s (release (some r) s) r.backend.name done.keeps b here done.counts)

pub set_health-Move :
    (name : Text) (up : Bool) (s : State) → IsValid s → Move (view s) (view (set_health name up s))
unfolding view
set_health-Move name up s v =
    let done = set_health-Reports name up s v in
    elim (Option-cases (find s name)) [
      | inl missing ↦ Move-refl s (set_health name up s) (set_health-none name up s missing)
      | inr (b, here) ↦ mark name (line b) up (view-find s name here) (λ m.
          elim (Bool-cases (text_eq name m)) [
            | inl same ↦
                rw (same, ← (text_eq_iff name m).0 same)
                  (view-find (set_health name up s) name (done.reported b here))
            | inr other ↦
                rw (other, view, done.others m (λ p. cc (other, (text_eq_iff name m).1 (sym p))))
          ])
    ]

module _ (name : Text) (current : Route) (attempted : List ℕ) (s : State) (v : IsValid s)
    (routed : Routed s.backends current) where
  -- The two halves of a swap, through the state in which the current slot is given up.
  moved-Move :
      (s' : State) (r : Route) (b c : BackendState)
      → find s current.backend.name ≡ some b
      → 0 < b.inflight
      → find (vacated s current.backend.name) r.backend.name ≡ some c
      → HasRoom c
      → Moves s s' current r
      → Move (view s) (view s')
  moved-Move s' r b c here held there room g =
      let freed : State = vacated s current.backend.name in
      let frees : (m : Text) → inflight_of freed m ≡ inflight_of s m - slot current.backend.name m =
        λ m. rw (here, vacated) (free-inflight_of s current.backend.name b v here m) in
      let kept : Keeps s freed =
        rw (here, vacated) (put-Keeps s current.backend.name b (b.inflight - 1) v.injective here) in
      transfer current.backend.name r.backend.name (line b) (line c) (view freed)
        (view-find s current.backend.name here) held
        (regained s freed current.backend.name kept b here frees)
        (view-find freed r.backend.name there) (HasRoom-Open c room)
        (lent freed s' r.backend.name (Keeps-trans (Keeps-sym kept) g.keeps) c there (λ m. ground (
          arith,
          g.counts m,
          frees m,
          inflight_of-find s current.backend.name here,
          text_eq_iff current.backend.name m,
        )))

  pub swap-Move :
      (s' : State) (res : Reservation)
      → Swaps name current attempted s s' res
      → Move (view s) (view s')
  swap-Move s' res (no_alias unknown e) = Move-refl s s' e
  swap-Move s' res (not_held a known free e) = Move-refl s s' e
  swap-Move s' res (nowhere a known held unfit back) = keep (λ n.
      view-Keeps s s' n back.keeps
      ∙ ap (λ k. Option.map (λ l. retaken l k) (view s n)) (back.counts n)
      ∙ sym (view-Keeps s s n (Keeps-refl s)))
  swap-Move s' res (moved a r known held best g) =
      let (b, here, _) = find_of_Routed s current v routed in
      let (fresh, (c, there, room)) = best.eligible in
      moved-Move s' r b c here (omega (arith, inflight_of-find s current.backend.name here)) there
        room g
