-- ===== src/Router/Proxy/Dims.antt =====
-- The sections of Serve bring no backend up.
use local_inference_router.Base.{
  ℕ, Text, text_eq, text_eq_iff, ◌≡◌, sym, ap, ◌∙◌, ◌≢◌, Bool, true, false, some, List, arith,
  Option-cases, Bool-cases, inl, inr,
}
use mathlib.Core.Path.{subst}
use mathlib.Core.Option.{some-injective}
use local_inference_router.Router.State.{Route, BackendState, State, find}
use local_inference_router.Router.State.Store.{find-publish}
use local_inference_router.Router.State.Valid.{IsValid}
use local_inference_router.Router.Operations.{Reservation, set_health}
use local_inference_router.Router.Operations.Keeps.{Keeps}
use local_inference_router.Router.Operations.Reserves.{Reserves, no_alias, nowhere, reserved}
use local_inference_router.Router.Operations.Swaps.{Swaps, no_alias, not_held, nowhere, moved}
use local_inference_router.Router.Operations.Releases.{
  release-Releases, set_health-Reports, set_health-none,
}
use local_inference_router.Router.Proxy.Leads.{Closed}

-- The backend of a name is checked and healthy.
abbrev pub IsUp : State → Text → Type 0
IsUp s n = (b : BackendState) × (find s n ≡ some b) × (b.checked ≡ true) × (b.healthy ≡ true)

-- No backend is up but those that were.
abbrev pub Dims : State → State → Type 0
Dims s s' = (n : Text) → IsUp s' n → IsUp s n

same-Dims : (s s' : State) → s' ≡ s → Dims s s'
same-Dims s s' e n up = subst (λ t. IsUp t n) e up

pub Keeps-Dims : (s s' : State) → Keeps s s' → Dims s s'
Keeps-Dims s s' k n (b, here, checked, healthy) = elim (Option-cases (find s n)) [
  | inl missing ↦ absurd (ground (arith, k.profiles n, here, missing))
  | inr (b0, there) ↦
      let same = k.profiles n in
      (
        b0,
        there,
        ground (arith, same, here, there, checked),
        ground (arith, same, here, there, healthy),
      )
]

-- A health result of another name changes nothing.
pub set_health-others :
    (name : Text) (up : Bool) (s : State) (n : Text)
    → IsValid s
    → n ≢ name
    → IsUp (set_health name up s) n
    → IsUp s n
set_health-others name up s n v other (b, here, checked, healthy) =
    (b, sym ((set_health-Reports name up s v).others n other) ∙ here, checked, healthy)

-- A backend that is reported down is not up.
pub set_health-down : (name : Text) (s : State) → IsValid s → ¬ IsUp (set_health name false s) name
set_health-down name s v (b, here, checked, healthy) = elim (Option-cases (find s name)) [
  | inl missing ↦
      let same = set_health-none name false s missing in
      cc (here, missing, ap (λ t. find t name) same)
  | inr (b0, there) ↦
      let reported = (set_health-Reports name false s v).reported b0 there in
      cc (healthy, ap (λ x. x.healthy) (some-injective _ _ (sym reported ∙ here)))
]

set_health-Dims : (name : Text) (s : State) → IsValid s → Dims s (set_health name false s)
set_health-Dims name s v n up = elim (Bool-cases (text_eq n name)) [
  | inl same ↦ absurd (
      set_health-down name s v
        (subst (IsUp (set_health name false s)) ((text_eq_iff n name).0 same) up))
  | inr other ↦ set_health-others name false s n v (λ e. cc (other, (text_eq_iff n name).1 e)) up
]

reserve-Dims :
    (s : State) (name : Text) (attempted : List ℕ) (s' : State) (res : Reservation)
    → Reserves name attempted s s' res
    → Dims s s'
reserve-Dims s name attempted s' res (no_alias _ e) = same-Dims s s' e
reserve-Dims s name attempted s' res (nowhere _ _ _ e) = same-Dims s s' e
reserve-Dims s name attempted s' res (reserved _ _ _ _ g) = Keeps-Dims s s' g.keeps

swap-Dims :
    (name : Text) (r : Route) (attempted : List ℕ) (s s' : State) (res : Reservation)
    → Swaps name r attempted s s' res
    → Dims s s'
swap-Dims name r attempted s s' res (no_alias _ e) = same-Dims s s' e
swap-Dims name r attempted s s' res (not_held _ _ _ e) = same-Dims s s' e
swap-Dims name r attempted s s' res (nowhere _ _ _ _ back) = Keeps-Dims s s' back.keeps
swap-Dims name r attempted s s' res (moved _ _ _ _ _ g) = Keeps-Dims s s' g.keeps

pub Dims-Closed : (s : State) → IsValid s → Closed s (Dims s)
Dims-Closed s v = record {
  here = λ n up. up;
  published = λ f t d n (b, here, checked, healthy).
      d n (b, sym (find-publish f t n) ∙ here, checked, healthy);
  reserved = reserve-Dims s;
  swapped = λ name r attempted s' res routed spec. swap-Dims name r attempted s s' res spec;
  released = λ r routed held. Keeps-Dims s _ (release-Releases r s v routed).keeps;
  quarantined = λ name. set_health-Dims name s v;
}
