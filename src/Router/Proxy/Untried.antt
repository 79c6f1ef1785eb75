-- ===== src/Router/Proxy/Untried.antt =====
-- The routes that a request has not attempted yet: the bound on its attempts.
use local_inference_router.Base.{
  ℕ, suc, ◌≤◌, ◌<◌, Text, ◌≡◌, refl, sym, false, none, some, List, [], ◌∷◌, ◌++◌, arith, contains,
  lookup, length, if◌then◌else◌, ◌==◌, ◌||◌, All, All-right,
}
use mathlib.Core.Path.{subst}
use local_inference_router.Router.State.{Route, State}
use local_inference_router.Router.State.Valid.{Routed}
use local_inference_router.Router.Select.Best.{IsBest}

unfoldable pub untried : List ℕ → List Route → ℕ
untried attempted [] = 0
untried attempted (q ∷ qs) =
    if contains attempted q.address then untried attempted qs else suc (untried attempted qs)

pub untried-le : (attempted : List ℕ) (qs : List Route) → untried attempted qs ≤ length qs
unfolding untried
untried-le attempted [] = omega arith
untried-le attempted (q ∷ qs) = ground (arith, untried-le attempted qs)

contains-cons :
    (attempted : List ℕ) (x a : ℕ) → contains (x ∷ attempted) a ≡ (a == x || contains attempted a)
unfolding contains
contains-cons attempted x a = refl

untried-cons_le :
    (attempted : List ℕ) (x : ℕ) (qs : List Route)
    → untried (x ∷ attempted) qs ≤ untried attempted qs
unfolding untried
untried-cons_le attempted x [] = omega arith
untried-cons_le attempted x (q ∷ qs) =
    ground (arith, contains-cons attempted x q.address, untried-cons_le attempted x qs)

untried-cons_lt :
    (attempted : List ℕ) (before : List Route) (r : Route) (after : List Route)
    → contains attempted r.address ≡ false
    → untried (r.address ∷ attempted) (before ++ r ∷ after)
      < untried attempted (before ++ r ∷ after)
unfolding untried
untried-cons_lt attempted [] r after fresh =
    ground (
      arith,
      contains-cons attempted r.address r.address,
      untried-cons_le attempted r.address after,
    )
untried-cons_lt attempted (q ∷ before) r after fresh = ground (
  arith,
  contains-cons attempted r.address q.address,
  untried-cons_lt attempted before r after fresh,
)

-- An attempt on the selected route leaves fewer routes to try.
pub untried-IsBest :
    (s : State) (attempted : List ℕ) (routes : List Route) (r : Route)
    → IsBest s attempted routes r
    → untried (r.address ∷ attempted) routes < untried attempted routes
untried-IsBest s attempted routes r best =
    subst (λ qs. untried (r.address ∷ attempted) qs < untried attempted qs) (sym best.split)
      (untried-cons_lt attempted best.before r best.after best.eligible.0)

-- The selected route is one of the alias.
pub All-IsBest :
    (P : Route → Type 0) (s : State) (attempted : List ℕ) (routes : List Route) (r : Route)
    → IsBest s attempted routes r
    → All P routes
    → P r
All-IsBest P s attempted routes r best h =
    (All-right P best.before (r ∷ best.after) (rw best.split at h)).0

-- So its backend is known.
pub IsBest-Routed :
    (backends : List (Text × ℕ)) (s : State) (attempted : List ℕ) (routes : List Route) (r : Route)
    → IsBest s attempted routes r
    → All (Routed backends) routes
    → Routed backends r
IsBest-Routed backends s attempted routes r best h =
    All-IsBest (Routed backends) s attempted routes r best h

-- The routes of an alias; none for an unknown one.
abbrev pub routes_of : State → Text → List Route
routes_of s name = elim (lookup name s.aliases) [ none ↦ [] | some a ↦ a.routes ]
