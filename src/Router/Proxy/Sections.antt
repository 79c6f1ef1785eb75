-- ===== src/Router/Proxy/Sections.antt =====
-- What one critical section of Serve does to the state and to the call.
use local_inference_router.Base.{
  ℕ, ◌+◌, ◌*◌, ◌≤◌, ◌<◌, Text, ◌≡◌, refl, ap, Bool, true, false, Option, none, some, List, [], ◌∷◌,
  arith, length, lookup, inr, ◌⊎◌,
}
use local_inference_router.Router.State.{Route, State}
use local_inference_router.Router.State.Valid.{IsValid, Routed}
use local_inference_router.Router.Operations.Slots.{inflight_of, slot}
use local_inference_router.Router.Operations.Keeps.{Keeps, metered}
use local_inference_router.Router.Proxy.{
  Call, Phase, starting, attempting, canceling, quarantining, abandoning, retrying, swapping,
  forwarding, releasing, finished, panicked, goto, try_route,
}
use local_inference_router.Router.Proxy.Untried.{untried, routes_of}

-- The route whose backend the call holds a slot of.
abbrev pub holds : Phase → Option Route
holds starting = none
holds (attempting r) = some r
holds (canceling r elapsed) = some r
holds (quarantining r e elapsed) = some r
holds (abandoning r e elapsed) = some r
holds (retrying e) = none
holds (swapping r resp reason) = some r
holds (forwarding r resp) = some r
holds (releasing r reply) = some r
holds (finished reply) = none
holds (panicked r) = some r

abbrev pub held : Option Route → Text → ℕ
held none n = 0
held (some r) n = slot r.backend.name n

-- The slots of a backend that a call holds: none or one.
abbrev pub share : Call → Text → ℕ
share c n = held (holds c.phase) n

abbrev pub OnRoute : State → Option Route → Type 0
OnRoute s none = Unit {0}
OnRoute s (some r) = Routed s.backends r

abbrev pub rank : Phase → ℕ
rank starting = 4
rank (attempting r) = 7
rank (canceling r elapsed) = 1
rank (quarantining r e elapsed) = 6
rank (abandoning r e elapsed) = 5
rank (retrying e) = 4
rank (swapping r resp reason) = 4
rank (forwarding r resp) = 2
rank (releasing r reply) = 1
rank (finished reply) = 0
rank (panicked r) = 0

abbrev pub is_finished : Phase → Bool
is_finished (finished reply) = true
is_finished _ = false

-- A request that returned or panicked.
abbrev pub is_over : Phase → Bool
is_over (finished reply) = true
is_over (panicked r) = true
is_over _ = false

-- A bound of the sections that are left, from a phase on.
abbrev pub left : State → Text → List ℕ → Phase → ℕ
left s alias attempted p = 8 * untried attempted (routes_of s alias) + rank p

unfoldable pub work : State → Call → ℕ
work s c = left s c.alias c.attempted c.phase

-- A section that begins in phase `p` keeps the state valid and the aliases as they are, and changes
-- the counts by what the call gives up and takes.
pub record Advanced (s s' : State) (c : Call) (p : Phase) (c' : Call) : Type 0 where
  pub valid : IsValid s'
  pub backends : s'.backends ≡ s.backends
  pub aliases : s'.aliases ≡ s.aliases
  pub metrics : metered s' ≡ metered s
  pub same_alias : c'.alias ≡ c.alias
  pub on_route : OnRoute s' (holds c'.phase)
  pub counts : (n : Text) → inflight_of s' n + held (holds p) n ≡ inflight_of s n + share c' n
  pub attempts :
      length c'.attempted + untried c'.attempted (routes_of s' c'.alias)
      ≤ length c.attempted + untried c.attempted (routes_of s c.alias)
  pub progress :
      (is_over p ≡ true) ⊎ (left s' c'.alias c'.attempted c'.phase < left s c.alias c.attempted p)

module _ (s s' : State) (c : Call) (p : Phase) (v : IsValid s') (k : Keeps s s') where
  OnRoute-Keeps : (o : Option Route) → OnRoute s o → OnRoute s' o
  OnRoute-Keeps none h = tt
  OnRoute-Keeps (some r) (i, at) = (i, rw k.backends at)

  routes_of-Keeps : (name : Text) → routes_of s' name ≡ routes_of s name
  routes_of-Keeps name = ap (λ m. elim (lookup name m) [ none ↦ [] | some a ↦ a.routes ]) k.aliases

  -- To a phase of a lower rank.
  pub goto-Advanced :
      (q : Phase)
      → OnRoute s (holds q)
      → ((n : Text) → inflight_of s' n + held (holds p) n ≡ inflight_of s n + held (holds q) n)
      → rank q < rank p
      → Advanced s s' c p (goto c q)
  goto-Advanced q on counted lower = record {
    valid = v;
    backends = k.backends;
    aliases = k.aliases;
    metrics = k.metrics;
    same_alias = refl;
    on_route = OnRoute-Keeps (holds q) on;
    counts = counted;
    attempts = rw (routes_of-Keeps c.alias) (omega arith);
    progress = inr (rw (routes_of-Keeps c.alias) (omega arith));
  }

  -- To an attempt on a route that was not attempted.
  pub try-Advanced :
      (r : Route)
      → OnRoute s (some r)
      → ((n : Text) → inflight_of s' n + held (holds p) n ≡ inflight_of s n + held (some r) n)
      → untried (r.address ∷ c.attempted) (routes_of s c.alias)
        < untried c.attempted (routes_of s c.alias)
      → 4 ≤ rank p
      → Advanced s s' c p (try_route c r)
  try-Advanced r on counted fewer high = record {
    valid = v;
    backends = k.backends;
    aliases = k.aliases;
    metrics = k.metrics;
    same_alias = refl;
    on_route = OnRoute-Keeps (some r) on;
    counts = counted;
    attempts = rw (routes_of-Keeps c.alias) (omega arith);
    progress = inr (rw (routes_of-Keeps c.alias) (omega arith));
  }
