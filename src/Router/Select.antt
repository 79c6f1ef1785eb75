-- ===== src/Router/Select.antt =====
-- internal/router/select.go
pub mod Best
use local_inference_router.Base.{
  ℕ, pos, ltb, leb_ℤ, ltb_ℤ, Bool, not, ◌||◌, Option, none, some, List, [], ◌∷◌, contains,
  if◌then◌else◌, ◌>>=◌,
}
use mathlib.Core.Option
use local_inference_router.Router.State.{Route, BackendState, AliasState, State, find}

-- best, bestInflight; `none` is a nil best.
abbrev pub Best : Type 0
Best = Option (Route × ℕ)

-- The tail of the loop's body: the nil test and the switch.
prefer : BackendState → Route → Best → Best
prefer bs r none = some (r, bs.inflight)
prefer bs r (some (best, best_inflight)) =
    if ltb_ℤ r.priority best.priority
    then some (r, bs.inflight)
    else if ltb_ℤ best.priority r.priority
    then some (best, best_inflight)
    else if ltb bs.inflight best_inflight
    then some (r, bs.inflight)
    else some (best, best_inflight)

consider : BackendState → Route → Best → Best
consider bs r best =
    if not bs.checked || not bs.healthy
    then best
    else if leb_ℤ bs.backend.max_inflight (pos bs.inflight)
    then best
    else prefer bs r best

-- One round of the loop; `none` is the nil dereference of a backend that is not in the map.
unfoldable pub select_step : State → List ℕ → Best → Route → Option Best
unfolding consider prefer
select_step s attempted best r =
    if contains attempted r.address
    then some best
    else (find s r.backend.name >>= λ bs. some (consider bs r best))

pub select_loop : State → List ℕ → Best → List Route → Option Best
select_loop s attempted best [] = some best
select_loop s attempted best (r ∷ rs) = do
  next ← select_step s attempted best r
  select_loop s attempted next rs

-- attempted holds the addresses of the routes that the map holds.
unfoldable pub select_locked : State → AliasState → List ℕ → Option (Option Route)
unfolding select_loop
select_locked s alias attempted = do
  best ← select_loop s attempted none alias.routes
  some (Option.map (λ c. c.0) best)
