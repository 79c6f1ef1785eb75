-- ===== src/Router/System/Refines.antt =====
-- The requests and the health checks make the moves of the specification.
use local_inference_router.Base.{Text, ◌≡◌, refl, true, false, Option, arith, All-get_elem?}
use local_inference_router.Router.State.{State}
use local_inference_router.Router.State.Building.{Starts}
use local_inference_router.Router.Operations.Keeps.{metered}
use local_inference_router.Router.Proxy.{advance}
use local_inference_router.Router.System.{
  System, Step, arrives, advances, reports, Reach, begins, continues,
}
use local_inference_router.Router.System.Counts.{share-le-total}
use local_inference_router.Router.System.Safety.{Inv, Reach-Inv}
use local_inference_router.Router.State.Valid.{IsValid}
use local_inference_router.Router.Proxy.Leads.{Closed, advance_phase-Leads}
use local_inference_router.Router.Spec.{Move, Moved, unmoved, moved, view}
use local_inference_router.Router.Spec.Views.{
  view-publish, Move-refl, Move-same, reserve-Move, release-Move, set_health-Move, swap-Move,
}

moves-Closed : (s : State) → IsValid s → Closed s (λ t. Move (view s) (view t))
moves-Closed s v = record {
  here = Move-refl s s refl;
  published = λ f t m. Move-same (view-publish f t) m;
  reserved = λ name attempted s' res spec. reserve-Move name attempted s s' res spec;
  swapped =
      λ name r attempted s' res routed spec. swap-Move name r attempted s v routed s' res spec;
  released = λ r routed held. release-Move r s v routed held;
  quarantined = λ name. set_health-Move name false s v;
}

module _ (parse_media_type : Text → Option Text) where
  -- Every step of the router is a move.
  Step-Move :
      {t u : System} → Inv t → Step parse_media_type t u → Move (view t.state) (view u.state)
  unfolding advance
  Step-Move {t} inv (arrives alias flushable) = Move-refl t.state t.state refl
  Step-Move {t} inv (advances i c c' a s' at e) =
      advance_phase-Leads parse_media_type t.state (λ u. Move (view t.state) (view u))
        (moves-Closed t.state inv.valid) inv.valid c c.phase a
        (All-get_elem? _ t.calls i inv.on_route at)
        (λ n. omega (arith, inv.counted n, share-le-total t.calls i c n at)) s' c' e
  Step-Move {t} inv (reports name up) = set_health-Move name up t.state inv.valid

  -- The routing state refines its specification, a line with a capacity, a health and a count of
  -- lent slots for each backend name: in every system that a new state with metrics becomes, by
  -- arriving requests, critical sections of requests and health results in any order, the lines
  -- result from moves that lend a slot of a healthy line with a free slot, take a lent slot back,
  -- do the second and then the first in one move, or mark the health of a line, and nothing else.
  pub Reach-Moved :
      {s : State} {t : System}
      → Starts s
      → metered s ≡ true
      → Reach parse_media_type s t
      → Moved (view s) (view t.state)
  Reach-Moved start m begins = unmoved
  Reach-Moved start m (continues r st) =
      moved (Reach-Moved start m r) (Step-Move (Reach-Inv parse_media_type start m r) st)
