-- ===== src/Router/System/Labelling.antt =====
-- The labels of the metrics, in every interleaving.
use local_inference_router.Base.{
  ℕ, Text, Bool, true, ◌≡◌, refl, ap, sym, pos, ◌≤ℤ◌, All-of_all, ◌∙◌, Option, some, List, [], set,
  All, All-append, All-map, All-set, All-get_elem?,
}
use mathlib.Core.Option.{some-injective}
use local_inference_router.Config.{Config}
use local_inference_router.Backend.{Backend}
use local_inference_router.Router.State.Labelling.{new_state-AllLabelled}
use local_inference_router.Router.State.Sources.{new_state-Sourced}
use local_inference_router.Metrics.{Metrics}
use local_inference_router.Router.State.{AliasState, State, built, new_state}
use local_inference_router.Router.State.Building.{Starts, new_state-Starts}
use local_inference_router.Router.Labels.{Aliased, AllLabelled}
use local_inference_router.Router.Operations.{set_health}
use local_inference_router.Router.Operations.Keeps.{metered}
use local_inference_router.Router.Operations.Labelling.{set_health-Labels}
use local_inference_router.Router.Operations.Releases.{set_health-Reports}
use local_inference_router.Router.Proxy.{Call, start_call, advance, Phase}
use local_inference_router.Router.Proxy.Labelling.{Tagged}
use local_inference_router.Router.Proxy.Labelling.Phases.{advance_phase-Labelled}
use local_inference_router.Router.System.{
  System, Step, arrives, advances, reports, Reach, begins, continues,
}
use local_inference_router.Router.System.Safety.{Inv, Reach-Inv, advance-some}

-- The samples and the calls of a system are labelled, by the names of the first state.
pub record Labels (s : State) (t : System) : Type 0 where
  backends : t.state.backends ≡ s.backends
  aliases : t.state.aliases ≡ s.aliases
  known : Aliased t.state.aliases
  samples : AllLabelled t.state.backends t.state.aliases t.state.metrics
  tags : All (λ c. Tagged t.state.aliases c.phase) t.calls

module _ (b b' : List (Text × ℕ)) (a a' : List (Text × AliasState)) (p : b' ≡ b) (q : a' ≡ a) where
  same-AllLabelled : (m : Option Metrics) → AllLabelled b a m → AllLabelled b' a' m
  same-AllLabelled m h = rw (p, q) h

  same-Aliased : Aliased a → Aliased a'
  same-Aliased h = rw q h

  same-Tagged : (ph : Phase) → Tagged a ph → Tagged a' ph
  same-Tagged ph h = rw q h

start-Tagged :
    (aliases : List (Text × AliasState)) (alias : Text) (flushable : Bool)
    → Tagged aliases (start_call alias flushable).phase
unfolding start_call
start-Tagged aliases alias flushable = tt

-- A step that keeps both maps, with labelled samples and calls.
kept-Labels :
    (s : State) (t : System) (s' : State) (calls : List Call)
    → Labels s t
    → s'.backends ≡ t.state.backends
    → s'.aliases ≡ t.state.aliases
    → AllLabelled t.state.backends t.state.aliases s'.metrics
    → All (λ c. Tagged t.state.aliases c.phase) calls
    → Labels s (record { state = s'; calls = calls })
kept-Labels s t s' calls l p q samples tags = record {
  backends = p ∙ l.backends;
  aliases = q ∙ l.aliases;
  known = same-Aliased t.state.backends s'.backends _ _ p q l.known;
  samples = same-AllLabelled t.state.backends s'.backends _ _ p q s'.metrics samples;
  tags = All-map _ _ (λ c. same-Tagged t.state.backends s'.backends _ _ p q c.phase) calls tags;
}

module _ (parse_media_type : Text → Option Text) (s : State) where
  Step-Labels : {t u : System} → Inv t → Step parse_media_type t u → Labels s t → Labels s u
  unfolding advance
  Step-Labels {t} inv (arrives alias flushable) l =
      kept-Labels s t t.state _ l refl refl l.samples
        (All-append _ t.calls _ l.tags (start-Tagged t.state.aliases alias flushable, tt))
  Step-Labels {t} inv (advances i c c' a s' at e) l =
      let (s1, c1, e1, adv) = advance-some parse_media_type t i c a inv at in
      let same : (s1, c1) ≡ (s', c') = some-injective _ _ (sym e1 ∙ e) in
      let (samples, tags) =
        advance_phase-Labelled t.state inv.valid l.samples l.known parse_media_type c c.phase a
          (All-get_elem? _ t.calls i inv.on_route at) (All-get_elem? _ t.calls i l.tags at) s' c'
          e in
      kept-Labels s t s' (set t.calls i c') l (ap (λ p. p.0.backends) (sym same) ∙ adv.backends)
        (ap (λ p. p.0.aliases) (sym same) ∙ adv.aliases) samples
        (All-set _ t.calls i c' l.tags tags)
  Step-Labels {t} inv (reports name up) l =
      let done = set_health-Reports name up t.state inv.valid in
      kept-Labels s t (set_health name up t.state) t.calls l done.backends done.aliases
        (set_health-Labels t.state.aliases t.state inv.valid l.samples name up) l.tags

  Reach-Labels :
      {t : System}
      → Starts s
      → metered s ≡ true
      → Aliased s.aliases
      → AllLabelled s.backends s.aliases s.metrics
      → Reach parse_media_type s t
      → Labels s t
  Reach-Labels start m known h begins = record {
    backends = refl;
    aliases = refl;
    known = known;
    samples = h;
    tags = tt;
  }
  Reach-Labels start m known h (continues r st) =
      Step-Labels (Reach-Inv parse_media_type start m r) st (Reach-Labels start m known h r)

  -- In every system that a state of NewState becomes by arriving requests, critical sections of
  -- requests and health results in any order, if its backends have capacities that are not
  -- negative, each sample of the metrics has as many labels as its instrument: the backend labels
  -- are names of backends of the state and the alias labels names of its aliases, the results are
  -- among the four of an attempt and the reasons among the six of a failover.
  pub Reach-AllLabelled :
      {t : System} (cfg : Config) (bs : List Backend)
      → All (λ b. pos 0 ≤ℤ b.max_inflight) bs
      → new_state cfg bs (some (record { samples = [] })) ≡ built s
      → Reach parse_media_type s t
      → AllLabelled s.backends s.aliases t.state.metrics
  Reach-AllLabelled cfg bs rooms e r =
      let (known, h) = new_state-AllLabelled cfg bs _ s (λ b a. tt) e in
      let (m, _) = new_state-Sourced (λ b. Unit) cfg bs _ s (All-of_all _ (λ b. tt) bs) e in
      let l = Reach-Labels (new_state-Starts cfg bs _ s rooms e) m known h r in
      same-AllLabelled _ _ _ _ (sym l.backends) (sym l.aliases) _ l.samples
