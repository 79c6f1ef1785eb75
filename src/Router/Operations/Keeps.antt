-- ===== src/Router/Operations/Keeps.antt =====
-- What the operations on reservations leave alone: all but the counts and the samples.
use mathlib.Core.Option
use local_inference_router.Base.{
  ℕ, Text, Bool, ◌≡◌, refl, sym, ap, ◌∙◌, Option, none, some, List, arith, text_eq_iff, All,
  All-map, true, false,
}
use local_inference_router.Metrics.{Metrics}
use local_inference_router.Router.State.{Route, BackendState, State, find, put, publish}
use local_inference_router.Router.State.Store.{
  Injective, find-put, find-publish, put-backends, put-aliases, put-alias_order, put-metrics,
}
use local_inference_router.Router.State.Valid.{IsValid, Routed, find_of_Routed}
use local_inference_router.Router.Select.Best.{Found}
use local_inference_router.Router.Operations.Slots.{with_inflight}

-- A backend's state without its count.
abbrev pub profile : State → Text → Option BackendState
profile s n = Option.map (λ b. with_inflight b 0) (find s n)

-- Whether the state has metrics to publish to.
abbrev pub metered : State → Bool
metered s = elim s.metrics [ none ↦ false | some m ↦ true ]

pub record Keeps (s s' : State) : Type 0 where
  pub backends : s'.backends ≡ s.backends
  pub aliases : s'.aliases ≡ s.aliases
  pub alias_order : s'.alias_order ≡ s.alias_order
  pub metrics : metered s' ≡ metered s
  pub profiles : (n : Text) → profile s' n ≡ profile s n

pub Keeps-refl : (s : State) → Keeps s s
Keeps-refl s = record {
  backends = refl;
  aliases = refl;
  alias_order = refl;
  metrics = refl;
  profiles = λ n. refl;
}

pub Keeps-trans : {s t u : State} → Keeps s t → Keeps t u → Keeps s u
Keeps-trans k l = record {
  backends = l.backends ∙ k.backends;
  aliases = l.aliases ∙ k.aliases;
  alias_order = l.alias_order ∙ k.alias_order;
  metrics = l.metrics ∙ k.metrics;
  profiles = λ n. l.profiles n ∙ k.profiles n;
}

pub Keeps-sym : {s t : State} → Keeps s t → Keeps t s
Keeps-sym k = record {
  backends = sym k.backends;
  aliases = sym k.aliases;
  alias_order = sym k.alias_order;
  metrics = sym k.metrics;
  profiles = λ n. sym (k.profiles n);
}

pub publish-metered : (f : Metrics → Metrics) (s : State) → metered (publish f s) ≡ metered s
unfolding publish
publish-metered f s = ground arith

pub publish-Keeps : (f : Metrics → Metrics) (s : State) → Keeps s (publish f s)
unfolding publish
publish-Keeps f s = record {
  backends = refl;
  aliases = refl;
  alias_order = refl;
  metrics = publish-metered f s;
  profiles = λ n. ap (Option.map (λ b. with_inflight b 0)) (find-publish f s n);
}

put-profile :
    (s : State) (n m : Text) (b : BackendState) (k : ℕ)
    → Injective s
    → find s n ≡ some b
    → profile (put s n (with_inflight b k)) m ≡ profile s m
put-profile s n m b k inj here =
    ground (arith, find-put s n m (with_inflight b k) inj here, text_eq_iff n m)

pub put-Keeps :
    (s : State) (n : Text) (b : BackendState) (k : ℕ)
    → Injective s
    → find s n ≡ some b
    → Keeps s (put s n (with_inflight b k))
put-Keeps s n b k inj here = record {
  backends = put-backends s n _;
  aliases = put-aliases s n _;
  alias_order = put-alias_order s n _;
  metrics = ap (λ m. elim m [ none ↦ false | some x ↦ true ]) (put-metrics s n _);
  profiles = λ m. put-profile s n m b k inj here;
}

-- Each route of a listed alias has its backend, in a valid state.
pub All-Found :
    (s : State) (routes : List Route)
    → IsValid s
    → All (Routed s.backends) routes
    → All (Found s) routes
All-Found s routes v h =
    All-map _ _ (λ r p. let (b, here, _) = find_of_Routed s r v p in (b, here)) routes h
