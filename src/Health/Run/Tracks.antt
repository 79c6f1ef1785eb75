-- ===== src/Health/Run/Tracks.antt =====
-- internal/backend/health.go: what the loops of all backends leave in the routing state.
use local_inference_router.Base.{
  ℕ, zero, suc, Text, true, false, some, List, [], ◌∷◌, map, Pairwise, All-get_elem?, get_elem?,
  set, get_elem?-set_self, get_elem?-set_ne, ◌≡◌, ◌≢◌, refl, sym, ap, ◌∙◌, ◌⊎◌, inl, inr,
}
use mathlib.Core.Path.{subst}
use mathlib.Core.Option.{some-injective}
use native.Mathlib.Decide.{ℕ_discrete}
use local_inference_router.Backend.{Backend}
use local_inference_router.Router.State.{State, BackendState, find}
use local_inference_router.Router.State.Valid.{IsValid}
use local_inference_router.Router.Operations.{set_health}
use local_inference_router.Router.Operations.Slots.{inflight_of}
use local_inference_router.Router.Operations.Releases.{Reports, set_health-Reports}
use local_inference_router.Health.{ProbeResult, probe, note, check, new_checker}
use local_inference_router.Health.Checks.{Checks}
use local_inference_router.Health.Run.{
  Loop, Running, run_checks, next_check, Checked, started, checks,
}

-- No two loops are of one name.
abbrev pub Apart : List Loop → Type 0
Apart loops =
    (i j : ℕ) (l k : Loop)
    → get_elem? loops i ≡ some l
    → get_elem? loops j ≡ some k
    → i ≢ j
    → l.backend.name ≢ k.backend.name

-- What a loop has made of its backend: the result of its last check, or nothing before the first.
abbrev pub Shows : State → State → Loop → Type 0
Shows s s' l =
    ((l.checker.known ≡ false) × (find s' l.backend.name ≡ find s l.backend.name))
    ⊎ ((l.checker.known ≡ true)
        × ((b : BackendState)
            → find s l.backend.name ≡ some b
            → find s' l.backend.name
              ≡ some (record b { checked = true; healthy = l.checker.previous })))

pub record Tracks (s : State) (t : Running) : Type 0 where
  pub valid : IsValid t.state
  pub apart : Apart t.loops
  pub shows : (i : ℕ) (l : Loop) → get_elem? t.loops i ≡ some l → Shows s t.state l
  pub counts : (n : Text) → inflight_of t.state n ≡ inflight_of s n

module _ (s s' : State) (l : Loop) (result : ProbeResult) where
  abbrev after : State
  after = set_health l.backend.name (probe result) s'

  abbrev noted : Loop
  noted = record l { checker = note l.checker (probe result) }

  -- The loop that makes the check.
  own-Shows : Reports s' after l.backend.name (probe result) → Shows s s' l → Shows s after noted
  unfolding note
  own-Shows done (inl (first, same)) = inr (refl, λ b here. done.reported b (same ∙ here))
  own-Shows done (inr (again, shown)) = inr (refl, λ b here. done.reported _ (shown b here))

  -- And every other one.
  other-Shows :
      (k : Loop)
      → Reports s' after l.backend.name (probe result)
      → k.backend.name ≢ l.backend.name
      → Shows s s' k
      → Shows s after k
  other-Shows k done apart (inl (first, same)) =
      inl (first, done.others k.backend.name apart ∙ same)
  other-Shows k done apart (inr (again, shown)) =
      inr (again, λ b here. done.others k.backend.name apart ∙ shown b here)

module _ (loops : List Loop) (i : ℕ) (l l' : Loop) (at : get_elem? loops i ≡ some l)
    (same : l'.backend ≡ l.backend) where
  -- The loop that was written.
  written : (k : Loop) → get_elem? (set loops i l') i ≡ some k → l' ≡ k
  written k at_k = some-injective _ _ (sym (get_elem?-set_self loops i l' at) ∙ at_k)

  -- A loop keeps its backend.
  kept_backend :
      (j : ℕ) (k : Loop)
      → get_elem? (set loops i l') j ≡ some k
      → (k0 : Loop) × (get_elem? loops j ≡ some k0) × (k.backend ≡ k0.backend)
  kept_backend j k at_k = elim (ℕ_discrete i j) [
    | yes e ↦
        let own = written k (subst (λ m. get_elem? (set loops i l') m ≡ some k) (sym e) at_k) in
        (l, subst (λ m. get_elem? loops m ≡ some l) e at, ap (λ x. x.backend) (sym own) ∙ same)
    | no ne ↦ (k, sym (get_elem?-set_ne loops i j l' ne) ∙ at_k, refl)
  ]

  set-Apart : Apart loops → Apart (set loops i l')
  set-Apart h j k a b at_a at_b ne e =
      let (a0, here, p) = kept_backend j a at_a in
      let (b0, there, q) = kept_backend k b at_b in
      h j k a0 b0 here there ne (ap (λ x. x.name) (sym p) ∙ e ∙ ap (λ x. x.name) q)

next-Tracks :
    (s : State) (u : Running) (i : ℕ) (l : Loop) (result : ProbeResult)
    → Tracks s u
    → get_elem? u.loops i ≡ some l
    → Tracks s (next_check i l result u)
unfolding next_check check
next-Tracks s u i l result h at =
    let l' = noted s u.state l result in
    let done = set_health-Reports l.backend.name (probe result) u.state h.valid in
    record {
      valid = done.valid;
      apart = set-Apart u.loops i l l' at refl h.apart;
      shows = λ j k at_k. elim (ℕ_discrete i j) [
        | yes e ↦
            let own =
              written u.loops i l l' at refl k
                (subst (λ m. get_elem? (set u.loops i l') m ≡ some k) (sym e) at_k) in
            subst (Shows s (after s u.state l result)) own
              (own-Shows s u.state l result done (h.shows i l at))
        | no ne ↦
            let there = sym (get_elem?-set_ne u.loops i j l' ne) ∙ at_k in
            other-Shows s u.state l result k done (h.apart j i k l there at (λ e. ne (sym e)))
              (h.shows j k there)
      ];
      counts = λ n. done.counts n ∙ h.counts n;
    }

-- The loops that Run starts.
abbrev fresh_loop : Backend → Loop
fresh_loop b = record { backend = b; checker = new_checker }

fresh_at :
    (bs : List Backend) (i : ℕ) (l : Loop)
    → get_elem? (map fresh_loop bs) i ≡ some l
    → (b : Backend) × (get_elem? bs i ≡ some b) × (fresh_loop b ≡ l)
fresh_at [] i l at = cc
fresh_at (b ∷ bs) zero l at = (b, refl, some-injective _ _ at)
fresh_at (b ∷ bs) (suc i) l at = fresh_at bs i l at

backends_apart :
    (bs : List Backend) (i j : ℕ) (b c : Backend)
    → Pairwise (λ x y. x.name ≢ y.name) bs
    → get_elem? bs i ≡ some b
    → get_elem? bs j ≡ some c
    → i ≢ j
    → b.name ≢ c.name
backends_apart [] i j b c h p q ne e = cc
backends_apart (x ∷ bs) zero zero b c h p q ne e = absurd (ne refl)
backends_apart (x ∷ bs) zero (suc j) b c (h, hs) p q ne e =
    All-get_elem? _ bs j h q (ap (λ y. y.name) (some-injective _ _ p) ∙ e)
backends_apart (x ∷ bs) (suc i) zero b c (h, hs) p q ne e =
    All-get_elem? _ bs i h p (ap (λ y. y.name) (some-injective _ _ q) ∙ sym e)
backends_apart (x ∷ bs) (suc i) (suc j) b c (h, hs) p q ne e =
    backends_apart bs i j b c hs p q (λ e'. ne (ap suc e')) e

run-Tracks :
    (c : Checks) (s : State)
    → IsValid s
    → Pairwise (λ x y. x.name ≢ y.name) c.backends
    → Tracks s (run_checks c s)
run-Tracks c s v distinct = record {
  valid = v;
  apart = λ i j l k p q ne e.
      let (b, at, fresh) = fresh_at c.backends i l p in
      let (d, at', fresh') = fresh_at c.backends j k q in
      backends_apart c.backends i j b d distinct at at' ne
        (ap (λ x. x.backend.name) fresh ∙ e ∙ ap (λ x. x.backend.name) (sym fresh'));
  shows = λ i l p.
      let (b, at, fresh) = fresh_at c.backends i l p in
      inl (ap (λ x. x.checker.known) (sym fresh), refl);
  counts = λ n. refl;
}

-- In any interleaving of the checks that the loops of Run make of backends with pairwise
-- different names, started on a valid state without other changes in between, a backend in the
-- map whose loop has made a check is checked, and healthy exactly as the last result of its own
-- loop, and one whose loop has made none is as it was; the state is valid and no reservation
-- changes.
pub Checked-Tracks :
    (c : Checks) (s : State) {t : Running}
    → IsValid s
    → Pairwise (λ x y. x.name ≢ y.name) c.backends
    → Checked (run_checks c s) t
    → Tracks s t
Checked-Tracks c s v distinct started = run-Tracks c s v distinct
Checked-Tracks c s v distinct (checks {u} i l result before at) =
    next-Tracks s u i l result (Checked-Tracks c s v distinct before) at
