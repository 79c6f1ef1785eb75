-- ===== src/Health/Follows.antt =====
-- internal/backend/health.go: what the checks leave in the routing state and in the log.
use local_inference_router.Base.{
  arith, ◌↔◌, Text, Bool, true, false, some, List, [], ◌∷◌, ◌≡◌, ◌≢◌, refl, ◌∙◌, if◌then◌else◌,
}
use mathlib.Core.Path.{subst}
use local_inference_router.Router.State.{State, BackendState, find}
use local_inference_router.Router.State.Valid.{IsValid}
use local_inference_router.Router.Operations.{set_health}
use local_inference_router.Router.Operations.Slots.{inflight_of}
use local_inference_router.Router.Operations.Releases.{set_health-Reports}
use local_inference_router.Health.{
  Checker, ProbeResult, no_request, no_answer, status_of, probe, differs, note, check, loop,
  new_checker,
}

-- Neighbours differ.
abbrev pub Alternates : List Bool → Type 0
Alternates [] = Unit
Alternates (x ∷ []) = Unit
Alternates (x ∷ y ∷ xs) = (x ≢ y) × Alternates (y ∷ xs)

-- What the checks of a backend that is in the map leave: its last result is its health and the last
-- entry of the log, the log has only changes, and the rest of the state is as it was.
pub record Follows (name : Text) (last : Bool) (s : State) (c : Checker) (s' : State) : Type 0 where
  pub previous : c.previous ≡ last
  pub known : c.known ≡ true
  pub earlier : List Bool
  pub logged : c.logged ≡ last ∷ earlier
  pub changes : Alternates c.logged
  pub valid : IsValid s'
  pub health :
      (b : BackendState)
      → find s name ≡ some b
      → find s' name ≡ some (record b { checked = true; healthy = last })
  pub others : (n : Text) → n ≢ name → find s' n ≡ find s n
  pub counts : (n : Text) → inflight_of s' n ≡ inflight_of s n

entry :
    (up last : Bool) (earlier : List Bool)
    → Alternates (last ∷ earlier)
    → (more : List Bool) × ((if differs up last then up ∷ last ∷ earlier else last ∷ earlier)
        ≡ up ∷ more)
      × Alternates (if differs up last then up ∷ last ∷ earlier else last ∷ earlier)
entry true true earlier h = (earlier, refl, h)
entry false false earlier h = (earlier, refl, h)
entry true false earlier h = (false ∷ earlier, refl, ((λ e. cc), h))
entry false true earlier h = (true ∷ earlier, refl, ((λ e. cc), h))

-- One more entry of the log, if the result is another.
note-logged :
    (c : Checker) (up last : Bool) (earlier : List Bool)
    → c.previous ≡ last
    → c.known ≡ true
    → c.logged ≡ last ∷ earlier
    → Alternates c.logged
    → (more : List Bool) × ((note c up).logged ≡ up ∷ more) × Alternates (note c up).logged
unfolding note
note-logged c up last earlier before known logged changes =
    rw (known, before, logged) (entry up last earlier (subst Alternates logged changes))

note-previous : (c : Checker) (up : Bool) → (note c up).previous ≡ up
unfolding note
note-previous c up = refl

note-known : (c : Checker) (up : Bool) → (note c up).known ≡ true
unfolding note
note-known c up = refl

-- The first check.
check-first :
    (name : Text) (result : ProbeResult) (s : State)
    → IsValid s
    → Follows name
        (probe result)
        s
        (check set_health name result (new_checker, s)).0
        (check set_health name result (new_checker, s)).1
unfolding check note
check-first name result s v =
    let done = set_health-Reports name (probe result) s v in
    record {
      previous = refl;
      known = refl;
      earlier = [];
      logged = refl;
      changes = tt;
      valid = done.valid;
      health = done.reported;
      others = done.others;
      counts = done.counts;
    }

check-Follows :
    (name : Text) (result : ProbeResult) (last : Bool) (s s1 : State) (c : Checker)
    → Follows name last s c s1
    → Follows name
        (probe result)
        s
        (check set_health name result (c, s1)).0
        (check set_health name result (c, s1)).1
unfolding check
check-Follows name result last s s1 c h =
    let done = set_health-Reports name (probe result) s1 h.valid in
    let (more, logged, changes) =
      note-logged c (probe result) last h.earlier h.previous h.known h.logged h.changes in
    record {
      previous = note-previous c (probe result);
      known = note-known c (probe result);
      earlier = more;
      logged = logged;
      changes = changes;
      valid = done.valid;
      health = λ b here. done.reported _ (h.health b here);
      others = λ n other. done.others n other ∙ h.others n other;
      counts = λ n. done.counts n ∙ h.counts n;
    }

-- The last probe.
abbrev pub last_probe : ProbeResult → List ProbeResult → ProbeResult
last_probe result [] = result
last_probe result (next ∷ results) = last_probe next results

probe_iff : (result : ProbeResult) → (probe result ≡ true) ↔ (result ≡ status_of 200)
unfolding probe
probe_iff no_request = ((λ e. cc), λ e. cc)
probe_iff no_answer = ((λ e. cc), λ e. cc)
probe_iff (status_of code) = ground arith

-- The result of the last probe.
abbrev pub last_result : ProbeResult → List ProbeResult → Bool
last_result result [] = probe result
last_result result (next ∷ results) = last_result next results

last_result-last_probe :
    (result : ProbeResult) (results : List ProbeResult)
    → last_result result results ≡ probe (last_probe result results)
last_result-last_probe result [] = refl
last_result-last_probe result (next ∷ results) = last_result-last_probe next results

loop-from :
    (name : Text) (results : List ProbeResult) (result : ProbeResult) (s s1 : State) (c : Checker)
    → Follows name (probe result) s c s1
    → Follows name
        (last_result result results)
        s
        (loop set_health name results (c, s1)).0
        (loop set_health name results (c, s1)).1
unfolding loop
loop-from name [] result s s1 c h = h
loop-from name (next ∷ results) result s s1 c h =
    loop-from name results next s (check set_health name next (c, s1)).1
      (check set_health name next (c, s1)).0 (check-Follows name next (probe result) s s1 c h)

-- After at least one check of a backend, started on a valid state without other changes in
-- between, a backend of that name in the map is checked, and healthy exactly if the last probe
-- got status 200; no other backend and no reservation changes, and the log has no two equal
-- entries next to each other and ends with the last result.
pub loop-Follows :
    (name : Text) (result : ProbeResult) (results : List ProbeResult) (s : State)
    → IsValid s
    → (healthy : Bool) × ((healthy ≡ true) ↔ (last_probe result results ≡ status_of 200))
      × Follows name healthy s
          (loop set_health name (result ∷ results) (new_checker, s)).0
          (loop set_health name (result ∷ results) (new_checker, s)).1
unfolding loop
loop-Follows name result results s v = (
  last_result result results,
  rw (last_result-last_probe result results) (probe_iff (last_probe result results)),
  loop-from name results result s (check set_health name result (new_checker, s)).1
      (check set_health name result (new_checker, s)).0 (check-first name result s v),
)
