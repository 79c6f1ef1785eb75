-- ===== src/Base/Maps.antt =====
-- Go maps with string keys as association lists: one entry for a key, in the order of insertion.
use mathlib.Core.Logic.{◌↔◌, ◌≢◌}
use mathlib.Core.Bool.{Bool, false, ◌||◌}
use local_inference_router.Base.Lists.{All}
use mathlib.Core.Path.{◌≡◌, refl}
use mathlib.Core.Option.{Option, none, some}
use mathlib.Core.List.{List, [], ◌∷◌}
use native.Mathlib.Omega.{arith}
use local_inference_router.Base.Tests.{if◌then◌else◌}
use local_inference_router.Base.Strings.{Text, text_eq, text_eq_iff, text_eq_refl}

module _ {ℓ} {V : Type ℓ} where
  -- v, ok := m[k]
  unfoldable pub lookup : Text → List (Text × V) → Option V
  lookup k [] = none
  lookup k ((j, v) ∷ m) = if text_eq j k then some v else lookup k m

  -- m[k] = v
  unfoldable pub insert : Text → V → List (Text × V) → List (Text × V)
  insert k v [] = (k, v) ∷ []
  insert k v ((j, w) ∷ m) = if text_eq j k then (k, v) ∷ m else (j, w) ∷ insert k v m

  pub lookup-insert :
      (k j : Text) (v : V) (m : List (Text × V))
      → lookup j (insert k v m) ≡ (if text_eq k j then some v else lookup j m)
  unfolding lookup insert
  lookup-insert k j v [] = refl
  lookup-insert k j v ((i, w) ∷ m) =
      ground (arith, text_eq_iff k j, text_eq_iff i k, text_eq_iff i j, lookup-insert k j v m)

  pub lookup-insert_self :
      (k : Text) (v : V) (m : List (Text × V)) → lookup k (insert k v m) ≡ some v
  lookup-insert_self k v m = rw (lookup-insert k k v m, text_eq_refl k)

-- _, ok := m[key] for a map that holds a set of names
unfoldable pub mem_text : Text → List Text → Bool
mem_text key [] = false
mem_text key (x ∷ xs) = text_eq x key || mem_text key xs

-- The set holds the name, by its members.
pub mem_text_lem : (key : Text) (xs : List Text) → (mem_text key xs ≡ false) ↔ All (λ x. x ≢ key) xs
unfolding mem_text
mem_text_lem key [] = ground arith
mem_text_lem key (x ∷ xs) = ground (arith, text_eq_iff x key, mem_text_lem key xs)
