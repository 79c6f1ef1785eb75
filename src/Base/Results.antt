-- ===== src/Base/Results.antt =====
-- Results that carry an error, and lists whose members differ pairwise.
use mathlib.Core.Path.{◌≡◌, refl}
use mathlib.Core.Logic.{◌↔◌, ◌≢◌, ◌⊎◌, inl, inr}
use mathlib.Core.Bool.{Bool, false, ◌||◌}
use mathlib.Core.List.{List, [], ◌∷◌}
use native.Mathlib.Omega.{arith}
use local_inference_router.Base.Lists.{All}
use local_inference_router.Base.Strings.{Text, text_eq, text_eq_iff}

-- A value and an error, of which exactly one is not nil.
pub data Result {ℓ κ} (E : Type ℓ) (A : Type κ) : Type (ℓ ⊔ κ) where
  fail : E → Result E A
  ok : A → Result E A

module _ {ℓ κ} {A : Type ℓ} (R : A → A → Type κ) where
  abbrev pub Pairwise : List A → Type κ
  Pairwise [] = Unit
  Pairwise (x ∷ xs) = All (R x) xs × Pairwise xs

-- A set that gets one more name, as the loops that look for duplicates use it.
pub unseen-insert {ℓ} :
    {A : Type ℓ} (key : A → Text) (taken : Text → Bool) (k : Text) (xs : List A)
    → All (λ x. (text_eq k (key x) || taken (key x)) ≡ false) xs
      ↔ (All (λ x. k ≢ key x) xs × All (λ x. taken (key x) ≡ false) xs)
unseen-insert key taken k [] = ground arith
unseen-insert key taken k (x ∷ xs) =
    ground (arith, text_eq_iff k (key x), unseen-insert key taken k xs)

pub Result-cases {ℓ κ} :
    {E : Type ℓ} {A : Type κ} (r : Result E A) → ((e : E) × (r ≡ fail e)) ⊎ ((a : A) × (r ≡ ok a))
Result-cases (fail e) = inl (e, refl)
Result-cases (ok a) = inr (a, refl)

module _ {ℓ κ} {A : Type ℓ} {B : Type κ} (R : A → B → Type 0) where
  -- Two lists of one length whose members are related in their order.
  abbrev pub All2 : List A → List B → Type 0
  All2 [] [] = Unit
  All2 [] (y ∷ ys) = ⊥
  All2 (x ∷ xs) [] = ⊥
  All2 (x ∷ xs) (y ∷ ys) = R x y × All2 xs ys
