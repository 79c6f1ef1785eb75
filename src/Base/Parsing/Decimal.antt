-- ===== src/Base/Parsing/Decimal.antt =====
-- strconv.Atoi on the decimal print of a number.
use Prim.Native.Nat.{ℕ, zero, suc, ◌+◌, ◌^◌, ◌/◌, ◌%◌, ◌<◌}
use mathlib.Core.Path.{◌≡◌, refl, ap, sym, ◌∙◌}
use mathlib.Core.Logic.{inl, inr}
use mathlib.Core.Bool.{true, false}
use mathlib.Core.Option.{some}
use mathlib.Core.List.{[], ◌∷◌}
use native.Mathlib.Omega.{arith}
use local_inference_router.Base.Tests.{ltb, ◌==◌, ◌>>=◌, Bool-cases}
use local_inference_router.Base.Int.{pos}
use local_inference_router.Base.Strings.{Text}
use local_inference_router.Base.Parsing.{
  is_digit, digits_value, unsigned, in_range, atoi, itoa_fuel, itoa, contains_byte,
}

-- Reading the last digit after the others.
digits_value_last :
    (n : ℕ) (acc : Text) → digits_value (n / 10) ((48 + n % 10) ∷ acc) ≡ digits_value n acc
unfolding digits_value
digits_value_last n acc = ground arith

digits_value-itoa_fuel :
    (f n : ℕ) (acc : Text) → n < 10 ^ f → digits_value 0 (itoa_fuel f n acc) ≡ digits_value n acc
unfolding itoa_fuel digits_value
digits_value-itoa_fuel zero n acc h = ground arith
digits_value-itoa_fuel (suc f) n acc h = elim (Bool-cases (ltb n 10)) [
  | inl small ↦ rw (small, itoa_fuel) (ground arith)
  | inr large ↦
      rw (large, itoa_fuel)
        (digits_value-itoa_fuel f (n / 10) ((48 + n % 10) ∷ acc) (omega arith)
          ∙ digits_value_last n acc)
]

-- A text that starts with a digit.
abbrev StartsDigit : Text → Type 0
StartsDigit s = (c : ℕ) × (rest : Text) × (s ≡ c ∷ rest) × (is_digit c ≡ true)

itoa_fuel_more : (f n : ℕ) (acc : Text) → StartsDigit acc → StartsDigit (itoa_fuel f n acc)
unfolding itoa_fuel
itoa_fuel_more zero n acc h = h
itoa_fuel_more (suc f) n acc h = elim (Bool-cases (ltb n 10)) [
  | inl small ↦ rw (small, itoa_fuel) (48 + n, acc, refl, ground arith)
  | inr large ↦
      rw (large, itoa_fuel) (itoa_fuel_more f (n / 10) _ (48 + n % 10, acc, refl, ground arith))
]

itoa_fuel-StartsDigit : (f n : ℕ) (acc : Text) → StartsDigit (itoa_fuel (suc f) n acc)
unfolding itoa_fuel
itoa_fuel-StartsDigit f n acc = elim (Bool-cases (ltb n 10)) [
  | inl small ↦ rw (small, itoa_fuel) (48 + n, acc, refl, ground arith)
  | inr large ↦
      rw (large, itoa_fuel) (itoa_fuel_more f (n / 10) _ (48 + n % 10, acc, refl, ground arith))
]

unsigned-itoa_fuel : (n : ℕ) → n < 10 ^ 19 → unsigned (itoa_fuel 19 n []) ≡ some n
unfolding unsigned digits_value
unsigned-itoa_fuel n h =
    let (c, s, e, _) = itoa_fuel-StartsDigit 18 n [] in
    ground (arith, digits_value-itoa_fuel 19 n [] h, e)

atoi-unsigned :
    (c : ℕ) (s : Text) → is_digit c ≡ true → atoi (c ∷ s) ≡ (unsigned (c ∷ s) >>= in_range false)
unfolding atoi unsigned digits_value
atoi-unsigned c s h =
    let minus : (c == b'-') ≡ false = ground arith in
    let plus : (c == b'+') ≡ false = ground arith in rw (minus, plus) refl

in_range_pos : (n : ℕ) → n < 2 ^ 63 → in_range false n ≡ some (pos n)
unfolding in_range
in_range_pos n h = ground arith

-- A natural number below 2 ^ 63 is read back from its print.
pub atoi-itoa : (n : ℕ) → n < 2 ^ 63 → atoi (itoa (pos n)) ≡ some (pos n)
unfolding itoa
atoi-itoa n h =
    let (c, s, e, digit) = itoa_fuel-StartsDigit 18 n [] in
    ap atoi e
    ∙ atoi-unsigned c s digit
    ∙ ap (λ t. unsigned t >>= in_range false) (sym e)
    ∙ ap (λ m. m >>= in_range false) (unsigned-itoa_fuel n (omega (arith, h)))
    ∙ in_range_pos n h

digit_contains :
    (d : ℕ) (acc : Text) → d < 10 → contains_byte b':' ((48 + d) ∷ acc) ≡ contains_byte b':' acc
unfolding contains_byte
digit_contains d acc h = ground arith

itoa_fuel_contains :
    (f n : ℕ) (acc : Text) → contains_byte b':' (itoa_fuel f n acc) ≡ contains_byte b':' acc
unfolding itoa_fuel
itoa_fuel_contains zero n acc = refl
itoa_fuel_contains (suc f) n acc = elim (Bool-cases (ltb n 10)) [
  | inl small ↦ rw (small, itoa_fuel) (digit_contains n acc (ground arith))
  | inr large ↦
      rw (large, itoa_fuel)
        (itoa_fuel_contains f (n / 10) _ ∙ digit_contains (n % 10) acc (omega arith))
]

-- No colon stands in the print.
pub contains-itoa : (n : ℕ) → contains_byte b':' (itoa (pos n)) ≡ false
unfolding itoa contains_byte
contains-itoa n = itoa_fuel_contains 19 n []
