-- ===== src/Base/Parsing.antt =====
-- strconv.Atoi, net.SplitHostPort and net.JoinHostPort, with the functions on bytes below them.
pub mod Decimal
pub mod Joining
use Prim.Native.Nat.{ℕ, zero, suc, ◌+◌, ◌-◌, ◌*◌, ◌^◌, ◌/◌, ◌%◌}
use mathlib.Core.Path.{◌≡◌, refl}
use mathlib.Core.Bool.{Bool, true, false, not, ◌&&◌, ◌||◌}
use mathlib.Core.Option.{Option, none, some}
use mathlib.Core.List.{[], ◌∷◌, ◌++◌}
use local_inference_router.Base.Tests.{◌==◌, leb, ltb, if◌then◌else◌, ◌>>=◌}
use local_inference_router.Base.Int.{ℤ, pos, negsuc}
use local_inference_router.Base.Strings.{Text, bytes}

abbrev pub is_digit : ℕ → Bool
is_digit c = leb b'0' c && leb c b'9'

-- The digits of a decimal number, the value so far in front; `none` for another byte.
digits_value : ℕ → Text → Option ℕ
digits_value acc [] = some acc
digits_value acc (c ∷ s) =
    let rest = digits_value (acc * 10 + (c - 48)) s in if is_digit c then rest else none

unsigned : Text → Option ℕ
unfolding digits_value
unsigned [] = none
unsigned (c ∷ s) = digits_value 0 (c ∷ s)

-- The values of an int: 64 bits.
in_range : Bool → ℕ → Option ℤ
in_range false n = if ltb n (2 ^ 63) then some (pos n) else none
in_range true zero = some (pos 0)
in_range true (suc n) = if ltb n (2 ^ 63) then some (negsuc n) else none

-- strconv.Atoi; `none` is an error.
unfoldable pub atoi : Text → Option ℤ
unfolding unsigned in_range
atoi [] = none
atoi (c ∷ s) =
    if c == b'-'
    then (unsigned s >>= in_range true)
    else if c == b'+'
    then (unsigned s >>= in_range false)
    else (unsigned (c ∷ s) >>= in_range false)

-- strconv.Itoa for a number of at most `fuel` digits.
itoa_fuel : ℕ → ℕ → Text → Text
itoa_fuel zero n acc = acc
itoa_fuel (suc f) n acc =
    let rest = itoa_fuel f (n / 10) ((48 + n % 10) ∷ acc) in
    if ltb n 10 then (48 + n) ∷ acc else rest

-- An int has at most 19 digits.
unfoldable pub itoa : ℤ → Text
unfolding itoa_fuel
itoa (pos n) = itoa_fuel 19 n []
itoa (negsuc n) = b'-' ∷ itoa_fuel 19 (n + 1) []

-- s[:i] and s[i+1:] for the first index i of a byte, or `none` without one.
pub cut_first : ℕ → Text → Option (Text × Text)
cut_first b [] = none
cut_first b (c ∷ s) =
    let rest = cut_first b s in
    if c == b then some ([], s) else (rest >>= λ (before, after). some (c ∷ before, after))

-- The same for the last index.
pub cut_last : ℕ → Text → Option (Text × Text)
cut_last b [] = none
cut_last b (c ∷ s) = elim (cut_last b s) [
  | some (before, after) ↦ some (c ∷ before, after)
  | none ↦ if c == b then some ([], s) else none
]

unfoldable pub contains_byte : ℕ → Text → Bool
contains_byte b [] = false
contains_byte b (c ∷ s) = c == b || contains_byte b s

unfoldable pub count_byte : ℕ → Text → ℕ
count_byte b [] = 0
count_byte b (c ∷ s) = (if c == b then 1 else 0) + count_byte b s

-- The host and the port when no bracket is left in either.
plain_host_port : Text → Text → Option (Text × Text)
plain_host_port host port =
    if contains_byte b'[' host
      || contains_byte b']' host
      || contains_byte b'[' port
      || contains_byte b']' port
    then none
    else some (host, port)

-- After a '[': the host ends at the first ']', which stands just before the last colon.
bracketed_host_port : Text → Option (Text × Text)
unfolding plain_host_port
bracketed_host_port s = do
  (host, rest) ← cut_first b']' s
  elim rest [
    | [] ↦ none
    | c ∷ port ↦
        if c == b':' && not (contains_byte b':' port) && not (contains_byte b'[' host)
        then (plain_host_port [] port >>= λ _. some (host, port))
        else none
  ]

bare_host_port : Text → Option (Text × Text)
unfolding plain_host_port
bare_host_port s = do
  (host, port) ← cut_last b':' s
  if contains_byte b':' host then none else plain_host_port host port

-- net.SplitHostPort; `none` is an error.
unfoldable pub split_host_port : Text → Option (Text × Text)
unfolding bracketed_host_port bare_host_port cut_first cut_last contains_byte
split_host_port [] = none
split_host_port (c ∷ s) = if c == b'[' then bracketed_host_port s else bare_host_port (c ∷ s)

-- net.JoinHostPort
unfoldable pub join_host_port : Text → Text → Text
join_host_port host port =
    if contains_byte b':' host then (b'[' ∷ host) ++ (b']' ∷ b':' ∷ port) else host ++ (b':' ∷ port)

atoi_tests : (atoi (bytes "0080") ≡ some (pos 80)) × (atoi (bytes "8a") ≡ none)
unfolding atoi
atoi_tests = (refl, refl)

split_tests :
    (split_host_port (bytes "[::1]:80") ≡ some (bytes "::1", bytes "80"))
    × (split_host_port (bytes "::1:80") ≡ none)
    × (split_host_port (bytes "h:80") ≡ some (bytes "h", bytes "80"))
unfolding split_host_port
split_tests = (refl, refl, refl)

itoa_test : itoa (pos 8080) ≡ bytes "8080"
unfolding itoa
itoa_test = refl
