-- ===== src/Base/Ascii.antt =====
-- The functions of the package strings that the program calls, on bytes of UTF-8.
use Prim.Native.Nat.{ℕ, ◌+◌}
use mathlib.Core.Path.{◌≡◌, refl}
use mathlib.Core.Bool.{Bool, true, false, ◌&&◌, ◌||◌}
use mathlib.Core.List.{List, [], ◌∷◌, reverse}
use local_inference_router.Base.Tests.{◌==◌, leb, if◌then◌else◌}
use local_inference_router.Base.Strings.{Text, text_eq, bytes}

abbrev pub is_ascii_space : ℕ → Bool
is_ascii_space c = c == 32 || leb 9 c && leb c 13

-- The second byte of U+0085 and U+00A0 after 0xc2.
abbrev latin_space : ℕ → Bool
latin_space c = c == 0x85 || c == 0xa0

-- The last two bytes of the other spaces of Unicode.
abbrev wide_space : ℕ → ℕ → ℕ → Bool
wide_space a b c =
    a == 0xe1 && b == 0x9a && c == 0x80
    || a == 0xe2 && b == 0x80 && (leb 0x80 c && leb c 0x8a || c == 0xa8 || c == 0xa9 || c == 0xaf)
    || a == 0xe2 && b == 0x81 && c == 0x9f
    || a == 0xe3 && b == 0x80 && c == 0x80

-- strings.TrimLeftFunc(s, unicode.IsSpace): the first space is of one, two or three bytes.
trim_left : Text → Text
trim_left [] = []
trim_left (a ∷ []) = if is_ascii_space a then [] else a ∷ []
trim_left (a ∷ b ∷ []) =
    let rest = trim_left (b ∷ []) in
    if is_ascii_space a then rest else if a == 0xc2 && latin_space b then [] else a ∷ b ∷ []
trim_left (a ∷ b ∷ c ∷ s) =
    let one = trim_left (b ∷ c ∷ s) in
    let two = trim_left (c ∷ s) in
    let three = trim_left s in
    if is_ascii_space a
    then one
    else if a == 0xc2 && latin_space b
    then two
    else if wide_space a b c
    then three
    else a ∷ b ∷ c ∷ s

-- The same from the right end, on the reversed text.
trim_right : Text → Text
trim_right [] = []
trim_right (a ∷ []) = if is_ascii_space a then [] else a ∷ []
trim_right (a ∷ b ∷ []) =
    let rest = trim_right (b ∷ []) in
    if is_ascii_space a then rest else if b == 0xc2 && latin_space a then [] else a ∷ b ∷ []
trim_right (a ∷ b ∷ c ∷ s) =
    let one = trim_right (b ∷ c ∷ s) in
    let two = trim_right (c ∷ s) in
    let three = trim_right s in
    if is_ascii_space a
    then one
    else if b == 0xc2 && latin_space a
    then two
    else if wide_space c b a
    then three
    else a ∷ b ∷ c ∷ s

-- strings.TrimSpace
unfoldable pub trim_space : Text → Text
unfolding trim_left trim_right
trim_space s = reverse (trim_right (reverse (trim_left s)))

-- What strings.EqualFold compares when its second argument is ASCII: an upper case letter, the
-- long s and the Kelvin sign fold to a lower case letter.
fold_case : Text → Text
fold_case [] = []
fold_case (a ∷ []) = (if leb b'A' a && leb a b'Z' then a + 32 else a) ∷ []
fold_case (a ∷ b ∷ []) =
    let one = (if leb b'A' a && leb a b'Z' then a + 32 else a) ∷ fold_case (b ∷ []) in
    if a == 0xc5 && b == 0xbf then b's' ∷ [] else one
fold_case (a ∷ b ∷ c ∷ s) =
    let one = (if leb b'A' a && leb a b'Z' then a + 32 else a) ∷ fold_case (b ∷ c ∷ s) in
    let two = b's' ∷ fold_case (c ∷ s) in
    let three = b'k' ∷ fold_case s in
    if a == 0xc5 && b == 0xbf
    then two
    else if a == 0xe2 && b == 0x84 && c == 0xaa
    then three
    else one

-- strings.EqualFold(s, t) for an ASCII t
unfoldable pub equal_fold : Text → Text → Bool
unfolding fold_case
equal_fold s t = text_eq (fold_case s) (fold_case t)

unfoldable pub has_prefix : Text → Text → Bool
has_prefix s [] = true
has_prefix [] (_ ∷ _) = false
has_prefix (x ∷ s) (y ∷ t) = x == y && has_prefix s t

unfoldable pub has_suffix : Text → Text → Bool
unfolding has_prefix
has_suffix s t = has_prefix (reverse s) (reverse t)

-- strings.Split(s, sep) for a separator of one byte: the field before the first separator, and
-- the fields after it.
split_from : ℕ → Text → Text × List Text
split_from sep [] = ([], [])
split_from sep (c ∷ s) =
    let (field, fields) = split_from sep s in
    if c == sep then ([], field ∷ fields) else (c ∷ field, fields)

unfoldable pub split_byte : Text → ℕ → List Text
unfolding split_from
split_byte s sep = let (field, fields) = split_from sep s in field ∷ fields

trim_test : trim_space (bytes " a b\n") ≡ bytes "a b"
unfolding trim_space
trim_test = refl

fold_test : equal_fold (bytes "Text/Event-Stream") (bytes "text/event-stream") ≡ true
unfolding equal_fold text_eq
fold_test = refl

split_test : split_byte (bytes "a,,b") b',' ≡ bytes "a" ∷ [] ∷ bytes "b" ∷ []
unfolding split_byte
split_test = refl
