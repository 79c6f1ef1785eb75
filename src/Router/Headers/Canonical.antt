-- ===== src/Router/Headers/Canonical.antt =====
-- http.CanonicalHeaderKey.
use local_inference_router.Base.{
  ℕ, ◌+◌, ◌-◌, Text, bytes, Bool, true, ◌&&◌, ◌||◌, [], ◌∷◌, ◌==◌, leb, if◌then◌else◌, ◌≡◌, refl,
  arith, not, Bool-cases, inl, inr,
}

abbrev is_lower : ℕ → Bool
is_lower c = leb b'a' c && leb c b'z'

abbrev is_upper : ℕ → Bool
is_upper c = leb b'A' c && leb c b'Z'

-- The bytes of a token: letters, digits and !#$%&'*+-.^_`|~
token_byte : ℕ → Bool
token_byte c =
    is_lower c
    || is_upper c
    || leb b'0' c && leb c b'9'
    || c == 0x21
    || leb 0x23 c && leb c 0x27
    || c == 0x2a
    || c == 0x2b
    || c == 0x2d
    || c == 0x2e
    || leb 0x5e c && leb c 0x60
    || c == 0x7c
    || c == 0x7e

all_tokens : Text → Bool
all_tokens [] = true
all_tokens (c ∷ s) = token_byte c && all_tokens s

-- A letter is upper case at the start and after a dash, and lower case elsewhere.
change_case : Bool → ℕ → ℕ
change_case upper c =
    if upper && is_lower c then c - 32 else if not upper && is_upper c then c + 32 else c

canonical_from : Bool → Text → Text
canonical_from upper [] = []
canonical_from upper (c ∷ s) = change_case upper c ∷ canonical_from (c == b'-') s

unfoldable pub canonical_header_key : Text → Text
unfolding token_byte all_tokens change_case canonical_from
canonical_header_key s = if all_tokens s then canonical_from true s else s

change_case_idem :
    (upper : Bool) (c : ℕ) → change_case upper (change_case upper c) ≡ change_case upper c
unfolding change_case
change_case_idem upper c = ground arith

change_case-dash : (upper : Bool) (c : ℕ) → (change_case upper c == b'-') ≡ (c == b'-')
unfolding change_case
change_case-dash upper c = ground arith

token-change_case :
    (upper : Bool) (c : ℕ) → token_byte c ≡ true → token_byte (change_case upper c) ≡ true
unfolding token_byte change_case
token-change_case upper c h = ground arith

canonical_from_idem :
    (upper : Bool) (s : Text)
    → canonical_from upper (canonical_from upper s) ≡ canonical_from upper s
unfolding canonical_from
canonical_from_idem upper [] = refl
canonical_from_idem upper (c ∷ s) =
    rw (change_case_idem upper c, change_case-dash upper c, canonical_from_idem (c == b'-') s)

all_tokens-canonical :
    (upper : Bool) (s : Text) → all_tokens s ≡ true → all_tokens (canonical_from upper s) ≡ true
unfolding all_tokens canonical_from
all_tokens-canonical upper [] h = refl
all_tokens-canonical upper (c ∷ s) h =
    ground (arith, token-change_case upper c, all_tokens-canonical (c == b'-') s)

-- A canonical name is its own canonical name.
pub canonical_header_key_idem :
    (s : Text) → canonical_header_key (canonical_header_key s) ≡ canonical_header_key s
unfolding canonical_header_key
canonical_header_key_idem s = elim (Bool-cases (all_tokens s)) [
  | inl valid ↦ rw (valid, all_tokens-canonical true s valid, canonical_from_idem true s)
  | inr invalid ↦ rw (invalid, invalid)
]

canonical_test : canonical_header_key (bytes "content-TYPE") ≡ bytes "Content-Type"
unfolding canonical_header_key
canonical_test = refl
