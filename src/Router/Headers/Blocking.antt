-- ===== src/Router/Headers/Blocking.antt =====
-- Which response headers do not reach the client.
use local_inference_router.Base.{
  Text, bytes, ◌≡◌, ◌↔◌, ◌⊎◌, true, false, ◌||◌, List, [], ◌∷◌, ◌++◌, arith, mem_text, text_eq_iff,
  split_byte, trim_space, is_empty, Bool-cases,
}
use local_inference_router.Router.Headers.{
  Header, header_values, nominated_tokens, nominated_values, connection_nominated_headers,
  hop_by_hop_and_unsafe,
}
use local_inference_router.Router.Headers.Canonical.{canonical_header_key}

module _ {A : Type 0} (P : A → Type 0) where
  -- Some entry has the property.
  abbrev pub Any : List A → Type 0
  Any [] = ⊥
  Any (x ∷ xs) = P x ⊎ Any xs

-- The names that are never copied: hop by hop, or unsafe for the client.
abbrev pub IsFixed : Text → Type 0
IsFixed name =
    Any (λ n. name ≡ n)
      (bytes "Alt-Svc"
        ∷ bytes "Connection"
        ∷ bytes "Keep-Alive"
        ∷ bytes "Proxy-Authenticate"
        ∷ bytes "Proxy-Authorization"
        ∷ bytes "Te"
        ∷ bytes "Trailer"
        ∷ bytes "Transfer-Encoding"
        ∷ bytes "Upgrade"
        ∷ bytes "Content-Length"
        ∷ bytes "Set-Cookie"
        ∷ bytes "Server"
        ∷ [])

-- A token between commas, not blank, that is a spelling of the name.
abbrev pub Names : Text → Text → Type 0
Names name token =
    (is_empty (trim_space token) ≡ false) × (canonical_header_key (trim_space token) ≡ name)

-- A value of the Connection header has such a token.
abbrev pub IsNominated : Header → Text → Type 0
IsNominated src name =
    Any (λ value. Any (Names name) (split_byte value b',')) (header_values src (bytes "Connection"))

-- The header of a name, in any spelling, is not copied from the response.
abbrev pub Blocked : Header → Text → Type 0
Blocked src key = IsFixed (canonical_header_key key) ⊎ IsNominated src (canonical_header_key key)

mem_text-append :
    (name : Text) (xs ys : List Text)
    → mem_text name (xs ++ ys) ≡ (mem_text name xs || mem_text name ys)
unfolding mem_text
mem_text-append name [] ys = ground arith
mem_text-append name (x ∷ xs) ys = ground (arith, mem_text-append name xs ys)

module _ (name : Text) where
  mem_text_iff : (xs : List Text) → (mem_text name xs ≡ true) ↔ Any (λ n. name ≡ n) xs
  unfolding mem_text
  mem_text_iff [] = ground arith
  mem_text_iff (x ∷ xs) = ground (arith, text_eq_iff x name, mem_text_iff xs)

  IsFixed-iff : (mem_text name hop_by_hop_and_unsafe ≡ true) ↔ IsFixed name
  unfolding hop_by_hop_and_unsafe
  IsFixed-iff = mem_text_iff _

  tokens_iff :
      (tokens : List Text)
      → (mem_text name (nominated_tokens tokens) ≡ true) ↔ Any (Names name) tokens
  unfolding nominated_tokens mem_text
  tokens_iff [] = ground arith
  tokens_iff (token ∷ tokens) = ground (
    arith,
    tokens_iff tokens,
    text_eq_iff (canonical_header_key (trim_space token)) name,
    Bool-cases (is_empty (trim_space token)),
  )

  values_iff :
      (values : List Text)
      → (mem_text name (nominated_values values) ≡ true)
        ↔ Any (λ value. Any (Names name) (split_byte value b',')) values
  unfolding nominated_values mem_text
  values_iff [] = ground arith
  values_iff (value ∷ values) = ground (
    arith,
    values_iff values,
    tokens_iff (split_byte value b','),
    mem_text-append name (nominated_tokens (split_byte value b',')) (nominated_values values),
  )

-- The tests of copyResponseHeaders.
pub Blocked-iff :
    (src : Header) (key : Text)
    → ((mem_text (canonical_header_key key) hop_by_hop_and_unsafe
          || mem_text (canonical_header_key key) (connection_nominated_headers src))
        ≡ true)
      ↔ Blocked src key
unfolding connection_nominated_headers
Blocked-iff src key = ground (
  arith,
  IsFixed-iff (canonical_header_key key),
  values_iff (canonical_header_key key) (header_values src (bytes "Connection")),
)
