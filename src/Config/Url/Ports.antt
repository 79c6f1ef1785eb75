-- ===== src/Config/Url/Ports.antt =====
-- internal/config/url.go: the port in the key of an origin.
use local_inference_router.Base.{
  ℕ, ◌≤◌, ℤ, pos, negsuc, Text, bytes, text_eq, is_empty, atoi, itoa, atoi-itoa, contains-itoa,
  contains_byte, some, [], ◌∷◌, false, ok, ◌≡◌, ◌≢◌, ◌⊎◌, inl, inr, refl, ap, sym, ◌∙◌, arith,
  if◌then◌else◌,
}
use mathlib.Core.Path.{subst}
use local_inference_router.Config.Url.{Url, Net, port_of, parse_base_url, canonical_port}
use local_inference_router.Config.Url.Origin.{IsOrigin, parse_base_url-IsOrigin}

abbrev default_port : Text → ℕ
default_port scheme = if text_eq scheme (bytes "http") then 80 else 443

-- The port that a URL stands for: the default one of its scheme if it names none.
abbrev pub HasPort : Url → ℕ → Type 0
HasPort u n =
    ((port_of u ≡ []) × (n ≡ default_port u.scheme))
    ⊎ ((port_of u ≢ []) × (atoi (port_of u) ≡ some (pos n)))

-- strings.ToLower leaves the two schemes.
abbrev pub LowersSchemes : Net → Type 0
LowersSchemes net =
    (net.to_lower (bytes "http") ≡ bytes "http") × (net.to_lower (bytes "https") ≡ bytes "https")

itoa_80 : itoa (pos 80) ≡ bytes "80"
unfolding itoa
itoa_80 = refl

itoa_443 : itoa (pos 443) ≡ bytes "443"
unfolding itoa
itoa_443 = refl

atoi_filled : (p : Text) (z : ℤ) → atoi p ≡ some z → p ≢ []
unfolding atoi
atoi_filled [] z at e = cc
atoi_filled (c ∷ p) z at e = cc

is_empty-false : (p : Text) → p ≢ [] → is_empty p ≡ false
is_empty-false [] h = absurd (h refl)
is_empty-false (c ∷ p) h = refl

HasPort-unique : (u : Url) (n m : ℕ) → HasPort u n → HasPort u m → n ≡ m
HasPort-unique u n m (inl (missing, e)) (inl (_, e')) = e ∙ sym e'
HasPort-unique u n m (inl (missing, e)) (inr (named, _)) = absurd (named missing)
HasPort-unique u n m (inr (named, _)) (inl (missing, e)) = absurd (named missing)
HasPort-unique u n m (inr (_, at)) (inr (_, at')) = cc

module _ (net : Net) (lowers : LowersSchemes net) where
  pub lowered : (u : Url) → IsOrigin u → net.to_lower u.scheme ≡ u.scheme
  lowered u o = elim o.scheme [ inl e ↦ rw e lowers.0 | inr e ↦ rw e lowers.1 ]

  named_port :
      (u : Url) (z : ℤ)
      → is_empty (port_of u) ≡ false
      → atoi (port_of u) ≡ some z
      → canonical_port net u ≡ itoa z
  unfolding canonical_port
  named_port u z filled at = rw (filled, at) refl

  default_http :
      (u : Url) → port_of u ≡ [] → u.scheme ≡ bytes "http" → canonical_port net u ≡ bytes "80"
  unfolding canonical_port text_eq
  default_http u missing e = rw (missing, e, lowers.0) refl

  default_https :
      (u : Url) → port_of u ≡ [] → u.scheme ≡ bytes "https" → canonical_port net u ≡ bytes "443"
  unfolding canonical_port text_eq
  default_https u missing e = rw (missing, e, lowers.1) refl

  missing_port :
      (u : Url)
      → IsOrigin u
      → port_of u ≡ []
      → (canonical_port net u ≡ itoa (pos (default_port u.scheme)))
        × (1 ≤ default_port u.scheme)
        × (default_port u.scheme ≤ 65535)
  unfolding text_eq
  missing_port u o missing = elim o.scheme [
    | inl e ↦
        (default_http u missing e ∙ sym (rw e itoa_80), rw e (omega arith), rw e (omega arith))
    | inr e ↦
        (default_https u missing e ∙ sym (rw e itoa_443), rw e (omega arith), rw e (omega arith))
  ]

  -- The port of the key is the print of the port that the URL stands for.
  port-HasPort :
      (u : Url)
      → IsOrigin u
      → (n : ℕ) × HasPort u n × (canonical_port net u ≡ itoa (pos n)) × (1 ≤ n) × (n ≤ 65535)
  port-HasPort u o = elim o.port [
    | inl missing ↦
        let (e, low, high) = missing_port u o missing in
        (default_port u.scheme, inl (missing, refl), e, low, high)
    | inr (pos n, at, low, high) ↦
        let filled = atoi_filled (port_of u) (pos n) at in
        (
          n,
          inr (filled, at),
          named_port u (pos n) (is_empty-false (port_of u) filled) at,
          omega (arith, low),
          omega (arith, high),
        )
    | inr (negsuc n, at, low, high) ↦ absurd (omega (arith, low))
  ]

  pub port_contains : (u : Url) → IsOrigin u → contains_byte b':' (canonical_port net u) ≡ false
  port_contains u o =
      let (n, _, e, _, _) = port-HasPort u o in ap (contains_byte b':') e ∙ contains-itoa n

  pub same_port :
      (u v : Url)
      → IsOrigin u
      → IsOrigin v
      → canonical_port net u ≡ canonical_port net v
      → (n : ℕ) × HasPort u n × HasPort v n
  same_port u v o o' e =
      let (n, has, at, _, high) = port-HasPort u o in
      let (m, has', at', _, high') = port-HasPort v o' in
      let same : some (pos n) ≡ some (pos m) =
        sym (atoi-itoa n (omega (arith, high)))
        ∙ ap atoi (sym at ∙ e ∙ at')
        ∙ atoi-itoa m (omega (arith, high')) in
      let equal : m ≡ n = cc in (n, has, subst (HasPort v) equal has')

  pub same_print :
      (u v : Url) (n : ℕ)
      → IsOrigin u
      → IsOrigin v
      → HasPort u n
      → HasPort v n
      → canonical_port net u ≡ canonical_port net v
  same_print u v n o o' has has' =
      let (k, is, at, _, _) = port-HasPort u o in
      let (m, is', at', _, _) = port-HasPort v o' in
      at
      ∙ ap (λ i. itoa (pos i)) (HasPort-unique u k n is has ∙ HasPort-unique v n m has' is')
      ∙ sym at'

  -- If strings.ToLower leaves http and https, the port in the canonical key of a base URL that
  -- ParseBaseURL accepts is read back by strconv.Atoi as the port that the URL stands for.
  pub atoi-canonical_port :
      (raw : Text) (u : Url)
      → parse_base_url net raw ≡ ok u
      → (n : ℕ) × HasPort u n × (atoi (canonical_port net u) ≡ some (pos n))
  atoi-canonical_port raw u parsed =
      let (n, has, at, _, high) = port-HasPort u (parse_base_url-IsOrigin net raw u parsed) in
      (n, has, ap atoi at ∙ atoi-itoa n (omega (arith, high)))
