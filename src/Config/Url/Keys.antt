-- ===== src/Config/Url/Keys.antt =====
-- internal/config/url.go: which origins canonicalOriginKey tells apart.
use local_inference_router.Base.{
  ℕ, Text, bytes, join_host_port, join_host_port-injective, get_elem?, Option, some, ◌++◌, ok, ◌≡◌,
  ◌≢◌, ◌⊎◌, ◌↔◌, inl, inr, ap, sym, ◌∙◌, arith,
}
use local_inference_router.Config.Url.{
  Url, Net, parse_base_url, canonical_host, canonical_port, canonical_origin_key,
}
use local_inference_router.Config.Url.Ports.{
  HasPort, LowersSchemes, lowered, port_contains, same_port, same_print,
}
use local_inference_router.Config.Url.Origin.{IsOrigin, parse_base_url-IsOrigin}

abbrev IsScheme : Text → Type 0
IsScheme s = (s ≡ bytes "http") ⊎ (s ≡ bytes "https")

abbrev before_host : Text → Text → Text
before_host scheme rest = scheme ++ bytes "://" ++ rest

http-injective : (x y : Text) → before_host (bytes "http") x ≡ before_host (bytes "http") y → x ≡ y
http-injective x y e = cc

https-injective :
    (x y : Text) → before_host (bytes "https") x ≡ before_host (bytes "https") y → x ≡ y
https-injective x y e = cc

schemes_apart : (x y : Text) → before_host (bytes "http") x ≢ before_host (bytes "https") y
schemes_apart x y e =
    let fifth : ◌≡◌ {A = Option ℕ} (some b':') (some b's') = ap (λ s. get_elem? s 4) e in
    ground arith

fixed :
    (s t x y : Text) {s' t' : Text}
    → s ≡ s'
    → t ≡ t'
    → before_host s x ≡ before_host t y
    → before_host s' x ≡ before_host t' y
fixed s t x y p q e = ap (λ r. before_host r x) (sym p) ∙ e ∙ ap (λ r. before_host r y) q

-- The two schemes do not mix.
scheme-injective :
    (s t x y : Text)
    → IsScheme s
    → IsScheme t
    → before_host s x ≡ before_host t y
    → (s ≡ t) × (x ≡ y)
scheme-injective s t x y p q e = elim p [
  | inl http ↦ elim q [
    | inl http' ↦ (http ∙ sym http', http-injective x y (fixed s t x y http http' e))
    | inr https ↦ absurd (schemes_apart x y (fixed s t x y http https e))
  ]
  | inr https ↦ elim q [
    | inl http ↦ absurd (schemes_apart y x (sym (fixed s t x y https http e)))
    | inr https' ↦ (https ∙ sym https', https-injective x y (fixed s t x y https https' e))
  ]
]

module _ (net : Net) (lowers : LowersSchemes net) where
  -- What stands after the scheme.
  abbrev authority : Url → Text
  authority u = join_host_port (canonical_host net u) (canonical_port net u)

  key_parts :
      (u : Url) → IsOrigin u → canonical_origin_key net u ≡ before_host u.scheme (authority u)
  unfolding canonical_origin_key
  key_parts u o = ap (λ s. before_host s (authority u)) (lowered net lowers u o)

  module _ (u v : Url) (o : IsOrigin u) (o' : IsOrigin v) where
    key-injective :
        canonical_origin_key net u ≡ canonical_origin_key net v
        → (u.scheme ≡ v.scheme)
          × (canonical_host net u ≡ canonical_host net v)
          × ((n : ℕ) × HasPort u n × HasPort v n)
    key-injective e =
        let (schemes, rest) =
          scheme-injective u.scheme v.scheme (authority u) (authority v) o.scheme o'.scheme
            (sym (key_parts u o) ∙ e ∙ key_parts v o') in
        let (hosts, ports) =
          join_host_port-injective (canonical_host net u) (canonical_host net v)
            (canonical_port net u) (canonical_port net v) (port_contains net lowers u o)
            (port_contains net lowers v o') rest in
        (schemes, hosts, same_port net lowers u v o o' ports)

    key_of_parts :
        (n : ℕ)
        → u.scheme ≡ v.scheme
        → canonical_host net u ≡ canonical_host net v
        → HasPort u n
        → HasPort v n
        → canonical_origin_key net u ≡ canonical_origin_key net v
    key_of_parts n schemes hosts has has' =
        key_parts u o
        ∙ ap (λ s. before_host s (authority u)) schemes
        ∙ ap (before_host v.scheme) (
            ap (λ h. join_host_port h (canonical_port net u)) hosts
            ∙ ap (join_host_port (canonical_host net v))
                (same_print net lowers u v n o o' has has'))
        ∙ sym (key_parts v o')

  -- If strings.ToLower leaves http and https, two base URLs that ParseBaseURL accepts have the
  -- same canonical key exactly if they have the same scheme, the same host in its canonical form,
  -- and stand for the same port, where a URL without a port stands for 80 or 443 by its scheme.
  pub canonical_origin_key_iff :
      (raw raw' : Text) (u v : Url)
      → parse_base_url net raw ≡ ok u
      → parse_base_url net raw' ≡ ok v
      → (canonical_origin_key net u ≡ canonical_origin_key net v) ↔ (
          (u.scheme ≡ v.scheme)
          × (canonical_host net u ≡ canonical_host net v)
          × ((n : ℕ) × HasPort u n × HasPort v n))
  canonical_origin_key_iff raw raw' u v parsed parsed' =
      let o = parse_base_url-IsOrigin net raw u parsed in
      let o' = parse_base_url-IsOrigin net raw' v parsed' in
      (
        key-injective u v o o',
        λ (schemes, hosts, (n, has, has')). key_of_parts u v o o' n schemes hosts has has',
      )
