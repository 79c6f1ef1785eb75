-- ===== src/Config/Url/Origin.antt =====
-- internal/config/url.go: what ParseBaseURL lets through.
use local_inference_router.Base.{
  ℤ, pos, ◌≤ℤ◌, Text, bytes, text_eq_iff, is_empty, trim_space, atoi, some, [], ◌∷◌, false, not,
  ◌&&◌, ok, ◌≡◌, ◌≢◌, ◌⊎◌, inl, inr, refl, arith, Option-cases,
}
use mathlib.Core.Path.{subst}
use local_inference_router.Config.Url.{
  Url, Net, hostname, port_of, bad_port, origin_error, bare_origin, check_origin, parse_base_url,
}

-- A number from 1 to 65535.
abbrev pub IsPort : Text → Type 0
IsPort port = (n : ℤ) × (atoi port ≡ some n) × (pos 1 ≤ℤ n) × (n ≤ℤ pos 65535)

-- A scheme and a host, and nothing else.
pub record IsOrigin (u : Url) : Type 0 where
  pub scheme : (u.scheme ≡ bytes "http") ⊎ (u.scheme ≡ bytes "https")
  pub host : hostname u ≢ []
  pub port : (port_of u ≡ []) ⊎ IsPort (port_of u)
  pub bare : u ≡ bare_origin u.scheme u.host

bad_port-IsPort : (port : Text) → bad_port port ≡ false → IsPort port
unfolding bad_port
bad_port-IsPort port e = elim (Option-cases (atoi port)) [
  | inl at ↦ absurd (ground (arith, e, at))
  | inr (n, at) ↦ (n, at, ground (arith, e, at), ground (arith, e, at))
]

hostname-bare : (u : Url) → hostname (bare_origin u.scheme u.host) ≡ hostname u
unfolding hostname
hostname-bare u = refl

port_of-bare : (u : Url) → port_of (bare_origin u.scheme u.host) ≡ port_of u
unfolding port_of
port_of-bare u = refl

IsPort-cases :
    (port : Text) → (not (is_empty port) && bad_port port) ≡ false → (port ≡ []) ⊎ IsPort port
IsPort-cases [] e = inl refl
IsPort-cases (c ∷ s) e = inr (bad_port-IsPort (c ∷ s) e)

check_origin-IsOrigin : (u v : Url) → check_origin u ≡ ok v → IsOrigin v
unfolding check_origin origin_error
check_origin-IsOrigin u v e =
    let bare : bare_origin u.scheme u.host ≡ v = ground (arith, e) in
    let filled : is_empty (hostname u) ≡ false = ground (arith, e) in
    let port = IsPort-cases (port_of u) (ground (arith, e)) in
    subst IsOrigin bare (record {
      scheme =
          ground
            (arith, e, text_eq_iff u.scheme (bytes "http"), text_eq_iff u.scheme (bytes "https"));
      host = λ h. ground (arith, filled, hostname-bare u, h);
      port = rw (port_of-bare u) port;
      bare = refl;
    })

-- A base URL that ParseBaseURL accepts gives a URL with the scheme http or https, a host name
-- that is not empty, no port or one from 1 to 65535, and nothing else: no user, path, query or
-- fragment.
pub parse_base_url-IsOrigin :
    (net : Net) (raw : Text) (u : Url) → parse_base_url net raw ≡ ok u → IsOrigin u
unfolding parse_base_url
parse_base_url-IsOrigin net raw u e = elim (Option-cases (net.parse_url (trim_space raw))) [
  | inl at ↦ absurd (ground (arith, e, at))
  | inr (v, at) ↦ check_origin-IsOrigin v u (ground (arith, e, at))
]
