-- ===== src/Config/Url.antt =====
-- internal/config/url.go and the part of net/url that it reads.
pub mod Origin
pub mod Ports
pub mod Keys
use local_inference_router.Base.{
  Text, Bool, true, false, not, ◌&&◌, ◌||◌, Option, none, some, [], ◌∷◌, ◌++◌, bytes, text_eq,
  is_empty, ◌==◌, if◌then◌else◌, pos, ltb, ltb_ℤ, has_prefix, has_suffix, trim_space, is_digit,
  cut_last, count_byte, atoi, itoa, join_host_port, Result, fail, ok,
}

-- url.URL, with the password of its user information left out: the program only asks whether
-- there is any.
pub record Url : Type 0 where
  pub scheme : Text
  pub opaque : Text
  pub user : Option Text
  pub host : Text
  pub path : Text
  pub force_query : Bool
  pub raw_query : Text
  pub fragment : Text

-- What the program leaves to net/url, net and strings: url.Parse, the text of the address that
-- net.ParseIP reads, and strings.ToLower.
pub record Net : Type 0 where
  pub parse_url : Text → Option Url
  pub canonical_ip : Text → Option Text
  pub to_lower : Text → Text

abbrev pub chat_completions_path : Text
chat_completions_path = bytes "/v1/chat/completions"

all_digits : Text → Bool
all_digits [] = true
all_digits (c ∷ s) = is_digit c && all_digits s

-- s[1:len(s)-1] of a text in brackets
drop_last : Text → Text
drop_last [] = []
drop_last (c ∷ []) = []
drop_last (c ∷ d ∷ s) = c ∷ drop_last (d ∷ s)

strip_brackets : Text → Text
unfolding drop_last
strip_brackets [] = []
strip_brackets (c ∷ s) = if c == b'[' && has_suffix (c ∷ s) (bytes "]") then drop_last s else c ∷ s

-- The splitHostPort of net/url: a colon and digits at the end are the port.
url_host_port : Text → Text × Text
unfolding all_digits strip_brackets
url_host_port s = elim (cut_last b':' s) [
  | none ↦ (strip_brackets s, [])
  | some (host, port) ↦
      if all_digits port then (strip_brackets host, port) else (strip_brackets s, [])
]

-- u.Hostname() and u.Port()
unfoldable pub hostname : Url → Text
unfolding url_host_port
hostname u = (url_host_port u.host).0

unfoldable pub port_of : Url → Text
unfolding url_host_port
port_of u = (url_host_port u.host).1

-- The errors of ParseBaseURL.
pub data UrlError : Type 0 where
  empty_url not_a_url bad_scheme no_host has_credentials empty_port unbracketed_host has_query :
      UrlError
  has_fragment has_path not_absolute port_range : UrlError

-- number < 1 || number > 65535, or an error of Atoi
unfoldable pub bad_port : Text → Bool
bad_port port = elim (atoi port) [
  | none ↦ true
  | some number ↦ ltb_ℤ number (pos 1) || ltb_ℤ (pos 65535) number
]

-- The switch of ParseBaseURL.
origin_error : Url → Option UrlError
origin_error u =
    if not (text_eq u.scheme (bytes "http")) && not (text_eq u.scheme (bytes "https"))
    then some bad_scheme
    else if is_empty (hostname u)
    then some no_host
    else if (elim u.user [ none ↦ false | some _ ↦ true ])
    then some has_credentials
    else if has_suffix u.host (bytes ":")
    then some empty_port
    else if ltb 1 (count_byte b':' u.host) && not (has_prefix u.host (bytes "["))
    then some unbracketed_host
    else if not (is_empty u.raw_query) || u.force_query
    then some has_query
    else if not (is_empty u.fragment)
    then some has_fragment
    else if not (is_empty u.path) && not (text_eq u.path (bytes "/"))
    then some has_path
    else if not (is_empty u.opaque)
    then some not_absolute
    else none

-- &url.URL{Scheme: scheme, Host: host}
abbrev pub bare_origin : Text → Text → Url
bare_origin scheme host = record {
  scheme = scheme;
  opaque = [];
  user = none;
  host = host;
  path = [];
  force_query = false;
  raw_query = [];
  fragment = [];
}

-- The rest of ParseBaseURL, on the parsed URL.
check_origin : Url → Result UrlError Url
unfolding origin_error
check_origin u = elim (origin_error u) [
  | some e ↦ fail e
  | none ↦
      if not (is_empty (port_of u)) && bad_port (port_of u)
      then fail port_range
      else ok (bare_origin u.scheme u.host)
]

module _ (net : Net) where
  unfoldable pub parse_base_url : Text → Result UrlError Url
  unfolding check_origin
  parse_base_url raw =
      if is_empty (trim_space raw)
      then fail empty_url
      else elim (net.parse_url (trim_space raw)) [ none ↦ fail not_a_url | some u ↦ check_origin u ]

  -- The host of canonicalOriginKey.
  pub canonical_host : Url → Text
  canonical_host base =
      let host = net.to_lower (hostname base) in
      elim (net.canonical_ip host) [ none ↦ host | some ip ↦ ip ]

  -- The port of canonicalOriginKey.
  pub canonical_port : Url → Text
  canonical_port base =
      let scheme = net.to_lower base.scheme in
      let port = port_of base in
      if is_empty port
      then (if text_eq scheme (bytes "http")
          then bytes "80"
          else if text_eq scheme (bytes "https")
          then bytes "443"
          else port)
      else elim (atoi port) [ none ↦ port | some number ↦ itoa number ]

  unfoldable pub canonical_origin_key : Url → Text
  unfolding canonical_host canonical_port
  canonical_origin_key base =
      net.to_lower base.scheme
      ++ bytes "://"
      ++ join_host_port (canonical_host base) (canonical_port base)

unfoldable pub endpoint_url : Url → Text → Url
endpoint_url base path = record base { path = path; raw_query = []; fragment = []; user = none }
