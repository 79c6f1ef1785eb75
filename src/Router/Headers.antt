-- ===== src/Router/Headers.antt =====
-- internal/router/headers.go, with the http.Header that it works on: a map from canonical names to
-- values. A range visits the entries in the order of the list.
pub mod Canonical
pub mod Blocking
pub mod Copying
use local_inference_router.Base.{
  ℕ, Text, bytes, text_eq, is_empty, Bool, true, false, not, ◌||◌, Option, none, some, List, [],
  ◌∷◌, ◌++◌, lookup, insert, mem_text, if◌then◌else◌, trim_space, split_byte,
}
use local_inference_router.Backend.{Backend}
use local_inference_router.Router.State.{Route}
use Canonical.{canonical_header_key}

abbrev pub Header : Type 0
Header = List (Text × List Text)

-- h.Values(key)
unfoldable pub header_values : Header → Text → List Text
header_values h key = elim (lookup (canonical_header_key key) h) [ none ↦ [] | some vs ↦ vs ]

abbrev first_value : List Text → Text
first_value [] = []
first_value (v ∷ _) = v

-- h.Get(key)
unfoldable pub header_get : Header → Text → Text
header_get h key = first_value (header_values h key)

-- h.Set(key, value)
unfoldable pub header_set : Text → Text → Header → Header
header_set key value h = insert (canonical_header_key key) (value ∷ []) h

-- h.Add(key, value)
unfoldable pub header_add : Text → Text → Header → Header
header_add key value h = insert (canonical_header_key key) (header_values h key ++ value ∷ []) h

unfoldable pub hop_by_hop_and_unsafe : List Text
hop_by_hop_and_unsafe =
    bytes "Alt-Svc"
    ∷ bytes "Connection"
    ∷ bytes "Keep-Alive"
    ∷ bytes "Proxy-Authenticate"
    ∷ bytes "Proxy-Authorization"
    ∷ bytes "Te"
    ∷ bytes "Trailer"
    ∷ bytes "Transfer-Encoding"
    ∷ bytes "Upgrade"
    ∷ bytes "Content-Length"
    ∷ bytes "Set-Cookie"
    ∷ bytes "Server"
    ∷ []

-- Backend.Authorize, on the headers of the request.
unfoldable pub authorize : Backend → Header → Header
authorize b h =
    if not (is_empty b.token)
    then header_set (bytes "Authorization") (bytes "Bearer " ++ b.token) h
    else h

-- setUpstreamHeaders: the headers of a new upstream request, from those of the client's.
unfoldable pub set_upstream_headers : Header → Header → Route → Header
unfolding authorize
set_upstream_headers upstream client route =
    let accept = header_get client (bytes "Accept") in
    let typed = header_set (bytes "Content-Type") (bytes "application/json") upstream in
    authorize route.backend
      (if not (is_empty accept) then header_set (bytes "Accept") accept typed else typed)

-- The inner loop of connectionNominatedHeaders, over the tokens of one value.
nominated_tokens : List Text → List Text
nominated_tokens [] = []
nominated_tokens (token ∷ tokens) =
    let rest = nominated_tokens tokens in
    let name = trim_space token in if is_empty name then rest else canonical_header_key name ∷ rest

nominated_values : List Text → List Text
unfolding nominated_tokens
nominated_values [] = []
nominated_values (value ∷ values) =
    nominated_tokens (split_byte value b',') ++ nominated_values values

unfoldable pub connection_nominated_headers : Header → List Text
unfolding nominated_values
connection_nominated_headers h = nominated_values (header_values h (bytes "Connection"))

-- The loop over the values of one name.
add_values : Text → List Text → Header → Header
add_values name [] dst = dst
add_values name (v ∷ vs) dst = add_values name vs (header_add name v dst)

-- The loop of copyResponseHeaders; `nominated` is the set of connection headers.
pub copy_from : List Text → Header → Header → Header
unfolding add_values
copy_from nominated [] dst = dst
copy_from nominated ((name, values) ∷ src) dst = copy_from nominated src (
    if mem_text (canonical_header_key name) hop_by_hop_and_unsafe
      || mem_text (canonical_header_key name) nominated
    then dst
    else add_values name values dst)

unfoldable pub copy_response_headers : Header → Header → Header
unfolding copy_from
copy_response_headers dst src = copy_from (connection_nominated_headers src) src dst
