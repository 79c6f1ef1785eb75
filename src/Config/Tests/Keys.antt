-- ===== src/Config/Tests/Keys.antt =====
-- Base URLs that are written differently, and the theorems about their keys.
use local_inference_router.Base.{
  ℕ, pos, bytes, text_eq, trim_space, has_suffix, has_prefix, count_byte, atoi, split_host_port,
  some, ok, ◌≡◌, ◌↔◌, refl,
}
use local_inference_router.Config.Url.{
  Url, parse_base_url, canonical_origin_key, canonical_host, canonical_port, hostname, port_of,
  bad_port, bare_origin,
}
use local_inference_router.Config.Url.Ports.{LowersSchemes, HasPort, atoi-canonical_port}
use local_inference_router.Config.Url.Keys.{canonical_origin_key_iff}
use local_inference_router.Config.Tests.{simple_net, base_a}

abbrev padded : Url
padded = bare_origin (bytes "http") (bytes "a:08000")

base_padded : parse_base_url simple_net (bytes " http://a:08000") ≡ ok padded
unfolding parse_base_url hostname port_of bad_port text_eq trim_space has_suffix has_prefix
    count_byte atoi split_host_port
base_padded = refl

lowers : LowersSchemes simple_net
lowers = (refl, refl)

abbrev plain : Url
plain = bare_origin (bytes "http") (bytes "a:8000")

canonical_origin_key_iff_example :
    (canonical_origin_key simple_net plain ≡ canonical_origin_key simple_net padded) ↔ (
      (plain.scheme ≡ padded.scheme)
      × (canonical_host simple_net plain ≡ canonical_host simple_net padded)
      × ((n : ℕ) × HasPort plain n × HasPort padded n))
canonical_origin_key_iff_example =
    canonical_origin_key_iff simple_net lowers (bytes "http://a:8000") (bytes " http://a:08000")
      plain padded base_a base_padded

atoi-canonical_port_example :
    (n : ℕ) × HasPort padded n × (atoi (canonical_port simple_net padded) ≡ some (pos n))
atoi-canonical_port_example =
    atoi-canonical_port simple_net lowers (bytes " http://a:08000") padded base_padded
