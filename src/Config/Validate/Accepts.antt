-- ===== src/Config/Validate/Accepts.antt =====
-- internal/config/validate.go: Validate, against the specification of a valid configuration.
use local_inference_router.Base.{
  ℤ, pos, Text, is_empty, trim_space, mem_text, lookup, split_host_port, atoi, none, some, map, ◌≡◌,
  ◌↔◌, inl, inr, refl, sym, ◌∙◌, arith, All-of_all, Option-cases, Result-cases, eq_of_parts, false,
}
use mathlib.Core.Option.{some-injective}
use local_inference_router.Config.{Config}
use local_inference_router.Config.Url.{Net, bad_port}
use local_inference_router.Config.Checks.{validate_listen}
use local_inference_router.Config.Checks.Names.{validate_env_name_iff}
use local_inference_router.Config.Validate.{validate, validate_parts, validate_backends}
use local_inference_router.Config.Validate.Valid.{IsListen, IsConfig, Within}
use local_inference_router.Config.Validate.Backends.{validate_backends-ok, validate_backends-Fresh}
use local_inference_router.Config.Validate.Aliases.{validate_aliases_iff}

bad_port_iff :
    (port : Text)
    → (bad_port port ≡ false) ↔ ((n : ℤ) × (atoi port ≡ some n) × Within (pos 1) (pos 65535) n)
unfolding bad_port
bad_port_iff port = elim (Option-cases (atoi port)) [
  | inl none_ ↦
      (λ e. absurd (ground (arith, e, none_)), λ (n, e, r). absurd (ground (arith, e, none_)))
  | inr (n, at) ↦ (
    λ e. (n, at, ground (arith, e, at)),
    λ (m, e, r). let same : n ≡ m = some-injective n m (sym at ∙ e) in ground (arith, e, r),
  )
]

validate_listen_iff : (listen : Text) → (validate_listen listen ≡ none) ↔ IsListen listen
unfolding validate_listen
validate_listen_iff listen = (
  λ e. elim (Option-cases (split_host_port listen)) [
    | inl at ↦ absurd (ground (arith, e, at))
    | inr ((host, port), at) ↦
        let filled : is_empty (trim_space host) ≡ false = ground (arith, e, at) in
        let (n, decimal, in_range) = (bad_port_iff port).0 (ground (arith, e, at)) in
        record {
          host = host;
          port = port;
          number = n;
          parts = at;
          filled = λ blank. ground (arith, filled, blank);
          decimal = decimal;
          in_range = in_range;
        }
  ],
  λ h.
      let good = (bad_port_iff h.port).1 (h.number, h.decimal, h.in_range) in
      ground (arith, h.parts, h.filled, good),
)

-- Validate reports no error for a configuration exactly if it is valid: version 1, a listen
-- address with a host and a port from 1 to 65535, valid environment names, at least one backend,
-- each with a name, kind, base URL, capacity and timeouts in range, with pairwise different names
-- and pairwise different canonical origins, and at least one alias, with pairwise different
-- names, each with at least one route, to a configured backend, with a model and a priority in
-- range, no two to the same backend with the same model.
pub validate-IsConfig :
    (net : Net) (cfg : Config) → (validate net (some cfg) ≡ none) ↔ IsConfig net cfg
unfolding validate validate_parts mem_text lookup
validate-IsConfig net cfg = (
  λ e.
      let listen = (validate_listen_iff cfg.listen).0 (ground (arith, e)) in
      let token_env = (validate_env_name_iff cfg.bearer_token_env).0 (ground (arith, e)) in
      elim (Result-cases (validate_backends net cfg.backends)) [
        | inl (x, at) ↦ absurd (ground (arith, e, at))
        | inr (known, at) ↦
            let (some_backend, fresh, same) = validate_backends-ok net cfg.backends known at in
            let (some_alias, aliases) =
              (validate_aliases_iff known (map (λ b. b.name) cfg.backends) same cfg.aliases).0
                (ground (arith, e, at)) in
            record {
              version = eq_of_parts cfg.version (pos 1) (ground (arith, e));
              listen = listen;
              token_env = token_env;
              some_backend = some_backend;
              backends = fresh.backends;
              distinct_names = fresh.distinct_names;
              distinct_origins = fresh.distinct_origins;
              some_alias = some_alias;
              aliases = aliases.aliases;
              distinct_aliases = aliases.distinct;
            }
      ],
  λ h.
      let (known, at) = validate_backends-Fresh net cfg.backends h.some_backend (record {
        backends = h.backends;
        distinct_names = h.distinct_names;
        distinct_origins = h.distinct_origins;
        new_names = All-of_all _ (λ b. refl) cfg.backends;
        new_origins = All-of_all _ (λ b. refl) cfg.backends;
      }) in
      let (_, _, same) = validate_backends-ok net cfg.backends known at in
      let aliases =
        (validate_aliases_iff known (map (λ b. b.name) cfg.backends) same cfg.aliases).1 (
          h.some_alias,
          record {
            aliases = h.aliases;
            distinct = h.distinct_aliases;
            new = All-of_all _ (λ a. refl) cfg.aliases;
          },
        ) in
      ground (
        arith,
        h.version,
        (validate_listen_iff cfg.listen).1 h.listen,
        (validate_env_name_iff cfg.bearer_token_env).1 h.token_env,
        at,
        aliases,
      ),
)
