-- ===== src/Config/Validate/Aliases.antt =====
-- internal/config/validate.go: validateAliases, against the specification.
use local_inference_router.Base.{
  ℕ, ◌+◌, Text, mem_text, mem_text_lem, trim_space, true, false, none, List, [], ◌∷◌, ◌++◌, ◌≡◌,
  ◌≢◌, ◌↔◌, inl, inr, refl, sym, ◌∙◌, arith, All, All-map, All-of_all, All-right, Pairwise,
  unseen-insert, Bool-cases,
}
use mathlib.Core.Path.{subst}
use local_inference_router.Config.{AliasConfig, RouteConfig}
use local_inference_router.Config.Checks.{is_alias_name_byte}
use local_inference_router.Config.Checks.Names.{
  IsPrintable, validate_name_iff, has_control_bytes_iff,
}
use local_inference_router.Config.Validate.{
  route_key, route_error, routes_from, routes_error, alias_error, aliases_from, validate_aliases,
}
use local_inference_router.Config.Validate.Valid.{IsRoute, IsAlias, SameRoute}

-- A printable text does not end in a zero byte and more.
not-zero : (a s t : Text) → IsPrintable t → ¬ (t ≡ a ++ 0 ∷ s)
not-zero a s t p e = let (low, _) = (All-right _ a (0 ∷ s) (subst IsPrintable e p)).0 in omega arith

-- A key determines the backend and the model, whose bytes are not 0.
key_parts :
    (a b s t : Text) → IsPrintable s → IsPrintable t → a ++ 0 ∷ s ≡ b ++ 0 ∷ t → (a ≡ b) × (s ≡ t)
key_parts [] [] s t p q e = (refl, cc)
key_parts [] (y ∷ b) s t p q e = absurd (not-zero b t s p cc)
key_parts (x ∷ a) [] s t p q e = absurd (not-zero a s t q cc)
key_parts (x ∷ a) (y ∷ b) s t p q e = let (front, back) = key_parts a b s t p q cc in (cc, back)

-- Routes with printable models differ by their keys exactly if they differ.
keys-distinct :
    (r : RouteConfig) (qs : List RouteConfig)
    → IsPrintable (trim_space r.upstream_model)
    → All (λ q. IsPrintable (trim_space q.upstream_model)) qs
    → All (λ q. route_key r ≢ route_key q) qs ↔ All (λ q. ¬ SameRoute r q) qs
keys-distinct r [] p ps = ground arith
keys-distinct r (q ∷ qs) p (p', ps) =
    let (there, back) = keys-distinct r qs p ps in
    (
      λ (d, ds). (λ (b, m). d (rw (b, m)), there ds),
      λ (d, ds). (λ e. d (key_parts _ _ _ _ p p' e), back ds),
    )

module _ (backends names : List Text)
    (same : (k : Text) → mem_text k backends ≡ mem_text k names) where
  known_iff : (k : Text) → (mem_text k backends ≡ true) ↔ (¬ All (λ name. name ≢ k) names)
  known_iff k = (
    λ e none_. ground (arith, e, same k, (mem_text_lem k names).1 none_),
    λ h. elim (Bool-cases (mem_text k backends)) [
      | inl e ↦ e
      | inr e ↦ absurd (h ((mem_text_lem k names).0 (sym (same k) ∙ e)))
    ],
  )

  route_error_iff :
      (seen : List Text) (r : RouteConfig)
      → (route_error backends seen r ≡ none)
        ↔ (IsRoute names r × (mem_text (route_key r) seen ≡ false))
  unfolding route_error
  route_error_iff seen r = (
    λ e. (
      record {
        known = (known_iff r.backend).0 (ground (arith, e));
        filled = λ h. ground (arith, e, h);
        short = ground (arith, e);
        printable = (has_control_bytes_iff (trim_space r.upstream_model)).0 (ground (arith, e));
        priority = ground (arith, e);
      },
      ground (arith, e),
    ),
    λ (h, new). ground (
      arith,
      (known_iff r.backend).1 h.known,
      h.filled,
      h.short,
      (has_control_bytes_iff (trim_space r.upstream_model)).1 h.printable,
      h.priority,
      new,
    ),
  )

  -- What the loop over the routes asks of those that are left.
  record FreshRoutes (seen : List Text) (rs : List RouteConfig) : Type 0 where
    pub routes : All (IsRoute names) rs
    pub distinct : Pairwise (λ r q. ¬ SameRoute r q) rs
    pub new : All (λ r. mem_text (route_key r) seen ≡ false) rs

  printables :
      (rs : List RouteConfig)
      → All (IsRoute names) rs
      → All (λ q. IsPrintable (trim_space q.upstream_model)) rs
  printables rs h = All-map _ _ (λ r k. k.printable) rs h

  routes_from_iff :
      (j : ℕ) (seen : List Text) (rs : List RouteConfig)
      → (routes_from backends j seen rs ≡ none) ↔ FreshRoutes seen rs
  unfolding routes_from mem_text
  routes_from_iff j seen [] = (λ e. record { routes = tt; distinct = tt; new = tt }, λ h. refl)
  routes_from_iff j seen (r ∷ rs) =
      let (there, back) = routes_from_iff (j + 1) (route_key r ∷ seen) rs in
      let split = unseen-insert route_key (λ k. mem_text k seen) (route_key r) rs in
      (
        λ e.
            let (valid, new) = (route_error_iff seen r).0 (ground (arith, e)) in
            let rest = there (ground (arith, e)) in
            let (keys, unseen) = split.0 rest.new in
            record {
              routes = (valid, rest.routes);
              distinct = (
                (keys-distinct r rs valid.printable (printables rs rest.routes)).0 keys,
                rest.distinct,
              );
              new = (new, unseen);
            },
        λ h.
            let first = (route_error_iff seen r).1 (h.routes.0, h.new.0) in
            let rest = back (record {
              routes = h.routes.1;
              distinct = h.distinct.1;
              new = split.1 (
                (keys-distinct r rs h.routes.0.printable (printables rs h.routes.1)).1 h.distinct.0,
                h.new.1,
              );
            }) in
            ground (arith, first, rest),
      )

  routes_error_iff :
      (rs : List RouteConfig)
      → (routes_error backends rs ≡ none)
        ↔ ((rs ≢ []) × All (IsRoute names) rs × Pairwise (λ r q. ¬ SameRoute r q) rs)
  unfolding routes_error mem_text
  routes_error_iff [] = (λ e. cc, λ (filled, _, _). absurd (filled refl))
  routes_error_iff (r ∷ rs) =
      let (there, back) = routes_from_iff 0 [] (r ∷ rs) in
      (
        λ e. let h = there e in (λ x. cc, h.routes, h.distinct),
        λ (filled, valid, distinct). back (record {
          routes = valid;
          distinct = distinct;
          new = All-of_all _ (λ q. refl) (r ∷ rs);
        }),
      )

  alias_error_iff :
      (seen : List Text) (a : AliasConfig)
      → (alias_error backends seen a ≡ none) ↔ (IsAlias names a × (mem_text a.name seen ≡ false))
  unfolding alias_error
  alias_error_iff seen a =
      let (named, unnamed) = validate_name_iff a.name 128 is_alias_name_byte in
      let (there, back) = routes_error_iff a.routes in
      (
        λ e.
            let (filled, valid, distinct) = there (ground (arith, e)) in
            (
              record {
                name = named (ground (arith, e));
                some_route = filled;
                routes = valid;
                distinct = distinct;
              },
              ground (arith, e),
            ),
        λ (h, new).
            let spelled = unnamed h.name in
            let routed = back (h.some_route, h.routes, h.distinct) in
            ground (arith, spelled, routed, new),
      )

  pub record FreshAliases (seen : List Text) (xs : List AliasConfig) : Type 0 where
    pub aliases : All (IsAlias names) xs
    pub distinct : Pairwise (λ a c. a.name ≢ c.name) xs
    pub new : All (λ a. mem_text a.name seen ≡ false) xs

  aliases_from_iff :
      (i : ℕ) (seen : List Text) (xs : List AliasConfig)
      → (aliases_from backends i seen xs ≡ none) ↔ FreshAliases seen xs
  unfolding aliases_from mem_text
  aliases_from_iff i seen [] = (λ e. record { aliases = tt; distinct = tt; new = tt }, λ h. refl)
  aliases_from_iff i seen (a ∷ xs) =
      let (there, back) = aliases_from_iff (i + 1) (a.name ∷ seen) xs in
      let split = unseen-insert (λ c. c.name) (λ k. mem_text k seen) a.name xs in
      (
        λ e.
            let (valid, new) = (alias_error_iff seen a).0 (ground (arith, e)) in
            let rest = there (ground (arith, e)) in
            let (distinct, unseen) = split.0 rest.new in
            record {
              aliases = (valid, rest.aliases);
              distinct = (distinct, rest.distinct);
              new = (new, unseen);
            },
        λ h.
            let first = (alias_error_iff seen a).1 (h.aliases.0, h.new.0) in
            let rest = back (record {
              aliases = h.aliases.1;
              distinct = h.distinct.1;
              new = split.1 (h.distinct.0, h.new.1);
            }) in
            ground (arith, first, rest),
      )

  -- Validation accepts exactly the aliases of the specification.
  pub validate_aliases_iff :
      (xs : List AliasConfig)
      → (validate_aliases xs backends ≡ none) ↔ ((xs ≢ []) × FreshAliases [] xs)
  unfolding validate_aliases
  validate_aliases_iff [] = (λ e. cc, λ (filled, h). absurd (filled refl))
  validate_aliases_iff (a ∷ xs) =
      let (there, back) = aliases_from_iff 0 [] (a ∷ xs) in
      (λ e. (λ x. cc, there e), λ (filled, h). back h)
