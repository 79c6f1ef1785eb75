-- ===== src/Config/Validate/Backends.antt =====
-- internal/config/validate.go: validateBackends, against the specification.
use local_inference_router.Base.{
  ℕ, ◌+◌, Text, insert, mem_text, false, ◌||◌, List, [], ◌∷◌, map, ◌≡◌, ◌≢◌, inl, inr, refl, sym,
  ap, ◌∙◌, arith, All, All-map, Pairwise, Result-cases, unseen-insert, ok,
}
use local_inference_router.Config.{BackendConfig}
use local_inference_router.Config.Url.{Net}
use local_inference_router.Config.Validate.{check_backend, backends_from, validate_backends}
use local_inference_router.Config.Validate.Valid.{IsBackend, origin}
use local_inference_router.Config.Validate.Rounds.{
  has_key, has_key-insert, Passed, check_backend-ok, check_backend-Passed,
}

module _ (net : Net) where
  -- What the loop asks of the backends that are left.
  pub record Fresh (known : List Text) (origins : List (Text × Text)) (bs : List BackendConfig)
      : Type 0 where
    pub backends : All (IsBackend net) bs
    pub distinct_names : Pairwise (λ b c. b.name ≢ c.name) bs
    pub distinct_origins : Pairwise (λ b c. origin net b ≢ origin net c) bs
    pub new_names : All (λ b. mem_text b.name known ≡ false) bs
    pub new_origins : All (λ b. has_key origins (origin net b) ≡ false) bs

  Fresh-uncons :
      (known : List Text) (origins : List (Text × Text)) (b : BackendConfig)
      (bs : List BackendConfig)
      → Fresh known origins (b ∷ bs)
      → Passed net known origins b
        × Fresh (b.name ∷ known) (insert (origin net b) b.name origins) bs
  unfolding mem_text
  Fresh-uncons known origins b bs h = (
    record { backend = h.backends.0; new_name = h.new_names.0; new_origin = h.new_origins.0 },
    record {
      backends = h.backends.1;
      distinct_names = h.distinct_names.1;
      distinct_origins = h.distinct_origins.1;
      new_names =
          (unseen-insert (λ c. c.name) (λ k. mem_text k known) b.name bs).1
            (h.distinct_names.0, h.new_names.1);
      new_origins =
          All-map _ _ (λ c e. has_key-insert (origin net b) b.name origins (origin net c) ∙ e) bs
            ((unseen-insert (origin net) (has_key origins) (origin net b) bs).1
              (h.distinct_origins.0, h.new_origins.1));
    },
  )

  Fresh-cons :
      (known : List Text) (origins : List (Text × Text)) (b : BackendConfig)
      (bs : List BackendConfig)
      → Passed net known origins b
      → Fresh (b.name ∷ known) (insert (origin net b) b.name origins) bs
      → Fresh known origins (b ∷ bs)
  unfolding mem_text
  Fresh-cons known origins b bs p h =
      let (names, new_names) =
        (unseen-insert (λ c. c.name) (λ k. mem_text k known) b.name bs).0 h.new_names in
      let (keys, new_origins) = (unseen-insert (origin net) (has_key origins) (origin net b) bs).0 (
        All-map _ _ (λ c e. sym (has_key-insert (origin net b) b.name origins (origin net c)) ∙ e)
          bs h.new_origins) in
      record {
        backends = (p.backend, h.backends);
        distinct_names = (names, h.distinct_names);
        distinct_origins = (keys, h.distinct_origins);
        new_names = (p.new_name, new_names);
        new_origins = (p.new_origin, new_origins);
      }

  -- The names that the loop ends with, as a set.
  abbrev Knows : List Text → List BackendConfig → List Text → Type 0
  Knows known bs all =
      (k : Text) → mem_text k all ≡ (mem_text k known || mem_text k (map (λ b. b.name) bs))

  Knows-cons :
      (known : List Text) (b : BackendConfig) (bs : List BackendConfig) (all : List Text)
      → Knows (b.name ∷ known) bs all
      → Knows known (b ∷ bs) all
  unfolding mem_text
  Knows-cons known b bs all h k = ground (arith, h k)

  Knows-nil : (known : List Text) → Knows known [] known
  unfolding mem_text
  Knows-nil known k = ground arith

  backends_from-cons :
      (i : ℕ) (known : List Text) (origins : List (Text × Text)) (b : BackendConfig)
      (bs : List BackendConfig)
      → {next : List (Text × Text)} → check_backend net known origins b ≡ ok next
      → backends_from net i known origins (b ∷ bs)
        ≡ backends_from net (i + 1) (b.name ∷ known) next bs
  unfolding backends_from
  backends_from-cons i known origins b bs at = rw (backends_from, at)

  backends_from-ok :
      (i : ℕ) (known : List Text) (origins : List (Text × Text)) (bs : List BackendConfig)
      (all : List Text)
      → backends_from net i known origins bs ≡ ok all
      → Fresh known origins bs × Knows known bs all
  unfolding backends_from
  backends_from-ok i known origins [] all e = (
    record {
      backends = tt;
      distinct_names = tt;
      distinct_origins = tt;
      new_names = tt;
      new_origins = tt;
    },
    ground (arith, e, Knows-nil known),
  )
  backends_from-ok i known origins (b ∷ bs) all e =
      elim (Result-cases (check_backend net known origins b)) [
        | inl (x, at) ↦ absurd (ground (arith, e, at))
        | inr (next, at) ↦
            let (passed, same) = check_backend-ok net known origins next b at in
            let (fresh, knows) =
              backends_from-ok (i + 1) (b.name ∷ known) (insert (origin net b) b.name origins) bs
                all
                (ap (λ o. backends_from net (i + 1) (b.name ∷ known) o bs) (sym same)
                  ∙ sym (backends_from-cons i known origins b bs at)
                  ∙ e) in
            (Fresh-cons known origins b bs passed fresh, Knows-cons known b bs all knows)
      ]

  backends_from-Fresh :
      (i : ℕ) (known : List Text) (origins : List (Text × Text)) (bs : List BackendConfig)
      → Fresh known origins bs
      → (all : List Text) × (backends_from net i known origins bs ≡ ok all)
  unfolding backends_from
  backends_from-Fresh i known origins [] h = (known, refl)
  backends_from-Fresh i known origins (b ∷ bs) h =
      let (passed, rest) = Fresh-uncons known origins b bs h in
      let (all, e) =
        backends_from-Fresh (i + 1) (b.name ∷ known) (insert (origin net b) b.name origins) bs
          rest in
      (
        all,
        backends_from-cons i known origins b bs (check_backend-Passed net known origins b passed)
            ∙ e,
      )

  -- Validation accepts exactly the backends of the specification, and ends with their names.
  pub validate_backends-ok :
      (bs : List BackendConfig) (all : List Text)
      → validate_backends net bs ≡ ok all
      → (bs ≢ [])
        × Fresh [] [] bs
        × ((k : Text) → mem_text k all ≡ mem_text k (map (λ b. b.name) bs))
  unfolding validate_backends mem_text
  validate_backends-ok [] all e = absurd (ground (arith, e))
  validate_backends-ok (b ∷ bs) all e =
      let (fresh, knows) = backends_from-ok 0 [] [] (b ∷ bs) all e in (λ x. cc, fresh, knows)

  pub validate_backends-Fresh :
      (bs : List BackendConfig)
      → bs ≢ []
      → Fresh [] [] bs
      → (all : List Text) × (validate_backends net bs ≡ ok all)
  unfolding validate_backends
  validate_backends-Fresh [] filled h = absurd (filled refl)
  validate_backends-Fresh (b ∷ bs) filled h = backends_from-Fresh 0 [] [] (b ∷ bs) h
