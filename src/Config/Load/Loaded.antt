-- ===== src/Config/Load/Loaded.antt =====
-- internal/config/load.go: what a loaded configuration is.
use local_inference_router.Base.{
  ℕ, suc, zero, ◌≤◌, Text, length, trim_space, none, some, [], ◌∷◌, ◌≡◌, ◌≢◌, ◌↔◌, ◌⊎◌, refl, sym,
  ap, ◌∙◌, inl, inr, arith, Result-cases, Option-cases, ok,
}
use mathlib.Core.Path.{subst}
use local_inference_router.Config.{Config, max_config_bytes}
use local_inference_router.Config.Url.{Net}
use local_inference_router.Config.Validate.{validate}
use local_inference_router.Config.Validate.Valid.{IsConfig}
use local_inference_router.Config.Validate.Accepts.{validate-IsConfig}
use local_inference_router.Config.Load.{
  File, Document, decoded, end_of_input, malformed, limit_reader, bounded_read, read_content,
  read_within, read_file, apply_defaults, second_document, first_document, decode, validated, load,
}

limit_reader-short :
    (n : ℕ) (s : Text) → length (limit_reader (suc n) s) ≤ n → limit_reader (suc n) s ≡ s
unfolding limit_reader
limit_reader-short n [] h = refl
limit_reader-short zero (c ∷ s) h = absurd (omega (arith, h))
limit_reader-short (suc n) (c ∷ s) h = ap (λ t. c ∷ t) (limit_reader-short n s (omega (arith, h)))

limit_reader-all : (n : ℕ) (s : Text) → length s ≤ n → limit_reader (suc n) s ≡ s
unfolding limit_reader
limit_reader-all n [] h = refl
limit_reader-all zero (c ∷ s) h = absurd (omega (arith, h))
limit_reader-all (suc n) (c ∷ s) h = ap (λ t. c ∷ t) (limit_reader-all n s (omega (arith, h)))

-- Of a size within the limit when Stat looked, and still within it when it was read.
pub record Fits (limit : ℕ) (file : File) (data_ : Text) : Type 0 where
  pub size : ℕ
  pub stat : file.size ≡ some size
  pub small : size ≤ limit
  pub whole : file.content ≡ some data_
  pub short : length data_ ≤ limit

bounded_read_iff :
    (limit : ℕ) (content data_ : Text)
    → (bounded_read limit content ≡ ok data_) ↔ ((content ≡ data_) × (length data_ ≤ limit))
unfolding bounded_read
bounded_read_iff limit content data_ = (
  λ e.
      let same : limit_reader (suc limit) content ≡ data_ = ground (arith, e) in
      let short : length (limit_reader (suc limit) content) ≤ limit = ground (arith, e) in
      (sym (limit_reader-short limit content short) ∙ same, rw (← same) short),
  λ (e, h).
      let small : length content ≤ limit = rw e h in
      let same = limit_reader-all limit content small in ground (arith, same, small, e),
)

read_within_iff :
    (limit : ℕ) (file : File) (data_ : Text)
    → (read_within limit file ≡ ok data_) ↔ Fits limit file data_
unfolding read_within read_content
read_within_iff limit file data_ = (
  λ e. elim (Option-cases file.size) [
    | inl at ↦ absurd (ground (arith, e, at))
    | inr (size, at) ↦ elim (Option-cases file.content) [
      | inl at' ↦ absurd (ground (arith, e, at, at'))
      | inr (content, at') ↦
          let (whole, short) =
            (bounded_read_iff limit content data_).0 (ground (arith, e, at, at')) in
          record {
            size = size;
            stat = at;
            small = ground (arith, e, at);
            whole = at' ∙ ap some whole;
            short = short;
          }
    ]
  ],
  λ h.
      let done = (bounded_read_iff limit data_ data_).1 (refl, h.short) in
      ground (arith, h.stat, h.small, h.whole, done),
)

-- A read succeeds exactly for a file that fits, and gives all of it.
pub read_file_iff :
    (file : File) (data_ : Text) → (read_file file ≡ ok data_) ↔ Fits max_config_bytes file data_
unfolding read_file
read_file_iff file data_ = read_within_iff max_config_bytes file data_

Document-cases :
    (d : Document) → ((c : Config) × (d ≡ decoded c)) ⊎ ((d ≡ end_of_input) ⊎ (d ≡ malformed))
Document-cases (decoded c) = inl (c, refl)
Document-cases end_of_input = inr (inl refl)
Document-cases malformed = inr (inr refl)

second_document_iff :
    (document : Config) (next : Document) (cfg : Config)
    → (second_document document next ≡ ok cfg)
      ↔ ((next ≡ end_of_input) × (cfg ≡ apply_defaults document))
unfolding second_document
second_document_iff document (decoded c) cfg = ground arith
second_document_iff document end_of_input cfg = ground arith
second_document_iff document malformed cfg = ground arith

-- What Decode makes of data.
pub record Decodes (decode_yaml : Text → Document × Document) (data_ : Text) (cfg : Config)
    : Type 0 where
  pub filled : trim_space data_ ≢ []
  pub document : Config
  pub first : (decode_yaml data_).0 ≡ decoded document
  pub last : (decode_yaml data_).1 ≡ end_of_input
  pub defaults : cfg ≡ apply_defaults document

module _ (decode_yaml : Text → Document × Document) where
  decode_iff :
      (data_ : Text) (cfg : Config)
      → (decode decode_yaml data_ ≡ ok cfg) ↔ Decodes decode_yaml data_ cfg
  unfolding decode first_document second_document
  decode_iff data_ cfg = (
    λ e. elim (Document-cases (decode_yaml data_).0) [
      | inl (document, at) ↦
          let one : second_document document (decode_yaml data_).1 ≡ ok cfg =
            ground (arith, e, at) in
          let (last, same) = (second_document_iff document (decode_yaml data_).1 cfg).0 one in
          record {
            filled = λ blank. ground (arith, e, blank);
            document = document;
            first = at;
            last = last;
            defaults = same;
          }
      | inr at ↦ absurd (ground (arith, e, at))
    ],
    λ h.
        let two =
          (second_document_iff h.document (decode_yaml data_).1 cfg).1 (h.last, h.defaults) in
        ground (arith, h.filled, h.first, two),
  )

  -- Load returns a configuration exactly if the file was within the limit for Stat and still is
  -- when it is read as a whole, holds one YAML document and nothing after it, and the
  -- configuration is this document with the defaults and is valid.
  pub load_iff :
      (net : Net) (file : File) (cfg : Config)
      → (load decode_yaml net file ≡ ok cfg) ↔ (
          (data_ : Text) × Fits max_config_bytes file data_
          × Decodes decode_yaml data_ cfg
          × IsConfig net cfg)
  unfolding load validated
  load_iff net file cfg = (
    λ e. elim (Result-cases (read_file file)) [
      | inl (x, at) ↦ absurd (ground (arith, e, at))
      | inr (data_, at) ↦ elim (Result-cases (decode decode_yaml data_)) [
        | inl (x, at') ↦ absurd (ground (arith, e, at, at'))
        | inr (c, at') ↦
            let same : c ≡ cfg = ground (arith, e, at, at') in
            let valid : validate net (some c) ≡ none = ground (arith, e, at, at') in
            (
              data_,
              (read_file_iff file data_).0 at,
              (decode_iff data_ cfg).0 (at' ∙ ap ok same),
              subst (IsConfig net) same ((validate-IsConfig net c).0 valid),
            )
      ]
    ],
    λ (data_, fits, decodes, valid).
        let read = (read_file_iff file data_).1 fits in
        let decoded_ = (decode_iff data_ cfg).1 decodes in
        let accepted = (validate-IsConfig net cfg).1 valid in
        ground (arith, read, decoded_, accepted),
  )
