-- ===== src/Router/Errors/Fixed.antt =====
-- The labels that Serve makes of errors and statuses are among the constants of
-- internal/metrics/metrics.go.
use local_inference_router.Base.{
  ℕ, Text, bytes, mem_text, text_eq, Bool, true, false, if◌then◌else◌, ◌==◌, ◌≡◌, refl, Option,
  some, Bool-cases, inl, inr,
}
use mathlib.Core.Path.{subst}
use mathlib.Core.Option.{some-injective}
use local_inference_router.Metrics.Instruments.{results, reasons}
use local_inference_router.Router.Errors.{
  AttemptError, failure_reason, failure_result, retryable_status, is_timeout,
}

pub failure_reason-fixed : (e : AttemptError) → mem_text (failure_reason e) reasons ≡ true
unfolding failure_reason mem_text text_eq
failure_reason-fixed e = elim (Bool-cases (is_timeout e)) [
  | inl late ↦ rw (late, failure_reason) refl
  | inr other ↦ rw (other, failure_reason) refl
]

pub failure_result-fixed : (e : AttemptError) → mem_text (failure_result e) results ≡ true
unfolding failure_result mem_text text_eq
failure_result-fixed e = elim (Bool-cases (is_timeout e)) [
  | inl late ↦ rw (late, failure_result) refl
  | inr other ↦ rw (other, failure_result) refl
]

pub response-fixed : mem_text (bytes "response") results ≡ true
unfolding mem_text text_eq
response-fixed = refl

pub canceled-fixed : mem_text (bytes "canceled") results ≡ true
unfolding mem_text text_eq
canceled-fixed = refl

-- A reason, if there is one, is one of a failover.
abbrev Fixed : Option Text → Type 0
Fixed o = (reason : Text) → o ≡ some reason → mem_text reason reasons ≡ true

some-Fixed : (t : Text) → mem_text t reasons ≡ true → Fixed (some t)
some-Fixed t h reason e = subst (λ x. mem_text x reasons ≡ true) (some-injective _ _ e) h

if-Fixed : (test : Bool) {p q : Option Text} → Fixed p → Fixed q → Fixed (if test then p else q)
if-Fixed true p q = p
if-Fixed false p q = q

pub retryable_status-Fixed : (status : ℕ) → Fixed (retryable_status status)
unfolding retryable_status mem_text text_eq
retryable_status-Fixed status = if-Fixed (status == 429) (some-Fixed (bytes "status_429") refl) (
    if-Fixed (status == 502) (some-Fixed (bytes "status_502") refl) (
      if-Fixed (status == 503) (some-Fixed (bytes "status_503") refl)
        (if-Fixed (status == 504) (some-Fixed (bytes "status_504") refl) (λ reason e. cc))))
