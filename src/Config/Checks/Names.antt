-- ===== src/Config/Checks/Names.antt =====
-- internal/config/validate.go: which names, environment names and models its tests accept.
use local_inference_router.Base.{
  ℕ, suc, ◌+◌, ◌≤◌, Text, length, Bool, true, false, none, [], ◌∷◌, ◌≡◌, ◌≢◌, ◌↔◌, ◌⊎◌, refl, arith,
  All,
}
use local_inference_router.Config.Checks.{
  has_control_bytes, env_bytes_from, validate_env_name, all_allowed, validate_name,
}

-- Not empty, of at most max_len bytes, all of them allowed.
pub record IsName (max_len : ℕ) (allowed : ℕ → Bool) (name : Text) : Type 0 where
  pub filled : name ≢ []
  pub short : length name ≤ max_len
  pub spelled : All (λ c. allowed c ≡ true) name

abbrev pub EnvStart : ℕ → Type 0
EnvStart c = (c ≡ b'_') ⊎ (((b'A' ≤ c) × (c ≤ b'Z')) ⊎ ((b'a' ≤ c) × (c ≤ b'z')))

abbrev pub EnvByte : ℕ → Type 0
EnvByte c = EnvStart c ⊎ ((b'0' ≤ c) × (c ≤ b'9'))

-- Empty, or the name of an environment variable.
abbrev pub IsEnvName : Text → Type 0
IsEnvName [] = Unit
IsEnvName (c ∷ s) = EnvStart c × All EnvByte s

-- No byte below 0x20 and no 0x7f.
abbrev pub IsPrintable : Text → Type 0
IsPrintable s = All (λ c. (0x20 ≤ c) × (c ≢ 0x7f)) s

all_allowed_iff :
    (allowed : ℕ → Bool) (s : Text) → (all_allowed allowed s ≡ true) ↔ All (λ c. allowed c ≡ true) s
unfolding all_allowed
all_allowed_iff allowed [] = ground arith
all_allowed_iff allowed (c ∷ s) = ground (arith, all_allowed_iff allowed s)

pub validate_name_iff :
    (name : Text) (max_len : ℕ) (allowed : ℕ → Bool)
    → (validate_name name max_len allowed ≡ none) ↔ IsName max_len allowed name
unfolding validate_name
validate_name_iff [] max_len allowed = (λ e. cc, λ h. absurd (h.filled refl))
validate_name_iff (c ∷ s) max_len allowed = (
  λ e. record {
    filled = λ e'. cc;
    short = ground (arith, e);
    spelled = ground (arith, e, all_allowed_iff allowed (c ∷ s));
  },
  λ h. ground (arith, h.short, h.spelled, all_allowed_iff allowed (c ∷ s)),
)

env_bytes_from_iff : (i : ℕ) (s : Text) → (env_bytes_from (suc i) s ≡ true) ↔ All EnvByte s
unfolding env_bytes_from
env_bytes_from_iff i [] = ground arith
env_bytes_from_iff i (c ∷ s) = ground (arith, env_bytes_from_iff (i + 1) s)

pub validate_env_name_iff : (name : Text) → (validate_env_name name ≡ none) ↔ IsEnvName name
unfolding validate_env_name env_bytes_from
validate_env_name_iff [] = ground arith
validate_env_name_iff (c ∷ s) = ground (arith, env_bytes_from_iff 0 s)

pub has_control_bytes_iff : (s : Text) → (has_control_bytes s ≡ false) ↔ IsPrintable s
unfolding has_control_bytes
has_control_bytes_iff [] = ground arith
has_control_bytes_iff (c ∷ s) = ground (arith, has_control_bytes_iff s)
