-- ===== src/Metrics/Labels.antt =====
-- internal/metrics/metrics.go: the labels of HTTP statuses.
use local_inference_router.Base.{
  ℕ, ◌+◌, Text, ◌≡◌, ◌&&◌, List, [], ◌∷◌, arith, contains, leb, ltb, if◌then◌else◌,
}
use Prim.Native.Nat.{◌/◌, ◌%◌}
use local_inference_router.Metrics.{status_label}

-- The statuses with a label of their own.
abbrev pub exact_statuses : List ℕ
exact_statuses = 200 ∷ 400 ∷ 401 ∷ 404 ∷ 413 ∷ 415 ∷ 429 ∷ 500 ∷ 502 ∷ 503 ∷ 504 ∷ []

abbrev pub decimal : ℕ → Text
decimal n = (48 + n / 100) ∷ (48 + n / 10 % 10) ∷ (48 + n % 10) ∷ []

-- The class of a status of 200 to 499; all else counts as a server error.
abbrev pub class_label : ℕ → Text
class_label n = (if leb 200 n && ltb n 500 then 48 + n / 100 else b'5') ∷ b'x' ∷ b'x' ∷ []

-- The label of a status is its decimal digits for the eleven statuses with a label of their own,
-- the class of its first digit with xx for the others from 200 to 499, and 5xx for all else.
pub status_label_lem :
    (status : ℕ)
    → status_label status
      ≡ (if contains exact_statuses status then decimal status else class_label status)
unfolding status_label contains
status_label_lem status = ground arith
