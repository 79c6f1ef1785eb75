-- ===== src/Router/Operations/Slots.antt =====
-- The number of reservations on each backend, and how a write changes it.
use local_inference_router.Base.{
  ℕ, ◌+◌, ◌-◌, Text, ◌≡◌, refl, none, some, arith, text_eq, text_eq_iff, if◌then◌else◌,
}
use local_inference_router.Metrics.{Metrics}
use local_inference_router.Router.State.{BackendState, State, find, put, publish}
use local_inference_router.Router.State.Store.{Injective, find-put, find-publish}
use local_inference_router.Router.State.Valid.{IsValid, find-InCapacity, put-IsValid}
use local_inference_router.Router.Select.Best.{HasRoom}

unfoldable pub inflight_of : State → Text → ℕ
inflight_of s n = elim (find s n) [ none ↦ 0 | some b ↦ b.inflight ]

-- The share of one reservation in the count of a backend.
abbrev pub slot : Text → Text → ℕ
slot held n = if text_eq held n then 1 else 0

abbrev pub with_inflight : BackendState → ℕ → BackendState
with_inflight b k = record b { inflight = k }

pub inflight_of-find :
    (s : State) (n : Text) {b : BackendState} → find s n ≡ some b → inflight_of s n ≡ b.inflight
unfolding inflight_of
inflight_of-find s n e = rw (e, inflight_of)

pub inflight_of-put :
    (s : State) (n m : Text) (b : BackendState) {b' : BackendState}
    → Injective s
    → find s n ≡ some b'
    → inflight_of (put s n b) m ≡ (if text_eq n m then b.inflight else inflight_of s m)
unfolding inflight_of
inflight_of-put s n m b inj e = ground (arith, find-put s n m b inj e)

pub inflight_of-publish :
    (f : Metrics → Metrics) (s : State) (n : Text) → inflight_of (publish f s) n ≡ inflight_of s n
unfolding inflight_of
inflight_of-publish f s n = rw (find-publish f s n, inflight_of)

module _ (s : State) (n : Text) (b : BackendState) (v : IsValid s) (here : find s n ≡ some b) where
  -- Taking a slot of a backend that has room.
  pub take-IsValid : HasRoom b → IsValid (put s n (with_inflight b (b.inflight + 1)))
  take-IsValid room = put-IsValid s n _ v here refl (omega (arith, room.2))

  pub take-inflight_of :
      (m : Text)
      → inflight_of (put s n (with_inflight b (b.inflight + 1))) m ≡ inflight_of s m + slot n m
  take-inflight_of m = ground (
    arith,
    inflight_of-put s n m (with_inflight b (b.inflight + 1)) v.injective here,
    inflight_of-find s n here,
    text_eq_iff n m,
  )

  -- Giving one up.
  pub free-IsValid : IsValid (put s n (with_inflight b (b.inflight - 1)))
  free-IsValid = put-IsValid s n _ v here refl (omega (arith, find-InCapacity s n v here))

  pub free-inflight_of :
      (m : Text)
      → inflight_of (put s n (with_inflight b (b.inflight - 1))) m ≡ inflight_of s m - slot n m
  free-inflight_of m = ground (
    arith,
    inflight_of-put s n m (with_inflight b (b.inflight - 1)) v.injective here,
    inflight_of-find s n here,
    text_eq_iff n m,
  )
