-- ===== src/Http/Authorized.antt =====
-- internal/httpapi/auth.go: which requests are let through.
use local_inference_router.Base.{
  ℕ, zero, suc, ◌≤◌, ◌<◌, Text, bytes, text_eq_iff, equal_fold, length, length-append, true, [],
  ◌∷◌, ◌++◌, ◌≡◌, ◌↔◌, ◌⊎◌, inl, inr, refl, sym, ap, ◌∙◌, arith,
}
use local_inference_router.Router.Headers.{header_get}
use local_inference_router.Http.{Request, take, drop, authorized}

take-drop : (n : ℕ) (s : Text) → take n s ++ drop n s ≡ s
unfolding take drop
take-drop zero s = refl
take-drop (suc n) [] = refl
take-drop (suc n) (c ∷ s) = ap (λ t. c ∷ t) (take-drop n s)

length-take : (n : ℕ) (s : Text) → n ≤ length s → length (take n s) ≡ n
unfolding take
length-take zero s h = refl
length-take (suc n) [] h = absurd (omega (arith, h))
length-take (suc n) (c ∷ s) h = omega (arith, length-take n s (omega (arith, h)))

take-append : (n : ℕ) (p s : Text) → length p ≡ n → take n (p ++ s) ≡ p
unfolding take
take-append zero [] s h = refl
take-append zero (c ∷ p) s h = absurd (omega (arith, h))
take-append (suc n) [] s h = absurd (omega (arith, h))
take-append (suc n) (c ∷ p) s h = ap (λ t. c ∷ t) (take-append n p s (omega (arith, h)))

drop-append : (n : ℕ) (p s : Text) → length p ≡ n → drop n (p ++ s) ≡ s
unfolding drop
drop-append zero [] s h = refl
drop-append zero (c ∷ p) s h = absurd (omega (arith, h))
drop-append (suc n) [] s h = absurd (omega (arith, h))
drop-append (suc n) (c ∷ p) s h = drop-append n p s (omega (arith, h))

-- The Authorization header is a prefix of seven bytes that is `Bearer `, in any case, and then the
-- token.
pub record Bears (r : Request) (token : Text) : Type 0 where
  pub prefix : Text
  pub long : length prefix ≡ 7
  pub scheme : equal_fold prefix (bytes "Bearer ") ≡ true
  pub value : header_get r.header (bytes "Authorization") ≡ prefix ++ token

authorized-cases :
    (token : Text) (r : Request) → authorized token r ≡ true → (token ≡ []) ⊎ Bears r token
unfolding authorized
authorized-cases [] r e = inl refl
authorized-cases (c ∷ s) r e =
    let header = header_get r.header (bytes "Authorization") in
    let long : 7 < length header = ground (arith, e) in
    let scheme : equal_fold (take 7 header) (bytes "Bearer ") ≡ true = ground (arith, e) in
    let rest : drop 7 header ≡ c ∷ s =
      (text_eq_iff (drop 7 header) (c ∷ s)).0 (ground (arith, e)) in
    inr (record {
      prefix = take 7 header;
      long = length-take 7 header (omega (arith, long));
      scheme = scheme;
      value = sym (take-drop 7 header) ∙ ap (λ t. take 7 header ++ t) rest;
    })

Bears-authorized : (token : Text) (r : Request) → Bears r token → authorized token r ≡ true
unfolding authorized
Bears-authorized [] r b = refl
Bears-authorized (c ∷ s) r b =
    let front = take-append 7 b.prefix (c ∷ s) b.long in
    let back = drop-append 7 b.prefix (c ∷ s) b.long in
    let size = length-append b.prefix (c ∷ s) in
    let same = (text_eq_iff (c ∷ s) (c ∷ s)).1 refl in
    ground (arith, b.value, front, back, size, same, b.long, b.scheme)

authorized_open : (r : Request) → authorized [] r ≡ true
unfolding authorized
authorized_open r = refl

-- A request is let through exactly if no token is configured, or its Authorization header is
-- seven bytes that equal Bearer and a space in any case, followed by exactly the token.
pub authorized_iff :
    (token : Text) (r : Request) → (authorized token r ≡ true) ↔ ((token ≡ []) ⊎ Bears r token)
authorized_iff token r = (
  λ e. authorized-cases token r e,
  λ h. elim h [ inl none_ ↦ rw none_ (authorized_open r) | inr b ↦ Bears-authorized token r b ],
)
