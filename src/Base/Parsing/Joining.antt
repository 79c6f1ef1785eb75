-- ===== src/Base/Parsing/Joining.antt =====
-- net.JoinHostPort loses neither the host nor the port.
use Prim.Native.Nat.{ℕ}
use mathlib.Core.Path.{◌≡◌, refl, ap, sym, ◌∙◌}
use mathlib.Core.Logic.{◌≢◌, inl, inr}
use mathlib.Core.Bool.{true, false}
use mathlib.Core.Option.{Option, none, some, some-injective}
use mathlib.Core.List.{[], ◌∷◌, ◌++◌, append_assoc}
use native.Mathlib.Omega.{arith}
use local_inference_router.Base.Tests.{if◌then◌else◌, Bool-cases}
use local_inference_router.Base.Strings.{Text}
use local_inference_router.Base.Parsing.{cut_last, contains_byte, join_host_port}

cut_last-none : (b : ℕ) (p : Text) → contains_byte b p ≡ false → cut_last b p ≡ none
unfolding cut_last contains_byte
cut_last-none b [] h = refl
cut_last-none b (c ∷ p) h = ground (arith, cut_last-none b p)

cut_last_append :
    (b : ℕ) (a p : Text) → contains_byte b p ≡ false → cut_last b (a ++ b ∷ p) ≡ some (a, p)
unfolding cut_last
cut_last_append b [] p h = ground (arith, cut_last-none b p h)
cut_last_append b (c ∷ a) p h = ground (arith, cut_last_append b a p h)

contains_append : (b : ℕ) (a p : Text) → contains_byte b a ≡ true → contains_byte b (a ++ p) ≡ true
unfolding contains_byte
contains_append b [] p h = ground (arith, h)
contains_append b (c ∷ a) p h = ground (arith, h, contains_append b a p)

-- The host as it is joined.
abbrev bracketed : Text → Text
bracketed host = if contains_byte b':' host then b'[' ∷ host ++ b']' ∷ [] else host

join_bracketed : (host port : Text) → join_host_port host port ≡ bracketed host ++ b':' ∷ port
unfolding join_host_port
join_bracketed host port = elim (Bool-cases (contains_byte b':' host)) [
  | inl colon ↦ rw colon (ap (◌∷◌ b'[') (sym (append_assoc host (b']' ∷ []) (b':' ∷ port))))
  | inr bare ↦ rw bare refl
]

in_brackets :
    (a : Text) → contains_byte b':' a ≡ true → contains_byte b':' (b'[' ∷ a ++ b']' ∷ []) ≡ true
unfolding contains_byte
in_brackets a h = ground (arith, contains_append b':' a (b']' ∷ []) h)

brackets-injective : (a b : Text) → b'[' ∷ a ++ b']' ∷ [] ≡ b'[' ∷ b ++ b']' ∷ [] → a ≡ b
unfolding contains_byte
brackets-injective a b e =
    let same : ◌≡◌ {A = Option (Text × Text)} (some (b'[' ∷ a, [])) (some (b'[' ∷ b, [])) =
      sym (cut_last_append b']' (b'[' ∷ a) [] refl)
      ∙ ap (cut_last b']') e
      ∙ cut_last_append b']' (b'[' ∷ b) [] refl in
    let tails : b'[' ∷ a ≡ b'[' ∷ b = ap (λ p. p.0) (some-injective _ _ same) in cc

unbracket : (a : Text) → contains_byte b':' a ≡ true → b'[' ∷ a ++ b']' ∷ [] ≡ bracketed a
unbracket a h = rw h refl

unbracketed : (a : Text) → contains_byte b':' a ≡ false → bracketed a ≡ a
unbracketed a h = rw h refl

bracketed-mixed :
    (a b : Text)
    → contains_byte b':' a ≡ true
    → contains_byte b':' b ≡ false
    → bracketed a ≢ bracketed b
bracketed-mixed a b h k e =
    let same = unbracket a h ∙ e ∙ unbracketed b k in
    let found = sym (ap (contains_byte b':') same) ∙ in_brackets a h in cc

bracketed-injective : (a b : Text) → bracketed a ≡ bracketed b → a ≡ b
bracketed-injective a b e = elim (Bool-cases (contains_byte b':' a)) [
  | inl colon ↦ elim (Bool-cases (contains_byte b':' b)) [
    | inl colon' ↦ brackets-injective a b (unbracket a colon ∙ e ∙ sym (unbracket b colon'))
    | inr bare ↦ absurd (bracketed-mixed a b colon bare e)
  ]
  | inr bare ↦ elim (Bool-cases (contains_byte b':' b)) [
    | inl colon ↦ absurd (bracketed-mixed b a colon bare (sym e))
    | inr bare' ↦ sym (unbracketed a bare) ∙ e ∙ unbracketed b bare'
  ]
]

pub join_host_port-injective :
    (host host' port port' : Text)
    → contains_byte b':' port ≡ false
    → contains_byte b':' port' ≡ false
    → join_host_port host port ≡ join_host_port host' port'
    → (host ≡ host') × (port ≡ port')
join_host_port-injective host host' port port' h h' e =
    let same : some (bracketed host, port) ≡ some (bracketed host', port') =
      sym (cut_last_append b':' (bracketed host) port h)
      ∙ ap (cut_last b':') (sym (join_bracketed host port) ∙ e ∙ join_bracketed host' port')
      ∙ cut_last_append b':' (bracketed host') port' h' in
    let pairs = some-injective _ _ same in
    (bracketed-injective host host' (ap (λ p. p.0) pairs), ap (λ p. p.1) pairs)
