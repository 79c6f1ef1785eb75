-- ===== src/Router/System/Counts.antt =====
-- The slots that the requests hold together.
use local_inference_router.Base.{
  ℕ, zero, suc, ◌+◌, ◌≤◌, Text, ◌≡◌, refl, true, some, List, [], ◌∷◌, ◌++◌, arith, get_elem?, set,
  All,
}
use local_inference_router.Router.Proxy.{Call, Phase, finished, starting}
use local_inference_router.Router.Proxy.Sections.{share, holds, held, is_finished}

unfoldable pub total : List Call → Text → ℕ
total [] n = 0
total (c ∷ cs) n = share c n + total cs n

pub total-append : (cs ds : List Call) (n : Text) → total (cs ++ ds) n ≡ total cs n + total ds n
unfolding total
total-append [] ds n = omega arith
total-append (c ∷ cs) ds n = omega (arith, total-append cs ds n)

pub total-set :
    (cs : List Call) (i : ℕ) (c c' : Call) (n : Text)
    → get_elem? cs i ≡ some c
    → total (set cs i c') n + share c n ≡ total cs n + share c' n
unfolding total
total-set [] i c c' n e = cc
total-set (d ∷ cs) zero c c' n e =
    let same : share d n ≡ share c n = ground arith in omega (arith, same)
total-set (d ∷ cs) (suc i) c c' n e = omega (arith, total-set cs i c c' n e)

pub share-le-total :
    (cs : List Call) (i : ℕ) (c : Call) (n : Text)
    → get_elem? cs i ≡ some c
    → share c n ≤ total cs n
unfolding total
share-le-total [] i c n e = cc
share-le-total (d ∷ cs) zero c n e =
    let same : share d n ≡ share c n = ground arith in omega (arith, same)
share-le-total (d ∷ cs) (suc i) c n e = omega (arith, share-le-total cs i c n e)

finished-held : (p : Phase) (n : Text) → is_finished p ≡ true → held (holds p) n ≡ 0
finished-held (finished reply) n e = refl
finished-held starting n e = cc
finished-held _ n e = cc

-- A request that is over holds nothing.
pub total-finished :
    (cs : List Call) (n : Text) → All (λ c. is_finished c.phase ≡ true) cs → total cs n ≡ 0
unfolding total
total-finished [] n h = refl
total-finished (c ∷ cs) n (e, h) = omega (arith, finished-held c.phase n e, total-finished cs n h)
