-- ===== src/Router/Spec/Capacity.antt =====
-- The capacity of a line is the same through all moves.
use local_inference_router.Base.{ℤ, Text, text_eq_iff, ◌≡◌, refl, ◌∙◌, ap, Option, some, arith}
use mathlib.Core.Option
use local_inference_router.Router.Spec.{
  Line, View, Changed, Move, keep, lend, regain, transfer, mark, Moved, unmoved, moved,
}

abbrev pub capacity : View → Text → Option ℤ
capacity v n = Option.map (λ l. l.capacity) (v n)

Changed-capacity :
    (v w : View) (n : Text) (l l' : Line)
    → v n ≡ some l
    → l'.capacity ≡ l.capacity
    → Changed n l' v w
    → (m : Text) → capacity w m ≡ capacity v m
Changed-capacity v w n l l' at same to m = ground (arith, to m, text_eq_iff n m)

Move-capacity : {v w : View} → Move v w → (m : Text) → capacity w m ≡ capacity v m
Move-capacity (keep e) m = ap (Option.map (λ l. l.capacity)) (e m)
Move-capacity (lend n l at room to) m = Changed-capacity _ _ n l _ at refl to m
Move-capacity (regain n l at held to) m = Changed-capacity _ _ n l _ at refl to m
Move-capacity (transfer n p l k u at held to at_p room to_p) m =
    Changed-capacity u _ p k _ at_p refl to_p m ∙ Changed-capacity _ u n l _ at refl to m
Move-capacity (mark n l up at to) m = Changed-capacity _ _ n l _ at refl to m

pub Moved-capacity : {v w : View} → Moved v w → (m : Text) → capacity w m ≡ capacity v m
Moved-capacity unmoved m = refl
Moved-capacity (moved before step) m = Move-capacity step m ∙ Moved-capacity before m
