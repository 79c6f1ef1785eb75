-- ===== src/Router/Spec.antt =====
-- What the routing state promises, without its representation: a line of slots for each backend
-- name, and the moves that a line can make.
pub mod Views
pub mod Capacity
use local_inference_router.Base.{
  ℕ, suc, ◌-◌, ◌<◌, pos, ℤ, ◌<ℤ◌, Text, text_eq, ◌≡◌, Bool, true, false, Option, none, some,
  if◌then◌else◌,
}
use mathlib.Core.Option
use local_inference_router.Router.State.{BackendState, State, find}

-- `health` is what the last check said, `taken` the number of slots that are lent.
pub record Line : Type 0 where
  pub capacity : ℤ
  pub health : Option Bool
  pub taken : ℕ

abbrev pub View : Type 0
View = Text → Option Line

abbrev pub retaken : Line → ℕ → Line
retaken l k = record l { taken = k }

-- The last check found the backend up, and there is a slot left.
abbrev pub Open : Line → Type 0
Open l = (l.health ≡ some true) × (pos l.taken <ℤ l.capacity)

-- The view with one line replaced.
abbrev pub Changed : Text → Line → View → View → Type 0
Changed n l v w = (m : Text) → w m ≡ (if text_eq n m then some l else v m)

pub data Move (v w : View) : Type 0 where
  keep : ((n : Text) → w n ≡ v n) → Move v w
  lend :
      (n : Text) (l : Line)
      → v n ≡ some l
      → Open l
      → Changed n (retaken l (suc l.taken)) v w
      → Move v w
  regain :
      (n : Text) (l : Line)
      → v n ≡ some l
      → 0 < l.taken
      → Changed n (retaken l (l.taken - 1)) v w
      → Move v w
  -- a slot of `n` is given back and one of `m`, which may be `n`, is lent
  transfer :
      (n m : Text) (l k : Line) (u : View)
      → v n ≡ some l
      → 0 < l.taken
      → Changed n (retaken l (l.taken - 1)) v u
      → u m ≡ some k
      → Open k
      → Changed m (retaken k (suc k.taken)) u w
      → Move v w
  mark :
      (n : Text) (l : Line) (up : Bool)
      → v n ≡ some l
      → Changed n (record l { health = some up }) v w
      → Move v w

-- Any number of moves.
pub data Moved (v : View) : View → Type 0 where
  unmoved : Moved v v
  moved : {u w : View} → Moved v u → Move u w → Moved v w

abbrev pub line : BackendState → Line
line b = record {
  capacity = b.backend.max_inflight;
  health = if b.checked then some b.healthy else none;
  taken = b.inflight;
}

unfoldable pub view : State → View
view s n = Option.map line (find s n)
