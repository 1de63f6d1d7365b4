-- ===== src/Base/Float.antt =====
-- Go's float64 without NaN, as an interface: the carrier, the operations that the program uses, and
-- the laws of its order. JSON carries no NaN, and no operation below makes one from finite values.
use Prim.Native.Nat.{ℕ}
use mathlib.Core.Path.{◌≡◌}
use mathlib.Core.Logic.{◌↔◌}
use mathlib.Core.Bool.{Bool, true, false}
use bpc.Base.Sort.{StrictWeak}

pub record Float : Type 1 where
  pub F : Type 0
  pub of_ℕ : ℕ → F
  pub add : F → F → F
  pub sub : F → F → F
  pub mul : F → F → F
  pub div : F → F → F
  pub lt : F → F → Bool
  pub eq : F → F → Bool
  pub lt-StrictWeak : StrictWeak lt
  pub eq_iff : (a b : F) → (eq a b ≡ true) ↔ ((lt a b ≡ false) × (lt b a ≡ false))
