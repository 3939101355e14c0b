-- ===== src/Floats.antt =====
-- Go's float64: the operations that the program uses, as a parameter. A theorem that needs a law of
-- them names it; the others hold for the rounding of IEEE arithmetic.
use frpilot.Prelude.{Bool, ℤ}

pub record Floats : Type 1 where
  pub F : Type 0
  -- float64(n) of an integer
  pub of_int : ℤ → F
  -- int(x)
  pub to_int : F → ℤ
  pub add : F → F → F
  pub sub : F → F → F
  pub mul : F → F → F
  pub div : F → F → F
  -- a < b and a <= b
  pub lt : F → F → Bool
  pub le : F → F → Bool
