-- ===== src/Base/Floating.antt =====
-- Floating-point numbers as the program uses them. antt has none, so the type and its operations
-- are a parameter, and a theorem that rests on a law of them names the law.
use Prim.Native.Nat.{ℕ}
use mathlib.Core.Bool.{Bool}

pub record Floats : Type 1 where
  pub Float : Type 0
  -- `float(n)`, and the literals of the source.
  pub of_nat : ℕ → Float
  pub minus_one : Float
  pub nan : Float
  pub add : Float → Float → Float
  pub sub : Float → Float → Float
  pub mul : Float → Float → Float
  pub div : Float → Float → Float
  pub lt : Float → Float → Bool
  pub le : Float → Float → Bool
  pub feq : Float → Float → Bool
  -- `round(x, digits)`
  pub round_to : Float → ℕ → Float
  -- `round(x)` of a number that is not negative.
  pub round_nat : Float → ℕ
  -- A literal `n / 10 ** k`.
  pub decimal : ℕ → ℕ → Float
