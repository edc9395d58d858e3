-- ===== src/Float/Ops.antt =====
-- The operations on `float64` (type `F`) and `float32` (type `S`) that the program uses.
use ska_low_station_beam_sim.Prelude.{ℕ, Bool}
use ska_low_station_beam_sim.Prelude.Int.{ℤ, pos}

pub record Float (F S : Type 0) : Type 0 where
  -- an exact constant `n / d`, rounded to a float64
  pub of_ratio : ℤ → ℕ → F
  -- the conversion `float64(n)`
  pub of_int : ℤ → F
  pub add : F → F → F
  pub sub : F → F → F
  pub mul : F → F → F
  pub div : F → F → F
  pub neg : F → F
  -- `a < b` and `a == b`
  pub lt : F → F → Bool
  pub eq : F → F → Bool
  -- `math.Round`, `math.Copysign`, `math.Sqrt`, and the conversion to an integer, which truncates
  pub round : F → F
  pub copysign : F → F → F
  pub sqrt : F → F
  -- `math.Sincos`: the sine and the cosine
  pub sincos : F → F × F
  pub to_int : F → ℤ
  -- `math.Float64bits` and `math.Float64frombits`
  pub bits : F → ℕ
  pub from_bits : ℕ → F
  -- `float64(s)` and `float32(x)`
  pub widen : S → F
  pub narrow : F → S
  -- `a + b` of two float32 values
  pub add_single : S → S → S

module _ {F S : Type 0} (fl : Float F S) where
  abbrev pub constant : ℤ → F
  constant n = fl.of_ratio n 1

  abbrev pub half : F
  half = fl.of_ratio (pos 1) 2

  abbrev pub is_zero : F → Bool
  is_zero x = fl.eq x (constant (pos 0))
