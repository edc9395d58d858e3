-- ===== src/Prelude/Int.antt =====
-- Go's signed integers: `int` is a 64-bit word read in two's complement. A value is an integer here,
-- and the operations that can leave the range of `int` say what they wrap to.
use Prim.Native.Nat.{ℕ, zero, suc, ◌+◌, ◌-◌, ◌/◌, ◌%◌, ◌^◌, ◌≤◌, ◌<◌}
use mathlib.Core.Bool.{Bool, ◌&&◌}
use ska_low_station_beam_sim.Prelude.Tests.{ltb, leb, ◌==◌, if◌then◌else◌}

-- `negsuc n` is -(n + 1).
pub data ℤ : Type 0 where
  pos : ℕ → ℤ
  negsuc : ℕ → ℤ

abbrev pub pos_part : ℤ → ℕ
pos_part (pos n) = n
pos_part (negsuc _) = 0

abbrev pub neg_part : ℤ → ℕ
neg_part (pos _) = 0
neg_part (negsuc n) = suc n

-- The integer `a - b`.
abbrev pub sub_ℕ : ℕ → ℕ → ℤ
sub_ℕ a b = if leb b a then pos (a - b) else negsuc (b - a - 1)

infixl 65 ◌+ℤ◌ ◌-ℤ◌
infix 50 ◌≤ℤ◌ ◌<ℤ◌
abbrev pub ◌+ℤ◌ : ℤ → ℤ → ℤ
a +ℤ b = sub_ℕ (pos_part a + pos_part b) (neg_part a + neg_part b)

abbrev pub ◌-ℤ◌ : ℤ → ℤ → ℤ
a -ℤ b = sub_ℕ (pos_part a + neg_part b) (neg_part a + pos_part b)

abbrev pub ◌≤ℤ◌ : ℤ → ℤ → Type 0
a ≤ℤ b = pos_part a + neg_part b ≤ pos_part b + neg_part a

abbrev pub ◌<ℤ◌ : ℤ → ℤ → Type 0
a <ℤ b = pos_part a + neg_part b < pos_part b + neg_part a

abbrev pub eqb_ℤ : ℤ → ℤ → Bool
eqb_ℤ a b = (pos_part a == pos_part b) && (neg_part a == neg_part b)

abbrev pub ltb_ℤ : ℤ → ℤ → Bool
ltb_ℤ a b = ltb (pos_part a + neg_part b) (pos_part b + neg_part a)

-- The bit pattern of an integer in `2 ^ w` values: what a conversion to an unsigned type gives.
abbrev pub to_word : ℕ → ℤ → ℕ
to_word w (pos n) = n % 2 ^ w
to_word w (negsuc n) = 2 ^ w - 1 - n % 2 ^ w

-- The smallest value of `int`, which is its own negation.
abbrev pub min_int : ℤ
min_int = negsuc (2 ^ 63 - 1)

abbrev pub neg_int : ℤ → ℤ
neg_int (pos zero) = pos 0
neg_int (pos (suc n)) = negsuc n
neg_int (negsuc n) = if n == 2 ^ 63 - 1 then negsuc n else pos (suc n)

-- Go's `%` rounds the quotient towards zero, so the remainder has the sign of the dividend.
abbrev pub rem_int : ℤ → ℕ → ℤ
rem_int (pos a) n = pos (a % n)
rem_int (negsuc a) n = sub_ℕ 0 (suc a % n)

-- Go's `/`, whose quotient is rounded towards zero.
abbrev pub quot_int : ℤ → ℕ → ℤ
quot_int (pos a) n = pos (a / n)
quot_int (negsuc a) n = sub_ℕ 0 (suc a / n)
