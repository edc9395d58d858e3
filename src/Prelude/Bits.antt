-- ===== src/Prelude/Bits.antt =====
-- Machine words: shifts, masks and the `|` of fields that do not overlap.
use Prim.Native.Nat.{
  ℕ, zero, suc, ◌+◌, ◌*◌, ◌/◌, ◌%◌, ◌^◌, ◌≤◌, ◌<◌, bit_or, max, digits, bit_or-bitwise,
}
use mathlib.Core.Path.{◌≡◌, refl, ap}
use native.Mathlib.Nat.{pow-suc}
use native.Mathlib.Omega.{arith}

abbrev pub u8 : ℕ → ℕ
u8 n = n % 2 ^ 8

abbrev pub u16 : ℕ → ℕ
u16 n = n % 2 ^ 16

abbrev pub u32 : ℕ → ℕ
u32 n = n % 2 ^ 32

abbrev pub u64 : ℕ → ℕ
u64 n = n % 2 ^ 64

-- The digit recursion behind `bit_or`, whose first argument is fuel.
abbrev or_digits : ℕ → ℕ → ℕ → ℕ
or_digits = digits (λ y. y) max

same_digits : (f g a b : ℕ) → a ≤ f → a ≤ g → or_digits f a b ≡ or_digits g a b
same_digits zero zero a b h k = refl
same_digits zero (suc g) zero b h k = refl
same_digits (suc f) zero zero b h k = refl
same_digits (suc f) (suc g) zero b h k = refl
same_digits zero g (suc a) b h k = absurd (omega arith)
same_digits (suc f) zero (suc a) b h k = absurd (omega arith)
same_digits (suc f) (suc g) (suc a) b h k =
    omega (arith, same_digits f g (suc a / 2) (b / 2) (omega arith) (omega arith))

pub bit_or_halves : (a b : ℕ) → bit_or a b ≡ 2 * bit_or (a / 2) (b / 2) + max (a % 2) (b % 2)
bit_or_halves zero b = omega (arith, bit_or-bitwise 0 b, bit_or-bitwise 0 (b / 2))
bit_or_halves (suc a) b = omega (
  arith,
  bit_or-bitwise (suc a) b,
  bit_or-bitwise (suc a / 2) (b / 2),
  same_digits a (suc a / 2) (suc a / 2) (b / 2) (omega arith) (omega arith),
)

bit_or-zero_below : (bound a : ℕ) → a ≤ bound → bit_or a 0 ≡ a
bit_or-zero_below bound zero h = refl
bit_or-zero_below zero (suc a) h = absurd (omega arith)
bit_or-zero_below (suc bound) (suc a) h =
    omega (arith, bit_or_halves (suc a) 0, bit_or-zero_below bound (suc a / 2) (omega arith))

-- A field shifted above `k` bits and one that fits `k` bits do not overlap: `|` adds them.
pub bit_or-shift : (k hi lo : ℕ) → lo < 2 ^ k → bit_or (hi * 2 ^ k) lo ≡ hi * 2 ^ k + lo
bit_or-shift zero hi zero h = omega (arith, bit_or-zero_below (hi * 1) (hi * 1) (omega arith))
bit_or-shift zero hi (suc lo) h = absurd (omega arith)
bit_or-shift (suc k) hi lo h =
    let doubled : hi * 2 ^ suc k ≡ 2 * (hi * 2 ^ k) =
      omega (arith, ap (λ (t : ℕ). hi * t) (pow-suc 2 k)) in
    let fits : lo / 2 < 2 ^ k = omega (arith, pow-suc 2 k) in
    rw doubled
      (omega (arith, bit_or_halves (2 * (hi * 2 ^ k)) lo, half, bit_or-shift k hi (lo / 2) fits))
  where
    half : bit_or (2 * (hi * 2 ^ k) / 2) (lo / 2) ≡ bit_or (hi * 2 ^ k) (lo / 2)
    half = ap (λ (t : ℕ). bit_or t (lo / 2)) (omega arith)
