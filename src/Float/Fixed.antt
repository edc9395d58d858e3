-- ===== src/Float/Fixed.antt =====
-- A concrete arithmetic for tests and witnesses: whole millionths, with results rounded towards zero. The
-- sine and the cosine are those of a small angle to the first order.
use Prim.Native.Nat.{◌/◌}
use ska_low_station_beam_sim.Prelude.{
  ℕ, zero, suc, ◌+◌, ◌*◌, ◌%◌, Bool, true, false, if◌then◌else◌, leb, ◌==◌, ◌&&◌,
}
use ska_low_station_beam_sim.Prelude.Int.{
  ℤ, pos, negsuc, pos_part, neg_part, ◌+ℤ◌, ◌-ℤ◌, ltb_ℤ, sub_ℕ,
}
use ska_low_station_beam_sim.Float.Ops.{Float}

abbrev unit : ℕ
unit = 1_000_000

abbrev magnitude : ℤ → ℕ
magnitude a = pos_part a + neg_part a

abbrev is_negative : ℤ → Bool
is_negative (pos _) = false
is_negative (negsuc _) = true

abbrev signed : Bool → ℕ → ℤ
signed true n = sub_ℕ 0 n
signed false n = pos n

abbrev same : Bool → Bool → Bool
same true b = b
same false true = false
same false false = true

-- The sign of a product or quotient.
abbrev mixed : ℤ → ℤ → Bool
mixed a b = if same (is_negative a) (is_negative b) then false else true

-- The largest `r` with `r * r ≤ n`, counted up.
abbrev root_from : ℕ → ℕ → ℕ → ℕ
root_from zero r n = r
root_from (suc fuel) r n = elim (leb ((r + 1) * (r + 1)) n) [
  | true ↦ root_from fuel (r + 1) n
  | false ↦ r
]

abbrev whole : ℤ → ℤ
whole a = signed (is_negative a) (magnitude a / unit)

instance abbrev pub fixed : Float ℤ ℤ
fixed = record {
  of_ratio = λ n d. signed (is_negative n) (magnitude n * unit / d);
  of_int = λ n. signed (is_negative n) (magnitude n * unit);
  add = ◌+ℤ◌;
  sub = ◌-ℤ◌;
  mul = λ a b. signed (mixed a b) (magnitude a * magnitude b / unit);
  div = λ a b. signed (mixed a b) (magnitude a * unit / magnitude b);
  neg = λ a. pos 0 -ℤ a;
  lt = ltb_ℤ;
  eq = λ a b. (pos_part a == pos_part b) && (neg_part a == neg_part b);
  round = λ a. signed (is_negative a) ((magnitude a + unit / 2) / unit * unit);
  copysign = λ a b. signed (is_negative b) (magnitude a);
  sqrt = λ a. pos (root_from (pos_part a) 0 (pos_part a * unit));
  sincos = λ a. (a, pos unit);
  to_int = whole;
  bits = λ a. if is_negative a then 2 * neg_part a + 1 else 2 * pos_part a;
  from_bits = λ n. signed (n % 2 == 1) (n / 2);
  widen = λ s. s;
  narrow = λ x. x;
  add_single = ◌+ℤ◌;
}
