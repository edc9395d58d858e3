-- ===== src/Binary.antt =====
-- Go's encoding/binary: a number as bytes, most or least significant byte first, and the readers that
-- a receiver of those bytes uses.
use native.Mathlib.Nat.{pow-suc}
use ska_low_station_beam_sim.Prelude.{
  ℕ, zero, suc, ◌+◌, ◌*◌, ◌/◌, ◌%◌, ◌^◌, ◌<◌, ◌≡◌, refl, ap, List, [], ◌∷◌, ◌++◌, length,
  length-append, arith,
}

-- binary.BigEndian.PutUint64 for 8 bytes, PutUint16 for 2, and so on
unfoldable pub put_be : ℕ → ℕ → List ℕ
put_be zero v = []
put_be (suc k) v = put_be k (v / 256) ++ (v % 256 ∷ [])

-- binary.LittleEndian.PutUint32 for 4 bytes, and so on
unfoldable pub put_le : ℕ → ℕ → List ℕ
put_le zero v = []
put_le (suc k) v = v % 256 ∷ put_le k (v / 256)

unfoldable pub read_be : ℕ → List ℕ → ℕ
read_be acc [] = acc
read_be acc (b ∷ bs) = read_be (acc * 256 + b) bs

unfoldable pub read_le : List ℕ → ℕ
read_le [] = 0
read_le (b ∷ bs) = b + 256 * read_le bs

pub length-put_be : (k v : ℕ) → length (put_be k v) ≡ k
unfolding put_be
length-put_be zero v = refl
length-put_be (suc k) v =
    omega (arith, length-append (put_be k (v / 256)) (v % 256 ∷ []), length-put_be k (v / 256))

pub length-put_le : (k v : ℕ) → length (put_le k v) ≡ k
unfolding put_le
length-put_le zero v = refl
length-put_le (suc k) v = ap suc (length-put_le k (v / 256))

read_be_last : (acc b : ℕ) (bs : List ℕ) → read_be acc (bs ++ (b ∷ [])) ≡ read_be acc bs * 256 + b
unfolding read_be
read_be_last acc b [] = refl
read_be_last acc b (c ∷ bs) = read_be_last (acc * 256 + c) b bs

pub read_be-put_be : (k v : ℕ) → v < 256 ^ k → read_be 0 (put_be k v) ≡ v
unfolding put_be
read_be-put_be zero v h = unfold read_be in omega arith
read_be-put_be (suc k) v h =
    let fits : v / 256 < 256 ^ k = omega (arith, pow-suc 256 k) in
    omega (arith, read_be_last 0 (v % 256) (put_be k (v / 256)), read_be-put_be k (v / 256) fits)

pub read_le-put_le : (k v : ℕ) → v < 256 ^ k → read_le (put_le k v) ≡ v
unfolding put_le read_le
read_le-put_le zero v h = omega arith
read_le-put_le (suc k) v h =
    let fits : v / 256 < 256 ^ k = omega (arith, pow-suc 256 k) in
    omega (arith, read_le-put_le k (v / 256) fits)
