-- ===== src/Pcap/Checksum.antt =====
-- writer.go: the Internet checksum of a header with the checksum in place.
use ska_low_station_beam_sim.Prelude.{
  ℕ, zero, suc, ◌+◌, ◌-◌, ◌*◌, ◌/◌, ◌%◌, ◌^◌, ◌≤◌, ◌<◌, ◌≡◌, refl, ◌∙◌, ◌⊎◌, inl, inr, false, List,
  [], ◌∷◌, ◌++◌, ltb, length, All, if_cases, arith,
}
use ska_low_station_beam_sim.Prelude.Bits.{u16, u32}
use ska_low_station_beam_sim.Binary.{put_be}
use ska_low_station_beam_sim.Pcap.{word_sum, fold_carries, internet_checksum}

one_round : (s : ℕ) → (s % 2 ^ 16 + s / 2 ^ 16) % 0xffff ≡ s % 0xffff
one_round s = omega arith

-- Folding keeps the sum modulo 0xffff, leaves 16 bits, and is 0 for 0 only.
Folds : ℕ → ℕ → Type 0
Folds s r = (r ≤ 0xffff) × (r % 0xffff ≡ s % 0xffff) × (0 < s → 0 < r) × (s ≡ 0 → r ≡ 0)

small_Folds : (s : ℕ) → ltb 0xffff s ≡ false → Folds s s
unfolding Folds
small_Folds s small = (ground arith, refl, λ h. h, λ e. e)

round_Folds : (s r : ℕ) → Folds (s % 2 ^ 16 + s / 2 ^ 16) r → Folds s r
unfolding Folds
round_Folds s r (a, b, c, d) = (a, b ∙ one_round s, λ h. c (omega arith), λ e. d (omega arith))

abbrev round : ℕ → ℕ
round s = s % 2 ^ 16 + s / 2 ^ 16

two_rounds : (s : ℕ) → s < 2 ^ 32 → round (round s) ≤ 0xffff
two_rounds s h = omega arith

done_Folds : (s : ℕ) → s ≤ 0xffff → Folds s s
unfolding Folds
done_Folds s h = (h, refl, λ p. p, λ e. e)

fold_carries-Folds : (s : ℕ) → s < 2 ^ 32 → Folds s (fold_carries 2 s)
unfolding fold_carries
fold_carries-Folds s h =
    let twice =
      round_Folds (round s) (round (round s)) (done_Folds (round (round s)) (two_rounds s h)) in
    let once : Folds (round s) (fold_carries 1 (round s)) =
      if_cases (Folds (round s)) (ltb 0xffff (round s)) (λ _. twice) (small_Folds (round s)) in
    if_cases (Folds s) (ltb 0xffff s) (λ _. round_Folds s (fold_carries 1 (round s)) once)
      (small_Folds s)

word_sum-append :
    (k : ℕ) (front rest : List ℕ)
    → length front ≡ k + k
    → word_sum (front ++ rest) ≡ word_sum front + word_sum rest
unfolding word_sum
word_sum-append zero [] rest e = omega arith
word_sum-append zero (b ∷ front) rest e = absurd (omega arith)
word_sum-append (suc k) [] rest e = absurd (omega arith)
word_sum-append (suc k) (b ∷ []) rest e = absurd (omega arith)
word_sum-append (suc k) (b ∷ c ∷ front) rest e =
    omega (arith, word_sum-append k front rest (omega arith))

abbrev pub IsByte : ℕ → Type 0
IsByte b = b < 256

word_sum_bound : (bytes : List ℕ) → All IsByte bytes → word_sum bytes ≤ length bytes * 0xffff
unfolding word_sum
word_sum_bound [] h = omega arith
word_sum_bound (b ∷ []) (hb, h) = omega arith
word_sum_bound (b ∷ c ∷ bytes) (hb, (hc, h)) = omega (arith, word_sum_bound bytes h)

word_sum-checksum :
    (k c : ℕ) (front rest : List ℕ)
    → length front ≡ k + k
    → c ≤ 0xffff
    → word_sum (front ++ (put_be 2 c ++ rest)) ≡ word_sum front + (c + word_sum rest)
unfolding put_be word_sum
word_sum-checksum k c front rest e h = omega (arith, word_sum-append k front (put_be 2 c ++ rest) e)

zero_or_more : (s : ℕ) → (s ≡ 0) ⊎ (0 < s)
zero_or_more zero = inl refl
zero_or_more (suc s) = inr (omega arith)

checksum_of_sum :
    (s : ℕ)
    → s ≤ 58 * 0xffff
    → let c = 0xffff - u16 (fold_carries 2 (u32 s)) in
      (c ≤ 0xffff) × (0xffff - u16 (fold_carries 2 (u32 (s + c))) ≡ 0)
unfolding Folds
checksum_of_sum s h =
    let first : u32 s ≡ s = omega arith in
    let (a, b, c, d) = fold_carries-Folds s (omega arith) in
    let low : u16 (fold_carries 2 s) ≡ fold_carries 2 s = omega (arith, a) in
    let sum = s + (0xffff - fold_carries 2 s) in
    let second : u32 sum ≡ sum = omega arith in
    let (a', b', c', d') = fold_carries-Folds sum (omega arith) in
    let whole : sum % 0xffff ≡ 0 = omega (arith, a, b) in
    let some_sum : 0 < sum = elim (zero_or_more s) [
      | inl e ↦ omega (arith, d e)
      | inr p ↦ omega (arith, p)
    ] in
    let positive = c' some_sum in
    rw (first, low, second) (omega (arith, a), omega (arith, a', b', whole, positive))

-- A header of at most 60 bytes whose checksum stands behind an even number of them: if the checksum is
-- computed with zeros in its place and stored there, then internetChecksum over the whole header is 0,
-- which is what a receiver tests.
pub internet_checksum-verifies :
    (k : ℕ) (front rest : List ℕ)
    → length front ≡ k + k
    → length front + length rest ≤ 58
    → All IsByte front
    → All IsByte rest
    → internet_checksum
        (front ++ (put_be 2 (internet_checksum (front ++ (put_be 2 0 ++ rest))) ++ rest))
      ≡ 0
unfolding internet_checksum
internet_checksum-verifies k front rest even short bytes bytes' =
    let s = word_sum front + word_sum rest in
    let small : s ≤ 58 * 0xffff =
      omega (arith, word_sum_bound front bytes, word_sum_bound rest bytes') in
    let (fits, verifies) = checksum_of_sum s small in
    let first : word_sum (front ++ (put_be 2 0 ++ rest)) ≡ s =
      omega (arith, word_sum-checksum k 0 front rest even (omega arith)) in
    let c = 0xffff - u16 (fold_carries 2 (u32 s)) in
    let second : word_sum (front ++ (put_be 2 c ++ rest)) ≡ s + c =
      omega (arith, word_sum-checksum k c front rest even fits) in
    rw (first, second) verifies
