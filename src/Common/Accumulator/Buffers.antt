-- ===== src/Common/Accumulator/Buffers.antt =====
-- heap_accumulator.go: what one channel's buffer holds after a growth, a write and a pop.
use mathlib.Core.List.{append_assoc}
use native.Mathlib.Nat.{zero-add, suc-add}
use ska_low_station_beam_sim.Prelude.{
  ℕ, zero, suc, ◌+◌, ◌-◌, ◌≤◌, ◌≡◌, refl, sym, ap, ◌∙◌, inl, inr, false, List, [], ◌∷◌, ◌++◌, some,
  if_cases, ltb, leb, ◌==◌, ==_iff, length, take, drop, replicate, take_append, length-append,
  length-take, length-drop, length-replicate, arith, Bool-cases,
}
use ska_low_station_beam_sim.Common.Constants.{heap_len}
use ska_low_station_beam_sim.Common.Accumulator.{
  Buffer, nil_buffer, copy_into, grow, take_heap_slice,
}

not_less : (m n : ℕ) → n ≤ m → ltb m n ≡ false
not_less m n h = ground arith

module _ {C : Type 0} where
  -- The samples in a buffer.
  abbrev pub content : Buffer C → List C
  content b = take b.len b.cells

  -- The length is within the capacity.
  abbrev pub Sound : Buffer C → Type 0
  Sound b = b.len ≤ length b.cells

  pub take_all : (xs : List C) (n : ℕ) → length xs ≡ n → take n xs ≡ xs
  take_all [] zero e = refl
  take_all [] (suc n) e = refl
  take_all (x ∷ xs) zero e = absurd (omega arith)
  take_all (x ∷ xs) (suc n) e = ap (◌∷◌ x) (take_all xs n (omega arith))

  pub length-content : (b : Buffer C) → Sound b → length (content b) ≡ b.len
  length-content b s = omega (arith, length-take b.len b.cells)

  -- A write of `n` samples behind the first `len`.
  write_end :
      (cells piece : List C) (len n : ℕ)
      → len + n ≤ length cells
      → length piece ≡ n
      → let b = copy_into (record { cells = cells; len = len + n }) len (len + n) piece in
        (content b ≡ take len cells ++ piece) × Sound b
  unfolding copy_into
  write_end cells piece len n room size =
      let gap : len + n - len ≡ n = omega arith in
      let before = take len cells in
      let rest = drop (len + length piece) cells in
      let kept : length before ≡ len = omega (arith, length-take len cells) in
      let front : length (before ++ piece) ≡ len + n = omega (arith, length-append before piece) in
      rw (gap, take_all piece n size, ← append_assoc before piece rest)
        (
          take_append (len + n) (before ++ piece) rest front,
          omega (arith, length-append (before ++ piece) rest),
        )

  abbrev Grows : Buffer C → ℕ → List C → Type 0
  Grows b n cells = (take b.len cells ≡ content b) × (b.len + n ≤ length cells)

  grow-Grows :
      (blank : C) (pooled : List C) (n : ℕ) (b : Buffer C)
      → Sound b
      → length pooled ≡ heap_len
      → Grows b n (grow blank pooled n b).0.cells
  unfolding grow
  grow-Grows blank pooled n b sound size =
      let kept = length-content b sound in
      if_cases (Grows b n) (leb (b.len + n) (length b.cells)) (λ room. (refl, ground arith))
        (λ _.
          if_cases (Grows b n) (leb (b.len + n) heap_len)
            (λ fits. (
              take_append b.len (content b) (drop b.len pooled) kept,
              let small : b.len + n ≤ heap_len = ground arith in
                  omega (
                    arith,
                    small,
                    length-append (content b) (drop b.len pooled),
                    length-drop b.len pooled,
                  ),
            ))
            (λ _. (
              take_append b.len (content b) (replicate n blank) kept,
              omega
                  (arith, length-append (content b) (replicate n blank), length-replicate n blank),
            )))

  -- A grown buffer whose new part is written holds the old samples, then the new ones: nothing of what
  -- the pool's buffer held.
  pub grow-copy_into :
      (blank : C) (pooled piece : List C) (n : ℕ) (b : Buffer C)
      → Sound b
      → length pooled ≡ heap_len
      → length piece ≡ n
      → let b' = copy_into (grow blank pooled n b).0 b.len (b.len + n) piece in
        (content b' ≡ content b ++ piece) × Sound b'
  unfolding grow
  grow-copy_into blank pooled piece n b sound size piece_size =
      let (same, room) = grow-Grows blank pooled n b sound size in
      let (e, ok) = write_end (grow blank pooled n b).0.cells piece b.len n room piece_size in
      (e ∙ ap (λ l. l ++ piece) same, ok)

  take-take : (m n : ℕ) (xs : List C) → m ≤ n → take m (take n xs) ≡ take m xs
  take-take zero n xs h = refl
  take-take (suc m) zero xs h = absurd (omega arith)
  take-take (suc m) (suc n) [] h = refl
  take-take (suc m) (suc n) (x ∷ xs) h = ap (◌∷◌ x) (take-take m n xs (omega arith))

  drop-take : (m n : ℕ) (xs : List C) → drop m (take (m + n) xs) ≡ take n (drop m xs)
  drop-take zero n xs = rw zero-add
  drop-take (suc m) zero [] = rw suc-add
  drop-take (suc m) (suc n) [] = rw suc-add
  drop-take (suc m) n (x ∷ xs) = rw suc-add (drop-take m n xs)

  -- takeHeapSlice gives the first 2048 samples, and a buffer of its own with the others.
  pub take_heap_slice-split :
      (b : Buffer C)
      → Sound b
      → heap_len ≤ b.len
      → (rest : Buffer C) × (take_heap_slice b ≡ some (take heap_len (content b), rest))
        × (content rest ≡ drop heap_len (content b))
        × Sound rest
        × (rest.len ≡ b.len - heap_len)
  unfolding take_heap_slice
  take_heap_slice-split b sound enough =
      let first = take-take heap_len b.len b.cells enough in
      let more = not_less b.len heap_len enough in
      let rest_len : b.len ≡ heap_len + (b.len - heap_len) = omega arith in
      let rest : drop heap_len (content b) ≡ take (b.len - heap_len) (drop heap_len b.cells) =
        ap (λ n. drop heap_len (take n b.cells)) rest_len
        ∙ drop-take heap_len (b.len - heap_len) b.cells in
      let size = length-drop heap_len b.cells in
      let cut = length-take (b.len - heap_len) (drop heap_len b.cells) in
      elim (Bool-cases (b.len == heap_len)) [
        | inl exact ↦
            let len = (==_iff b.len heap_len).0 exact in
            let zero_left : b.len - heap_len ≡ 0 = omega (arith, len) in
            (
              nil_buffer,
              rw (more, exact, first),
              rw (rest, zero_left) refl,
              omega arith,
              omega (arith, len),
            )
        | inr longer ↦ (
          record {
            cells = take (b.len - heap_len) (drop heap_len b.cells);
            len = b.len - heap_len;
          },
          rw (more, longer, first),
          take_all (take (b.len - heap_len) (drop heap_len b.cells)) (b.len - heap_len)
                (omega (arith, size, cut))
              ∙ sym rest,
          omega (arith, size, cut),
          refl,
        )
      ]
