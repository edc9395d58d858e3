-- ===== src/Common/Accumulator/Popping.antt =====
-- heap_accumulator.go: what PopReadyHeaps returns and leaves.
use ska_low_station_beam_sim.Prelude.{
  ℕ, zero, suc, ◌+◌, ◌-◌, ◌*◌, ◌/◌, min, ◌≤◌, ◌≡◌, refl, sym, ap, ◌∙◌, inl, inr, true, false, List,
  [], ◌∷◌, ◌++◌, map, Option, some, drop, drop-drop, ◌>>=◌, arith, Bool-cases,
}
use ska_low_station_beam_sim.Prelude.Int.{pos}
use ska_low_station_beam_sim.Float.{Float}
use ska_low_station_beam_sim.Common.Constants.{heap_len}
use ska_low_station_beam_sim.Common.Heap.{Complex, ChannelHeap}
use ska_low_station_beam_sim.Common.Accumulator.{
  Buffers, pol_v, pol_h, HeapAccumulator, heap_start, pop_blocks, is_ready, pop_ready_heaps,
}
use ska_low_station_beam_sim.Common.Accumulator.Writing.{contents}
use ska_low_station_beam_sim.Common.Accumulator.Adding.{IsWellFormed}
use ska_low_station_beam_sim.Common.Accumulator.Blocks.{heaps_of, after_block, block_popped}

module _ {F S : Type 0} (fl : Float F S) where
  abbrev pub start_of : HeapAccumulator F S → ℕ → F
  start_of a consumed =
      fl.add a.obs_time (fl.div (fl.of_int (pos consumed)) a.sample_rate_per_channel)

  -- `k` blocks of the channels' samples as heaps, one block after another, in the order of the channels;
  -- `consumed` samples of each channel came before.
  unfoldable pub split :
      ℕ
      → HeapAccumulator F S
      → ℕ
      → List (List (Complex S))
      → List (List (Complex S))
      → List (ChannelHeap F S)
  split zero a consumed vs hs = []
  split (suc k) a consumed vs hs =
      heaps_of (start_of a consumed) a.channel_id_map vs hs
      ++ split k a (consumed + heap_len) (map (drop heap_len) vs) (map (drop heap_len) hs)

  abbrev pub blocks_ready : HeapAccumulator F S → ℕ
  blocks_ready a = min a.rows_v a.rows_h / heap_len

  -- The fields that no operation changes.
  abbrev pub Same : HeapAccumulator F S → HeapAccumulator F S → Type 0
  Same a a' =
      (a'.channel_id_map ≡ a.channel_id_map)
      × (a'.num_channels ≡ a.num_channels)
      × (a'.obs_time ≡ a.obs_time)
      × (a'.sample_rate_per_channel ≡ a.sample_rate_per_channel)

  abbrev pub Rest : ℕ → HeapAccumulator F S → HeapAccumulator F S → Type 0
  Rest k a a' =
      (contents pol_v a'.bufs ≡ map (drop (k * heap_len)) (contents pol_v a.bufs))
      × (contents pol_h a'.bufs ≡ map (drop (k * heap_len)) (contents pol_h a.bufs))
      × (a'.samples_consumed ≡ a.samples_consumed + k * heap_len)
      × (a'.rows_v ≡ a.rows_v - k * heap_len)
      × (a'.rows_h ≡ a.rows_h - k * heap_len)
      × Same a a'
      × IsWellFormed a'

  Pops : HeapAccumulator F S → Option (HeapAccumulator F S × List (ChannelHeap F S)) → Type 0
  Pops a r =
      (a' : HeapAccumulator F S) × (r
        ≡ some (
          a',
          split (blocks_ready a) a a.samples_consumed (contents pol_v a.bufs)
              (contents pol_h a.bufs),
        ))
      × Rest (blocks_ready a) a a'

  map-drop_zero : (rows : List (List (Complex S))) → map (drop 0) rows ≡ rows
  map-drop_zero [] = refl
  map-drop_zero (r ∷ rows) = ap (◌∷◌ r) (map-drop_zero rows)

  map-drop-drop :
      (m n : ℕ) (rows : List (List (Complex S)))
      → map (drop n) (map (drop m) rows) ≡ map (drop (m + n)) rows
  map-drop-drop m n [] = refl
  map-drop-drop m n (r ∷ rows) = rw (drop-drop m n r, map-drop-drop m n rows) refl

  -- A split looks at the accumulator's constant fields only.
  split_same :
      (k c : ℕ) (a : HeapAccumulator F S) (after : List (Buffers (Complex S)))
      (vs hs : List (List (Complex S)))
      → split k (after_block after a) c vs hs ≡ split k a c vs hs
  unfolding split
  split_same zero c a after vs hs = refl
  split_same (suc k) c a after vs hs =
      ap (λ l. heaps_of (start_of a c) a.channel_id_map vs hs ++ l)
        (split_same k (c + heap_len) a after (map (drop heap_len) vs) (map (drop heap_len) hs))

  none_ready : (a : HeapAccumulator F S) → is_ready a ≡ false → blocks_ready a ≡ 0
  none_ready a not_so = ground arith

  v_ready : (a : HeapAccumulator F S) → is_ready a ≡ true → heap_len ≤ a.rows_v
  v_ready a is_so = ground arith

  h_ready : (a : HeapAccumulator F S) → is_ready a ≡ true → heap_len ≤ a.rows_h
  h_ready a is_so = ground arith

  next_block :
      (rv rh : ℕ)
      → heap_len ≤ rv
      → heap_len ≤ rh
      → min rv rh / heap_len ≡ suc (min (rv - heap_len) (rh - heap_len) / heap_len)
  next_block rv rh lv lh = omega arith

  nothing_ready :
      (a : HeapAccumulator F S) → IsWellFormed a → is_ready a ≡ false → Pops a (some (a, []))
  unfolding Pops split
  nothing_ready a wf not_so =
      let k = none_ready a not_so in
      rw k (
        a,
        refl,
        (
          sym (map-drop_zero (contents pol_v a.bufs)),
          sym (map-drop_zero (contents pol_h a.bufs)),
          omega arith,
          omega arith,
          omega arith,
          (refl, refl, refl, refl),
          wf,
        ),
      )

  then_Pops :
      (a : HeapAccumulator F S) (after : List (Buffers (Complex S)))
      (r : Option (HeapAccumulator F S × List (ChannelHeap F S)))
      → heap_len ≤ a.rows_v
      → heap_len ≤ a.rows_h
      → contents pol_v after ≡ map (drop heap_len) (contents pol_v a.bufs)
      → contents pol_h after ≡ map (drop heap_len) (contents pol_h a.bufs)
      → Pops (after_block after a) r
      → Pops a (
          r >>= λ (a'', more). some (
            a'',
            heaps_of
                  (heap_start fl a)
                  a.channel_id_map
                  (contents pol_v a.bufs)
                  (contents pol_h a.bufs)
                ++ more,
          ))
  unfolding Pops split
  then_Pops a after r lv lh ev eh (a', e, (rv, rh, c, nv, nh, same, wf)) =
      let k = blocks_ready (after_block after a) in
      let one_more = next_block a.rows_v a.rows_h lv lh in
      let step : suc k * heap_len ≡ heap_len + k * heap_len = omega arith in
      (
        a',
        rw (e, one_more, split_same k (a.samples_consumed + heap_len) a after, ev, eh) refl,
        (
          rw (one_more, step) (rv ∙ rw (ev, map-drop-drop) refl),
          rw (one_more, step) (rh ∙ rw (eh, map-drop-drop) refl),
          rw (one_more, step) (omega arith),
          rw (one_more, step) (omega arith),
          rw (one_more, step) (omega arith),
          same,
          wf,
        ),
      )

  pop_blocks-Pops :
      (fuel : ℕ) (a : HeapAccumulator F S)
      → IsWellFormed a
      → blocks_ready a ≤ fuel
      → Pops a (pop_blocks fl fuel a)
  unfolding pop_blocks
  pop_blocks-Pops zero a wf enough = elim (Bool-cases (is_ready a)) [
    | inr not_so ↦ rw not_so (nothing_ready a wf not_so)
    | inl is_so ↦
        let one_more = next_block a.rows_v a.rows_h (v_ready a is_so) (h_ready a is_so) in
        absurd (omega arith)
  ]
  pop_blocks-Pops (suc fuel) a wf enough = elim (Bool-cases (is_ready a)) [
    | inr not_so ↦ rw not_so (nothing_ready a wf not_so)
    | inl is_so ↦
        let lv = v_ready a is_so in
        let lh = h_ready a is_so in
        let (after, e, ev, eh, wf') = block_popped fl a wf lv lh in
        let one_more = next_block a.rows_v a.rows_h lv lh in
        let next = pop_blocks-Pops fuel (after_block after a) wf' (omega arith) in
        rw (is_so, e)
          (then_Pops a after (pop_blocks fl fuel (after_block after a)) lv lh ev eh next)
  ]

  -- PopReadyHeaps of a well-formed accumulator does not panic and ends: it returns as many blocks of
  -- heaps as both polarisations have whole blocks of 2048 samples, block after block and in each the
  -- channels in order, with their ids, the next 2048 samples of each polarisation and the start time of
  -- the block; what is left of each channel are the samples behind, and the accumulator is well-formed.
  pub pop_ready_heaps-split :
      (a : HeapAccumulator F S)
      → IsWellFormed a
      → (a' : HeapAccumulator F S) × (pop_ready_heaps fl a
          ≡ some (
            a',
            split
                (blocks_ready a)
                a
                a.samples_consumed
                (contents pol_v a.bufs)
                (contents pol_h a.bufs),
          ))
        × Rest (blocks_ready a) a a'
  unfolding pop_ready_heaps Pops
  pop_ready_heaps-split a wf = pop_blocks-Pops (a.rows_v / heap_len) a wf (omega arith)
