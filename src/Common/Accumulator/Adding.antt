-- ===== src/Common/Accumulator/Adding.antt =====
-- heap_accumulator.go: what PrepareWrite and the writes into its targets leave, for all channels.
use ska_low_station_beam_sim.Prelude.{
  ℕ, zero, suc, ◌+◌, ◌*◌, ◌/◌, ◌≤◌, ◌<◌, ◌≡◌, refl, ◌∙◌, Bool, true, false, List, [], ◌∷◌, some,
  ◌==◌, length, get_elem?, take, drop, replicate, length-replicate, ◌>>=◌, length-take, length-drop,
  arith,
}
use ska_low_station_beam_sim.Prelude.Int.{ℤ}
use ska_low_station_beam_sim.Common.Constants.{heap_len}
use ska_low_station_beam_sim.Common.Heap.{Complex}
use ska_low_station_beam_sim.Common.Channels.Partition.{for_each_channel_range-eq-map_each}
use ska_low_station_beam_sim.Common.Accumulator.{
  Buffers, Pol, HeapAccumulator, write_pol, prepare_write, write_targets, counted, add, nil_buffer,
  new_accumulator,
}
use ska_low_station_beam_sim.Common.Accumulator.Writing.{
  other, contents, SoundBuffers, Level, appended, grown, grown_from, targets_from,
  length-grown_from, prepared, written_from, length-written_from, written, written_from-Appends,
  written_from-Level,
}

new_bufs-SoundBuffers :
    (C : Type 0) (n : ℕ) → SoundBuffers {C = C} (replicate n (nil_buffer, nil_buffer))
new_bufs-SoundBuffers C zero = tt
new_bufs-SoundBuffers C (suc n) = ((omega arith, omega arith), new_bufs-SoundBuffers C n)

new_bufs-Level : (C : Type 0) (n : ℕ) → Level {C = C} 0 0 (replicate n (nil_buffer, nil_buffer))
new_bufs-Level C zero = tt
new_bufs-Level C (suc n) = ((refl, refl), new_bufs-Level C n)

module _ {F S : Type 0} where
  -- An accumulator as PrepareWrite, Add and PopReadyHeaps leave it.
  pub record IsWellFormed (a : HeapAccumulator F S) : Type 0 where
    pub count : length a.bufs ≡ a.num_channels
    pub sound : SoundBuffers a.bufs
    pub level : Level a.rows_v a.rows_h a.bufs
    pub ids : length a.channel_id_map ≡ a.num_channels

  abbrev pub with_bufs :
      List (Buffers (Complex S)) → Pol → ℕ → HeapAccumulator F S → HeapAccumulator F S
  with_bufs bufs pol n a = counted pol n (record a { bufs = bufs })

  pub prepared_all :
      (pol : Pol) (blank : Complex S) (pooled : ℕ → List (Complex S)) (n : ℕ)
      (a : HeapAccumulator F S)
      → length a.bufs ≡ a.num_channels
      → 0 < n
      → prepare_write blank pooled pol n a
        ≡ some (
          with_bufs (grown_from pol blank pooled n 0 a.bufs) pol n a,
          targets_from pol blank pooled n 0 a.bufs,
        )
  unfolding prepare_write
  prepared_all pol blank pooled n a count some_samples =
      let none_zero : (n == 0) ≡ false = ground arith in
      rw
        (
          none_zero,
          for_each_channel_range-eq-map_each {A = Buffers (Complex S)} {B = ℕ × ℕ}
              (λ ch b. some (grown pol blank pooled n ch b)) a.num_workers a.num_channels a.bufs
              count,
          prepared pol blank pooled n 0 a.bufs,
        )
        refl

  -- PrepareWrite for `n` samples, then a write of `n` samples into each channel's target.
  pub prepare_write-write_targets :
      (pol : Pol) (blank : Complex S) (pooled piece : ℕ → List (Complex S)) (n : ℕ)
      (a : HeapAccumulator F S)
      → IsWellFormed a
      → 0 < n
      → ((ch : ℕ) → length (pooled ch) ≡ heap_len)
      → ((ch : ℕ) → ch < a.num_channels → length (piece ch) ≡ n)
      → (bufs' : List (Buffers (Complex S))) × ((prepare_write blank pooled pol n a
            >>= λ (a', targets). write_targets pol targets piece a')
          ≡ some (with_bufs bufs' pol n a))
        × (contents pol bufs' ≡ appended 0 piece (contents pol a.bufs))
        × (contents (other pol) bufs' ≡ contents (other pol) a.bufs)
        × IsWellFormed (with_bufs bufs' pol n a)
  unfolding write_targets
  prepare_write-write_targets pol blank pooled piece n a wf some_samples sizes pieces =
      let (done, all) = written pol blank pooled n piece 0 [] a.bufs refl in
      let (new, kept, ok) =
        written_from-Appends pol blank pooled n piece 0 a.bufs wf.sound sizes
          (λ ch small. pieces ch (omega (arith, wf.count))) in
      (
        written_from pol blank pooled n piece 0 a.bufs,
        rw
            (
              prepared_all pol blank pooled n a wf.count some_samples,
              for_each_channel_range-eq-map_each {A = Buffers (Complex S)} {B = Bool}
                  (λ ch b. get_elem? (targets_from pol blank pooled n 0 a.bufs) ch >>= λ target.
                    some (write_pol pol (piece ch) target b, true))
                  a.num_workers a.num_channels (grown_from pol blank pooled n 0 a.bufs)
                  (length-grown_from pol blank pooled n 0 a.bufs ∙ wf.count),
              all,
            )
            refl,
        new,
        kept,
        record {
          count = length-written_from pol blank pooled n piece 0 a.bufs ∙ wf.count;
          sound = ok;
          level = written_from-Level pol blank pooled piece n 0 a.rows_v a.rows_h a.bufs wf.level;
          ids = wf.ids;
        },
      )

  -- Add for a chunk of `n` samples for each channel appends each channel's part of the chunk to its
  -- samples, whatever the pool's buffers held and for any number of workers, and leaves the other
  -- polarisation as it was.
  pub add-appended :
      (pol : Pol) (blank : Complex S) (pooled : ℕ → List (Complex S)) (chunk : List (Complex S))
      (n : ℕ) (a : HeapAccumulator F S)
      → IsWellFormed a
      → 0 < n
      → 0 < a.num_channels
      → length chunk ≡ a.num_channels * n
      → ((ch : ℕ) → length (pooled ch) ≡ heap_len)
      → (bufs' : List (Buffers (Complex S))) × (add blank pooled pol chunk a
          ≡ some (with_bufs bufs' pol n a))
        × (contents pol bufs'
            ≡ appended 0 (λ ch. take n (drop (ch * n) chunk)) (contents pol a.bufs))
        × (contents (other pol) bufs' ≡ contents (other pol) a.bufs)
        × IsWellFormed (with_bufs bufs' pol n a)
  unfolding add
  add-appended pol blank pooled [] n a wf some_samples some_channels size sizes =
      absurd (grind arith)
  add-appended pol blank pooled (c ∷ chunk) n a wf some_samples some_channels size sizes =
      let none_zero : (a.num_channels == 0) ≡ false = ground arith in
      let each : length (c ∷ chunk) / a.num_channels ≡ n = grind arith in
      let fits : (ch : ℕ) → ch < a.num_channels → length (take n (drop (ch * n) (c ∷ chunk))) ≡ n =
        λ ch small.
          let room : ch * n + n ≤ a.num_channels * n = grind arith in
          omega
            (arith, length-take n (drop (ch * n) (c ∷ chunk)), length-drop (ch * n) (c ∷ chunk)) in
      rw (none_zero, each)
        (prepare_write-write_targets pol blank pooled (λ ch. take n (drop (ch * n) (c ∷ chunk))) n a
          wf some_samples sizes fits)

  pub new_accumulator-IsWellFormed :
      (cpus num_channels : ℕ) (obs_time rate : F) (ids : List ℤ)
      → length ids ≡ num_channels
      → IsWellFormed (new_accumulator {S = S} cpus num_channels obs_time rate (some ids))
  unfolding new_accumulator
  new_accumulator-IsWellFormed cpus num_channels obs_time rate ids size = record {
    count = length-replicate num_channels (nil_buffer, nil_buffer);
    sound = new_bufs-SoundBuffers (Complex S) num_channels;
    level = new_bufs-Level (Complex S) num_channels;
    ids = size;
  }
