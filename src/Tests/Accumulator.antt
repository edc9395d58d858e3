-- ===== src/Tests/Accumulator.antt =====
-- internal/common/heap_accumulator.go: examples with two channels and stale buffers from the pool.
use ska_low_station_beam_sim.Prelude.{
  ◌*◌, ◌≡◌, refl, List, [], ◌∷◌, some, take, drop, replicate, range_from, arith,
}
use ska_low_station_beam_sim.Prelude.Int.{ℤ, pos}
use ska_low_station_beam_sim.Float.Fixed.{fixed}
use ska_low_station_beam_sim.Common.Heap.{Complex}
use ska_low_station_beam_sim.Common.Channels.{channel_ranges, visits}
use ska_low_station_beam_sim.Common.Channels.Partition.{channel_ranges_cover}
use ska_low_station_beam_sim.Common.Accumulator.{
  Buffer, Buffers, pol_v, pol_h, HeapAccumulator, new_accumulator, add, pop_ready_heaps,
}
use ska_low_station_beam_sim.Common.Accumulator.Writing.{contents, appended}
use ska_low_station_beam_sim.Common.Accumulator.Adding.{
  IsWellFormed, with_bufs, add-appended, new_accumulator-IsWellFormed,
}
use ska_low_station_beam_sim.Common.Accumulator.Popping.{split, Rest, pop_ready_heaps-split}

abbrev sample : Complex ℤ
sample = (pos 5, pos 6)

abbrev stale : Complex ℤ
stale = (pos 99, pos 99)

abbrev empty : HeapAccumulator ℤ ℤ
empty = new_accumulator 4 2 (pos 0) (pos 925_925_925_925) (some (pos 8 ∷ pos 9 ∷ []))

add-appended_example :
    (bufs' : List (Buffers (Complex ℤ))) × (add
        (pos 0, pos 0)
        (λ _. replicate 2048 stale)
        pol_v
        (replicate 6 sample)
        empty
      ≡ some (with_bufs bufs' pol_v 3 empty))
    × (contents pol_v bufs'
        ≡ appended 0
            (λ ch. take 3 (drop (ch * 3) (replicate 6 sample)))
            (contents pol_v empty.bufs))
    × (contents pol_h bufs' ≡ contents pol_h empty.bufs)
    × IsWellFormed (with_bufs bufs' pol_v 3 empty)
add-appended_example =
    add-appended pol_v (pos 0, pos 0) (λ _. replicate 2048 stale) (replicate 6 sample) 3 empty
      (new_accumulator-IsWellFormed 4 2 (pos 0) (pos 925_925_925_925) (pos 8 ∷ pos 9 ∷ []) refl)
      (omega arith) (unfold new_accumulator in omega arith) (unfold new_accumulator in refl)
      (λ _. refl)

abbrev buffer : Buffer (Complex ℤ)
buffer = record { cells = replicate 2050 sample; len = 2050 }

-- Two samples more than a heap.
abbrev full : HeapAccumulator ℤ ℤ
full = record {
  num_channels = 2;
  obs_time = pos 0;
  sample_rate_per_channel = pos 925_925_925_925;
  channel_id_map = pos 8 ∷ pos 9 ∷ [];
  num_workers = 2;
  bufs = (buffer, buffer) ∷ (buffer, buffer) ∷ [];
  rows_v = 2050;
  rows_h = 2050;
  samples_consumed = 4096;
}

pop_ready_heaps-split_example :
    (a' : HeapAccumulator ℤ ℤ) × (pop_ready_heaps fixed full
      ≡ some (a', split fixed 1 full 4096 (contents pol_v full.bufs) (contents pol_h full.bufs)))
    × Rest fixed 1 full a'
pop_ready_heaps-split_example = pop_ready_heaps-split fixed full (record {
  count = refl;
  sound = ((omega arith, omega arith), ((omega arith, omega arith), tt));
  level = ((refl, refl), ((refl, refl), tt));
  ids = refl;
})

channel_ranges_cover_example : visits (channel_ranges 4 10) ≡ range_from 0 10
channel_ranges_cover_example = channel_ranges_cover 4 10
