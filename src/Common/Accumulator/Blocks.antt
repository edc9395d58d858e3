-- ===== src/Common/Accumulator/Blocks.antt =====
-- heap_accumulator.go: one iteration of PopReadyHeaps.
use mathlib.Core.List.{append_assoc}
use ska_low_station_beam_sim.Prelude.{
  ℕ, suc, ◌+◌, ◌-◌, ◌≤◌, ◌≡◌, refl, sym, ap, ◌∙◌, List, [], ◌∷◌, ◌++◌, map, Option, none, some,
  length, get_elem?, get_elem?-append, take, drop, length-append, arith,
}
use ska_low_station_beam_sim.Prelude.Int.{ℤ}
use ska_low_station_beam_sim.Float.{Float}
use ska_low_station_beam_sim.Common.Constants.{heap_len}
use ska_low_station_beam_sim.Common.Heap.{Complex, ChannelHeap}
use ska_low_station_beam_sim.Common.Channels.Partition.{
  map_each, for_each_channel_range-eq-map_each,
}
use ska_low_station_beam_sim.Common.Accumulator.{
  Buffers, pol_v, pol_h, HeapAccumulator, heap_start, pop_channel, pop_block,
}
use ska_low_station_beam_sim.Common.Accumulator.Buffers.{take_heap_slice-split}
use ska_low_station_beam_sim.Common.Accumulator.Writing.{contents, SoundBuffers, Level}
use ska_low_station_beam_sim.Common.Accumulator.Adding.{IsWellFormed}

module _ {F S : Type 0} where
  -- One heap for each channel, with the first 2048 samples of each polarisation.
  abbrev pub heaps_of :
      F → List ℤ → List (List (Complex S)) → List (List (Complex S)) → List (ChannelHeap F S)
  heaps_of start (id ∷ ids) (v ∷ vs) (h ∷ hs) =
      record {
        channel_id = id;
        v_samples = take heap_len v;
        h_samples = take heap_len h;
        v_quantized = none;
        h_quantized = none;
        heap_start_time = start;
      }
      ∷ heaps_of start ids vs hs
  heaps_of start _ _ _ = []

  abbrev pub after_block : List (Buffers (Complex S)) → HeapAccumulator F S → HeapAccumulator F S
  after_block bufs a = record a {
    bufs = bufs;
    rows_v = a.rows_v - heap_len;
    rows_h = a.rows_h - heap_len;
    samples_consumed = a.samples_consumed + heap_len;
  }

module _ {F S : Type 0} (fl : Float F S) where
  Popped :
      HeapAccumulator F S
      → List ℤ
      → List (Buffers (Complex S))
      → Option (List (Buffers (Complex S)) × List (ChannelHeap F S))
      → Type 0
  Popped a ids bufs r =
      (after : List (Buffers (Complex S))) × (r
        ≡ some (after, heaps_of (heap_start fl a) ids (contents pol_v bufs) (contents pol_h bufs)))
      × (contents pol_v after ≡ map (drop heap_len) (contents pol_v bufs))
      × (contents pol_h after ≡ map (drop heap_len) (contents pol_h bufs))
      × SoundBuffers after
      × Level (a.rows_v - heap_len) (a.rows_h - heap_len) after
      × (length after ≡ length bufs)

  popped :
      (a : HeapAccumulator F S) (i : ℕ) (before ids : List ℤ) (bufs : List (Buffers (Complex S)))
      → length before ≡ i
      → a.channel_id_map ≡ before ++ ids
      → length ids ≡ length bufs
      → heap_len ≤ a.rows_v
      → heap_len ≤ a.rows_h
      → SoundBuffers bufs
      → Level a.rows_v a.rows_h bufs
      → Popped a ids bufs (map_each (pop_channel fl a) i bufs)
  unfolding Popped map_each contents pop_channel
  popped a i before [] [] size is same lv lh sound level = ([], refl, refl, refl, tt, tt, refl)
  popped a i before [] (b ∷ bufs) size is same lv lh sound level = absurd (omega arith)
  popped a i before (id ∷ ids) [] size is same lv lh sound level = absurd (omega arith)
  popped a i before (id ∷ ids) ((v, h) ∷ bufs) size is same lv lh ((sv, sh), sound)
        ((ev, eh), level) =
      let (v', tv, cv, sv', nv) = take_heap_slice-split v sv (omega arith) in
      let (h', th, ch, sh', nh) = take_heap_slice-split h sh (omega arith) in
      let (after, e, es, eh', ok, ls, n) =
        popped a (i + 1) (before ++ (id ∷ [])) ids bufs
          (omega (arith, length-append before (id ∷ [])))
          (is ∙ sym (append_assoc before (id ∷ []) ids)) (omega arith) lv lh sound level in
      let found : get_elem? a.channel_id_map i ≡ some id =
        rw is (get_elem?-append before id ids i size) in
      (
        (v', h') ∷ after,
        rw (tv, th, found, e) refl,
        rw (cv, es),
        rw (ch, eh'),
        ((sv', sh'), ok),
        ((omega arith, omega arith), ls),
        ap suc n,
      )

  pub block_popped :
      (a : HeapAccumulator F S)
      → IsWellFormed a
      → heap_len ≤ a.rows_v
      → heap_len ≤ a.rows_h
      → (after : List (Buffers (Complex S))) × (pop_block fl a
          ≡ some (
            after_block after a,
            heaps_of
                (heap_start fl a)
                a.channel_id_map
                (contents pol_v a.bufs)
                (contents pol_h a.bufs),
          ))
        × (contents pol_v after ≡ map (drop heap_len) (contents pol_v a.bufs))
        × (contents pol_h after ≡ map (drop heap_len) (contents pol_h a.bufs))
        × IsWellFormed (after_block after a)
  unfolding pop_block Popped
  block_popped a wf lv lh =
      let (after, e, ev, eh, sound, level, n) =
        popped a 0 [] a.channel_id_map a.bufs refl refl (wf.ids ∙ sym wf.count) lv lh wf.sound
          wf.level in
      (
        after,
        rw
            (
              for_each_channel_range-eq-map_each (pop_channel fl a) a.num_workers a.num_channels
                  a.bufs wf.count,
              e,
            )
            refl,
        ev,
        eh,
        record { count = n ∙ wf.count; sound = sound; level = level; ids = wf.ids },
      )
