-- ===== src/Synth/Quantized/Scan.antt =====
-- streamer.go as the Streamer of internal/common/scan_runner.go: the scan of a streamer that was built.
use mathlib.Core.List.{map-append}
use ska_low_station_beam_sim.Prelude.{
  ℕ, zero, suc, ◌+◌, ◌*◌, ◌≤◌, ◌<◌, ◌≡◌, refl, ap, ◌∙◌, List, [], ◌∷◌, ◌++◌, Option, none, some,
  length, get_elem?, replicate, All, map, length-map, length-replicate, arith,
}
use ska_low_station_beam_sim.Prelude.Int.{ℤ, pos}
use ska_low_station_beam_sim.Float.{Float}
use ska_low_station_beam_sim.Common.Constants.{heap_len}
use ska_low_station_beam_sim.Common.Time.{channel_output_rate_hz}
use ska_low_station_beam_sim.Common.Heap.{Complex, ChannelHeap}
use ska_low_station_beam_sim.Common.Accumulator.{
  Pol, pol_v, pol_h, HeapAccumulator, new_accumulator,
}
use ska_low_station_beam_sim.Common.Accumulator.Adding.{new_accumulator-IsWellFormed}
use ska_low_station_beam_sim.Common.Accumulator.Popping.{start_of}
use ska_low_station_beam_sim.Common.Delay.{DelayFeed}
use ska_low_station_beam_sim.Common.ScanRunner.{
  Streamer, Pace, new_scan_runner, quantized_of, sim_time,
}
use ska_low_station_beam_sim.Common.ScanRunner.Ticks.{IsIdle, Delivers, tick_heaps, scan_heaps}
use ska_low_station_beam_sim.Synth.Config.{StreamerConfig, ok}
use ska_low_station_beam_sim.Synth.Positions.Partition.{VisitsAll}
use ska_low_station_beam_sim.Synth.Streamer.{
  DirectSynthesisStreamer, tick_n_samples, new_streamer, channel_id_map,
  complex_path_channel_id_map,
}
use ska_low_station_beam_sim.Synth.Ticks.{generate_next_tick, zero_sample}
use ska_low_station_beam_sim.Synth.Ticks.Noise.{cells}
use ska_low_station_beam_sim.Synth.Ticks.Ticking.{ticked, length-ticked, generate_next_tick_lem}
use ska_low_station_beam_sim.Synth.Quantized.{generate_quantized_heaps}
use ska_low_station_beam_sim.Synth.Quantized.Heaps.{
  heap_of, heap_of-id, generate_quantized_heaps_lem,
}

module _ {A : Type 0} where
  abbrev or_nil : Option (List A) → List A
  or_nil none = []
  or_nil (some xs) = xs

  -- dst[pol][j] after a call.
  abbrev target_of : Pol → ℕ → Option (Option (List (List A)) × Option (List (List A))) → List A
  target_of pol_v j (some (some v, h)) = or_nil (get_elem? v j)
  target_of pol_h j (some (v, some h)) = or_nil (get_elem? h j)
  target_of pol j _ = []

  get_elem?-cells :
      (g : ℕ → ℕ → List A) (k : ℕ) (chs : List ℕ) (j n : ℕ)
      → j < length chs
      → ((k' ch : ℕ) → k' < k + length chs → length (g k' ch) ≡ n)
      → length (or_nil (get_elem? (cells g k chs) j)) ≡ n
  unfolding cells
  get_elem?-cells g k [] j n inside sizes = absurd (omega arith)
  get_elem?-cells g k (ch ∷ chs) zero n inside sizes = sizes k ch (omega arith)
  get_elem?-cells g k (ch ∷ chs) (suc j) n inside sizes =
      get_elem?-cells g (k + 1) chs j n (omega arith) (λ k' c small. sizes k' c (omega arith))

-- A list repeated.
pub rounds : {A : Type 0} → ℕ → List A → List A
rounds zero xs = []
rounds (suc n) xs = xs ++ rounds n xs

All-replicate : {A : Type 0} (P : A → Type 0) (n : ℕ) (a : A) → P a → All P (replicate n a)
All-replicate P zero a p = tt
All-replicate P (suc n) a p = (p, All-replicate P n a p)

abbrev pub channel_of : {F S : Type 0} → ChannelHeap F S → ℤ
channel_of heap = heap.channel_id

tick_heaps-ids :
    {F S : Type 0} (start : F) (xv xh : ℕ → List (Complex S)) (i : ℕ) (ids : List ℤ)
    → map channel_of (tick_heaps start xv xh i ids) ≡ ids
tick_heaps-ids start xv xh i [] = refl
tick_heaps-ids start xv xh i (id ∷ ids) = ap (◌∷◌ id) (tick_heaps-ids start xv xh (i + 1) ids)

heap_of-ids :
    {F S : Type 0} (fl : Float F S) (s : DirectSynthesisStreamer F S) (t : F) (chs : List ℕ)
    → map channel_of (map (heap_of fl s t) chs) ≡ map pos chs
heap_of-ids fl s t [] = refl
heap_of-ids fl s t (ch ∷ chs) = rw (heap_of-id fl s t ch, heap_of-ids fl s t chs) refl

module _ {F S : Type 0} (fl : Float F S) (inf : F) (s : DirectSynthesisStreamer F S)
    (feeds : ℕ → Pol → ℕ → DelayFeed F) (pooled : ℕ → Pol → ℕ → List ℕ) where
  -- Targets of a tick's length.
  abbrev pub blanks : List (List (Complex S))
  blanks =
      replicate (length s.tone_channel_positions) (replicate (tick_n_samples fl s) (zero_sample fl))

  -- The streamer as the scan runner calls it, at tick `k` with the feeds and buffers of that tick.
  unfoldable pub as_streamer : Streamer F S
  as_streamer = record {
    channel_id_map = channel_id_map s;
    tick_n_samples = tick_n_samples fl s;
    complex_path_channel_id_map = some (complex_path_channel_id_map s);
    generate_next_tick = λ k t pol j.
        target_of pol j (
          generate_next_tick fl s inf (feeds k) t (tick_n_samples fl s) (some blanks)
            (some blanks));
    generate_quantized_heaps = some (λ k t. or_nil (generate_quantized_heaps fl s (pooled k) t));
  }

  module _ (cpus : ℕ) (draws : ℕ → ℕ → ℕ → F) (order : List ℕ → List ℕ) (cfg : StreamerConfig F)
      (visits : VisitsAll order) (built : new_streamer fl cpus draws order cfg ≡ ok s)
      (whole : tick_n_samples fl s ≡ heap_len) (small : heap_len ≤ s.tile_n_samples)
      (blank : Complex S) (obs_time : F) (pace : ℕ → Pace F S)
      (sizes : (k : ℕ) (pol : Pol) (ch : ℕ) → length ((pace k).pooled pol ch) ≡ heap_len)
      (bytes : (k : ℕ) (pol : Pol) (idx : ℕ) → length (pooled k pol idx) ≡ heap_len * 2) where
    fits : tick_n_samples fl s ≤ s.tile_n_samples
    fits = omega (arith, whole, small)

    ticks :
        (k : ℕ) (t : F)
        → generate_next_tick fl s inf (feeds k) t (tick_n_samples fl s) (some blanks) (some blanks)
          ≡ some (
            some (
                cells
                  (ticked fl inf (feeds k) s pol_v t (tick_n_samples fl s))
                  0
                  s.tone_channel_positions),
            some (
                cells
                  (ticked fl inf (feeds k) s pol_h t (tick_n_samples fl s))
                  0
                  s.tone_channel_positions),
          )
    ticks k t =
        let n = tick_n_samples fl s in
        let silence = replicate n (zero_sample fl) in
        let width = length-replicate (length s.tone_channel_positions) silence in
        let rows =
          All-replicate (λ out. length out ≡ n) (length s.tone_channel_positions) silence
            (length-replicate n (zero_sample fl)) in
        generate_next_tick_lem fl inf (feeds k) cpus draws order cfg s t n blanks blanks visits
          built fits width rows width rows

    piece :
        (k : ℕ) (t : F) (pol : Pol) (ch : ℕ)
        → ch < length s.tone_channel_positions
        → length (as_streamer.generate_next_tick k t pol ch) ≡ heap_len
    unfolding as_streamer
    piece k t pol_v ch inside = rw (ticks k t) (
        get_elem?-cells _ 0 s.tone_channel_positions ch heap_len inside (λ k' c small'.
          length-ticked fl inf (feeds k) cpus draws order cfg s pol_v t (tick_n_samples fl s) k' c
            built fits (omega arith)
          ∙ whole))
    piece k t pol_h ch inside = rw (ticks k t) (
        get_elem?-cells _ 0 s.tone_channel_positions ch heap_len inside (λ k' c small'.
          length-ticked fl inf (feeds k) cpus draws order cfg s pol_h t (tick_n_samples fl s) k' c
            built fits (omega arith)
          ∙ whole))

    pub as_streamer-Delivers :
        Delivers fl blank as_streamer obs_time pace (length s.tone_channel_positions)
    unfolding as_streamer
    as_streamer-Delivers = record { whole_heap = whole; pooled = sizes; pieces = piece }

    -- The channels of a tick's heaps.
    abbrev pub beam_ids : List ℤ
    beam_ids = map pos s.tone_channel_positions ++ map pos s.noise_only_channel_positions

    quantized_ids :
        (k : ℕ) (t : F)
        → map channel_of (quantized_of as_streamer.generate_quantized_heaps k t)
          ≡ map pos s.noise_only_channel_positions
    unfolding as_streamer
    quantized_ids k t =
        let (e, _) =
          generate_quantized_heaps_lem fl cpus draws order cfg s t (pooled k) visits built whole
            small (bytes k) in
        rw e (heap_of-ids fl s t s.noise_only_channel_positions)

    pub scan_heaps-ids :
        (a : HeapAccumulator F S) (n k consumed : ℕ)
        → a.channel_id_map ≡ map pos s.tone_channel_positions
        → map channel_of (scan_heaps fl blank as_streamer obs_time pace a n k consumed)
          ≡ rounds n beam_ids
    unfolding scan_heaps rounds
    scan_heaps-ids a zero k consumed ids = refl
    scan_heaps-ids a (suc n) k consumed ids =
        let t = sim_time fl blank as_streamer obs_time k in
        let first =
          tick_heaps (start_of fl a consumed) (as_streamer.generate_next_tick k t pol_v)
            (as_streamer.generate_next_tick k t pol_h) 0 a.channel_id_map in
        let silent = quantized_of as_streamer.generate_quantized_heaps k t in
        let rest =
          scan_heaps fl blank as_streamer obs_time pace a n (k + 1) (consumed + heap_len) in
        map-append channel_of (first ++ silent) rest
        ∙ ap (λ (l : List ℤ). l ++ map channel_of rest)
            (map-append channel_of first silent ∙ (λ i.
              (tick_heaps-ids (start_of fl a consumed) (as_streamer.generate_next_tick k t pol_v)
                    (as_streamer.generate_next_tick k t pol_h) 0 a.channel_id_map
                  ∙ ids)
                i
              ++ quantized_ids k t i))
        ∙ ap (λ (l : List ℤ). beam_ids ++ l) (scan_heaps-ids a n (k + 1) (consumed + heap_len) ids)

    pub started :
        (processors : ℕ)
        → let r = new_scan_runner fl blank as_streamer processors obs_time in
          IsIdle fl blank as_streamer obs_time pace r.accumulator 0
          × (r.accumulator.num_channels ≡ length s.tone_channel_positions)
          × (r.accumulator.channel_id_map ≡ map pos s.tone_channel_positions)
          × (r.offered ≡ [])
    unfolding new_scan_runner new_accumulator as_streamer complex_path_channel_id_map
    started processors =
        let ids = map pos s.tone_channel_positions in
        (
          record {
            well_formed =
                new_accumulator-IsWellFormed processors (length ids) obs_time
                  (channel_output_rate_hz fl) ids refl;
            no_v = refl;
            no_h = refl;
            count = refl;
          },
          length-map s.tone_channel_positions pos,
          refl,
          refl,
        )
