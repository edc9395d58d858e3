-- ===== src/Tests/Streamer.antt =====
-- internal/synth: a streamer of 8 channels with noise and a tone in channel 3. The channel width is such
-- that a tick is 2048 samples in the arithmetic of the tests.
use ska_low_station_beam_sim.Prelude.{
  ℕ, ◌+◌, ◌*◌, ◌≤◌, ◌≡◌, refl, sym, ap, true, false, not, List, [], ◌∷◌, ◌↔◌, some, ◌==◌, length,
  All, map, range_from, replicate, length-replicate, get_elem?, arith,
}
use ska_low_station_beam_sim.Prelude.Int.{ℤ, pos}
use ska_low_station_beam_sim.Float.Fixed.{fixed}
use ska_low_station_beam_sim.Common.Accumulator.{Pol, pol_v, pol_h}
use ska_low_station_beam_sim.Common.Time.{unix_to_tai2000_seconds}
use ska_low_station_beam_sim.Common.Delay.{
  DelayFeed, DelayPolynomial, new_delay_feed, update, eval_delay_seconds, sum_terms, offset_of,
}
use ska_low_station_beam_sim.Common.ScanRunner.{Pace}
use ska_low_station_beam_sim.Synth.Ticks.{generate_next_tick, tone_call}
use ska_low_station_beam_sim.Synth.Ticks.Noise.{cells}
use ska_low_station_beam_sim.Synth.Ticks.Ticking.{ticked, generate_next_tick_lem}
use ska_low_station_beam_sim.Synth.Ticks.Delays.{delayed, synth_tone_channel-delay}
use ska_low_station_beam_sim.Synth.Quantized.{generate_quantized_heaps}
use ska_low_station_beam_sim.Synth.Quantized.Heaps.{heap_of, IsWhole, generate_quantized_heaps_lem}
use ska_low_station_beam_sim.Synth.Config.{ToneSourceConfig, StreamerConfig, ok}
use ska_low_station_beam_sim.Synth.Tone.{tone_channel_index, synth_tone_channel}
use ska_low_station_beam_sim.Synth.Positions.{
  tone_channel_positions, noise_only_positions, contains, insert_in_range,
}
use ska_low_station_beam_sim.Synth.Positions.Partition.{VisitsAll, select, count}
use ska_low_station_beam_sim.Synth.Streamer.{
  DirectSynthesisStreamer, check_tones, with_banks, build, new_streamer, tick_n_samples,
  with_amplitude,
}
use ska_low_station_beam_sim.Synth.Streamer.Building.{IsBeam, HasFeed, new_streamer-accepts}
use ska_low_station_beam_sim.Synth.Streamer.Built.{has, new_streamer-positions}

abbrev draws : ℕ → ℕ → ℕ → ℤ
draws seed1 seed2 k = pos (k * 1000)

abbrev in_order : List ℕ → List ℕ
in_order keys = keys

in_order-VisitsAll : VisitsAll in_order
in_order-VisitsAll set c = refl

abbrev tone : ToneSourceConfig ℤ
tone = record { delay_feed = some 0; freq_hz = pos 52_344_800_000_000; amplitude = pos 0 }

abbrev config : StreamerConfig ℤ
config = record {
  tone_sources = tone ∷ [];
  obs_time_ref = pos 0;
  noise = some (record { std = pos 1_000_000; seed = pos 42 });
  num_channels = pos 8;
  start_channel = pos 64;
  base_freq_hz = pos 0;
  channel_width_hz = pos 781_600_000_000;
  n_tiles = 2;
  tile_n_samples = 0;
  num_workers = 3;
  negate_delay = false;
}

abbrev streamer : DirectSynthesisStreamer ℤ ℤ
streamer = with_banks fixed 4 draws in_order config.noise (
    build fixed 4 draws in_order config 8 (pos 50_000_000_000_000) (pos 781_600_000_000)
      (with_amplitude fixed tone ∷ []) (3 ∷ []))

is_built : new_streamer fixed 4 draws in_order config ≡ ok streamer
unfolding new_streamer check_tones tone_channel_index insert_in_range
is_built = refl

one_heap : tick_n_samples fixed streamer ≡ 2048
unfolding tick_n_samples with_banks build
one_heap = refl

whole_tile : 2048 ≤ streamer.tile_n_samples
unfolding with_banks build tick_n_samples
whole_tile = omega arith

abbrev feeds : Pol → ℕ → DelayFeed ℤ
feeds pol a =
    update
      (record {
        station_id = pos 1;
        start_validity_sec = pos 0;
        validity_period_sec = pos 600_000_000;
        xypol_coeffs_ns = pos 2_000_000 ∷ pos 1_000 ∷ [];
        ypol_offset_ns = pos 5_000_000;
      })
      (new_delay_feed fixed)

new_streamer-accepts_example :
    ((s : DirectSynthesisStreamer ℤ ℤ) × (new_streamer fixed 4 draws in_order config ≡ ok s))
    ↔ (IsBeam (pos 8) (pos 64) × All (HasFeed fixed) config.tone_sources)
new_streamer-accepts_example = new_streamer-accepts fixed 4 draws in_order config

new_streamer-positions_example :
    (streamer.tone_channel_positions
      ≡ select (has fixed 4 draws in_order config) (range_from 0 streamer.num_channels))
    × (streamer.noise_only_channel_positions
        ≡ select
            (λ c. not (has fixed 4 draws in_order config c))
            (range_from 0 streamer.num_channels))
    × ((c : ℕ)
        → count c streamer.tone_channel_positions + count c streamer.noise_only_channel_positions
          ≡ count c (range_from 0 streamer.num_channels))
new_streamer-positions_example =
    new_streamer-positions fixed 4 draws in_order config streamer in_order-VisitsAll is_built

abbrev target : List (List (ℤ × ℤ))
target = ((pos 7, pos 7) ∷ (pos 8, pos 8) ∷ []) ∷ []

tone_position : streamer.tone_channel_positions ≡ 3 ∷ []
unfolding with_banks build tone_channel_positions
tone_position = refl

noise_only : streamer.noise_only_channel_positions ≡ 0 ∷ 1 ∷ 2 ∷ 4 ∷ 5 ∷ 6 ∷ 7 ∷ []
unfolding with_banks build noise_only_positions contains
noise_only = refl

one_target : length target ≡ length streamer.tone_channel_positions
one_target = sym (ap length tone_position)

generate_next_tick_lem_example :
    generate_next_tick fixed streamer (pos 0) feeds (pos 1_000_000) 2 (some target) (some target)
    ≡ some (
      some (
          cells
            (ticked fixed (pos 0) feeds streamer pol_v (pos 1_000_000) 2)
            0
            streamer.tone_channel_positions),
      some (
          cells
            (ticked fixed (pos 0) feeds streamer pol_h (pos 1_000_000) 2)
            0
            streamer.tone_channel_positions),
    )
generate_next_tick_lem_example =
    generate_next_tick_lem fixed (pos 0) feeds 4 draws in_order config streamer (pos 1_000_000) 2
      target target in_order-VisitsAll is_built (omega (arith, whole_tile)) one_target (refl, tt)
      one_target (refl, tt)

pooled : Pol → ℕ → List ℕ
pooled pol idx = replicate 4096 7

pooled_size : (pol : Pol) (idx : ℕ) → length (pooled pol idx) ≡ 4096
unfolding pooled
pooled_size pol idx = length-replicate {A = ℕ} 4096 7

generate_quantized_heaps_lem_example :
    (generate_quantized_heaps fixed streamer pooled (pos 1_000_000)
      ≡ some (map (heap_of fixed streamer (pos 1_000_000)) streamer.noise_only_channel_positions))
    × All IsWhole
        (map (heap_of fixed streamer (pos 1_000_000)) streamer.noise_only_channel_positions)
generate_quantized_heaps_lem_example =
    generate_quantized_heaps_lem fixed 4 draws in_order config streamer (pos 1_000_000) pooled
      in_order-VisitsAll is_built one_heap whole_tile pooled_size

abbrev pace : ℕ → Pace ℤ ℤ
pace k = record {
  stopped = k == 2;
  early = false;
  stopped_waiting = false;
  drift = pos 0;
  pooled = λ _ _. replicate 2048 (pos 99, pos 99);
}

abbrev poly : DelayPolynomial ℤ
poly = record {
  station_id = pos 1;
  start_validity_sec = pos 0;
  validity_period_sec = pos 600_000_000;
  xypol_coeffs_ns = pos 2_000_000 ∷ pos 1_000 ∷ [];
  ypol_offset_ns = pos 5_000_000;
}

same_time :
    fixed.sub (unix_to_tai2000_seconds fixed (pos 1_000_000)) poly.start_validity_sec
    ≡ fixed.add
        (fixed.sub (unix_to_tai2000_seconds fixed (pos 1_000_000)) poly.start_validity_sec)
        (fixed.div (fixed.of_int (pos 0)) streamer.channel_output_rate)
unfolding unix_to_tai2000_seconds with_banks build
same_time = refl

-- The first sample of a tick is at the time of the tick.
synth_tone_channel-delay_example :
    let sample =
      get_elem?
        (synth_tone_channel fixed
          (tone_call fixed streamer (pos 0) feeds tone poly pol_h (pos 1_000_000))
          2).1
        0 in
    (streamer.negate_delay ≡ false
      → sample
        ≡ some (
            delayed fixed streamer
              (pos 0)
              feeds
              tone
              poly
              (pos 1_000_000)
              (pos 1_000_000)
              2
              0
              pol_h
              (eval_delay_seconds fixed (pos 1_000_000) pol_h poly)))
    × (streamer.negate_delay ≡ true
        → sample
          ≡ some (
              delayed fixed streamer
                (pos 0)
                feeds
                tone
                poly
                (pos 1_000_000)
                (pos 1_000_000)
                2
                0
                pol_h
                (fixed.mul
                  (offset_of fixed pol_h poly (
                    fixed.neg (
                      sum_terms fixed
                        (fixed.sub (unix_to_tai2000_seconds fixed (pos 1_000_000)) (pos 0))
                        poly.xypol_coeffs_ns
                        (pos 0)
                        (pos 1_000_000))))
                  (fixed.of_ratio (pos 1) 1_000_000_000))))
synth_tone_channel-delay_example =
    synth_tone_channel-delay fixed streamer (pos 0) feeds tone poly (pos 1_000_000) (pos 1_000_000)
      2 0 pol_h (omega arith) same_time
