-- ===== src/Synth/Streamer.antt =====
-- internal/synth/streamer.go: DirectSynthesisStreamer and its construction. `cpus` is the number of
-- processors that Go reports, `draws` the source of normal variates, `order` the order in which a loop
-- visits the keys of a map.
pub mod Building
pub mod Built
use ska_low_station_beam_sim.Prelude.{
  ℕ, ◌+◌, ◌*◌, Bool, not, ◌||◌, List, [], ◌∷◌, Option, none, some, if◌then◌else◌, ltb, ◌==◌, length,
  range_from, map,
}
use ska_low_station_beam_sim.Prelude.Int.{
  ℤ, pos, pos_part, ◌+ℤ◌, ◌-ℤ◌, ltb_ℤ, eqb_ℤ, rem_int, to_word,
}
use ska_low_station_beam_sim.Float.{Float, constant, half, is_zero}
use ska_low_station_beam_sim.Common.Constants
use ska_low_station_beam_sim.Common.Constants.{
  channel_start, min_num_channels, max_num_channels, num_channels_step, oversampling_numerator,
  oversampling_denominator,
}
use ska_low_station_beam_sim.Common.Heap.{Complex}
use ska_low_station_beam_sim.Common.Time.{block_duration_s}
use ska_low_station_beam_sim.Common.Accumulator.{Pol, pol_v, pol_h}
use ska_low_station_beam_sim.Common.Channels.{default_parallelism}
use ska_low_station_beam_sim.Synth.Noise.Bank.{fill_noise_bank, fill_quantized_noise_bank}
use ska_low_station_beam_sim.Synth.Tone.{tone_channel_index}
use ska_low_station_beam_sim.Synth.Positions
use ska_low_station_beam_sim.Synth.Positions.{insert_in_range, noise_only_positions}
use ska_low_station_beam_sim.Synth.Config.{
  ToneSourceConfig, NoiseConfig, StreamerConfig, bad_num_channels, bad_start_channel, no_delay_feed,
  Checked, ok, err, ◌>>=◌,
}

-- A map of banks has both polarisations or, if it is empty, none.
pub record DirectSynthesisStreamer (F S : Type 0) : Type 0 where
  pub num_channels : ℕ
  pub start_channel : ℤ
  pub base_freq_hz : F
  pub channel_width_hz : F
  pub channel_output_rate : F
  pub obs_time_ref : F
  pub negate_delay : Bool
  pub tone_cfgs : List (ToneSourceConfig F)
  pub noise_cfg : Option (NoiseConfig F)
  pub noise_seed : Pol → ℕ
  pub noise_std : F
  pub n_tiles : ℕ
  pub tile_n_samples : ℕ
  pub banks : Option (Pol → List (Complex S))
  pub quant_banks : Option (Pol → List ℕ)
  pub tone_channel_positions : List ℕ
  pub noise_only_channel_positions : List ℕ
  pub pos_to_subset_idx : ℕ → Option ℕ
  pub num_workers : ℕ

-- `banks[pol]`; a missing key gives a nil slice.
abbrev pub bank_of : {A : Type 0} → Option (Pol → List A) → Pol → List A
bank_of none pol = []
bank_of (some banks) pol = banks pol

-- The two tests of NewDirectSynthesisStreamer.
abbrev pub is_bad_num_channels : ℤ → Bool
is_bad_num_channels n =
    ltb_ℤ n (pos min_num_channels)
    || ltb_ℤ (pos max_num_channels) n
    || not (eqb_ℤ (rem_int n num_channels_step) (pos 0))

abbrev pub is_bad_start : ℤ → ℤ → Bool
is_bad_start n start =
    ltb_ℤ start (pos channel_start) || ltb_ℤ (pos (channel_start + max_num_channels)) (start +ℤ n)

abbrev pub num_channels_of : ℤ → ℤ
num_channels_of n = if eqb_ℤ n (pos 0) then pos max_num_channels else n

-- noiseSeedV and noiseSeedH, of an int64.
abbrev pub seed_of : Pol → ℤ → ℕ
seed_of pol_v seed = to_word 64 seed
seed_of pol_h seed = to_word 64 (seed +ℤ pos 1_000_003)

-- TileNSamples and NTiles: 0 stands for the default.
abbrev pub or_default : ℕ → ℕ → ℕ
or_default n default = if n == 0 then default else n

module _ {F S : Type 0} where
  -- ChannelIDMap
  unfoldable pub channel_id_map : DirectSynthesisStreamer F S → List ℤ
  channel_id_map s = map pos (range_from 0 s.num_channels)

  -- ComplexPathChannelIDMap
  unfoldable pub complex_path_channel_id_map : DirectSynthesisStreamer F S → List ℤ
  complex_path_channel_id_map s = map pos s.tone_channel_positions

module _ {F : Type 0} where
  abbrev pub seeds : Option (NoiseConfig F) → Pol → ℕ
  seeds none pol = 0
  seeds (some noise) pol = seed_of pol noise.seed

module _ {F S : Type 0} (fl : Float F S) where
  -- TickNSamples
  unfoldable pub tick_n_samples : DirectSynthesisStreamer F S → ℕ
  tick_n_samples s =
      pos_part (fl.to_int (fl.add (fl.mul s.channel_output_rate (block_duration_s fl)) (half fl)))

  -- The loop of QuantizeScale over the tones.
  unfoldable pub add_amplitudes : F → List (ToneSourceConfig F) → F
  add_amplitudes bound [] = bound
  add_amplitudes bound (ts ∷ tones) = add_amplitudes (fl.add bound ts.amplitude) tones

  -- QuantizeScale
  unfoldable pub quantize_scale : DirectSynthesisStreamer F S → F
  unfolding add_amplitudes
  quantize_scale s =
      let bound = add_amplitudes (fl.mul (constant fl (pos 8)) s.noise_std) s.tone_cfgs in
      if is_zero fl bound
      then constant fl (pos 0)
      else fl.div (constant fl (pos 127)) (fl.add bound (fl.of_ratio (pos 1) 1_000_000_000_000))

  -- The amplitude 0 stands for 1.
  abbrev pub with_amplitude : ToneSourceConfig F → ToneSourceConfig F
  with_amplitude ts = record ts {
    amplitude = if is_zero fl ts.amplitude then constant fl (pos 1) else ts.amplitude;
  }

  abbrev pub index_of : F → F → ToneSourceConfig F → ℤ
  index_of base_freq_hz width ts = tone_channel_index fl ts.freq_hz base_freq_hz width

  -- The body of the loop over the tone sources, for the source `i`.
  abbrev pub check_tone :
      F → F → ℕ → ℕ → ToneSourceConfig F → List ℕ → Option ℕ → Checked (ToneSourceConfig F × List ℕ)
  check_tone base width n i ts set none = err (no_delay_feed i)
  check_tone base width n i ts set (some feed) =
      ok (with_amplitude ts, insert_in_range n (index_of base width ts) set)

  -- The loop over the tone sources: the sources with their amplitudes, and toneChannelSet.
  unfoldable pub check_tones :
      F
      → F
      → ℕ
      → ℕ
      → List (ToneSourceConfig F)
      → List ℕ
      → Checked (List (ToneSourceConfig F) × List ℕ)
  check_tones base width n i [] set = ok ([], set)
  check_tones base width n i (ts ∷ tones) set =
      check_tone base width n i ts set ts.delay_feed >>= λ (ts', set').
      check_tones base width n (i + 1) tones set' >>= λ (tones', keys). ok (ts' ∷ tones', keys)

  abbrev pub std_of : Option (NoiseConfig F) → F
  std_of none = constant fl (pos 0)
  std_of (some noise) = noise.std

  abbrev pub width_of : StreamerConfig F → F
  width_of cfg =
      if is_zero fl cfg.channel_width_hz
      then constant fl (pos Constants.channel_width_hz)
      else cfg.channel_width_hz

  abbrev pub base_of : StreamerConfig F → F
  base_of cfg =
      fl.add
        (if is_zero fl cfg.base_freq_hz
          then constant fl (pos Constants.base_freq_hz)
          else cfg.base_freq_hz)
        (fl.mul (fl.of_int (cfg.start_channel -ℤ pos channel_start)) (width_of cfg))

  module _ (cpus : ℕ) (draws : ℕ → ℕ → ℕ → F) (order : List ℕ → List ℕ) where
    -- The banks that the configuration needs.
    unfoldable pub with_banks :
        Option (NoiseConfig F) → DirectSynthesisStreamer F S → DirectSynthesisStreamer F S
    with_banks none s = s
    with_banks (some noise) s =
        let width = length s.tone_channel_positions in
        record s {
          banks =
              if ltb 0 width
              then some (λ pol.
                fill_noise_bank fl draws s.noise_std cpus (s.noise_seed pol) s.n_tiles
                  (s.tile_n_samples * width))
              else none;
          quant_banks =
              if ltb 0 (length s.noise_only_channel_positions)
              then some (λ pol.
                fill_quantized_noise_bank fl draws s.noise_std (quantize_scale s) cpus
                  (s.noise_seed pol) s.n_tiles (s.tile_n_samples * s.num_channels))
              else none;
        }

    -- The streamer of a valid configuration, before its banks are filled.
    unfoldable pub build :
        StreamerConfig F
        → ℕ
        → F
        → F
        → List (ToneSourceConfig F)
        → List ℕ
        → DirectSynthesisStreamer F S
    build cfg n base width tones set =
        let positions = Positions.tone_channel_positions order set in
        let s : DirectSynthesisStreamer F S = record {
          num_channels = n;
          start_channel = cfg.start_channel;
          base_freq_hz = base;
          channel_width_hz = width;
          channel_output_rate =
              fl.div (fl.mul width (constant fl (pos oversampling_numerator)))
                (constant fl (pos oversampling_denominator));
          obs_time_ref = cfg.obs_time_ref;
          negate_delay = cfg.negate_delay;
          tone_cfgs = tones;
          noise_cfg = cfg.noise;
          noise_seed = seeds cfg.noise;
          noise_std = std_of cfg.noise;
          n_tiles = or_default cfg.n_tiles 256;
          tile_n_samples = cfg.tile_n_samples;
          banks = none;
          quant_banks = none;
          tone_channel_positions = positions;
          noise_only_channel_positions = noise_only_positions n set;
          pos_to_subset_idx = Positions.pos_to_subset_idx positions;
          num_workers = or_default cfg.num_workers (default_parallelism cpus n);
        } in
        record s { tile_n_samples = or_default cfg.tile_n_samples (tick_n_samples s) }

    -- NewDirectSynthesisStreamer
    unfoldable pub new_streamer : StreamerConfig F → Checked (DirectSynthesisStreamer F S)
    new_streamer cfg =
        let n = num_channels_of cfg.num_channels in
        if is_bad_num_channels n
        then err bad_num_channels
        else if is_bad_start n cfg.start_channel
        then err bad_start_channel
        else check_tones (base_of cfg) (width_of cfg) (pos_part n) 0 cfg.tone_sources []
          >>= λ (tones, set).
              ok (
                with_banks cfg.noise
                  (build cfg (pos_part n) (base_of cfg) (width_of cfg) tones set))
