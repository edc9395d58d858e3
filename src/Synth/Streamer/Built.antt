-- ===== src/Synth/Streamer/Built.antt =====
-- streamer.go: the fields of a streamer that NewDirectSynthesisStreamer has built.
use mathlib.Core.Path.{subst}
use ska_low_station_beam_sim.Prelude.{
  ℕ, ◌+◌, ◌*◌, ◌<◌, ◌≡◌, refl, sym, ap, ◌∙◌, Bool, true, false, not, ◌||◌, List, [], Option, none,
  some, map, length, All, range_from, length-map, arith, ◌≢◌, lt→ltb,
}
use ska_low_station_beam_sim.Prelude.Int.{pos, pos_part}
use ska_low_station_beam_sim.Float.{Float}
use ska_low_station_beam_sim.Common.Heap.{Complex}
use ska_low_station_beam_sim.Common.Accumulator.{Pol}
use ska_low_station_beam_sim.Synth.Noise.Bank.Draws.{banks-draws, length-quantize_pairs}
use ska_low_station_beam_sim.Synth.Config.{NoiseConfig, ToneSourceConfig, StreamerConfig, ok}
use ska_low_station_beam_sim.Synth.Positions
use ska_low_station_beam_sim.Synth.Positions.{contains}
use ska_low_station_beam_sim.Synth.Positions.Partition.{
  none-IsKeys, VisitsAll, count, select, select_congr, count-select, tone_channel_positions-select,
  noise_only_positions-select,
}
use ska_low_station_beam_sim.Synth.Streamer.{
  DirectSynthesisStreamer, num_channels_of, with_amplitude, with_banks, build, width_of, base_of,
  new_streamer, or_default, bank_of, quantize_scale, tick_n_samples,
}
use ska_low_station_beam_sim.Synth.Streamer.Building.{
  has_tone, HasFeed, check_tones-eq-ok, new_streamer-eq-ok,
}

or_default-positive : (n d : ℕ) → 0 < d → 0 < or_default n d
or_default-positive n d h = ground arith

or_false : (b : Bool) → (b || false) ≡ b
or_false true = refl
or_false false = refl

module _ {F S : Type 0} (fl : Float F S) (cpus : ℕ) (draws : ℕ → ℕ → ℕ → F)
    (order : List ℕ → List ℕ) where
  abbrev pub has : StreamerConfig F → ℕ → Bool
  has cfg = has_tone fl (base_of fl cfg) (width_of fl cfg) cfg.tone_sources

  with_banks-same :
      (noise : Option (NoiseConfig F)) (s : DirectSynthesisStreamer F S)
      → (b : Option (Pol → List (Complex S))) × (q : Option (Pol → List ℕ)) × (with_banks fl cpus
            draws order noise s
          ≡ record s { banks = b; quant_banks = q })
  unfolding with_banks
  with_banks-same none s = (s.banks, s.quant_banks, refl)
  with_banks-same (some noise) s = (_, _, refl)

  -- Every channel of the beam is either a tone position, if some tone is in it, or a noise-only
  -- position, never both, and both lists are in ascending order.
  pub new_streamer-positions :
      (cfg : StreamerConfig F) (s : DirectSynthesisStreamer F S)
      → VisitsAll order
      → new_streamer fl cpus draws order cfg ≡ ok s
      → (s.tone_channel_positions ≡ select (has cfg) (range_from 0 s.num_channels))
        × (s.noise_only_channel_positions
            ≡ select (λ c. not (has cfg c)) (range_from 0 s.num_channels))
        × ((c : ℕ)
            → count c s.tone_channel_positions + count c s.noise_only_channel_positions
              ≡ count c (range_from 0 s.num_channels))
  unfolding build contains
  new_streamer-positions cfg s visits e =
      let (tones, keys, checked, built, beam) = new_streamer-eq-ok fl cpus draws order cfg s e in
      let n = pos_part (num_channels_of cfg.num_channels) in
      let base = base_of fl cfg in
      let width = width_of fl cfg in
      let (feeds, once, has_all, amplitudes) =
        check_tones-eq-ok fl base width n 0 cfg.tone_sources [] tones keys checked
          (none-IsKeys n) in
      let (b, q, same) =
        with_banks-same cfg.noise (build fl cpus draws order cfg n base width tones keys) in
      let in_tone = λ (c : ℕ) (h : c < n). has_all c h ∙ or_false (has cfg c) in
      let tone =
        ap (λ (x : DirectSynthesisStreamer F S). x.tone_channel_positions) (built ∙ same)
        ∙ tone_channel_positions-select order n keys visits once
        ∙ select_congr (contains keys) (has cfg) 0 n (λ c h. in_tone c (omega arith)) in
      let silent =
        ap (λ (x : DirectSynthesisStreamer F S). x.noise_only_channel_positions) (built ∙ same)
        ∙ noise_only_positions-select n keys
        ∙ select_congr (λ c. not (contains keys c)) (λ c. not (has cfg c)) 0 n
            (λ c h. ap not (in_tone c (omega arith))) in
      let all : n ≡ s.num_channels =
        sym (ap (λ (x : DirectSynthesisStreamer F S). x.num_channels) (built ∙ same)) in
      let tone' = rw all at tone in
      let silent' = rw all at silent in
      (tone', silent', λ c. rw (tone', silent') (count-select (has cfg) c 0 s.num_channels))

  bank_full :
      (noise : Option (NoiseConfig F)) (s : DirectSynthesisStreamer F S) (pol : Pol)
      → noise ≢ none
      → 0 < length s.tone_channel_positions
      → length (bank_of (with_banks fl cpus draws order noise s).banks pol)
        ≡ s.n_tiles * (s.tile_n_samples * length s.tone_channel_positions)
  unfolding with_banks
  bank_full none s pol noisy used = absurd (noisy refl)
  bank_full (some noise) s pol noisy used =
      let (samples, size, e, _) =
        banks-draws fl draws s.noise_std cpus (s.noise_seed pol) s.n_tiles
          (s.tile_n_samples * length s.tone_channel_positions) s.noise_std in
      rw (lt→ltb 0 (length s.tone_channel_positions) used)
        (ap length e ∙ length-map samples _ ∙ size)

  quant_bank_full :
      (noise : Option (NoiseConfig F)) (s : DirectSynthesisStreamer F S) (pol : Pol)
      → noise ≢ none
      → 0 < length s.noise_only_channel_positions
      → length (bank_of (with_banks fl cpus draws order noise s).quant_banks pol)
        ≡ s.n_tiles * (s.tile_n_samples * s.num_channels) * 2
  unfolding with_banks
  quant_bank_full none s pol noisy used = absurd (noisy refl)
  quant_bank_full (some noise) s pol noisy used =
      let scale = quantize_scale fl s in
      let (samples, size, _, e) =
        banks-draws fl draws s.noise_std cpus (s.noise_seed pol) s.n_tiles
          (s.tile_n_samples * s.num_channels) scale in
      let bytes = length-quantize_pairs fl draws s.noise_std scale samples in
      rw (lt→ltb 0 (length s.noise_only_channel_positions) used)
        (ap length e ∙ bytes ∙ ap (λ (k : ℕ). k * 2) size)

  pub record IsBuilt (cfg : StreamerConfig F) (s : DirectSynthesisStreamer F S) : Type 0 where
    pub channels : pos s.num_channels ≡ num_channels_of cfg.num_channels
    pub index : s.pos_to_subset_idx ≡ Positions.pos_to_subset_idx s.tone_channel_positions
    pub tiles : 0 < s.n_tiles
    pub tile_size : s.tile_n_samples ≡ or_default cfg.tile_n_samples (tick_n_samples fl s)
    pub tones : s.tone_cfgs ≡ map (with_amplitude fl) cfg.tone_sources
    pub feeds : All (HasFeed fl) cfg.tone_sources
    pub noise : s.noise_cfg ≡ cfg.noise
    pub bank :
        (pol : Pol)
        → s.noise_cfg ≢ none
        → 0 < length s.tone_channel_positions
        → length (bank_of s.banks pol)
          ≡ s.n_tiles * (s.tile_n_samples * length s.tone_channel_positions)
    pub quant_bank :
        (pol : Pol)
        → s.noise_cfg ≢ none
        → 0 < length s.noise_only_channel_positions
        → length (bank_of s.quant_banks pol) ≡ s.n_tiles * (s.tile_n_samples * s.num_channels) * 2

  with_banks-IsBuilt :
      (cfg : StreamerConfig F) (n : ℕ) (base width : F) (tones : List (ToneSourceConfig F))
      (keys : List ℕ)
      → pos n ≡ num_channels_of cfg.num_channels
      → tones ≡ map (with_amplitude fl) cfg.tone_sources
      → All (HasFeed fl) cfg.tone_sources
      → IsBuilt cfg (
          with_banks fl cpus draws order cfg.noise
            (build fl cpus draws order cfg n base width tones keys))
  unfolding build tick_n_samples
  with_banks-IsBuilt cfg n base width tones keys whole amplitudes feeds =
      let s0 : DirectSynthesisStreamer F S =
        build fl cpus draws order cfg n base width tones keys in
      let (b, q, same) = with_banks-same cfg.noise s0 in
      let full = bank_full cfg.noise s0 in
      let full' = quant_bank_full cfg.noise s0 in
      subst (IsBuilt cfg) (sym same) (record {
        channels = whole;
        index = refl;
        tiles = or_default-positive cfg.n_tiles 256 (omega arith);
        tile_size = refl;
        tones = amplitudes;
        feeds = feeds;
        noise = refl;
        bank = λ pol noisy used.
            subst
              (λ (x : DirectSynthesisStreamer F S).
                length (bank_of x.banks pol)
                ≡ s0.n_tiles * (s0.tile_n_samples * length s0.tone_channel_positions))
              same (full pol noisy used);
        quant_bank = λ pol noisy used.
            subst
              (λ (x : DirectSynthesisStreamer F S).
                length (bank_of x.quant_banks pol)
                ≡ s0.n_tiles * (s0.tile_n_samples * s0.num_channels) * 2)
              same (full' pol noisy used);
      })

  pub new_streamer-IsBuilt :
      (cfg : StreamerConfig F) (s : DirectSynthesisStreamer F S)
      → new_streamer fl cpus draws order cfg ≡ ok s
      → IsBuilt cfg s
  new_streamer-IsBuilt cfg s e =
      let (tones, keys, checked, built, beam) = new_streamer-eq-ok fl cpus draws order cfg s e in
      let n = pos_part (num_channels_of cfg.num_channels) in
      let base = base_of fl cfg in
      let width = width_of fl cfg in
      let (feeds, _, _, amplitudes) =
        check_tones-eq-ok fl base width n 0 cfg.tone_sources [] tones keys checked
          (none-IsKeys n) in
      subst (IsBuilt cfg) (sym built) (
        with_banks-IsBuilt cfg n base width tones keys
          (ap (λ z. pos (pos_part z)) beam.1 ∙ sym beam.1) amplitudes feeds)
