-- ===== src/Synth/Ticks.antt =====
-- internal/synth/streamer.go: what DirectSynthesisStreamer produces at a tick. `inf` is math.Inf(1), and
-- `feeds pol a` the feed at address `a` as it is when the tones of `pol` read it. `none` is a panic.
pub mod Noise
pub mod Tones
pub mod Ticking
pub mod Delays
use ska_low_station_beam_sim.Prelude.{
  ℕ, ◌+◌, ◌-◌, ◌*◌, ◌%◌, Bool, true, false, not, ◌||◌, ◌&&◌, List, [], ◌∷◌, ◌++◌, Option, none,
  some, if◌then◌else◌, ltb, leb, ◌==◌, length, get_elem?, set, take, drop, replicate, map_option,
  ◌>>=◌,
}
use ska_low_station_beam_sim.Prelude.Int.{ℤ, pos, pos_part, ltb_ℤ, quot_int, to_word}
use ska_low_station_beam_sim.Float.{Float, constant, half}
use ska_low_station_beam_sim.Common.Heap.{Complex, ChannelHeap}
use ska_low_station_beam_sim.Common.Time.{unix_to_tai2000_seconds}
use ska_low_station_beam_sim.Common.Accumulator.{Pol, pol_v, pol_h}
use ska_low_station_beam_sim.Common.Channels.{for_each_channel_range}
use ska_low_station_beam_sim.Common.Delay.{DelayPolynomial, DelayFeed, get}
use ska_low_station_beam_sim.Synth.Noise.{splitmix64_hash}
use ska_low_station_beam_sim.Synth.Tone.{ToneCall, synth_tone_channel}
use ska_low_station_beam_sim.Synth.Config.{ToneSourceConfig, NoiseConfig}
use ska_low_station_beam_sim.Synth.Positions.{is_in_range}
use ska_low_station_beam_sim.Synth.Streamer.{DirectSynthesisStreamer, bank_of, tick_n_samples}

module _ {A : Type 0} where
  -- `xs[from:to]` of a slice that fills its array.
  abbrev pub slice : List A → ℕ → ℕ → Option (List A)
  slice xs from to =
      if leb from to && leb to (length xs) then some (take (to - from) (drop from xs)) else none

  -- `copy(out, xs)`: as much as there is room for.
  abbrev pub copy_over : List A → List A → List A
  copy_over out xs = take (length out) xs ++ drop (length xs) out

  -- A polarisation that is missing in `dst` is passed over.
  abbrev pub if_present : (A → Option A) → Option A → Option (Option A)
  if_present f none = some none
  if_present f (some target) = map_option some (f target)

-- `isHPol` of the loop over the polarisations.
abbrev pub is_h : Pol → Bool
is_h pol_v = false
is_h pol_h = true

module _ {F S : Type 0} (fl : Float F S) where
  -- `0` as a complex64, and the sum of two.
  abbrev pub zero_sample : Complex S
  zero_sample = (fl.narrow (constant fl (pos 0)), fl.narrow (constant fl (pos 0)))

  abbrev pub add_complex : Complex S → Complex S → Complex S
  add_complex (re, im) (re', im') = (fl.add_single re re', fl.add_single im im')

  -- The loop that adds a tone's samples to a channel's.
  unfoldable pub add_samples : List (Complex S) → List (Complex S) → Option (List (Complex S))
  add_samples out [] = some out
  add_samples [] (x ∷ samples) = none
  add_samples (o ∷ out) (x ∷ samples) =
      map_option (λ rest. add_complex o x ∷ rest) (add_samples out samples)

  -- A tone's samples are added at its position, if it has one.
  unfoldable pub add_at :
      Option ℕ → List (Complex S) → List (List (Complex S)) → Option (List (List (Complex S)))
  add_at none samples target = some target
  add_at (some j) samples target =
      get_elem? target j >>= λ out. add_samples out samples >>= λ out'. some (set target j out')

  module _ (s : DirectSynthesisStreamer F S) where
    -- currentTileIndex; there is at least one tile.
    unfoldable pub current_tile_index : ℕ → F → ℕ → ℕ
    current_tile_index noise_seed t_local n_samples =
        let n = if ltb n_samples 1 then 1 else n_samples in
        let samples = fl.to_int (fl.add (fl.mul t_local s.channel_output_rate) (half fl)) in
        splitmix64_hash noise_seed (to_word 64 (quot_int samples n)) % s.n_tiles

    -- The body of the loop of fillNoiseRange: what position `j` holds after it.
    fill_position :
        Option (NoiseConfig F) → Pol → F → ℕ → ℕ → List (Complex S) → Option (List (Complex S))
    fill_position none pol t_local n_samples j out = some (replicate (length out) zero_sample)
    fill_position (some noise) pol t_local n_samples j out =
        let tile_len = s.tile_n_samples * length s.tone_channel_positions in
        let tile_idx = current_tile_index (s.noise_seed pol) t_local n_samples in
        let offset = tile_idx * tile_len + j * n_samples in
        slice (bank_of s.banks pol) offset (offset + n_samples) >>= λ piece.
        some (copy_over out piece)

    -- fillNoiseParallel, whose ranges are those of forEachChannelRange
    unfoldable pub fill_noise_parallel :
        Pol → F → ℕ → List (List (Complex S)) → Option (List (List (Complex S)))
    unfolding fill_position
    fill_noise_parallel pol t_local n_samples dst =
        let n = length s.tone_channel_positions in
        if n == 0
        then some dst
        else for_each_channel_range {B = Bool} s.num_workers n
            (λ j out.
              fill_position s.noise_cfg pol t_local n_samples j out >>= λ out'. some (out', true))
            dst
          >>= λ (dst', _). some dst'

    -- A tone out of range is skipped.
    unfoldable pub place :
        ℤ × List (Complex S) → List (List (Complex S)) → Option (List (List (Complex S)))
    place (ch, samples) target =
        if is_in_range s.num_channels ch
        then add_at (s.pos_to_subset_idx (pos_part ch)) samples target
        else some target

    module _ (inf : F) (feeds : Pol → ℕ → DelayFeed F) where
      -- The arguments of synthToneChannel for a source.
      abbrev pub tone_call : ToneSourceConfig F → DelayPolynomial F → Pol → F → ToneCall F
      tone_call cfg poly pol t = record {
        freq_hz = cfg.freq_hz;
        amplitude = cfg.amplitude;
        base_freq_hz = s.base_freq_hz;
        channel_width_hz = s.channel_width_hz;
        delay_coeffs = poly.xypol_coeffs_ns;
        poly_t_rel_start = fl.sub (unix_to_tai2000_seconds fl t) poly.start_validity_sec;
        ypol_offset_ns = poly.ypol_offset_ns;
        negate_delay = s.negate_delay;
        is_h_pol = is_h pol;
        t_local_rel_start = fl.sub t s.obs_time_ref;
        sample_rate_per_channel = s.channel_output_rate;
      }

      abbrev pub add_tone :
          ToneSourceConfig F
          → Pol
          → F
          → ℕ
          → List (List (Complex S))
          → Option ℕ
          → Option (List (List (Complex S)))
      add_tone cfg pol t n_samples target none = none
      add_tone cfg pol t n_samples target (some a) =
          let poly = (get fl inf t (feeds pol a)).1 in
          place (synth_tone_channel fl (tone_call cfg poly pol t) n_samples) target

      -- The loop of GenerateNextTick over the tones.
      unfoldable pub add_tones :
          Pol
          → F
          → ℕ
          → List (ToneSourceConfig F)
          → List (List (Complex S))
          → Option (List (List (Complex S)))
      add_tones pol t n_samples [] target = some target
      add_tones pol t n_samples (cfg ∷ tones) target =
          add_tone cfg pol t n_samples target cfg.delay_feed >>= add_tones pol t n_samples tones

      -- GenerateNextTick, on dst["V"] and dst["H"]
      unfoldable pub generate_next_tick :
          F
          → ℕ
          → Option (List (List (Complex S)))
          → Option (List (List (Complex S)))
          → Option (Option (List (List (Complex S))) × Option (List (List (Complex S))))
      generate_next_tick t n_samples dst_v dst_h =
          let t_local = fl.sub t s.obs_time_ref in
          if_present (fill_noise_parallel pol_v t_local n_samples) dst_v >>= λ v.
          if_present (fill_noise_parallel pol_h t_local n_samples) dst_h >>= λ h.
          if_present (add_tones pol_v t n_samples s.tone_cfgs) v >>= λ v'.
          if_present (add_tones pol_h t n_samples s.tone_cfgs) h >>= λ h'. some (v', h')
