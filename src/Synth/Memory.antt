-- ===== src/Synth/Memory.antt =====
-- internal/synth: the sizes of the noise banks, as the program reports them.
use ska_low_station_beam_sim.Prelude.{
  ℕ, ◌+◌, ◌*◌, ◌<◌, ◌≡◌, ◌≢◌, List, Option, none, some, length, arith,
}
use ska_low_station_beam_sim.Float.{Float}
use ska_low_station_beam_sim.Common.Accumulator.{Pol, pol_v, pol_h}
use ska_low_station_beam_sim.Synth.Config.{StreamerConfig, ok}
use ska_low_station_beam_sim.Synth.Streamer.{DirectSynthesisStreamer, new_streamer, bank_of}
use ska_low_station_beam_sim.Synth.Streamer.Built.{new_streamer-IsBuilt}

-- bankMemoryBytes
unfoldable pub bank_bytes : ℕ → ℕ → ℕ → ℕ → ℕ
bank_bytes n_tiles tile_n_samples num_channels n_pols =
    n_tiles * tile_n_samples * num_channels * 8 * n_pols

-- quantizedBankMemoryBytes
unfoldable pub quantized_bank_bytes : ℕ → ℕ → ℕ → ℕ → ℕ
quantized_bank_bytes n_tiles tile_n_samples num_channels n_pols =
    n_tiles * tile_n_samples * num_channels * 2 * n_pols

-- A map of banks that is not empty has both polarisations.
abbrev if_banks : {A : Type 0} → Option (Pol → List A) → ℕ → ℕ
if_banks none total = 0
if_banks (some _) total = total

module _ {F S : Type 0} where
  -- BankMemoryBytes
  unfoldable pub bank_memory_bytes : DirectSynthesisStreamer F S → ℕ
  unfolding bank_bytes quantized_bank_bytes
  bank_memory_bytes s =
      if_banks s.banks (bank_bytes s.n_tiles s.tile_n_samples (length s.tone_channel_positions) 2)
      + if_banks s.quant_banks (quantized_bank_bytes s.n_tiles s.tile_n_samples s.num_channels 2)

-- The report for one map of banks, whose cells have `width` bytes.
if_banks-eq :
    {A : Type 0} (banks : Option (Pol → List A)) (width total : ℕ)
    → ((pol : Pol) → length (bank_of banks pol) * width * 2 ≡ total)
    → if_banks banks total ≡ (length (bank_of banks pol_v) + length (bank_of banks pol_h)) * width
if_banks-eq none width total size = omega arith
if_banks-eq (some banks) width total size = grind (arith, size pol_v, size pol_h)

module _ {F S : Type 0} (fl : Float F S) (cpus : ℕ) (draws : ℕ → ℕ → ℕ → F)
    (order : List ℕ → List ℕ) where
  -- For a streamer that was built with noise and has channels of both kinds, BankMemoryBytes is 8 bytes
  -- for each sample of the two complex banks and one for each byte of the two quantized banks.
  bank_memory_bytes_lem :
      (cfg : StreamerConfig F) (s : DirectSynthesisStreamer F S)
      → new_streamer fl cpus draws order cfg ≡ ok s
      → s.noise_cfg ≢ none
      → 0 < length s.tone_channel_positions
      → 0 < length s.noise_only_channel_positions
      → bank_memory_bytes s
        ≡ (length (bank_of s.banks pol_v) + length (bank_of s.banks pol_h)) * 8
          + (length (bank_of s.quant_banks pol_v) + length (bank_of s.quant_banks pol_h)) * 1
  unfolding bank_memory_bytes bank_bytes quantized_bank_bytes
  bank_memory_bytes_lem cfg s built noise tones silent =
      let is_built = new_streamer-IsBuilt fl cpus draws order cfg s built in
      let complex : (pol : Pol)
          → length (bank_of s.banks pol) * 8 * 2
            ≡ s.n_tiles * s.tile_n_samples * length s.tone_channel_positions * 8 * 2 =
        λ pol. let size = is_built.bank pol noise tones in grind (arith, size) in
      let quantized : (pol : Pol)
          → length (bank_of s.quant_banks pol) * 1 * 2
            ≡ s.n_tiles * s.tile_n_samples * s.num_channels * 2 * 2 =
        λ pol. let size = is_built.quant_bank pol noise silent in grind (arith, size) in
      λ i. if_banks-eq s.banks 8 _ complex i + if_banks-eq s.quant_banks 1 _ quantized i
