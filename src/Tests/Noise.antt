-- ===== src/Tests/Noise.antt =====
-- internal/synth/noise.go: 10 tiles among 4 processors, and the hash of a seed.
use ska_low_station_beam_sim.Prelude.{ℕ, ◌*◌, ◌≤◌, ◌≡◌, refl, List, range_from, length, map}
use ska_low_station_beam_sim.Prelude.Int.{ℤ, pos}
use ska_low_station_beam_sim.Float.Fixed.{fixed}
use ska_low_station_beam_sim.Synth.Noise.{splitmix64_hash, n_workers, noise_workers}
use ska_low_station_beam_sim.Synth.Noise.Workers.{tiles, noise_workers-cover}
use ska_low_station_beam_sim.Synth.Noise.Bank.{
  fill_noise_bank, fill_quantized_noise_bank, narrow_pair, quantize_pairs,
}
use ska_low_station_beam_sim.Synth.Noise.Bank.Draws.{banks-draws}

noise_workers-cover_example :
    (tiles (noise_workers 4 42 10) ≡ range_from 0 10) × (n_workers 4 10 ≤ 16)
noise_workers-cover_example = noise_workers-cover 4 42 10

-- The first output of splitmix64 for the seed 0.
hash_of_zero : splitmix64_hash 0 0 ≡ 0xE220A8397B1DCDAF
unfolding splitmix64_hash
hash_of_zero = refl

-- A source that gives the count of the draw, in thousandths.
abbrev counting : ℕ → ℕ → ℕ → ℤ
counting seed1 seed2 k = pos (k * 1000)

banks-draws_example :
    (samples : List (ℤ × ℤ)) × (length samples ≡ 4)
    × (fill_noise_bank fixed counting (pos 2_000_000) 4 42 2 2
        ≡ map (narrow_pair fixed counting (pos 2_000_000)) samples)
    × (fill_quantized_noise_bank fixed counting (pos 2_000_000) (pos 20_000_000) 4 42 2 2
        ≡ quantize_pairs fixed counting (pos 2_000_000) (pos 20_000_000) samples)
banks-draws_example = banks-draws fixed counting (pos 2_000_000) 4 42 2 2 (pos 20_000_000)
