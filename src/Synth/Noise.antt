-- ===== src/Synth/Noise.antt =====
-- internal/synth/noise.go: the seeds and the tiles of the workers that fill a noise bank. `cpus` is
-- runtime.NumCPU().
pub mod Workers
pub mod Bank
use Prim.Native.Nat.{bit_xor}
use ska_low_station_beam_sim.Prelude.{
  ℕ, zero, suc, ◌+◌, ◌*◌, ◌/◌, ◌%◌, ◌^◌, Bool, List, [], ◌∷◌, if◌then◌else◌, ltb, ◌==◌,
}
use ska_low_station_beam_sim.Prelude.Bits.{u64}

abbrev pub golden : ℕ
golden = 0x9E3779B97F4A7C15

-- splitmix64Hash; `x >> k` is a division.
unfoldable pub splitmix64_hash : ℕ → ℕ → ℕ
splitmix64_hash seed index =
    let z = u64 (bit_xor seed (u64 (index * golden)) + golden) in
    let z1 = u64 (bit_xor z (z / 2 ^ 30) * 0xBF58476D1CE4E5B9) in
    let z2 = u64 (bit_xor z1 (z1 / 2 ^ 27) * 0x94D049BB133111EB) in bit_xor z2 (z2 / 2 ^ 31)

-- nWorkers of fillNoiseBank and fillQuantizedNoiseBank.
unfoldable pub n_workers : ℕ → ℕ → ℕ
n_workers cpus n_tiles =
    let by_cpus = if ltb cpus n_tiles then cpus else n_tiles in
    let by_sixteen = if ltb 16 by_cpus then 16 else by_cpus in
    if ltb by_sixteen 1 then 1 else by_sixteen

-- The tiles `start` to `start + chunk` of a worker, and its two seeds.
pub record Work : Type 0 where
  pub start : ℕ
  pub chunk : ℕ
  pub seed1 : ℕ
  pub seed2 : ℕ

-- The loop over the workers from `w` on, `left` of them; a worker without a tile is not started.
unfoldable pub workers_from : ℕ → ℕ → ℕ → ℕ → ℕ → ℕ → List Work
workers_from seed base remainder zero w start = []
workers_from seed base remainder (suc left) w start =
    let chunk = if ltb w remainder then base + 1 else base in
    let rest = workers_from seed base remainder left (w + 1) (start + chunk) in
    if chunk == 0
    then rest
    else record {
      start = start;
      chunk = chunk;
      seed1 = splitmix64_hash seed (2 * w);
      seed2 = splitmix64_hash seed (2 * w + 1);
    }
      ∷ rest

-- The goroutines of fillNoiseBank; an empty bank has none.
unfoldable pub noise_workers : ℕ → ℕ → ℕ → List Work
unfolding workers_from n_workers
noise_workers cpus seed n_tiles =
    let n = n_workers cpus n_tiles in
    if n_tiles == 0 then [] else workers_from seed (n_tiles / n) (n_tiles % n) n 0 0
