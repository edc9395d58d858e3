-- ===== src/Synth/Noise/Bank.antt =====
-- noise.go: the samples of the two kinds of noise bank. `draws s1 s2 k` is the `k`-th NormFloat64 of the
-- generator that rand.NewPCG(s1, s2) seeds.
pub mod Draws
use ska_low_station_beam_sim.Prelude.{
  ℕ, zero, suc, ◌+◌, ◌*◌, List, [], ◌∷◌, ◌++◌, length, take, drop, replicate, range_from, map,
}
use ska_low_station_beam_sim.Prelude.Int.{ℤ, pos, to_word}
use ska_low_station_beam_sim.Float.{Float, constant}
use ska_low_station_beam_sim.Common.Heap.{Complex}
use ska_low_station_beam_sim.Spead.Payload.{quantize_component}
use ska_low_station_beam_sim.Synth.Noise.{Work, noise_workers}

-- The worker's stores into its own part of the bank, `width` cells for each tile.
unfoldable pub store_work : {A : Type 0} → ℕ → (Work → List A) → Work → List A → List A
store_work width cells_of work bank =
    let cells = cells_of work in
    take (work.start * width) bank ++ (cells ++ drop (work.start * width + length cells) bank)

-- The workers one after another.
unfoldable pub store_works : {A : Type 0} → ℕ → (Work → List A) → List Work → List A → List A
store_works width cells_of [] bank = bank
store_works width cells_of (work ∷ works) bank =
    store_works width cells_of works (store_work width cells_of work bank)

module _ {F S : Type 0} (fl : Float F S) (draws : ℕ → ℕ → ℕ → F) (std : F) where
  -- The real and imaginary part of the worker's sample `j`, as float64.
  abbrev pub draw_of : Work → ℕ → F × F
  draw_of work j = (
    fl.mul (draws work.seed1 work.seed2 (2 * j)) std,
    fl.mul (draws work.seed1 work.seed2 (2 * j + 1)) std,
  )

  -- The draws of a worker for its tiles of `tile_len` samples.
  abbrev pub draws_of : ℕ → Work → List (F × F)
  draws_of tile_len work = map (draw_of work) (range_from 0 (work.chunk * tile_len))

  abbrev pub narrow_pair : F × F → Complex S
  narrow_pair (re, im) = (fl.narrow re, fl.narrow im)

  -- fillNoiseBank, for tiles of `tile_len` samples
  unfoldable pub fill_noise_bank : ℕ → ℕ → ℕ → ℕ → List (Complex S)
  fill_noise_bank cpus seed n_tiles tile_len =
      let blank = fl.narrow (constant fl (pos 0)) in
      store_works tile_len (λ work. map narrow_pair (draws_of tile_len work))
        (noise_workers cpus seed n_tiles) (replicate (n_tiles * tile_len) (blank, blank))

  module _ (scale : F) where
    abbrev pub quantize_pairs : List (F × F) → List ℕ
    quantize_pairs [] = []
    quantize_pairs ((re, im) ∷ samples) =
        to_word 8 (quantize_component fl (fl.mul re scale))
        ∷ to_word 8 (quantize_component fl (fl.mul im scale))
        ∷ quantize_pairs samples

    -- fillQuantizedNoiseBank
    unfoldable pub fill_quantized_noise_bank : ℕ → ℕ → ℕ → ℕ → List ℕ
    fill_quantized_noise_bank cpus seed n_tiles tile_len =
        store_works (tile_len * 2) (λ work. quantize_pairs (draws_of tile_len work))
          (noise_workers cpus seed n_tiles) (replicate (n_tiles * tile_len * 2) 0)
