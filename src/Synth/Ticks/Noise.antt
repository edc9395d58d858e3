-- ===== src/Synth/Ticks/Noise.antt =====
-- streamer.go: what the noise fill leaves at each tone position.
use native.Mathlib.Nat.{mod-lt}
use ska_low_station_beam_sim.Prelude.{
  ℕ, zero, suc, ◌+◌, ◌-◌, ◌*◌, ◌≤◌, ◌<◌, ◌≡◌, refl, sym, ap, ◌∙◌, Bool, true, List, [], ◌∷◌, Option,
  none, some, if_cases, ◌==◌, leb, ◌&&◌, length, take, drop, replicate, length-take, length-drop,
  length-replicate, ◌>>=◌, arith, ==_iff, All,
}
use mathlib.Core.List.{append-nil}
use ska_low_station_beam_sim.Float.{Float}
use ska_low_station_beam_sim.Common.Heap.{Complex}
use ska_low_station_beam_sim.Common.Accumulator.{Pol}
use ska_low_station_beam_sim.Common.Accumulator.Buffers.{take_all}
use ska_low_station_beam_sim.Common.Channels.Partition.{
  map_each, for_each_channel_range-eq-map_each,
}
use ska_low_station_beam_sim.Synth.Config.{StreamerConfig, NoiseConfig}
use ska_low_station_beam_sim.Synth.Streamer.{DirectSynthesisStreamer, bank_of}
use ska_low_station_beam_sim.Synth.Streamer.Built.{IsBuilt}
use ska_low_station_beam_sim.Synth.Ticks.{
  slice, copy_over, zero_sample, current_tile_index, fill_position, fill_noise_parallel,
}

module _ {A : Type 0} where
  drop_all : (xs : List A) (n : ℕ) → length xs ≡ n → drop n xs ≡ []
  drop_all [] zero e = refl
  drop_all [] (suc n) e = refl
  drop_all (x ∷ xs) zero e = absurd (omega arith)
  drop_all (x ∷ xs) (suc n) e = drop_all xs n (omega arith)

  -- A copy of a slice of the same length replaces everything.
  pub copy_over-full : (out xs : List A) → length xs ≡ length out → copy_over out xs ≡ xs
  copy_over-full out xs same =
      rw (take_all xs (length out) same, drop_all out (length xs) (sym same)) (append-nil xs)

  pub slice_fits :
      (xs : List A) (from n : ℕ)
      → from + n ≤ length xs
      → (slice xs from (from + n) ≡ some (take n (drop from xs)))
        × (length (take n (drop from xs)) ≡ n)
  slice_fits xs from n fits =
      let size : from + n - from ≡ n = omega arith in
      let inside : (leb from (from + n) && leb (from + n) (length xs)) ≡ true = ground arith in
      (rw (inside, size) refl, omega (arith, length-take n (drop from xs), length-drop from xs))

  -- The cells of positions `j` on, given for each index and channel.
  unfoldable pub cells : (ℕ → ℕ → A) → ℕ → List ℕ → List A
  cells g j [] = []
  cells g j (ch ∷ chs) = g j ch ∷ cells g (j + 1) chs

module _ {A : Type 0} where
  cells_none :
      (g : ℕ → ℕ → A) (dst : List A) (positions : List ℕ)
      → length dst ≡ length positions
      → length positions ≡ 0
      → dst ≡ cells g 0 positions
  unfolding cells
  cells_none g [] [] same empty = refl
  cells_none g [] (ch ∷ positions) same empty = absurd (omega arith)
  cells_none g (x ∷ dst) positions same empty = absurd (omega arith)

pub tile_fits :
    (tile tiles tile_n width j n : ℕ)
    → tile < tiles
    → j < width
    → n ≤ tile_n
    → tile * (tile_n * width) + j * n + n ≤ tiles * (tile_n * width)
tile_fits tile tiles tile_n width j n in_bank in_tile small =
    let row : (j + 1) * n ≤ width * tile_n = grind arith in
    let tile_end : (tile + 1) * (tile_n * width) ≤ tiles * (tile_n * width) = grind arith in
    grind arith

module _ {F S : Type 0} (fl : Float F S) (s : DirectSynthesisStreamer F S) where
  -- The noise of position `j`: silence, or the position's part of the tile.
  pub noise_of : Option (NoiseConfig F) → Pol → F → ℕ → ℕ → List (Complex S)
  noise_of none pol t_local n j = replicate n (zero_sample fl)
  noise_of (some noise) pol t_local n j =
      let tile = current_tile_index fl s (s.noise_seed pol) t_local n in
      take n (
        drop (tile * (s.tile_n_samples * length s.tone_channel_positions) + j * n)
          (bank_of s.banks pol))

  module _ {cpus : ℕ} {draws : ℕ → ℕ → ℕ → F} {order : List ℕ → List ℕ} (cfg : StreamerConfig F)
      (built : IsBuilt fl cpus draws order cfg s) (pol : Pol) (t_local : F) (n : ℕ)
      (small : n ≤ s.tile_n_samples) where
    noise_fits :
        (o : Option (NoiseConfig F)) (j : ℕ) (out : List (Complex S))
        → s.noise_cfg ≡ o
        → j < length s.tone_channel_positions
        → length out ≡ n
        → (fill_position fl s o pol t_local n j out ≡ some (noise_of o pol t_local n j))
          × (length (noise_of o pol t_local n j) ≡ n)
    unfolding fill_position noise_of
    noise_fits none j out e inside size = (rw size refl, length-replicate n (zero_sample fl))
    noise_fits (some noise) j out e inside size =
        let width = length s.tone_channel_positions in
        let tile = current_tile_index fl s (s.noise_seed pol) t_local n in
        let offset = tile * (s.tile_n_samples * width) + j * n in
        let bank = bank_of s.banks pol in
        let full =
          built.bank pol (λ silent. let e' : none ≡ some noise = sym silent ∙ e in cc)
            (omega arith) in
        let in_bank : tile < s.n_tiles = unfold current_tile_index in mod-lt _ built.tiles in
        let fits = tile_fits tile s.n_tiles s.tile_n_samples width j n in_bank inside small in
        let (cut, whole) = slice_fits bank offset n (omega (arith, fits, full)) in
        (rw cut (ap some (copy_over-full out _ (whole ∙ sym size))), whole)

    abbrev fill_step : ℕ → List (Complex S) → Option (List (Complex S) × Bool)
    fill_step j out =
        fill_position fl s s.noise_cfg pol t_local n j out >>= λ out'. some (out', true)

    abbrev pub noise_cells : ℕ → List ℕ → List (List (Complex S))
    noise_cells = cells (λ j _. noise_of s.noise_cfg pol t_local n j)

    fill_all :
        (dst : List (List (Complex S))) (positions : List ℕ) (j : ℕ)
        → length dst ≡ length positions
        → j + length dst ≤ length s.tone_channel_positions
        → All (λ out. length out ≡ n) dst
        → (done : List Bool) × (map_each fill_step j dst ≡ some (noise_cells j positions, done))
    unfolding map_each cells
    fill_all [] [] j same inside sizes = ([], refl)
    fill_all [] (ch ∷ positions) j same inside sizes = absurd (omega arith)
    fill_all (out ∷ dst) [] j same inside sizes = absurd (omega arith)
    fill_all (out ∷ dst) (ch ∷ positions) j same inside (size, sizes) =
        let (filled, _) = noise_fits s.noise_cfg j out refl (omega arith) size in
        let (done, e) = fill_all dst positions (j + 1) (omega arith) (omega arith) sizes in
        (true ∷ done, rw (filled, e) refl)

    -- The noise fill does not panic and leaves nothing of what the targets held.
    pub fill_noise_parallel_lem :
        (dst : List (List (Complex S)))
        → length dst ≡ length s.tone_channel_positions
        → All (λ out. length out ≡ n) dst
        → fill_noise_parallel fl s pol t_local n dst ≡ some (noise_cells 0 s.tone_channel_positions)
    unfolding fill_noise_parallel
    fill_noise_parallel_lem dst same sizes =
        let positions = s.tone_channel_positions in
        if_cases (λ r. r ≡ some (noise_cells 0 positions)) (length positions == 0)
          (λ empty. ap some (cells_none _ dst positions same ((==_iff _ 0).0 empty)))
          (λ _.
            let (done, e) = fill_all dst positions 0 same (omega arith) sizes in
            rw
              (
                for_each_channel_range-eq-map_each {A = List (Complex S)} {B = Bool} fill_step
                    s.num_workers (length positions) dst same,
                e,
              )
              refl)

    pub noise_of-length :
        (j : ℕ)
        → j < length s.tone_channel_positions
        → length (noise_of s.noise_cfg pol t_local n j) ≡ n
    noise_of-length j inside =
        (noise_fits s.noise_cfg j (replicate n (zero_sample fl)) refl inside
          (length-replicate n _)).1
