-- ===== src/Synth/Noise/Workers.antt =====
-- noise.go: the tiles of the workers.
use native.Mathlib.Nat.{div-add-mod, mod-lt}
use ska_low_station_beam_sim.Prelude.{
  ℕ, zero, suc, ◌+◌, ◌-◌, ◌*◌, ◌/◌, ◌%◌, min, ◌≤◌, ◌<◌, ◌≡◌, refl, sym, ap, ◌∙◌, List, [], ◌∷◌,
  ◌++◌, if◌then◌else◌, if_cases, ltb, ◌==◌, ==_iff, range_from, arith,
}
use ska_low_station_beam_sim.Common.Channels.Partition.{range_from-append}
use ska_low_station_beam_sim.Synth.Noise.{n_workers, Work, workers_from, noise_workers}

-- The tiles of the workers, one worker after another.
pub tiles : List Work → List ℕ
tiles [] = []
tiles (work ∷ works) = range_from work.start work.chunk ++ tiles works

-- The tiles of `left` workers from `w` on.
pub share : ℕ → ℕ → ℕ → ℕ → ℕ
share base remainder left w = left * base + (min (w + left) remainder - min w remainder)

pub share_next :
    (base remainder left w : ℕ)
    → share base remainder (suc left) w
      ≡ (if ltb w remainder then base + 1 else base) + share base remainder left (w + 1)
unfolding share
share_next base remainder left w = ground arith

pub share_none : (base remainder w : ℕ) → share base remainder 0 w ≡ 0
unfolding share
share_none base remainder w = omega arith

pub share_all : (n n_tiles : ℕ) → 0 < n → share (n_tiles / n) (n_tiles % n) n 0 ≡ n_tiles
unfolding share
share_all n n_tiles h =
    let small : n_tiles % n < n = mod-lt n_tiles h in
    let whole = div-add-mod n_tiles n in omega (arith, small, whole)

pub n_workers_bounds :
    (cpus n_tiles : ℕ) → (0 < n_workers cpus n_tiles) × (n_workers cpus n_tiles ≤ 16)
unfolding n_workers
n_workers_bounds cpus n_tiles = ground arith

tiles-workers_from :
    (seed base remainder left w start : ℕ)
    → tiles (workers_from seed base remainder left w start)
      ≡ range_from start (share base remainder left w)
unfolding tiles workers_from
tiles-workers_from seed base remainder zero w start = rw (share_none base remainder w) refl
tiles-workers_from seed base remainder (suc left) w start =
    let chunk : ℕ = if ltb w remainder then base + 1 else base in
    let next = tiles-workers_from seed base remainder left (w + 1) (start + chunk) in
    let whole = range_from-append start chunk (share base remainder left (w + 1)) in
    rw (share_next base remainder left w, ← whole)
      (if_cases
        (λ works.
          tiles works
          ≡ range_from start chunk
            ++ range_from (start + chunk) (share base remainder left (w + 1)))
        (chunk == 0)
        (λ empty.
          let none_here : chunk ≡ 0 = (==_iff chunk 0).0 empty in
          next
          ∙ ap
              (λ n.
                range_from start n
                ++ range_from (start + chunk) (share base remainder left (w + 1)))
              (sym none_here))
        (λ _. ap (λ l. range_from start chunk ++ l) next))

-- For any number of processors and of tiles, the workers that fill a noise bank write each
-- tile below the number of tiles once, in order, and no other; and they are at most 16.
pub noise_workers-cover :
    (cpus seed n_tiles : ℕ)
    → (tiles (noise_workers cpus seed n_tiles) ≡ range_from 0 n_tiles)
      × (n_workers cpus n_tiles ≤ 16)
unfolding noise_workers
noise_workers-cover cpus seed n_tiles =
    let n = n_workers cpus n_tiles in
    let (some_worker, few) = n_workers_bounds cpus n_tiles in
    (
      if_cases (λ works. tiles works ≡ range_from 0 n_tiles) (n_tiles == 0)
          (λ empty.
            let none_here : n_tiles ≡ 0 = (==_iff n_tiles 0).0 empty in
            rw none_here (unfold tiles in refl))
          (λ _.
            tiles-workers_from seed (n_tiles / n) (n_tiles % n) n 0 0
            ∙ ap (range_from 0) (share_all n n_tiles some_worker)),
      few,
    )
