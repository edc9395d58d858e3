-- ===== src/Synth/Noise/Bank/Draws.antt =====
-- noise.go: the draws behind the two kinds of bank.
use mathlib.Core.Path.{subst}
use mathlib.Core.List.{append_assoc, map-append}
use native.Mathlib.Nat.{mul-le-mul_right}
use ska_low_station_beam_sim.Prelude.{
  ℕ, zero, suc, ◌+◌, ◌*◌, ◌/◌, ◌%◌, ◌≤◌, ◌≡◌, refl, sym, ap, ◌∙◌, List, [], ◌∷◌, ◌++◌,
  if◌then◌else◌, if_cases, ltb, ◌==◌, ==_iff, length, drop, take_append, drop_append, drop-drop,
  replicate, range_from, map, length-append, length-map, length-range_from, length-replicate,
  length-drop, arith,
}
use ska_low_station_beam_sim.Float.{Float}
use ska_low_station_beam_sim.Synth.Noise.{Work, noise_workers, workers_from, n_workers}
use ska_low_station_beam_sim.Synth.Noise.Workers.{
  share, share_next, share_none, share_all, n_workers_bounds,
}
use ska_low_station_beam_sim.Synth.Noise.Bank.{
  store_work, store_works, draw_of, draws_of, narrow_pair, fill_noise_bank, quantize_pairs,
  fill_quantized_noise_bank,
}

-- Each worker starts where the one before it ends, and the last ends at `stop`.
Follow : ℕ → ℕ → List Work → Type 0
Follow start stop [] = start ≡ stop
Follow start stop (work ∷ works) = (work.start ≡ start) × Follow (start + work.chunk) stop works

workers_from-Follow :
    (seed base remainder left w start : ℕ)
    → Follow start
        (start + share base remainder left w)
        (workers_from seed base remainder left w start)
unfolding Follow workers_from
workers_from-Follow seed base remainder zero w start =
    let e = share_none base remainder w in omega (arith, e)
workers_from-Follow seed base remainder (suc left) w start =
    let chunk : ℕ = if ltb w remainder then base + 1 else base in
    let rest = workers_from seed base remainder left (w + 1) (start + chunk) in
    let next = workers_from-Follow seed base remainder left (w + 1) (start + chunk) in
    let sum : start + chunk + share base remainder left (w + 1)
        ≡ start + share base remainder (suc left) w =
      omega (arith, share_next base remainder left w) in
    let stops : Follow (start + chunk) (start + share base remainder (suc left) w) rest =
      subst (λ stop. Follow (start + chunk) stop rest) sum next in
    if_cases (Follow start (start + share base remainder (suc left) w)) (chunk == 0)
      (λ empty.
        let none_here : start + chunk ≡ start = omega (arith, (==_iff chunk 0).0 empty) in
        subst (λ s. Follow s (start + share base remainder (suc left) w) rest) none_here stops)
      (λ _. (refl, stops))

noise_workers-Follow : (cpus seed n_tiles : ℕ) → Follow 0 n_tiles (noise_workers cpus seed n_tiles)
unfolding noise_workers
noise_workers-Follow cpus seed n_tiles =
    let n = n_workers cpus n_tiles in
    let all = share_all n n_tiles (n_workers_bounds cpus n_tiles).0 in
    if_cases (Follow 0 n_tiles) (n_tiles == 0)
      (λ empty. unfold Follow in sym ((==_iff n_tiles 0).0 empty))
      (λ _.
        subst (λ stop. Follow 0 stop (workers_from seed (n_tiles / n) (n_tiles % n) n 0 0))
          (omega (arith, all)) (workers_from-Follow seed (n_tiles / n) (n_tiles % n) n 0 0))

Follow-le : (works : List Work) (start stop : ℕ) → Follow start stop works → start ≤ stop
unfolding Follow
Follow-le [] start stop ends = omega arith
Follow-le (work ∷ works) start stop (here, more) =
    let next = Follow-le works (start + work.chunk) stop more in omega arith

module _ {A : Type 0} (width : ℕ) (cells_of : Work → List A) where
  joined_cells : List Work → List A
  joined_cells [] = []
  joined_cells (work ∷ works) = cells_of work ++ joined_cells works

  store_works-joined :
      (works : List Work) (start stop : ℕ) (before rest : List A)
      → ((work : Work) → length (cells_of work) ≡ work.chunk * width)
      → Follow start stop works
      → length before ≡ start * width
      → length before + length rest ≡ stop * width
      → store_works width cells_of works (before ++ rest) ≡ before ++ joined_cells works
  unfolding store_works store_work joined_cells Follow
  store_works-joined [] start stop before [] sizes ends at all = refl
  store_works-joined [] start stop before (x ∷ rest) sizes ends at all =
      let same : start * width ≡ stop * width = ap (λ n. n * width) ends in absurd (omega arith)
  store_works-joined (work ∷ works) start stop before rest sizes (here, more) at all =
      let cells = cells_of work in
      let n = sizes work in
      let place : work.start * width ≡ start * width = ap (λ k. k * width) here in
      let front = take_append (start * width) before rest at in
      let behind : drop (start * width + length cells) (before ++ rest) ≡ drop (length cells) rest =
        sym (drop-drop (start * width) (length cells) (before ++ rest))
        ∙ ap (drop (length cells)) (drop_append (start * width) before rest at) in
      let step : (start + work.chunk) * width ≡ start * width + work.chunk * width = grind arith in
      let within : (start + work.chunk) * width ≤ stop * width =
        mul-le-mul_right width (Follow-le works (start + work.chunk) stop more) in
      rw (place, front, behind, ← append_assoc before cells (drop (length cells) rest))
        (store_works-joined works (start + work.chunk) stop (before ++ cells)
          (drop (length cells) rest) sizes more (omega (arith, length-append before cells))
          (omega (arith, length-append before cells, length-drop (length cells) rest)))
      ∙ append_assoc before cells (joined_cells works)

  length-joined_cells :
      (works : List Work) (start stop : ℕ)
      → ((work : Work) → length (cells_of work) ≡ work.chunk * width)
      → Follow start stop works
      → start * width + length (joined_cells works) ≡ stop * width
  unfolding joined_cells Follow
  length-joined_cells [] start stop sizes ends =
      let same : start * width ≡ stop * width = ap (λ n. n * width) ends in omega arith
  length-joined_cells (work ∷ works) start stop sizes (here, more) =
      let step : (start + work.chunk) * width ≡ start * width + work.chunk * width = grind arith in
      omega (
        arith,
        step,
        sizes work,
        length-append (cells_of work) (joined_cells works),
        length-joined_cells works (start + work.chunk) stop sizes more,
      )

  filled :
      (cpus seed n_tiles : ℕ) (blank : List A)
      → ((work : Work) → length (cells_of work) ≡ work.chunk * width)
      → length blank ≡ n_tiles * width
      → store_works width cells_of (noise_workers cpus seed n_tiles) blank
        ≡ joined_cells (noise_workers cpus seed n_tiles)
  filled cpus seed n_tiles blank sizes size =
      store_works-joined (noise_workers cpus seed n_tiles) 0 n_tiles [] blank sizes
        (noise_workers-Follow cpus seed n_tiles) (omega arith) (omega (arith, size))

module _ {F S : Type 0} (fl : Float F S) (draws : ℕ → ℕ → ℕ → F) (std : F) where
  length-draws_of : (n : ℕ) (work : Work) → length (draws_of fl draws std n work) ≡ work.chunk * n
  length-draws_of n work =
      length-map (range_from 0 (work.chunk * n)) (draw_of fl draws std work)
      ∙ length-range_from 0 (work.chunk * n)

  narrowed :
      (n : ℕ) (works : List Work)
      → joined_cells n (λ work. map (narrow_pair fl draws std) (draws_of fl draws std n work)) works
        ≡ map (narrow_pair fl draws std) (joined_cells n (draws_of fl draws std n) works)
  unfolding joined_cells
  narrowed n [] = refl
  narrowed n (work ∷ works) = rw (narrowed n works) (
      sym (
        map-append (narrow_pair fl draws std) (draws_of fl draws std n work)
          (joined_cells n (draws_of fl draws std n) works)))

  module _ (scale : F) where
    quantize_pairs-append :
        (xs ys : List (F × F))
        → quantize_pairs fl draws std scale (xs ++ ys)
          ≡ quantize_pairs fl draws std scale xs ++ quantize_pairs fl draws std scale ys
    quantize_pairs-append [] ys = refl
    quantize_pairs-append ((re, im) ∷ xs) ys = rw (quantize_pairs-append xs ys) refl

    pub length-quantize_pairs :
        (xs : List (F × F)) → length (quantize_pairs fl draws std scale xs) ≡ length xs * 2
    length-quantize_pairs [] = refl
    length-quantize_pairs ((re, im) ∷ xs) =
        let rest = length-quantize_pairs xs in omega (arith, rest)

    quantized :
        (n : ℕ) (works : List Work)
        → joined_cells
            (n * 2)
            (λ work. quantize_pairs fl draws std scale (draws_of fl draws std n work))
            works
          ≡ quantize_pairs fl draws std scale (joined_cells n (draws_of fl draws std n) works)
    unfolding joined_cells
    quantized n [] = refl
    quantized n (work ∷ works) = rw (quantized n works) (
        sym (
          quantize_pairs-append (draws_of fl draws std n work)
            (joined_cells n (draws_of fl draws std n) works)))

  -- For any seed, scale, number of processors and of tiles there is one list of draws, a pair for each
  -- sample of each tile, that both banks hold: the complex bank rounded to float32, and the quantized
  -- bank times the scale and quantized to bytes. No cell of either bank is left blank.
  pub banks-draws :
      (cpus seed n_tiles tile_len : ℕ) (scale : F)
      → (samples : List (F × F)) × (length samples ≡ n_tiles * tile_len)
        × (fill_noise_bank fl draws std cpus seed n_tiles tile_len
            ≡ map (narrow_pair fl draws std) samples)
        × (fill_quantized_noise_bank fl draws std scale cpus seed n_tiles tile_len
            ≡ quantize_pairs fl draws std scale samples)
  unfolding fill_noise_bank fill_quantized_noise_bank
  banks-draws cpus seed n_tiles tile_len scale =
      let works = noise_workers cpus seed n_tiles in
      let narrow = narrow_pair fl draws std in
      let sizes = length-draws_of tile_len in
      let total =
        length-joined_cells tile_len (draws_of fl draws std tile_len) works 0 n_tiles sizes
          (noise_workers-Follow cpus seed n_tiles) in
      (
        joined_cells tile_len (draws_of fl draws std tile_len) works,
        omega (arith, total),
        filled tile_len (λ work. map narrow (draws_of fl draws std tile_len work)) cpus seed n_tiles
              (replicate (n_tiles * tile_len) _)
              (λ work. length-map (draws_of fl draws std tile_len work) narrow ∙ sizes work)
              (length-replicate (n_tiles * tile_len) _)
            ∙ narrowed tile_len works,
        filled (tile_len * 2)
              (λ work. quantize_pairs fl draws std scale (draws_of fl draws std tile_len work)) cpus
              seed n_tiles (replicate (n_tiles * tile_len * 2) 0)
              (λ work.
                let bytes = length-quantize_pairs scale (draws_of fl draws std tile_len work) in
                let n = sizes work in grind arith)
              (length-replicate {A = ℕ} (n_tiles * tile_len * 2) 0 ∙ grind arith)
            ∙ quantized scale tile_len works,
      )
