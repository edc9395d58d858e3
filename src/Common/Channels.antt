-- ===== src/Common/Channels.antt =====
-- internal/common/heap_accumulator.go: forEachChannelRange, which splits the channels into ranges, one
-- for each goroutine.
pub mod Partition
use ska_low_station_beam_sim.Prelude.{
  ℕ, zero, suc, ◌+◌, ◌-◌, ◌/◌, Bool, List, [], ◌∷◌, ◌++◌, Option, none, some, if◌then◌else◌, ltb,
  leb, ◌||◌, get_elem?, set, range_from, ◌>>=◌, map_option,
}

-- defaultParallelism; `cpus` is runtime.GOMAXPROCS(0).
unfoldable pub default_parallelism : ℕ → ℕ → ℕ
default_parallelism cpus n = let w = if ltb n cpus then n else cpus in if ltb w 1 then 1 else w

-- The loop over `chStart`: the ranges that get a goroutine. Each range has a channel, so the number of
-- channels is fuel enough.
unfoldable pub ranges_from : ℕ → ℕ → ℕ → ℕ → List (ℕ × ℕ)
ranges_from zero start chunk_size n = []
ranges_from (suc fuel) start chunk_size n =
    let ch_end = if ltb n (start + chunk_size) then n else start + chunk_size in
    let rest = ranges_from fuel (start + chunk_size) chunk_size n in
    if ltb start n then (start, ch_end) ∷ rest else []

unfoldable pub channel_ranges : ℕ → ℕ → List (ℕ × ℕ)
unfolding ranges_from
channel_ranges num_workers n =
    if leb num_workers 1 || leb n 1
    then (0, n) ∷ []
    else ranges_from n 0 ((n + num_workers - 1) / num_workers) n

-- The channels in the order of their ranges.
unfoldable pub visits : List (ℕ × ℕ) → List ℕ
visits [] = []
visits ((ch_start, ch_end) ∷ ranges) = range_from ch_start (ch_end - ch_start) ++ visits ranges

module _ {A B : Type 0} where
  -- The work of one channel after another on the cells `xs[ch]`, with what each gives; `none` is a panic.
  unfoldable pub visit : (ℕ → A → Option (A × B)) → List ℕ → List A → Option (List A × List B)
  visit f [] xs = some (xs, [])
  visit f (ch ∷ chs) xs = get_elem? xs ch >>= λ x.
      f ch x >>= λ (x', b). visit f chs (set xs ch x') >>= λ (xs', bs). some (xs', b ∷ bs)

  -- forEachChannelRange
  unfoldable pub for_each_channel_range :
      ℕ → ℕ → (ℕ → A → Option (A × B)) → List A → Option (List A × List B)
  unfolding visits channel_ranges visit
  for_each_channel_range num_workers n f xs = visit f (visits (channel_ranges num_workers n)) xs
