-- ===== src/Synth/Positions.antt =====
-- internal/synth/streamer.go: the sets and lists of channel positions of NewDirectSynthesisStreamer. A
-- Go map with channels as keys is the list of its keys, each once.
pub mod Partition
use ska_low_station_beam_sim.Prelude.{
  ℕ, zero, suc, ◌+◌, Bool, true, false, not, ◌&&◌, ◌||◌, List, [], ◌∷◌, Option, none, some,
  if◌then◌else◌, leb, ◌==◌, range_from,
}
use ska_low_station_beam_sim.Prelude.Int.{ℤ, pos, pos_part, ltb_ℤ}

-- `set[ch]`
unfoldable pub contains : List ℕ → ℕ → Bool
contains [] ch = false
contains (c ∷ set) ch = c == ch || contains set ch

-- `set[ch] = true`
unfoldable pub insert_channel : ℕ → List ℕ → List ℕ
insert_channel ch set = if contains set ch then set else ch ∷ set

-- `chIdx >= 0 && chIdx < numChannels`
abbrev pub is_in_range : ℕ → ℤ → Bool
is_in_range num_channels z = not (ltb_ℤ z (pos 0)) && ltb_ℤ z (pos num_channels)

-- The channel of a tone, if it is in range, goes into the set.
unfoldable pub insert_in_range : ℕ → ℤ → List ℕ → List ℕ
unfolding insert_channel contains
insert_in_range num_channels z set =
    if is_in_range num_channels z then insert_channel (pos_part z) set else set

-- sort.Ints
unfoldable pub insert_sorted : ℕ → List ℕ → List ℕ
insert_sorted a [] = a ∷ []
insert_sorted a (b ∷ bs) = if leb a b then a ∷ b ∷ bs else b ∷ insert_sorted a bs

unfoldable pub sort_ints : List ℕ → List ℕ
unfolding insert_sorted
sort_ints [] = []
sort_ints (a ∷ as') = insert_sorted a (sort_ints as')

-- toneChannelPositions; `order` gives the keys of a map in the order in which a loop visits them.
unfoldable pub tone_channel_positions : (List ℕ → List ℕ) → List ℕ → List ℕ
unfolding sort_ints
tone_channel_positions order set = sort_ints (order set)

-- The loop over the channels `ch` to `ch + n` for noiseOnlyChannelPositions.
unfoldable pub absent_from : List ℕ → ℕ → ℕ → List ℕ
absent_from set ch zero = []
absent_from set ch (suc n) =
    let rest = absent_from set (ch + 1) n in if contains set ch then rest else ch ∷ rest

unfoldable pub noise_only_positions : ℕ → List ℕ → List ℕ
unfolding absent_from
noise_only_positions num_channels set = absent_from set 0 num_channels

-- The loop for posToSubsetIdx from position `j` on.
unfoldable pub index_from : ℕ → List ℕ → (ℕ → Option ℕ) → ℕ → Option ℕ
index_from j [] m = m
index_from j (ch ∷ chs) m = index_from (j + 1) chs (λ c. if c == ch then some j else m c)

unfoldable pub pos_to_subset_idx : List ℕ → ℕ → Option ℕ
unfolding index_from
pos_to_subset_idx positions = index_from 0 positions (λ _. none)
