-- ===== src/Synth/Ticks/Ticking.antt =====
-- streamer.go: GenerateNextTick as a function of the tick.
use mathlib.Core.Path.{subst}
use ska_low_station_beam_sim.Prelude.{
  ℕ, ◌≤◌, ◌<◌, ◌≡◌, refl, sym, ap, ◌∙◌, inl, inr, Bool, List, [], ◌∷◌, Option, none, some,
  if◌then◌else◌, length, All, Bool-cases, Option-cases, arith, ◌>>=◌, length-map, length-range_from,
  range_from, if_cases, map,
}
use ska_low_station_beam_sim.Prelude.Int.{ℤ, pos, pos_part, eqb_ℤ}
use ska_low_station_beam_sim.Float.{Float}
use ska_low_station_beam_sim.Common.Heap.{Complex}
use ska_low_station_beam_sim.Common.Accumulator.{Pol, pol_v, pol_h}
use ska_low_station_beam_sim.Common.Delay.{DelayFeed, get}
use ska_low_station_beam_sim.Synth.Tone.{synth_tone_channel}
use ska_low_station_beam_sim.Synth.Config.{ToneSourceConfig, StreamerConfig, ok}
use ska_low_station_beam_sim.Synth.Positions.{pos_to_subset_idx, is_in_range}
use ska_low_station_beam_sim.Synth.Positions.Partition.{Ascends, select-Ascends_zero, VisitsAll}
use ska_low_station_beam_sim.Synth.Streamer.{
  DirectSynthesisStreamer, index_of, new_streamer, with_amplitude,
}
use ska_low_station_beam_sim.Synth.Streamer.Building.{HasFeed, same_channel, other_channel}
use ska_low_station_beam_sim.Synth.Streamer.Built.{new_streamer-IsBuilt, new_streamer-positions}
use ska_low_station_beam_sim.Synth.Ticks.{place, tone_call, add_tone, add_tones, generate_next_tick}
use ska_low_station_beam_sim.Synth.Ticks.Noise.{
  cells, noise_of, noise_of-length, fill_noise_parallel_lem,
}
use ska_low_station_beam_sim.Synth.Ticks.Tones.{
  or_else-none, find_from, index_from-find_from, cells_congr, sum_samples, length-sum_samples,
  added,
}

pos_to_subset_idx-find_from :
    (positions : List ℕ) (c : ℕ) → pos_to_subset_idx positions c ≡ find_from 0 positions c
unfolding pos_to_subset_idx
pos_to_subset_idx-find_from positions c =
    index_from-find_from 0 positions (λ _. none) c ∙ or_else-none (find_from 0 positions c)

module _ {F S : Type 0} (fl : Float F S) (inf : F) (feeds : Pol → ℕ → DelayFeed F)
    (s : DirectSynthesisStreamer F S) (pol : Pol) (t : F) (n : ℕ) where
  -- The samples of a tone, delayed by the polynomial that its feed gives.
  abbrev pub samples_of : ToneSourceConfig F → Option ℕ → List (Complex S)
  samples_of cfg none = []
  samples_of cfg (some a) =
      (synth_tone_channel fl (tone_call fl s inf feeds cfg (get fl inf t (feeds pol a)).1 pol t)
        n).1

  -- The tones of the list that are in the channel, one after another onto the samples.
  pub with_tones : List (ToneSourceConfig F) → ℕ → List (Complex S) → List (Complex S)
  with_tones [] ch out = out
  with_tones (cfg ∷ tones) ch out = with_tones tones ch (
      if eqb_ℤ (index_of fl s.base_freq_hz s.channel_width_hz cfg) (pos ch)
      then sum_samples fl out (samples_of cfg cfg.delay_feed)
      else out)

  module _ (index : s.pos_to_subset_idx ≡ pos_to_subset_idx s.tone_channel_positions)
      (ascends : Ascends 0 s.num_channels s.tone_channel_positions) where
    place_lem :
        (z : ℤ) (samples : List (Complex S)) (g : ℕ → ℕ → List (Complex S))
        → length samples ≡ n
        → ((k ch : ℕ) → k < length s.tone_channel_positions → length (g k ch) ≡ n)
        → place fl s (z, samples) (cells g 0 s.tone_channel_positions)
          ≡ some (
              cells
                (λ k ch. if eqb_ℤ z (pos ch) then sum_samples fl (g k ch) samples else g k ch)
                0
                s.tone_channel_positions)
    unfolding place
    place_lem z samples g size sizes = elim (Bool-cases (is_in_range s.num_channels z)) [
      | inl inside ↦
          let found =
            ap (λ (f : ℕ → Option ℕ). f (pos_part z)) index
            ∙ pos_to_subset_idx-find_from s.tone_channel_positions (pos_part z) in
          rw (inside, found)
            (added fl samples n size (pos_part z) 0 [] g s.tone_channel_positions 0 s.num_channels
                refl ascends (λ k ch small. sizes k ch (omega arith))
              ∙ ap some (
                  cells_congr _ _ 0 s.tone_channel_positions 0 s.num_channels ascends
                    (λ k ch low high.
                      ap (λ (b : Bool). if b then sum_samples fl (g k ch) samples else g k ch)
                        (same_channel s.num_channels z ch inside))))
      | inr outside ↦ rw outside (
          ap some (
            cells_congr _ _ 0 s.tone_channel_positions 0 s.num_channels ascends (λ k ch low high.
              ap (λ (b : Bool). if b then sum_samples fl (g k ch) samples else g k ch)
                (sym (other_channel s.num_channels z ch outside high)))))
    ]

    length-samples : (cfg : ToneSourceConfig F) (a : ℕ) → length (samples_of cfg (some a)) ≡ n
    unfolding synth_tone_channel
    length-samples cfg a = length-map (range_from 0 n) _ ∙ length-range_from 0 n

    add_tones_lem :
        (tones : List (ToneSourceConfig F)) (g : ℕ → ℕ → List (Complex S))
        → All (HasFeed fl) tones
        → ((k ch : ℕ) → k < length s.tone_channel_positions → length (g k ch) ≡ n)
        → add_tones fl s inf feeds pol t n tones (cells g 0 s.tone_channel_positions)
          ≡ some (cells (λ k ch. with_tones tones ch (g k ch)) 0 s.tone_channel_positions)
    unfolding add_tones with_tones synth_tone_channel
    add_tones_lem [] g have sizes = refl
    add_tones_lem (cfg ∷ tones) g (has, have) sizes = elim (Option-cases cfg.delay_feed) [
      | inl nil ↦ absurd (has nil)
      | inr (a, e) ↦
          let samples = samples_of cfg (some a) in
          let z = index_of fl s.base_freq_hz s.channel_width_hz cfg in
          let g' : ℕ → ℕ → List (Complex S) =
            λ k ch. if eqb_ℤ z (pos ch) then sum_samples fl (g k ch) samples else g k ch in
          let first = place_lem z samples g (length-samples cfg a) sizes in
          let rest = add_tones_lem tones g' have (λ k ch small.
            if_cases (λ (l : List (Complex S)). length l ≡ n) (eqb_ℤ z (pos ch))
              (λ _. length-sum_samples fl (g k ch) samples ∙ sizes k ch small)
              (λ _. sizes k ch small)) in
          let later = add_tones fl s inf feeds pol t n tones in
          let start = cells g 0 s.tone_channel_positions in
          ap (λ (o : Option ℕ). add_tone fl s inf feeds cfg pol t n start o >>= later) e
          ∙ ap (λ (r : Option (List (List (Complex S)))). r >>= later) first
          ∙ rest
          ∙ ap
              (λ (o : Option ℕ). some (
                cells
                  (λ k ch. with_tones tones ch (
                    if eqb_ℤ z (pos ch)
                    then sum_samples fl (g k ch) (samples_of cfg o)
                    else g k ch))
                  0 s.tone_channel_positions))
              (sym e)
    ]

with_amplitudes :
    {F S : Type 0} (fl : Float F S) (tones : List (ToneSourceConfig F))
    → All (HasFeed fl) tones
    → All (HasFeed fl) (map (with_amplitude fl) tones)
with_amplitudes fl [] have = tt
with_amplitudes fl (cfg ∷ tones) (has, have) = (has, with_amplitudes fl tones have)

-- What GenerateNextTick leaves in dst[pol], whatever it held.
abbrev pub ticked :
    {F S : Type 0} (fl : Float F S) (inf : F) (feeds : Pol → ℕ → DelayFeed F)
    (s : DirectSynthesisStreamer F S)
    → Pol
    → F
    → ℕ
    → ℕ
    → ℕ
    → List (Complex S)
ticked fl inf feeds s pol t n j ch =
    with_tones fl inf feeds s pol t n s.tone_cfgs ch
      (noise_of fl s s.noise_cfg pol (fl.sub t s.obs_time_ref) n j)

module _ {F S : Type 0} (fl : Float F S) (inf : F) (feeds : Pol → ℕ → DelayFeed F) (cpus : ℕ)
    (draws : ℕ → ℕ → ℕ → F) (order : List ℕ → List ℕ) where
  length-with_tones :
      (s : DirectSynthesisStreamer F S) (pol : Pol) (t : F) (n : ℕ)
      (tones : List (ToneSourceConfig F)) (ch : ℕ) (out : List (Complex S))
      → length (with_tones fl inf feeds s pol t n tones ch out) ≡ length out
  unfolding with_tones
  length-with_tones s pol t n [] ch out = refl
  length-with_tones s pol t n (cfg ∷ tones) ch out =
      let hit = eqb_ℤ (index_of fl s.base_freq_hz s.channel_width_hz cfg) (pos ch) in
      let samples = samples_of fl inf feeds s pol t n cfg cfg.delay_feed in
      length-with_tones s pol t n tones ch (if hit then sum_samples fl out samples else out)
      ∙ if_cases (λ (l : List (Complex S)). length l ≡ length out) hit
          (λ _. length-sum_samples fl out samples) (λ _. refl)

  pub length-ticked :
      (cfg : StreamerConfig F) (s : DirectSynthesisStreamer F S) (pol : Pol) (t : F) (n j ch : ℕ)
      → new_streamer fl cpus draws order cfg ≡ ok s
      → n ≤ s.tile_n_samples
      → j < length s.tone_channel_positions
      → length (ticked fl inf feeds s pol t n j ch) ≡ n
  length-ticked cfg s pol t n j ch e small inside =
      length-with_tones s pol t n s.tone_cfgs ch
        (noise_of fl s s.noise_cfg pol (fl.sub t s.obs_time_ref) n j)
      ∙ noise_of-length fl s cfg (new_streamer-IsBuilt fl cpus draws order cfg s e) pol
          (fl.sub t s.obs_time_ref) n small j inside

  -- Whatever its delays, seeds and number of workers, a streamer that was built, asked for at most a
  -- tile's samples, does not panic in GenerateNextTick. Whatever the targets held, each position then
  -- holds its part of the tick's noise tile (silence without noise), with every tone whose frequency
  -- maps to its channel added in the order of the sources, and no other tone.
  pub generate_next_tick_lem :
      (cfg : StreamerConfig F) (s : DirectSynthesisStreamer F S) (t : F) (n : ℕ)
      (v h : List (List (Complex S)))
      → VisitsAll order
      → new_streamer fl cpus draws order cfg ≡ ok s
      → n ≤ s.tile_n_samples
      → length v ≡ length s.tone_channel_positions
      → All (λ out. length out ≡ n) v
      → length h ≡ length s.tone_channel_positions
      → All (λ out. length out ≡ n) h
      → generate_next_tick fl s inf feeds t n (some v) (some h)
        ≡ some (
          some (cells (ticked fl inf feeds s pol_v t n) 0 s.tone_channel_positions),
          some (cells (ticked fl inf feeds s pol_h t n) 0 s.tone_channel_positions),
        )
  unfolding generate_next_tick
  generate_next_tick_lem cfg s t n v h visits e small width_v sizes_v width_h sizes_h =
      let built = new_streamer-IsBuilt fl cpus draws order cfg s e in
      let (tone, _, _) = new_streamer-positions fl cpus draws order cfg s visits e in
      let ascends =
        subst (Ascends 0 s.num_channels) (sym tone) (select-Ascends_zero _ s.num_channels) in
      let t_local = fl.sub t s.obs_time_ref in
      let noise_v =
        fill_noise_parallel_lem fl s cfg built pol_v t_local n small v width_v sizes_v in
      let noise_h =
        fill_noise_parallel_lem fl s cfg built pol_h t_local n small h width_h sizes_h in
      let feeds_ok =
        subst (All (HasFeed fl)) (sym built.tones)
          (with_amplitudes fl cfg.tone_sources built.feeds) in
      let tones = λ (pol : Pol).
        add_tones_lem fl inf feeds s pol t n built.index ascends s.tone_cfgs
          (λ k ch. noise_of fl s s.noise_cfg pol t_local n k) feeds_ok
          (λ k ch inside. noise_of-length fl s cfg built pol t_local n small k inside) in
      rw (noise_v, noise_h, tones pol_v, tones pol_h) refl
