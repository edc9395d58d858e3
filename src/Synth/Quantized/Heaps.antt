-- ===== src/Synth/Quantized/Heaps.antt =====
-- streamer.go: the heaps of a tick that come from the quantized bank.
use native.Mathlib.Nat.{mod-lt}
use mathlib.Core.Path.{subst}
use ska_low_station_beam_sim.Prelude.{
  ℕ, ◌+◌, ◌*◌, ◌≤◌, ◌<◌, ◌≡◌, refl, sym, ap, ◌∙◌, List, [], ◌∷◌, Option, none, some, length, take,
  drop, replicate, length-replicate, map, arith, All,
}
use ska_low_station_beam_sim.Prelude.Int.{pos}
use ska_low_station_beam_sim.Float.{Float}
use ska_low_station_beam_sim.Common.Constants.{heap_len}
use ska_low_station_beam_sim.Common.Heap.{ChannelHeap}
use ska_low_station_beam_sim.Common.Accumulator.{Pol, pol_v, pol_h}
use ska_low_station_beam_sim.Synth.Config.{StreamerConfig, NoiseConfig, ok}
use ska_low_station_beam_sim.Synth.Positions.Partition.{Ascends, VisitsAll, select-Ascends_zero}
use ska_low_station_beam_sim.Synth.Streamer.{
  DirectSynthesisStreamer, bank_of, tick_n_samples, new_streamer,
}
use ska_low_station_beam_sim.Synth.Streamer.Built.{
  IsBuilt, new_streamer-IsBuilt, new_streamer-positions,
}
use ska_low_station_beam_sim.Synth.Ticks.{current_tile_index}
use ska_low_station_beam_sim.Synth.Ticks.Noise.{slice_fits, copy_over-full, tile_fits}
use ska_low_station_beam_sim.Synth.Quantized.{
  quantized_heap, quantized_samples, quantized_from, generate_quantized_heaps,
}

module _ {F S : Type 0} (fl : Float F S) (s : DirectSynthesisStreamer F S) where
  -- The bytes of a channel at a time: silence, or the channel's part of the tile.
  pub bytes_of : Option (NoiseConfig F) → Pol → F → ℕ → List ℕ
  bytes_of none pol t ch = replicate (heap_len * 2) 0
  bytes_of (some noise) pol t ch =
      let n = tick_n_samples fl s in
      let tile = current_tile_index fl s (s.noise_seed pol) (fl.sub t s.obs_time_ref) n in
      take (n * 2) (
        drop (tile * (s.tile_n_samples * s.num_channels * 2) + ch * n * 2)
          (bank_of s.quant_banks pol))

  pub heap_of : F → ℕ → ChannelHeap F S
  heap_of t ch =
      quantized_heap t ch (bytes_of s.noise_cfg pol_v t ch) (bytes_of s.noise_cfg pol_h t ch)

  pub heap_of-id : (t : F) (ch : ℕ) → (heap_of t ch).channel_id ≡ pos ch
  unfolding heap_of
  heap_of-id t ch = refl

  module _ {cpus : ℕ} {draws : ℕ → ℕ → ℕ → F} {order : List ℕ → List ℕ} (cfg : StreamerConfig F)
      (built : IsBuilt fl cpus draws order cfg s) (whole : tick_n_samples fl s ≡ heap_len)
      (small : heap_len ≤ s.tile_n_samples) where
    bytes_fit :
        (o : Option (NoiseConfig F)) (pol : Pol) (t : F) (ch : ℕ) (buffer : List ℕ)
        → s.noise_cfg ≡ o
        → 0 < length s.noise_only_channel_positions
        → ch < s.num_channels
        → length buffer ≡ heap_len * 2
        → (quantized_samples fl s o pol t ch buffer ≡ some (bytes_of o pol t ch))
          × (length (bytes_of o pol t ch) ≡ heap_len * 2)
    unfolding quantized_samples bytes_of
    bytes_fit none pol t ch buffer e used inside size =
        (rw size refl, length-replicate {A = ℕ} (heap_len * 2) 0)
    bytes_fit (some noise) pol t ch buffer e used inside size =
        let n = tick_n_samples fl s in
        let tile = current_tile_index fl s (s.noise_seed pol) (fl.sub t s.obs_time_ref) n in
        let offset = tile * (s.tile_n_samples * s.num_channels * 2) + ch * n * 2 in
        let bank = bank_of s.quant_banks pol in
        let full =
          built.quant_bank pol (λ silent. let e' : none ≡ some noise = sym silent ∙ e in cc) used in
        let in_bank : tile < s.n_tiles = unfold current_tile_index in mod-lt _ built.tiles in
        let n_fits : n ≤ s.tile_n_samples = omega (arith, whole, small) in
        let fits =
          tile_fits tile s.n_tiles s.tile_n_samples s.num_channels ch n in_bank inside n_fits in
        let doubled : offset + n * 2 ≤ s.n_tiles * (s.tile_n_samples * s.num_channels) * 2 =
          grind arith in
        let (cut, bytes) = slice_fits bank offset (n * 2) (omega (arith, doubled, full)) in
        let bytes' = bytes ∙ ap (λ (k : ℕ). k * 2) whole in
        (rw cut (ap some (copy_over-full buffer _ (bytes' ∙ sym size))), bytes')

    module _ (pooled : Pol → ℕ → List ℕ)
        (sizes : (pol : Pol) (idx : ℕ) → length (pooled pol idx) ≡ heap_len * 2) where
      pub quantized_from-map :
          (t : F) (idx : ℕ) (chs : List ℕ) (low : ℕ)
          → (0 < length chs → 0 < length s.noise_only_channel_positions)
          → Ascends low s.num_channels chs
          → quantized_from fl s pooled t idx chs ≡ some (map (heap_of t) chs)
      unfolding quantized_from heap_of
      quantized_from-map t idx [] low used a = refl
      quantized_from-map t idx (ch ∷ chs) low used (from, to, a) =
          let some_heap = used (omega arith) in
          let v =
            bytes_fit s.noise_cfg pol_v t ch (pooled pol_v idx) refl some_heap to
              (sizes pol_v idx) in
          let h =
            bytes_fit s.noise_cfg pol_h t ch (pooled pol_h idx) refl some_heap to
              (sizes pol_h idx) in
          rw (v.0, h.0, quantized_from-map t (idx + 1) chs (ch + 1) (λ _. some_heap) a) refl

-- The two polarisations of a heap are whole.
abbrev pub IsWhole : {F S : Type 0} → ChannelHeap F S → Type 0
IsWhole heap =
    (v : List ℕ) × (h : List ℕ) × (heap.v_quantized ≡ some v)
    × (heap.h_quantized ≡ some h)
    × (length v ≡ heap_len * 2)
    × (length h ≡ heap_len * 2)

module _ {F S : Type 0} (fl : Float F S) (cpus : ℕ) (draws : ℕ → ℕ → ℕ → F)
    (order : List ℕ → List ℕ) where
  heaps-IsWhole :
      (cfg : StreamerConfig F) (s : DirectSynthesisStreamer F S) (t : F) (chs : List ℕ) (low : ℕ)
      → IsBuilt fl cpus draws order cfg s
      → tick_n_samples fl s ≡ heap_len
      → heap_len ≤ s.tile_n_samples
      → (0 < length chs → 0 < length s.noise_only_channel_positions)
      → Ascends low s.num_channels chs
      → All IsWhole (map (heap_of fl s t) chs)
  unfolding heap_of
  heaps-IsWhole cfg s t [] low built whole small used a = tt
  heaps-IsWhole cfg s t (ch ∷ chs) low built whole small used (from, to, a) =
      let some_heap = used (omega arith) in
      let buffer = replicate {A = ℕ} (heap_len * 2) 0 in
      let size = length-replicate {A = ℕ} (heap_len * 2) 0 in
      let v =
        bytes_fit fl s cfg built whole small s.noise_cfg pol_v t ch buffer refl some_heap to size in
      let h =
        bytes_fit fl s cfg built whole small s.noise_cfg pol_h t ch buffer refl some_heap to size in
      (
        (
          bytes_of fl s s.noise_cfg pol_v t ch,
          bytes_of fl s s.noise_cfg pol_h t ch,
          refl,
          refl,
          v.1,
          h.1,
        ),
        heaps-IsWhole cfg s t chs (ch + 1) built whole small (λ _. some_heap) a,
      )

  -- If a tick is one heap and fits in a tile, GenerateQuantizedHeaps of a streamer that was built does
  -- not panic. Whatever the buffers of the pool hold, it gives one heap for each noise-only channel, in
  -- ascending order, with the time of the tick and, in both polarisations, 4096 bytes: those of the
  -- channel in the tile that the tick draws from the bank, or zeros without noise.
  pub generate_quantized_heaps_lem :
      (cfg : StreamerConfig F) (s : DirectSynthesisStreamer F S) (t : F) (pooled : Pol → ℕ → List ℕ)
      → VisitsAll order
      → new_streamer fl cpus draws order cfg ≡ ok s
      → tick_n_samples fl s ≡ heap_len
      → heap_len ≤ s.tile_n_samples
      → ((pol : Pol) (idx : ℕ) → length (pooled pol idx) ≡ heap_len * 2)
      → (generate_quantized_heaps fl s pooled t
          ≡ some (map (heap_of fl s t) s.noise_only_channel_positions))
        × All IsWhole (map (heap_of fl s t) s.noise_only_channel_positions)
  unfolding generate_quantized_heaps
  generate_quantized_heaps_lem cfg s t pooled visits e whole small sizes =
      let built = new_streamer-IsBuilt fl cpus draws order cfg s e in
      let (_, silent, _) = new_streamer-positions fl cpus draws order cfg s visits e in
      let ascends =
        subst (Ascends 0 s.num_channels) (sym silent) (select-Ascends_zero _ s.num_channels) in
      (
        quantized_from-map fl s cfg built whole small pooled sizes t 0
            s.noise_only_channel_positions 0 (λ h. h) ascends,
        heaps-IsWhole cfg s t s.noise_only_channel_positions 0 built whole small (λ h. h) ascends,
      )
