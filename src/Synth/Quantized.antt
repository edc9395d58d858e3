-- ===== src/Synth/Quantized.antt =====
-- internal/synth/streamer.go: GenerateQuantizedHeaps, the heaps of the channels without a tone. The
-- buffers that the pool gives for the heap `idx` are `pooled pol idx`, of unknown content. `none` is a
-- panic.
pub mod Heaps
pub mod Scan
use ska_low_station_beam_sim.Prelude.{
  ℕ, ◌+◌, ◌*◌, List, [], ◌∷◌, Option, none, some, length, replicate, ◌>>=◌,
}
use ska_low_station_beam_sim.Prelude.Int.{ℤ, pos}
use ska_low_station_beam_sim.Float.{Float}
use ska_low_station_beam_sim.Common.Heap.{ChannelHeap}
use ska_low_station_beam_sim.Common.Accumulator.{Pol, pol_v, pol_h}
use ska_low_station_beam_sim.Synth.Config.{NoiseConfig}
use ska_low_station_beam_sim.Synth.Streamer.{DirectSynthesisStreamer, bank_of, tick_n_samples}
use ska_low_station_beam_sim.Synth.Ticks.{slice, copy_over, current_tile_index}

module _ {F S : Type 0} where
  -- A heap of quantized samples.
  abbrev pub quantized_heap : F → ℕ → List ℕ → List ℕ → ChannelHeap F S
  quantized_heap t ch v h = record {
    channel_id = pos ch;
    v_samples = [];
    h_samples = [];
    v_quantized = some v;
    h_quantized = some h;
    heap_start_time = t;
  }

module _ {F S : Type 0} (fl : Float F S) (s : DirectSynthesisStreamer F S) where
  -- One polarisation of a channel's heap, written into a buffer of the pool.
  quantized_samples : Option (NoiseConfig F) → Pol → F → ℕ → List ℕ → Option (List ℕ)
  quantized_samples none pol t ch buffer = some (replicate (length buffer) 0)
  quantized_samples (some noise) pol t ch buffer =
      let n = tick_n_samples fl s in
      let tile_idx = current_tile_index fl s (s.noise_seed pol) (fl.sub t s.obs_time_ref) n in
      let offset = tile_idx * (s.tile_n_samples * s.num_channels * 2) + ch * n * 2 in
      slice (bank_of s.quant_banks pol) offset (offset + n * 2) >>= λ piece.
      some (copy_over buffer piece)

  -- The loop over the channels, for the heaps from `idx` on.
  unfoldable pub quantized_from :
      (Pol → ℕ → List ℕ) → F → ℕ → List ℕ → Option (List (ChannelHeap F S))
  unfolding quantized_samples
  quantized_from pooled t idx [] = some []
  quantized_from pooled t idx (ch ∷ chs) =
      quantized_samples s.noise_cfg pol_v t ch (pooled pol_v idx) >>= λ v.
      quantized_samples s.noise_cfg pol_h t ch (pooled pol_h idx) >>= λ h.
      quantized_from pooled t (idx + 1) chs >>= λ heaps. some (quantized_heap t ch v h ∷ heaps)

  -- GenerateQuantizedHeaps; nil and an empty slice are the empty list.
  unfoldable pub generate_quantized_heaps : (Pol → ℕ → List ℕ) → F → Option (List (ChannelHeap F S))
  unfolding quantized_from
  generate_quantized_heaps pooled t = quantized_from pooled t 0 s.noise_only_channel_positions
