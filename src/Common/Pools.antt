-- ===== src/Common/Pools.antt =====
-- heap_accumulator.go: the two pools of sample buffers. A sync.Pool holds what was put into it, less what
-- the garbage collector has dropped. Which of its buffers a Get hands out is its own choice, an argument
-- here; `none`, or one that is not there, is where it calls New. A slice of a heap has the capacity of
-- its length, as those of PopReadyHeaps and of the pools have.
pub mod Sizes
use ska_low_station_beam_sim.Prelude.{
  ℕ, zero, suc, ◌*◌, List, [], ◌∷◌, Option, none, some, if◌then◌else◌, ◌==◌, length, replicate,
}
use ska_low_station_beam_sim.Common.Constants.{heap_len}
use ska_low_station_beam_sim.Common.Heap.{Complex, ChannelHeap}

pub record Pools (S : Type 0) : Type 0 where
  pub sample : List (List (Complex S))
  pub quantized : List (List ℕ)

module _ {A : Type 0} where
  -- The item `i` taken out of a pool.
  unfoldable pub take_out : A → ℕ → List A → A × List A
  take_out new i [] = (new, [])
  take_out new zero (x ∷ xs) = (x, xs)
  take_out new (suc i) (x ∷ xs) = let (y, ys) = take_out new i xs in (y, x ∷ ys)

  -- sync.Pool's Get, where `new` is what its New makes
  unfoldable pub get_from_pool : A → Option ℕ → List A → A × List A
  get_from_pool new none pool = (new, pool)
  get_from_pool new (some i) pool = take_out new i pool

  -- Put, for a slice of the capacity that the pool is for
  unfoldable pub put_if_size : ℕ → List A → List (List A) → List (List A)
  put_if_size size slice pool = if length slice == size then slice ∷ pool else pool

abbrev pub or_nil_slice : Option (List ℕ) → List ℕ
or_nil_slice none = []
or_nil_slice (some bytes) = bytes

module _ {S : Type 0} where
  abbrev pub empty_pools : Pools S
  empty_pools = record { sample = []; quantized = [] }

  -- getSampleBuffer
  unfoldable pub get_sample_buffer : Complex S → Option ℕ → Pools S → List (Complex S) × Pools S
  get_sample_buffer blank choice p =
      let (buffer, rest) = get_from_pool (replicate heap_len blank) choice p.sample in
      (buffer, record p { sample = rest })

  -- GetQuantizedBuffer
  unfoldable pub get_quantized_buffer : Option ℕ → Pools S → List ℕ × Pools S
  get_quantized_buffer choice p =
      let (buffer, rest) = get_from_pool (replicate (heap_len * 2) 0) choice p.quantized in
      (buffer, record p { quantized = rest })

  -- ReleaseSampleBuffers, for a heap that may be nil
  unfoldable pub release_sample_buffers :
      {F : Type 0} → Option (ChannelHeap F S) → Pools S → Pools S
  release_sample_buffers none p = p
  release_sample_buffers (some heap) p = record {
    sample = put_if_size heap_len heap.h_samples (put_if_size heap_len heap.v_samples p.sample);
    quantized =
        put_if_size (heap_len * 2) (or_nil_slice heap.h_quantized)
          (put_if_size (heap_len * 2) (or_nil_slice heap.v_quantized) p.quantized);
  }

  -- The loop of WarmBufferPools
  unfoldable pub warm : Complex S → ℕ → Pools S → Pools S
  warm blank zero p = p
  warm blank (suc n) p = warm blank n (record {
    sample = replicate heap_len blank ∷ p.sample;
    quantized = replicate (heap_len * 2) 0 ∷ p.quantized;
  })

  -- WarmBufferPools
  unfoldable pub warm_buffer_pools : Complex S → ℕ → Pools S → Pools S
  unfolding warm
  warm_buffer_pools blank num_channels p = warm blank (num_channels * 2) p
