-- ===== src/Tests/Pools.antt =====
-- internal/common/heap_accumulator.go: pools that were warmed for one channel, and a heap released.
use ska_low_station_beam_sim.Prelude.{◌≡◌, [], ◌∷◌, none, some, length, replicate}
use ska_low_station_beam_sim.Prelude.Int.{ℤ, pos}
use ska_low_station_beam_sim.Common.Heap.{ChannelHeap}
use ska_low_station_beam_sim.Common.Pools.{
  Pools, empty_pools, get_sample_buffer, get_quantized_buffer, release_sample_buffers,
  warm_buffer_pools,
}
use ska_low_station_beam_sim.Common.Pools.Sizes.{
  ReachesPools, starts_empty, after_call, warmed, released, get-sizes,
}

abbrev heap : ChannelHeap ℤ ℤ
heap = record {
  channel_id = pos 3;
  v_samples = replicate 2048 (pos 1, pos 2);
  h_samples = (pos 1, pos 2) ∷ [];
  v_quantized = none;
  h_quantized = none;
  heap_start_time = pos 0;
}

abbrev pools : Pools ℤ
pools = release_sample_buffers (some heap) (warm_buffer_pools (pos 0, pos 0) 1 empty_pools)

pools-Reaches : ReachesPools ℤ (pos 0, pos 0) pools
pools-Reaches = after_call (after_call starts_empty (warmed 1)) (released (some heap))

get-sizes_example :
    (length ((get_sample_buffer (pos 0, pos 0) (some 0) pools).0) ≡ 2048)
    × (length ((get_quantized_buffer (some 0) pools).0) ≡ 4096)
get-sizes_example = get-sizes (pos 0, pos 0) pools (some 0) pools-Reaches
