-- ===== src/Common/Heap.antt =====
-- internal/common/station.go: the identity of a station, and one channel's heap of samples.
use ska_low_station_beam_sim.Prelude.{ℕ, List, Option}
use ska_low_station_beam_sim.Prelude.Int.{ℤ}

pub record StationConfig : Type 0 where
  pub station_id : ℤ  -- int32
  pub substation_id : ℤ  -- int32
  pub subarray_id : ℤ  -- int32
  pub beam_id : ℤ  -- int32
  pub scan_id : ℤ  -- int64
  pub start_channel : ℤ  -- int32

-- A complex64: its real and imaginary parts.
abbrev pub Complex : Type 0 → Type 0
Complex S = S × S

-- A nil slice of samples has length 0. Whether a quantized slice is nil is what the packetizer asks,
-- so that is an `Option`.
pub record ChannelHeap (F S : Type 0) : Type 0 where
  pub channel_id : ℤ
  pub v_samples : List (Complex S)
  pub h_samples : List (Complex S)
  pub v_quantized : Option (List ℕ)
  pub h_quantized : Option (List ℕ)
  pub heap_start_time : F
