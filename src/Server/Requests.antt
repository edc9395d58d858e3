-- ===== src/Server/Requests.antt =====
-- api/simulator.proto and grpc_server.go: requests, replies, and the state of a server.
use Prim.Native.String.{String}
use ska_low_station_beam_sim.Prelude.{ℕ, Bool, List, Option}
use ska_low_station_beam_sim.Prelude.Int.{ℤ}
use ska_low_station_beam_sim.Common.Heap.{StationConfig}
use ska_low_station_beam_sim.Common.Control.{Control}
use ska_low_station_beam_sim.Common.Delay.{DelayFeed, DelayPolynomial}
use ska_low_station_beam_sim.Common.Queue.{ShardedHeapQueue}
use ska_low_station_beam_sim.Synth.Config.{NoiseConfig}
use ska_low_station_beam_sim.Synth.Streamer.{DirectSynthesisStreamer}

pub record ToneSource (F : Type 0) : Type 0 where
  pub source_id : String
  pub freq_hz : F
  pub amplitude : F

pub record StartScanRequest (F : Type 0) : Type 0 where
  pub obs_time_epoch_s : F
  pub scan_duration_s : F
  pub scan_id : ℤ
  pub subarray_id : ℤ
  pub beam_id : ℤ
  pub num_channels : ℤ
  pub tone_sources : List (ToneSource F)
  pub noise : Option (NoiseConfig F)
  pub start_channel : ℤ
  pub negate_delay : Bool

pub record PushDelayUpdateRequest (F : Type 0) : Type 0 where
  pub source_id : String
  pub polynomial : Option (DelayPolynomial F)

pub record StatusResponse (F : Type 0) : Type 0 where
  pub scan_running : Bool
  pub queue_depth : ℤ
  pub drift_seconds : F
  pub tick_number : ℕ

-- The status codes that the handlers use.
pub data Code : Type 0 where
  failed_precondition invalid_argument not_found : Code

pub data Reply {ℓ} (A : Type ℓ) : Type ℓ where
  answer : A → Reply A
  refusal : Code → Reply A

-- A ScanRunner, as the server sees it.
pub record Scan (F S : Type 0) : Type 0 where
  pub control : Control
  pub streamer : DirectSynthesisStreamer F S
  pub obs_time : F
  pub scan_duration_s : F
  pub drift_seconds : F
  pub tick_number : ℕ

-- `feeds` is the store of the feeds. The packetizer of the sender pool has the server's own station, by
-- reference, so of the pool only its scale is kept.
pub record Server (F S : Type 0) : Type 0 where
  pub num_senders : ℤ
  pub station_cfg : StationConfig
  pub scan_runner : Option (Scan F S)
  pub delay_feeds : List (String × ℕ)
  pub feeds : List (DelayFeed F)
  pub send_queue : ShardedHeapQueue F S
  pub sender_pool : Option ℕ
  pub is_shut_down : Bool
