-- ===== src/Common/ScanRunner.antt =====
-- internal/common/scan_runner.go: ScanRunner, the loop that ticks at the pace of the blocks, has a tick's
-- samples written into the accumulator and offers the heaps to the sender. The clock and the stop
-- channel are what a `Pace` says of each tick; `none` is a panic.
pub mod Filling
pub mod Ticks
pub mod Stopping
use ska_low_station_beam_sim.Prelude.{
  ℕ, zero, suc, ◌+◌, Bool, true, false, ◌&&◌, ◌||◌, List, [], ◌++◌, Option, none, some,
  if◌then◌else◌, length, ◌>>=◌,
}
use ska_low_station_beam_sim.Prelude.Int.{ℤ, pos, pos_part}
use ska_low_station_beam_sim.Float.{Float, constant}
use ska_low_station_beam_sim.Common.Heap.{Complex, ChannelHeap}
use ska_low_station_beam_sim.Common.Time.{block_duration_s, channel_output_rate_hz}
use ska_low_station_beam_sim.Common.Accumulator.{
  Pol, pol_v, pol_h, HeapAccumulator, new_accumulator, prepare_write, write_targets,
  pop_ready_heaps,
}

-- The interface Streamer, and the two optional ones. `generate_next_tick k t pol ch` is what the call of
-- tick `k` writes into dst[pol][ch], all of it.
pub record Streamer (F S : Type 0) : Type 0 where
  pub channel_id_map : List ℤ
  pub tick_n_samples : ℕ
  pub complex_path_channel_id_map : Option (List ℤ)
  pub generate_next_tick : ℕ → F → Pol → ℕ → List (Complex S)
  pub generate_quantized_heaps : Option (ℕ → F → List (ChannelHeap F S))

-- What run() finds at a tick: the stop channel closed at the first select, the tick's time not yet come,
-- the stop channel closed while it waits, the drift after that, and the buffers the pool then gives.
pub record Pace (F S : Type 0) : Type 0 where
  pub stopped : Bool
  pub early : Bool
  pub stopped_waiting : Bool
  pub drift : F
  pub pooled : Pol → ℕ → List (Complex S)

-- The fields that the loop changes, and the heaps offered to the sender so far, whose answers are only
-- logged.
pub record Run (F S : Type 0) : Type 0 where
  pub accumulator : HeapAccumulator F S
  pub drift_seconds : F
  pub tick_number : ℕ
  pub offered : List (ChannelHeap F S)

module _ {F S : Type 0} where
  abbrev complex_ids : Streamer F S → Option (List ℤ) → List ℤ
  complex_ids streamer none = streamer.channel_id_map
  complex_ids streamer (some ids) = ids

  abbrev pub quantized_of : Option (ℕ → F → List (ChannelHeap F S)) → ℕ → F → List (ChannelHeap F S)
  quantized_of none k t = []
  quantized_of (some generate) k t = generate k t

module _ {F S : Type 0} (blank : Complex S) (streamer : Streamer F S) where
  -- The samples of one tick on their way through the accumulator.
  unfoldable pub fill : Pace F S → ℕ → F → HeapAccumulator F S → Option (HeapAccumulator F S)
  fill pace tick t a =
      let n = streamer.tick_n_samples in
      prepare_write blank (pace.pooled pol_v) pol_v n a >>= λ (a1, targets_v).
      prepare_write blank (pace.pooled pol_h) pol_h n a1 >>= λ (a2, targets_h).
      write_targets pol_v targets_v (streamer.generate_next_tick tick t pol_v) a2 >>= λ a3.
      write_targets pol_h targets_h (streamer.generate_next_tick tick t pol_h) a3

module _ {F S : Type 0} (fl : Float F S) (blank : Complex S) (streamer : Streamer F S) where
  -- NewScanRunner, before Start
  unfoldable pub new_scan_runner : ℕ → F → Run F S
  new_scan_runner cpus obs_time =
      let ids = complex_ids streamer streamer.complex_path_channel_id_map in
      record {
        accumulator =
            new_accumulator cpus (length ids) obs_time (channel_output_rate_hz fl) (some ids);
        drift_seconds = constant fl (pos 0);
        tick_number = 0;
        offered = [];
      }

  abbrev pub sim_time : F → ℕ → F
  sim_time obs_time tick = fl.add obs_time (fl.mul (fl.of_int (pos tick)) (block_duration_s fl))

  -- The body of a tick that is not stopped.
  unfoldable pub produce : Pace F S → F → ℕ → Run F S → Option (Run F S)
  produce pace obs_time tick r =
      let t = sim_time obs_time tick in
      fill blank streamer pace tick t r.accumulator >>= λ filled.
      pop_ready_heaps fl filled >>= λ (a, heaps). some (record {
        accumulator = a;
        drift_seconds = pace.drift;
        tick_number = tick;
        offered = r.offered ++ (heaps ++ quantized_of streamer.generate_quantized_heaps tick t);
      })

  -- The loop of run() for the `n` ticks from `tick` on, and whether it was stopped.
  unfoldable pub run_ticks : (ℕ → Pace F S) → F → ℕ → ℕ → Run F S → Option (Run F S × Bool)
  run_ticks pace obs_time zero tick r = some (r, false)
  run_ticks pace obs_time (suc n) tick r =
      let rest = produce (pace tick) obs_time tick r >>= run_ticks pace obs_time n (tick + 1) in
      if (pace tick).stopped || (pace tick).early && (pace tick).stopped_waiting
      then some (r, true)
      else rest

  -- nTicks
  abbrev pub n_ticks : F → ℕ
  n_ticks scan_duration_s = pos_part (fl.to_int (fl.div scan_duration_s (block_duration_s fl)))

  unfoldable pub run : (ℕ → Pace F S) → F → F → Run F S → Option (Run F S × Bool)
  unfolding run_ticks
  run pace obs_time scan_duration_s r = run_ticks pace obs_time (n_ticks scan_duration_s) 0 r
