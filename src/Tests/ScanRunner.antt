-- ===== src/Tests/ScanRunner.antt =====
-- internal/common/scan_runner.go: a run of two ticks for one channel that is stopped at the second.
use ska_low_station_beam_sim.Prelude.{
  ℕ, ◌≤◌, ◌≡◌, refl, Bool, true, false, leb, arith, [], ◌∷◌, some, none, replicate, ◌==◌,
}
use ska_low_station_beam_sim.Prelude.Int.{ℤ, pos}
use ska_low_station_beam_sim.Float.Fixed.{fixed}
use ska_low_station_beam_sim.Common.Heap.{Complex}
use ska_low_station_beam_sim.Common.Accumulator.{new_accumulator}
use ska_low_station_beam_sim.Common.Accumulator.Adding.{new_accumulator-IsWellFormed}
use ska_low_station_beam_sim.Common.ScanRunner.{Streamer, Pace, Run, run}
use ska_low_station_beam_sim.Common.ScanRunner.Stopping.{run-stops}
use ska_low_station_beam_sim.Common.ScanRunner.Ticks.{IsIdle, Delivers, scan_heaps, run-offered}

abbrev zero_sample : Complex ℤ
zero_sample = (pos 0, pos 0)

abbrev one_channel : Streamer ℤ ℤ
one_channel = record {
  channel_id_map = pos 3 ∷ [];
  tick_n_samples = 2048;
  complex_path_channel_id_map = none;
  generate_next_tick = λ k _ _ _. replicate 2048 (pos k, pos 1);
  generate_quantized_heaps = none;
}

abbrev pace : ℕ → Pace ℤ ℤ
pace k = record {
  stopped = k == 1;
  early = false;
  stopped_waiting = false;
  drift = pos 0;
  pooled = λ _ _. replicate 2048 (pos 99, pos 99);
}

abbrev start : Run ℤ ℤ
start = record {
  accumulator = new_accumulator 4 1 (pos 0) (pos 925_925_925_925) (some (pos 3 ∷ []));
  drift_seconds = pos 0;
  tick_number = 0;
  offered = [];
}

start-IsIdle : IsIdle fixed zero_sample one_channel (pos 0) pace start.accumulator 0
unfolding new_accumulator
start-IsIdle = record {
  well_formed = new_accumulator-IsWellFormed 4 1 (pos 0) (pos 925_925_925_925) (pos 3 ∷ []) refl;
  no_v = refl;
  no_h = refl;
  count = refl;
}

one_channel-Delivers : (n : ℕ) → Delivers fixed zero_sample one_channel (pos 0) pace n
one_channel-Delivers n = record {
  whole_heap = refl;
  pooled = λ _ _ _. refl;
  pieces = λ _ _ _ _ _. refl;
}

run-offered_example :
    (done : ℕ) × (stopped : Bool) × (r' : Run ℤ ℤ) × (run fixed zero_sample one_channel pace
        (pos 0)
        (pos 10_000)
        start
      ≡ some (r', stopped))
    × (done ≤ 4)
    × (stopped ≡ false → done ≡ 4)
    × (r'.offered
        ≡ scan_heaps fixed zero_sample one_channel (pos 0) pace start.accumulator done 0 0)
run-offered_example =
    run-offered fixed zero_sample one_channel (pos 0) pace (pos 10_000) start start-IsIdle
      (one_channel-Delivers start.accumulator.num_channels)

-- The stop channel is closed from the third tick on.
abbrev stopped_pace : ℕ → Pace ℤ ℤ
stopped_pace k = record {
  stopped = leb 2 k;
  early = false;
  stopped_waiting = false;
  drift = pos 0;
  pooled = λ _ _. replicate 2048 (pos 99, pos 99);
}

stopped_start-IsIdle : IsIdle fixed zero_sample one_channel (pos 0) stopped_pace start.accumulator 0
unfolding new_accumulator
stopped_start-IsIdle = record {
  well_formed = new_accumulator-IsWellFormed 4 1 (pos 0) (pos 925_925_925_925) (pos 3 ∷ []) refl;
  no_v = refl;
  no_h = refl;
  count = refl;
}

stopped-Delivers : (n : ℕ) → Delivers fixed zero_sample one_channel (pos 0) stopped_pace n
stopped-Delivers n = record {
  whole_heap = refl;
  pooled = λ _ _ _. refl;
  pieces = λ _ _ _ _ _. refl;
}

is_stopped : (i : ℕ) → 2 ≤ i → (stopped_pace i).stopped ≡ true
is_stopped i late = ground arith

run-stops_example :
    (done : ℕ) × (r' : Run ℤ ℤ) × (run fixed zero_sample one_channel stopped_pace
        (pos 0)
        (pos 10_000)
        start
      ≡ some (r', true))
    × (done ≤ 2)
    × (r'.offered
        ≡ scan_heaps fixed zero_sample one_channel (pos 0) stopped_pace start.accumulator done 0 0)
run-stops_example =
    run-stops fixed zero_sample one_channel (pos 0) stopped_pace (pos 10_000) start 2
      stopped_start-IsIdle (stopped-Delivers start.accumulator.num_channels) is_stopped
      (omega arith)
