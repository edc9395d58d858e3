-- ===== src/Tests/Server.antt =====
-- internal/server: a scan of 8 channels with two tones, a request for 9 channels, and a push.
use Prim.Native.String.{String}
use text.Mathlib.Text.{◌==◌}
use text.Mathlib.TextEquality.{eq_iff}
use ska_low_station_beam_sim.Prelude.{
  ℕ, ◌*◌, ◌≢◌, ◌≤◌, ◌≡◌, ◌↔◌, refl, true, false, List, [], ◌∷◌, none, arith,
}
use ska_low_station_beam_sim.Prelude.Int.{ℤ, pos}
use ska_low_station_beam_sim.Float.Fixed.{fixed}
use ska_low_station_beam_sim.Common.Delay.{DelayPolynomial}
use ska_low_station_beam_sim.Synth.Streamer.{new_streamer}
use ska_low_station_beam_sim.Server.Requests.{
  ToneSource, StartScanRequest, answer, refusal, invalid_argument, Server,
}
use ska_low_station_beam_sim.Server.Handlers.{
  new_server, start_scan, register, snapshot_status, find_feed,
}
use ska_low_station_beam_sim.Server.Refusals.{
  Accepts, Leaves, start_scan-answers, start_scan-refused,
}
use ska_low_station_beam_sim.Server.Scans.{
  World, Reach, begins, then_step, starts, started_world, running, at_most_one_scan,
}
use ska_low_station_beam_sim.Server.Feeds.{Reaches, push_delay_update-Reaches}

abbrev draws : ℕ → ℕ → ℕ → ℤ
draws seed1 seed2 k = pos (k * 1000)

abbrev in_order : List ℕ → List ℕ
in_order keys = keys

abbrev first_tone : ToneSource ℤ
first_tone = record { source_id = "a"; freq_hz = pos 52_344_800_000_000; amplitude = pos 0 }

abbrev second_tone : ToneSource ℤ
second_tone = record { source_id = "b"; freq_hz = pos 51_000_000_000_000; amplitude = pos 500_000 }

abbrev request : StartScanRequest ℤ
request = record {
  obs_time_epoch_s = pos 1_000_000;
  scan_duration_s = pos 10_000;
  scan_id = pos 7;
  subarray_id = pos 1;
  beam_id = pos 2;
  num_channels = pos 8;
  tone_sources = first_tone ∷ second_tone ∷ [];
  noise = none;
  start_channel = pos 64;
  negate_delay = false;
}

abbrev bad_request : StartScanRequest ℤ
bad_request = record request { num_channels = pos 9 }

abbrev server : Server ℤ ℤ
server = new_server fixed (pos 3) (pos 4) (pos 2)

start_scan-answers_example :
    ((start_scan fixed 4 draws in_order request server).1 ≡ answer tt)
    ↔ Accepts fixed 4 draws in_order request server
start_scan-answers_example = start_scan-answers fixed 4 draws in_order request server

differ : (s t : String) → (s == t) ≡ false → s ≢ t
differ s t e same = let h = (eq_iff s t).1 same in cc

is_accepted : Accepts fixed 4 draws in_order request server
unfolding new_server
is_accepted = (
  refl,
  ((differ "a" "" refl, (differ "a" "b" refl, tt), (differ "b" "" refl, tt, tt))),
  (8, refl, omega arith, omega arith, refl, omega arith, omega arith),
)

is_started : (start_scan fixed 4 draws in_order request server).1 ≡ answer tt
is_started = start_scan-answers_example.1 is_accepted

is_refused : (start_scan fixed 4 draws in_order bad_request server).1 ≡ refusal invalid_argument
unfolding start_scan new_server register find_feed new_streamer
is_refused = refl

start_scan-refused_example :
    Leaves fixed 4 draws in_order bad_request server invalid_argument
      (start_scan fixed 4 draws in_order bad_request server).0
start_scan-refused_example =
    start_scan-refused fixed 4 draws in_order bad_request server invalid_argument is_refused

abbrev first_world : World ℤ ℤ
first_world = record { server = server; earlier = [] }

abbrev world : World ℤ ℤ
world =
    started_world fixed 4 draws in_order first_world
      (start_scan fixed 4 draws in_order request server)

world_reached : Reach fixed 4 draws in_order world
world_reached = then_step (begins (pos 3) (pos 4) (pos 2)) (starts request)

at_most_one_scan_example :
    (running fixed 4 draws in_order world ≤ 1)
    × (((snapshot_status fixed world.server).scan_running ≡ true)
        ↔ (running fixed 4 draws in_order world ≡ 1))
at_most_one_scan_example = at_most_one_scan fixed 4 draws in_order world world_reached

abbrev poly : DelayPolynomial ℤ
poly = record {
  station_id = pos 3;
  start_validity_sec = pos 0;
  validity_period_sec = pos 600_000_000;
  xypol_coeffs_ns = pos 2_000_000 ∷ [];
  ypol_offset_ns = pos 5_000_000;
}

push_delay_update-Reaches_example :
    Reaches fixed 4 draws in_order server
      (start_scan fixed 4 draws in_order request server).0
      poly
      1
      second_tone
push_delay_update-Reaches_example =
    push_delay_update-Reaches fixed 4 draws in_order request server poly 1 second_tone is_started
      refl
