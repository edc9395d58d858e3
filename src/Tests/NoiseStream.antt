-- ===== src/Tests/NoiseStream.antt =====
-- cmd/noise-stream: the start for 96 channels, at the time of the call and with the default number of
-- senders.
use Prim.Native.String.{String}
use text.Mathlib.Text.{◌==◌}
use ska_low_station_beam_sim.Prelude.{
  ℕ, ◌+◌, ◌*◌, ◌≡◌, refl, Bool, true, false, List, [], ◌∷◌, Option, some, none, map, range_from,
}
use ska_low_station_beam_sim.Prelude.Int.{ℤ, pos}
use ska_low_station_beam_sim.Float.Fixed.{fixed}
use ska_low_station_beam_sim.Common.Control.{is_running}
use ska_low_station_beam_sim.Common.Queue.{num_shards}
use ska_low_station_beam_sim.Netutil.{Addr}
use ska_low_station_beam_sim.Spead.Sender.{default_num_senders_for_channels}
use ska_low_station_beam_sim.Spead.Sender.Sockets.{dialled}
use ska_low_station_beam_sim.Synth.Config.{ok}
use ska_low_station_beam_sim.Synth.Streamer.{
  DirectSynthesisStreamer, check_tones, with_banks, build, new_streamer, base_of, width_of,
  quantize_scale,
}
use ska_low_station_beam_sim.Server.Starting.{LocalAddr, any_local}
use ska_low_station_beam_sim.Cmd.Exit.{finished}
use ska_low_station_beam_sim.Cmd.NoiseStream.{
  StreamFlags, Prepared, parse_obs_time, local_addr, stream_senders, stream_tones, stream_config,
  noise_stream,
}
use ska_low_station_beam_sim.Cmd.NoiseStream.Wiring.{stream_shards, noise_stream_lem}

abbrev flags : StreamFlags ℤ
flags = record {
  obs_time = "now";
  scan_duration = pos 60_000_000;
  station_id = pos 1;
  substation_id = pos 1;
  subarray_id = pos 1;
  beam_id = pos 1;
  scan_id = pos 1;
  num_channels = pos 96;
  noise_std = pos 50_000;
  noise_seed = pos 0;
  noise_seed_is_set = false;
  tone_freq_hz = pos 0;
  tone_amplitude = pos 1_000_000;
  num_senders = pos 0;
  num_senders_is_set = false;
  destination = record { source_interface = ""; dest_ip = "127.0.0.1"; dest_port = pos 8000 };
}

abbrev draws : ℕ → ℕ → ℕ → ℤ
draws seed1 seed2 k = pos (k * 1000)

abbrev in_order : List ℕ → List ℕ
in_order keys = keys

abbrev by_name : String → Option ℕ
by_name name = none

abbrev addrs_of : ℕ → Option (List Addr)
addrs_of _ = none

abbrev resolve : String → ℤ → Option String
resolve host port = some host

abbrev dial : LocalAddr → String → ℕ → Option ℕ
dial local dest i = some (40_000 + i)

abbrev equals_now : String → Bool
equals_now s = s == "now"

abbrev parse_float : String → Option ℤ
parse_float s = none

abbrev streamer : DirectSynthesisStreamer ℤ ℤ
streamer = with_banks fixed 4 draws in_order (stream_config fixed (pos 7_000_000) flags).noise (
    build fixed 4 draws in_order (stream_config fixed (pos 7_000_000) flags) 96
      (base_of fixed (stream_config fixed (pos 7_000_000) flags))
      (width_of fixed (stream_config fixed (pos 7_000_000) flags)) [] [])

is_built :
    new_streamer fixed 4 draws in_order (stream_config fixed (pos 7_000_000) flags) ≡ ok streamer
unfolding new_streamer check_tones stream_config stream_tones
is_built = refl

is_local : local_addr by_name addrs_of flags.destination ≡ finished any_local
unfolding local_addr
is_local = refl

are_dialled :
    dialled (dial any_local "127.0.0.1") 0 (stream_shards flags)
    ≡ some (40_000 ∷ 40_001 ∷ 40_002 ∷ 40_003 ∷ [])
unfolding dialled stream_senders default_num_senders_for_channels
are_dialled = refl

is_now : parse_obs_time equals_now parse_float (pos 7_000_000) "now" ≡ some (pos 7_000_000)
unfolding parse_obs_time
is_now = refl

noise_stream_lem_example :
    (r : Prepared ℤ ℤ ℕ) × (noise_stream fixed 4 draws in_order by_name addrs_of resolve dial
        equals_now parse_float
        (pos 7_000_000)
        flags
      ≡ finished r)
    × (num_shards r.queue ≡ stream_shards flags)
    × (r.pool.conns ≡ 40_000 ∷ 40_001 ∷ 40_002 ∷ 40_003 ∷ [])
    × (4 ≡ stream_shards flags)
    × (map (λ (loop : ℕ × ℕ). loop.0) r.pool.loops ≡ range_from 0 (stream_shards flags))
    × (map (λ (loop : ℕ × ℕ). loop.1) r.pool.loops ≡ 40_000 ∷ 40_001 ∷ 40_002 ∷ 40_003 ∷ [])
    × (r.pool.packetizer.quantize_scale_bits ≡ fixed.bits (quantize_scale fixed streamer))
    × (r.streamer ≡ streamer)
    × (is_running r.control ≡ true)
    × (false ≡ false → stream_shards flags ≡ default_num_senders_for_channels 96)
noise_stream_lem_example =
    noise_stream_lem fixed 4 draws in_order by_name addrs_of resolve dial equals_now parse_float
      (pos 7_000_000) flags (pos 7_000_000) streamer any_local "127.0.0.1"
      (40_000 ∷ 40_001 ∷ 40_002 ∷ 40_003 ∷ []) is_now is_built is_local refl are_dialled
