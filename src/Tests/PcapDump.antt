-- ===== src/Tests/PcapDump.antt =====
-- cmd/pcap-dump: two ticks of 8 channels without a tone, in an arithmetic whose constants are rounded to
-- the nearest millionth.
use ska_low_station_beam_sim.Prelude.{
  ℕ, ◌+◌, ◌*◌, ◌/◌, Bool, true, false, List, [], ◌∷◌, ◌++◌, replicate,
}
use ska_low_station_beam_sim.Prelude.Int.{ℤ, pos, negsuc, neg_int}
use ska_low_station_beam_sim.Float.{Float}
use ska_low_station_beam_sim.Float.Fixed.{fixed}
use ska_low_station_beam_sim.Common.Accumulator.{Pol}
use ska_low_station_beam_sim.Common.ScanRunner.{Pace}
use ska_low_station_beam_sim.Pcap.{PcapWriter, global_header}
use ska_low_station_beam_sim.Synth.Streamer.{
  DirectSynthesisStreamer, with_banks, build, base_of, width_of,
}
use ska_low_station_beam_sim.Cmd.PcapDump.{Flags, dump_config}

abbrev nearest : ℤ → ℕ → ℤ
nearest (pos n) d = pos ((n * 2_000_000 + d) / (2 * d))
nearest (negsuc n) d = neg_int (pos (((n + 1) * 2_000_000 + d) / (2 * d)))

abbrev rounded : Float ℤ ℤ
rounded = record fixed { of_ratio = nearest }

abbrev flags : Flags ℤ
flags = record {
  start_channel = pos 64;
  num_channels = pos 8;
  num_ticks = pos 2;
  tone_freq_hz = pos 0;
  tone_amplitude = pos 1_000_000;
  negate_delay = false;
}

abbrev draws : ℕ → ℕ → ℕ → ℤ
draws seed1 seed2 k = pos (k * 1000)

abbrev in_order : List ℕ → List ℕ
in_order keys = keys

abbrev streamer : DirectSynthesisStreamer ℤ ℤ
streamer = with_banks rounded 4 draws in_order (dump_config rounded (pos 0) flags).noise (
    build rounded 4 draws in_order (dump_config rounded (pos 0) flags) 8
      (base_of rounded (dump_config rounded (pos 0) flags))
      (width_of rounded (dump_config rounded (pos 0) flags)) [] [])

-- The file, as the bytes written so far.
abbrev append_bytes : List ℕ → List ℕ → List ℕ × Bool
append_bytes bytes file = (file ++ bytes, true)

abbrev clock : ℕ → ℕ × ℕ
clock n = (1_700_000_000 + n, 0)

abbrev writer : PcapWriter (List ℕ)
writer = record {
  w = global_header;
  src_mac = 0x02 ∷ 0 ∷ 0 ∷ 0 ∷ 0 ∷ 1 ∷ [];
  dst_mac = 0x02 ∷ 0 ∷ 0 ∷ 0 ∷ 0 ∷ 2 ∷ [];
  src_ip = 10 ∷ 0 ∷ 0 ∷ 1 ∷ [];
  dst_ip = 10 ∷ 0 ∷ 0 ∷ 2 ∷ [];
  src_port = 40000;
  dst_port = 8000;
  ip_id = 0;
}

abbrev pace : ℕ → Pace ℤ ℤ
pace k = record {
  stopped = false;
  early = false;
  stopped_waiting = false;
  drift = pos 0;
  pooled = λ _ _. replicate 2048 (pos 99, pos 99);
}

pooled : ℕ → Pol → ℕ → List ℕ
pooled k pol idx = replicate 4096 7
