-- ===== src/Cmd/PcapDump.antt =====
-- cmd/pcap-dump/main.go: the heaps of a number of ticks, each as a packet of a capture file. The flags,
-- the clock and os.Create are arguments: the file is a state and a function that says whether a write
-- succeeded, and `clock n` is the time, in seconds and nanoseconds, at which packet `n` is written.
pub mod Capture
pub mod Program
use ska_low_station_beam_sim.Prelude.{
  ℕ, zero, suc, ◌+◌, ◌^◌, Bool, true, false, List, [], ◌∷◌, Option, none, some, if◌then◌else◌,
  length,
}
use ska_low_station_beam_sim.Prelude.Int.{ℤ, pos, neg_int, ltb_ℤ, pos_part, to_word}
use ska_low_station_beam_sim.Float.{Float, constant}
use ska_low_station_beam_sim.Common.Time.{channel_output_rate_hz}
use ska_low_station_beam_sim.Common.Heap.{Complex, ChannelHeap, StationConfig}
use ska_low_station_beam_sim.Common.Accumulator.{
  Pol, HeapAccumulator, new_accumulator, pop_ready_heaps,
}
use ska_low_station_beam_sim.Common.Delay.{DelayFeed, DelayPolynomial, new_delay_feed, update}
use ska_low_station_beam_sim.Common.ScanRunner.{Streamer, Pace, quantized_of, fill, sim_time}
use ska_low_station_beam_sim.Spead.Packetizer.{
  EncodeError, SpsPacketizer, new_packetizer, set_quantize_scale, encode_channel_heap,
}
use ska_low_station_beam_sim.Pcap.{PcapWriter, new_writer, write_udp_packet}
use ska_low_station_beam_sim.Synth.Config.{ToneSourceConfig, StreamerConfig, Checked, ok, err}
use ska_low_station_beam_sim.Synth.Streamer.{
  DirectSynthesisStreamer, new_streamer, quantize_scale, complex_path_channel_id_map,
}
use ska_low_station_beam_sim.Synth.Quantized.Scan.{as_streamer}
use ska_low_station_beam_sim.Server.Handlers.{to_int32}
use ska_low_station_beam_sim.Cmd.Exit.{Exit, finished, fatal, panicked, ◌>>=◌, or_panic, or_fatal}

-- The flags of the command line but the name of the file.
pub record Flags (F : Type 0) : Type 0 where
  pub start_channel : ℤ
  pub num_channels : ℤ
  pub num_ticks : ℤ
  pub tone_freq_hz : F
  pub tone_amplitude : F
  pub negate_delay : Bool

-- stationCfg
unfoldable pub station_cfg : {F : Type 0} → Flags F → StationConfig
station_cfg flags = record {
  station_id = pos 1;
  substation_id = pos 1;
  subarray_id = pos 1;
  beam_id = pos 1;
  scan_id = pos 1;
  start_channel = to_int32 (to_word 32 flags.start_channel);
}

-- A packet was written, or its error ends the program.
abbrev pub written : {W : Type 0} → ℕ → PcapWriter W × Bool → Exit (PcapWriter W × ℕ)
written n (pw, true) = finished (pw, n + 1)
written n (pw, false) = fatal

module _ {F S : Type 0} (fl : Float F S) where
  -- The polynomial of the test tone.
  unfoldable pub test_polynomial : F → DelayPolynomial F
  test_polynomial obs_time = record {
    station_id = pos 0;
    start_validity_sec = obs_time;
    validity_period_sec = constant fl (pos 1_000_000_000);
    xypol_coeffs_ns =
        fl.of_ratio (pos 850_119_040_321_062) (10 ^ 11)
        ∷ fl.of_ratio (neg_int (pos 7_822_609_065_561_508)) (10 ^ 16)
        ∷ fl.of_ratio (neg_int (pos 16_592_202_916_405_917)) (10 ^ 21)
        ∷ fl.of_ratio (pos 6_932_753_103_396_767) (10 ^ 25)
        ∷ fl.of_ratio (pos 7_355_307_614_008_184) (10 ^ 30)
        ∷ fl.of_ratio (neg_int (pos 18_744_975_492_671_921)) (10 ^ 35)
        ∷ [];
    ypol_offset_ns = constant fl (pos 0);
  }

  -- toneFeed, the only feed; its warnings, which change no sample, are left out.
  unfoldable pub tone_feed : F → DelayFeed F
  tone_feed obs_time = update (test_polynomial obs_time) (new_delay_feed fl)

  -- toneSources
  unfoldable pub tone_sources : Flags F → List (ToneSourceConfig F)
  tone_sources flags =
      if fl.lt (constant fl (pos 0)) flags.tone_freq_hz
      then record {
        delay_feed = some 0;
        freq_hz = flags.tone_freq_hz;
        amplitude = flags.tone_amplitude;
      }
        ∷ []
      else []

  -- The configuration of the streamer.
  unfoldable pub dump_config : F → Flags F → StreamerConfig F
  dump_config obs_time flags = record {
    tone_sources = tone_sources flags;
    obs_time_ref = obs_time;
    noise = some (record { std = fl.of_ratio (pos 5) 100; seed = pos 1 });
    num_channels = flags.num_channels;
    start_channel = (station_cfg flags).start_channel;
    base_freq_hz = constant fl (pos 0);
    channel_width_hz = constant fl (pos 0);
    n_tiles = 0;
    tile_n_samples = 0;
    num_workers = 0;
    negate_delay = flags.negate_delay;
  }

  -- The streamer as the loop calls it, with the feed of the test tone. `inf` is math.Inf(1), and `bytes`
  -- are the buffers of the pool.
  abbrev pub dump_streamer :
      F → (ℕ → Pol → ℕ → List ℕ) → F → DirectSynthesisStreamer F S → Streamer F S
  dump_streamer inf bytes obs_time s = as_streamer fl inf s (λ _ _ _. tone_feed obs_time) bytes

  -- packetizer
  abbrev pub dump_packetizer : Flags F → DirectSynthesisStreamer F S → SpsPacketizer
  dump_packetizer flags s =
      set_quantize_scale fl (quantize_scale fl s) (new_packetizer (station_cfg flags))

  -- accumulator
  abbrev pub dump_accumulator : ℕ → F → DirectSynthesisStreamer F S → HeapAccumulator F S
  dump_accumulator cpus obs_time s =
      let ids = complex_path_channel_id_map s in
      new_accumulator cpus (length ids) obs_time (channel_output_rate_hz fl) (some ids)

  module _ {W : Type 0} (write : List ℕ → W → W × Bool) (clock : ℕ → ℕ × ℕ) where
    abbrev pub put_encoded :
        Option (List ℕ × Option EncodeError) → PcapWriter W × ℕ → Exit (PcapWriter W × ℕ)
    put_encoded none st = panicked
    put_encoded (some (encoded, some e)) st = fatal
    put_encoded (some (encoded, none)) (pw, n) =
        written n (write_udp_packet write encoded ((clock n).0) ((clock n).1) pw)

    -- writeHeap and the count of the heaps
    unfoldable pub write_heap :
        SpsPacketizer → ChannelHeap F S → PcapWriter W × ℕ → Exit (PcapWriter W × ℕ)
    write_heap p heap st = put_encoded (encode_channel_heap fl p heap) st

    -- A loop over heaps.
    unfoldable pub write_heaps :
        SpsPacketizer → List (ChannelHeap F S) → PcapWriter W × ℕ → Exit (PcapWriter W × ℕ)
    write_heaps p [] st = finished st
    write_heaps p (heap ∷ heaps) st = write_heap p heap st >>= write_heaps p heaps

    -- The loop over the ticks, for `n` of them from `tick` on.
    unfoldable pub dump_ticks :
        SpsPacketizer
        → Complex S
        → Streamer F S
        → (ℕ → Pace F S)
        → F
        → ℕ
        → ℕ
        → HeapAccumulator F S
        → PcapWriter W × ℕ
        → Exit (PcapWriter W × ℕ)
    dump_ticks p blank streamer pace obs_time zero tick a st = finished st
    dump_ticks p blank streamer pace obs_time (suc n) tick a st =
        let t = sim_time fl blank streamer obs_time tick in
        or_panic (fill blank streamer (pace tick) tick t a) >>= λ filled.
        or_panic (pop_ready_heaps fl filled) >>= λ (a', heaps). write_heaps p heaps st >>= λ st1.
        write_heaps p (quantized_of streamer.generate_quantized_heaps tick t) st1 >>= λ st2.
        dump_ticks p blank streamer pace obs_time n (tick + 1) a' st2

    -- The buffers that the pools give at each tick, and what the program does with them.
    module _ (inf : F) (blank : Complex S) (pace : ℕ → Pace F S) (bytes : ℕ → Pol → ℕ → List ℕ)
        (cpus : ℕ) (draws : ℕ → ℕ → ℕ → F) (order : List ℕ → List ℕ) where
      abbrev pub with_streamer :
          F → Flags F → Option W → Checked (DirectSynthesisStreamer F S) → Exit (PcapWriter W × ℕ)
      with_streamer obs_time flags file (err e) = fatal
      with_streamer obs_time flags file (ok s) = or_fatal file >>= λ w.
          or_fatal (new_writer write w) >>= λ pw.
          dump_ticks (dump_packetizer flags s) blank (dump_streamer inf bytes obs_time s) pace
            obs_time (pos_part flags.num_ticks) 0 (dump_accumulator cpus obs_time s) (pw, 0)

      -- main after flag.Parse: the writer and the number of heaps at its end. `file` is the outcome of
      -- os.Create.
      unfoldable pub pcap_dump : F → Flags F → Option W → Exit (PcapWriter W × ℕ)
      pcap_dump obs_time flags file =
          if ltb_ℤ flags.num_ticks (pos 1)
          then fatal
          else with_streamer obs_time flags file
              (new_streamer fl cpus draws order (dump_config obs_time flags))
