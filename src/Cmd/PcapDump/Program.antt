-- ===== src/Cmd/PcapDump/Program.antt =====
-- cmd/pcap-dump/main.go: the whole program, up to the end of its loop.
use ska_low_station_beam_sim.Prelude.{ℕ, ◌≡◌, List}
use ska_low_station_beam_sim.Prelude.Int.{pos_part}
use ska_low_station_beam_sim.Float.{Float}
use ska_low_station_beam_sim.Common.Heap.{Complex, ChannelHeap}
use ska_low_station_beam_sim.Common.Accumulator.{Pol}
use ska_low_station_beam_sim.Common.ScanRunner.{Pace}
use ska_low_station_beam_sim.Common.ScanRunner.Ticks.{scan_heaps}
use ska_low_station_beam_sim.Pcap.{PcapWriter}
use ska_low_station_beam_sim.Synth.Streamer.{DirectSynthesisStreamer}
use ska_low_station_beam_sim.Cmd.Exit.{Exit, finished, fatal, panicked}
use ska_low_station_beam_sim.Cmd.PcapDump.{Flags, dump_streamer, dump_accumulator}

module _ {W : Type 0} where
  -- The program did not panic, and if it finished, it has counted `n` heaps.
  pub Counted : ℕ → Exit (PcapWriter W × ℕ) → Type 0
  Counted n (finished (pw, count)) = count ≡ n
  Counted n fatal = Unit
  Counted n panicked = ⊥

module _ {F S : Type 0} (fl : Float F S) (inf : F) (blank : Complex S) (pace : ℕ → Pace F S)
    (bytes : ℕ → Pol → ℕ → List ℕ) (cpus : ℕ) where
  -- The heaps that a scan of the program's streamer offers, if it is not stopped, in as many ticks.
  abbrev pub captured : F → Flags F → DirectSynthesisStreamer F S → List (ChannelHeap F S)
  captured obs_time flags s =
      scan_heaps fl blank (dump_streamer fl inf bytes obs_time s) obs_time pace
        (dump_accumulator fl cpus obs_time s) (pos_part flags.num_ticks) 0 0
