-- ===== src/Cmd/NoiseStream.antt =====
-- cmd/noise-stream/main.go: what the program puts together before its scan runs. The flags after their
-- parsing, the network and the clock are arguments; `equals_now` and `parse_float` are strings.EqualFold
-- against "now" and strconv.ParseFloat.
pub mod Wiring
use text.Mathlib.Text.{◌==◌}
use Prim.Native.String.{String}
use ska_low_station_beam_sim.Prelude.{
  ℕ, Bool, true, false, List, [], ◌∷◌, Option, none, some, if◌then◌else◌,
}
use ska_low_station_beam_sim.Prelude.Int.{ℤ, pos, pos_part, to_word}
use ska_low_station_beam_sim.Float.{Float, constant}
use ska_low_station_beam_sim.Common.Constants.{channel_start, queue_max_size}
use ska_low_station_beam_sim.Common.Control
use ska_low_station_beam_sim.Common.Control.{Control}
use ska_low_station_beam_sim.Common.Heap.{StationConfig}
use ska_low_station_beam_sim.Common.Delay.{DelayFeed, DelayPolynomial, new_delay_feed, update}
use ska_low_station_beam_sim.Common.Queue.{ShardedHeapQueue, new_sharded, num_shards}
use ska_low_station_beam_sim.Spead.Packetizer.{set_quantize_scale}
use ska_low_station_beam_sim.Spead.Sender.{
  SenderPool, new_sender_pool, default_num_senders_for_channels,
}
use ska_low_station_beam_sim.Netutil.{Addr, Lookup, found, lookup_failed, interface_ipv4_addr}
use ska_low_station_beam_sim.Synth.Config.{ToneSourceConfig, StreamerConfig, Checked, ok, err}
use ska_low_station_beam_sim.Synth.Streamer.{DirectSynthesisStreamer, new_streamer, quantize_scale}
use ska_low_station_beam_sim.Server.Handlers.{to_int32}
use ska_low_station_beam_sim.Server.Starting.{LocalAddr, any_local, local_ip, Destination}
use ska_low_station_beam_sim.Cmd.Exit.{Exit, finished, fatal, ◌>>=◌, or_fatal}

-- The flags that are read after the observation time; `is_set` fields are isFlagSet.
pub record StreamFlags (F : Type 0) : Type 0 where
  pub obs_time : String
  pub scan_duration : F
  pub station_id : ℤ
  pub substation_id : ℤ
  pub subarray_id : ℤ
  pub beam_id : ℤ
  pub scan_id : ℤ
  pub num_channels : ℤ
  pub noise_std : F
  pub noise_seed : ℤ
  pub noise_seed_is_set : Bool
  pub tone_freq_hz : F
  pub tone_amplitude : F
  pub num_senders : ℤ
  pub num_senders_is_set : Bool
  pub destination : Destination

abbrev pub int32 : ℤ → ℤ
int32 n = to_int32 (to_word 32 n)

module _ {F : Type 0} where
  -- parseObsTime
  unfoldable pub parse_obs_time : (String → Bool) → (String → Option F) → F → String → Option F
  parse_obs_time equals_now parse_float now s = if equals_now s then some now else parse_float s

  -- seed
  abbrev pub stream_seed : StreamFlags F → ℤ
  stream_seed flags = if flags.noise_seed_is_set then flags.noise_seed else flags.station_id

  -- numSenders; a number of channels below 1 has the default of 0 channels.
  unfoldable pub stream_senders : StreamFlags F → ℤ
  stream_senders flags =
      if flags.num_senders_is_set
      then flags.num_senders
      else pos (default_num_senders_for_channels (pos_part flags.num_channels))

  unfoldable pub stream_station : StreamFlags F → StationConfig
  stream_station flags = record {
    station_id = int32 flags.station_id;
    substation_id = int32 flags.substation_id;
    subarray_id = int32 flags.subarray_id;
    beam_id = int32 flags.beam_id;
    scan_id = flags.scan_id;
    start_channel = pos channel_start;
  }

abbrev or_built :
    {F S : Type 0} → Checked (DirectSynthesisStreamer F S) → Exit (DirectSynthesisStreamer F S)
or_built (err e) = fatal
or_built (ok s) = finished s

abbrev or_found : Lookup → Exit LocalAddr
or_found (lookup_failed e) = fatal
or_found (found ip) = finished (local_ip ip)

-- localAddr
unfoldable pub local_addr :
    {I : Type 0} → (String → Option I) → (I → Option (List Addr)) → Destination → Exit LocalAddr
local_addr by_name addrs_of d =
    if d.source_interface == ""
    then finished any_local
    else or_found (interface_ipv4_addr by_name addrs_of d.source_interface)

-- What runs when main waits for the end of the scan.
pub record Prepared (F S C : Type 0) : Type 0 where
  pub obs_time : F
  pub scan_duration : F
  pub streamer : DirectSynthesisStreamer F S
  pub tone_feed : DelayFeed F
  pub queue : ShardedHeapQueue F S
  pub pool : SenderPool C
  pub control : Control

module _ {F S : Type 0} (fl : Float F S) where
  -- The feed of the test tone.
  unfoldable pub static_feed : F → DelayFeed F
  static_feed obs_time =
      update
        (record {
          station_id = pos 0;
          start_validity_sec = obs_time;
          validity_period_sec = constant fl (pos 1_000_000_000);
          xypol_coeffs_ns = constant fl (pos 0) ∷ [];
          ypol_offset_ns = constant fl (pos 0);
        })
        (new_delay_feed fl)

  -- toneSources
  unfoldable pub stream_tones : StreamFlags F → List (ToneSourceConfig F)
  stream_tones flags =
      if fl.lt (constant fl (pos 0)) flags.tone_freq_hz
      then record {
        delay_feed = some 0;
        freq_hz = flags.tone_freq_hz;
        amplitude = flags.tone_amplitude;
      }
        ∷ []
      else []

  -- The configuration of the streamer.
  unfoldable pub stream_config : F → StreamFlags F → StreamerConfig F
  stream_config obs_time flags = record {
    tone_sources = stream_tones flags;
    obs_time_ref = obs_time;
    noise = some (record { std = flags.noise_std; seed = stream_seed flags });
    num_channels = flags.num_channels;
    start_channel = pos channel_start;
    base_freq_hz = constant fl (pos 0);
    channel_width_hz = constant fl (pos 0);
    n_tiles = 0;
    tile_n_samples = 0;
    num_workers = 0;
    negate_delay = false;
  }

  module _ {I D C : Type 0} (cpus : ℕ) (draws : ℕ → ℕ → ℕ → F) (order : List ℕ → List ℕ)
      (by_name : String → Option I) (addrs_of : I → Option (List Addr))
      (resolve : String → ℤ → Option D) (dial : LocalAddr → D → ℕ → Option C)
      (equals_now : String → Bool) (parse_float : String → Option F) where
    -- main up to the start of the scan, called at the time `now`
    unfoldable pub noise_stream : F → StreamFlags F → Exit (Prepared F S C)
    noise_stream now flags =
        or_fatal (parse_obs_time equals_now parse_float now flags.obs_time) >>= λ obs_time.
        or_built (new_streamer fl cpus draws order (stream_config obs_time flags)) >>= λ streamer.
        local_addr by_name addrs_of flags.destination >>= λ local.
        or_fatal (resolve flags.destination.dest_ip flags.destination.dest_port) >>= λ dest.
        let queue : ShardedHeapQueue F S = new_sharded (stream_senders flags) queue_max_size in
        or_fatal ((new_sender_pool (dial local dest) (stream_station flags) (num_shards queue)).0)
        >>= λ pool. finished (record {
          obs_time = obs_time;
          scan_duration = flags.scan_duration;
          streamer = streamer;
          tone_feed = static_feed obs_time;
          queue = queue;
          pool = record pool {
            packetizer = set_quantize_scale fl (quantize_scale fl streamer) pool.packetizer;
          };
          control = Control.start Control.idle;
        })
