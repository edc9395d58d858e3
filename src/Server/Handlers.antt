-- ===== src/Server/Handlers.antt =====
-- grpc_server.go: the handlers.
use text.Mathlib.Text.{◌==◌}
use Prim.Native.String.{String}
use ska_low_station_beam_sim.Prelude.{
  ℕ, zero, suc, ◌%◌, ◌^◌, Bool, ◌||◌, true, false, List, [], ◌∷◌, ◌++◌, Option, none, some,
  if◌then◌else◌, ltb, length, map_option,
}
use ska_low_station_beam_sim.Prelude.Int.{ℤ, pos, sub_ℕ}
use ska_low_station_beam_sim.Float.{Float, constant}
use ska_low_station_beam_sim.Common.Constants.{queue_max_size}
use ska_low_station_beam_sim.Common.Heap.{StationConfig}
use ska_low_station_beam_sim.Common.Control
use ska_low_station_beam_sim.Common.Control.{Control, is_running, stop_scan_loop}
use ska_low_station_beam_sim.Common.Delay.{DelayFeed, DelayPolynomial, new_delay_feed, update}
use ska_low_station_beam_sim.Common.Queue.{new_sharded, sharded_len}
use ska_low_station_beam_sim.Spead.Packetizer.{SpsPacketizer}
use ska_low_station_beam_sim.Synth.Config.{ToneSourceConfig, StreamerConfig, Checked, ok, err}
use ska_low_station_beam_sim.Synth.Streamer.{DirectSynthesisStreamer, new_streamer, quantize_scale}
use ska_low_station_beam_sim.Server.Requests.{
  ToneSource, StartScanRequest, PushDelayUpdateRequest, StatusResponse, failed_precondition,
  invalid_argument, not_found, Reply, answer, refusal, Scan, Server,
}

infixl 5 ◌>>=◌
abbrev pub ◌>>=◌ : {A B : Type 0} → Reply A → (A → Reply B) → Reply B
refusal code >>= rest = refusal code
answer a >>= rest = rest a

-- `delayFeeds[id]`
unfoldable pub find_feed : String → List (String × ℕ) → Option ℕ
find_feed id [] = none
find_feed id ((id', a) ∷ m) = if id' == id then some a else find_feed id m

abbrev pub is_some : Option ℕ → Bool
is_some none = false
is_some (some _) = true

-- `int32(n)`
abbrev pub to_int32 : ℕ → ℤ
to_int32 n = let w = n % 2 ^ 32 in if ltb w (2 ^ 31) then pos w else sub_ℕ w (2 ^ 32)

module _ {F : Type 0} where
  -- The fields of stationCfg that StartScan sets.
  abbrev pub station_of : StartScanRequest F → StationConfig → StationConfig
  station_of req station = record station {
    subarray_id = req.subarray_id;
    beam_id = req.beam_id;
    scan_id = req.scan_id;
    start_channel = req.start_channel;
  }

  -- A feed of the store is updated.
  abbrev pub update_at : ℕ → DelayPolynomial F → List (DelayFeed F) → List (DelayFeed F)
  update_at zero p [] = []
  update_at zero p (feed ∷ feeds) = update p feed ∷ feeds
  update_at (suc a) p [] = []
  update_at (suc a) p (feed ∷ feeds) = feed ∷ update_at a p feeds

abbrev pub packetizer_with : StationConfig → ℕ → SpsPacketizer
packetizer_with station bits = record { station = station; quantize_scale_bits = bits }

module _ {F S : Type 0} where
  -- `s.scanRunner != nil && s.scanRunner.IsRunning()`
  abbrev pub scan_running : Option (Scan F S) → Bool
  scan_running none = false
  scan_running (some scan) = is_running scan.control

  abbrev pub stopped_scan : Option (Scan F S) → Option (Scan F S)
  stopped_scan none = none
  stopped_scan (some scan) = some (record scan { control = stop_scan_loop scan.control })

  -- StopScan
  unfoldable pub stop_scan : Server F S → Server F S
  stop_scan s = record s { scan_runner = stopped_scan s.scan_runner }

  -- Stop; closing `shutdown` again is a panic.
  unfoldable pub stop : Server F S → Option (Server F S)
  stop s =
      if s.is_shut_down
      then none
      else some (record s { scan_runner = stopped_scan s.scan_runner; is_shut_down = true })

  -- The packetizer of the sender pool, as the senders see it.
  unfoldable pub pool_packetizer : Server F S → Option SpsPacketizer
  pool_packetizer s = map_option (packetizer_with s.station_cfg) s.sender_pool

  abbrev pub push_to :
      Server F S → Option (DelayPolynomial F) → Option ℕ → Server F S × Reply (Unit {0})
  push_to s p none = (s, refusal not_found)
  push_to s none (some a) = (s, refusal invalid_argument)
  push_to s (some p) (some a) = (record s { feeds = update_at a p s.feeds }, answer tt)

  -- PushDelayUpdate
  unfoldable pub push_delay_update :
      PushDelayUpdateRequest F → Server F S → Server F S × Reply (Unit {0})
  push_delay_update req s = push_to s req.polynomial (find_feed req.source_id s.delay_feeds)

module _ {F S : Type 0} (fl : Float F S) where
  -- NewServer, for the number of senders that its options leave.
  unfoldable pub new_server : ℤ → ℤ → ℤ → Server F S
  new_server station_id substation_id num_senders = record {
    num_senders = num_senders;
    station_cfg = record {
      station_id = station_id;
      substation_id = substation_id;
      subarray_id = pos 0;
      beam_id = pos 0;
      scan_id = pos 0;
      start_channel = pos 0;
    };
    scan_runner = none;
    delay_feeds = [];
    feeds = [];
    send_queue = new_sharded num_senders queue_max_size;
    sender_pool = none;
    is_shut_down = false;
  }

  abbrev pub tone_config : ℕ → ToneSource F → ToneSourceConfig F
  tone_config a ts = record { delay_feed = some a; freq_hz = ts.freq_hz; amplitude = ts.amplitude }

  -- The loop over the tone sources: the sources of the streamer, delayFeeds, and the store of feeds.
  unfoldable pub register :
      List (ToneSource F)
      → List (String × ℕ)
      → List (DelayFeed F)
      → Reply (List (ToneSourceConfig F) × List (String × ℕ) × List (DelayFeed F))
  register [] m feeds = answer ([], m, feeds)
  register (ts ∷ rest) m feeds =
      if ts.source_id == "" || is_some (find_feed ts.source_id m)
      then refusal invalid_argument
      else register rest ((ts.source_id, length feeds) ∷ m) (feeds ++ (new_delay_feed fl ∷ []))
        >>= λ (tones, m', feeds'). answer (tone_config (length feeds) ts ∷ tones, m', feeds')

  abbrev pub snapshot : ℕ → Option (Scan F S) → StatusResponse F
  snapshot depth none = record {
    scan_running = false;
    queue_depth = to_int32 depth;
    drift_seconds = constant fl (pos 0);
    tick_number = 0;
  }
  snapshot depth (some scan) =
      if is_running scan.control
      then record {
        scan_running = true;
        queue_depth = to_int32 depth;
        drift_seconds = scan.drift_seconds;
        tick_number = scan.tick_number;
      }
      else record {
        scan_running = false;
        queue_depth = to_int32 depth;
        drift_seconds = constant fl (pos 0);
        tick_number = 0;
      }

  -- snapshotStatus, the reply of GetStatus
  unfoldable pub snapshot_status : Server F S → StatusResponse F
  snapshot_status s = snapshot (sharded_len s.send_queue) s.scan_runner

  abbrev pub config_of : StartScanRequest F → List (ToneSourceConfig F) → StreamerConfig F
  config_of req tones = record {
    tone_sources = tones;
    obs_time_ref = req.obs_time_epoch_s;
    noise = req.noise;
    num_channels = req.num_channels;
    start_channel = req.start_channel;
    base_freq_hz = constant fl (pos 0);
    channel_width_hz = constant fl (pos 0);
    n_tiles = 0;
    tile_n_samples = 0;
    num_workers = 0;
    negate_delay = req.negate_delay;
  }

  -- NewScanRunner and Start
  abbrev pub new_scan : StartScanRequest F → DirectSynthesisStreamer F S → Scan F S
  new_scan req streamer = record {
    control = Control.start Control.idle;
    streamer = streamer;
    obs_time = req.obs_time_epoch_s;
    scan_duration_s = req.scan_duration_s;
    drift_seconds = constant fl (pos 0);
    tick_number = 0;
  }

  module _ (cpus : ℕ) (draws : ℕ → ℕ → ℕ → F) (order : List ℕ → List ℕ) where
    -- StartScan after the construction of the streamer.
    abbrev pub after_streamer :
        Server F S
        → StartScanRequest F
        → List (String × ℕ)
        → List (DelayFeed F)
        → Checked (DirectSynthesisStreamer F S)
        → Server F S × Reply (Unit {0})
    after_streamer s req m feeds (err e) = (s, refusal invalid_argument)
    after_streamer s req m feeds (ok streamer) = (
      record s {
        sender_pool = map_option (λ _. fl.bits (quantize_scale fl streamer)) s.sender_pool;
        delay_feeds = m;
        feeds = feeds;
        scan_runner = some (new_scan req streamer);
      },
      answer tt,
    )

    -- StartScan after the loop over the tone sources.
    abbrev pub after_register :
        Server F S
        → StartScanRequest F
        → Reply (List (ToneSourceConfig F) × List (String × ℕ) × List (DelayFeed F))
        → Server F S × Reply (Unit {0})
    after_register s req (refusal code) = (s, refusal code)
    after_register s req (answer (tones, m, feeds)) =
        after_streamer s req m feeds (new_streamer fl cpus draws order (config_of req tones))

    -- StartScan
    unfoldable pub start_scan : StartScanRequest F → Server F S → Server F S × Reply (Unit {0})
    start_scan req s =
        let s1 = record s { station_cfg = station_of req s.station_cfg } in
        if scan_running s.scan_runner
        then (s, refusal failed_precondition)
        else after_register s1 req (register req.tone_sources [] s.feeds)
