-- ===== src/Cmd/NoiseStream/Wiring.antt =====
-- cmd/noise-stream/main.go: how the parts fit together.
use Prim.Native.String.{String}
use mathlib.Core.List.{append_assoc, append-nil}
use ska_low_station_beam_sim.Prelude.{
  ℕ, zero, suc, ◌+◌, ◌≤◌, ◌≡◌, refl, sym, ap, ◌∙◌, inl, inr, Bool, true, false, List, [], ◌∷◌, ◌++◌,
  Option, none, some, ltb, length, map, length-replicate, range_from, Option-cases, arith,
}
use ska_low_station_beam_sim.Prelude.Int.{ℤ, pos, negsuc, pos_part}
use ska_low_station_beam_sim.Float.{Float}
use ska_low_station_beam_sim.Common.Constants.{queue_max_size}
use ska_low_station_beam_sim.Common.Control.{is_running}
use ska_low_station_beam_sim.Common.Control
use ska_low_station_beam_sim.Common.Heap.{StationConfig}
use ska_low_station_beam_sim.Common.Queue.{ShardedHeapQueue, new_queue, new_sharded, num_shards}
use ska_low_station_beam_sim.Spead.Packetizer.{set_quantize_scale, new_packetizer}
use ska_low_station_beam_sim.Spead.Sender.{
  udp_sender_sockets, dial_from, new_sender_pool, loops_from, default_num_senders_for_channels,
}
use ska_low_station_beam_sim.Spead.Sender.Sockets.{dialled}
use ska_low_station_beam_sim.Netutil.{Addr}
use ska_low_station_beam_sim.Synth.Config.{ok}
use ska_low_station_beam_sim.Synth.Streamer.{DirectSynthesisStreamer, new_streamer, quantize_scale}
use ska_low_station_beam_sim.Server.Starting.{LocalAddr}
use ska_low_station_beam_sim.Server.Starting.Opening.{
  loops_from-shards, loops_from-conns, length-dialled,
}
use ska_low_station_beam_sim.Cmd.Exit.{finished}
use ska_low_station_beam_sim.Cmd.NoiseStream.{
  StreamFlags, parse_obs_time, stream_senders, stream_station, stream_config, static_feed, Prepared,
  local_addr, noise_stream,
}

-- NewShardedHeapQueue makes at least one shard.
abbrev pub shards_of : ℤ → ℕ
shards_of (pos (suc n)) = suc n
shards_of _ = 1

num_shards-new_sharded :
    (F S : Type 0) (n : ℤ) (size : ℕ)
    → num_shards (new_sharded {F = F} {S = S} n size) ≡ shards_of n
unfolding num_shards new_sharded
num_shards-new_sharded F S (pos zero) size = refl
num_shards-new_sharded F S (pos (suc n)) size = ap suc (length-replicate n (new_queue size))
num_shards-new_sharded F S (negsuc n) size = refl

shards_positive : (n : ℤ) → 1 ≤ shards_of n
shards_positive (pos zero) = omega arith
shards_positive (pos (suc n)) = omega arith
shards_positive (negsuc n) = omega arith

shards_of_pos : (n : ℕ) → 1 ≤ n → shards_of (pos n) ≡ n
shards_of_pos zero h = absurd (omega arith)
shards_of_pos (suc n) h = refl

default_positive : (n : ℕ) → 1 ≤ default_num_senders_for_channels n
unfolding default_num_senders_for_channels
default_positive n = ground arith

default_senders :
    {F : Type 0} (flags : StreamFlags F)
    → flags.num_senders_is_set ≡ false
    → stream_senders flags ≡ pos (default_num_senders_for_channels (pos_part flags.num_channels))
unfolding stream_senders
default_senders flags unset = rw unset refl

module _ {C : Type 0} (dial : ℕ → Option C) where
  dial_from_all :
      (n i : ℕ) (before conns : List C)
      → dialled dial i n ≡ some conns
      → dial_from dial n i before ≡ (some (before ++ conns), [])
  unfolding dial_from dialled
  dial_from_all zero i before [] e = rw append-nil refl
  dial_from_all zero i before (conn ∷ conns) e = cc
  dial_from_all (suc n) i before conns e = elim (Option-cases (dial i)) [
    | inl fails ↦ let bad : none ≡ some conns = sym (rw fails refl) ∙ e in cc
    | inr (conn, this) ↦ elim (Option-cases (dialled dial (i + 1) n)) [
      | inl fails ↦ let bad : none ≡ some conns = sym (rw (this, fails) refl) ∙ e in cc
      | inr (rest, all) ↦
          let here : some (conn ∷ rest) ≡ some conns = sym (rw (this, all) refl) ∙ e in
          let whole : conn ∷ rest ≡ conns = cc in
          let later = dial_from_all n (i + 1) (before ++ (conn ∷ [])) rest all in
          rw (this, ← whole) (later ∙ rw append_assoc refl)
    ]
  ]

  new_sender_pool_all :
      (station : StationConfig) (shards : ℕ) (conns : List C)
      → 1 ≤ shards
      → dialled dial 0 shards ≡ some conns
      → (new_sender_pool dial station shards).0
        ≡ some (record {
          conns = conns;
          loops = loops_from 0 conns;
          packetizer = new_packetizer station;
        })
  unfolding new_sender_pool udp_sender_sockets
  new_sender_pool_all station shards conns some_shard all =
      let not_less : ltb shards 1 ≡ false = ground arith in
      rw (not_less, dial_from_all shards 0 [] conns all) refl

-- How many shards the queue gets.
abbrev pub stream_shards : {F : Type 0} → StreamFlags F → ℕ
stream_shards flags = shards_of (stream_senders flags)

module _ {F S I D C : Type 0} (fl : Float F S) (cpus : ℕ) (draws : ℕ → ℕ → ℕ → F)
    (order : List ℕ → List ℕ) (by_name : String → Option I) (addrs_of : I → Option (List Addr))
    (resolve : String → ℤ → Option D) (dial : LocalAddr → D → ℕ → Option C)
    (equals_now : String → Bool) (parse_float : String → Option F) (now : F)
    (flags : StreamFlags F) where
  -- If the observation time parses, the streamer is built, the addresses are resolved and every socket
  -- can be dialled, noise-stream starts the scan of this streamer, with one socket and one goroutine
  -- for each shard of the queue and the streamer's scale in the packetizer; and unless the number of
  -- senders is given, the shards are as many as DefaultNumSendersForChannels says.
  pub noise_stream_lem :
      (obs_time : F) (streamer : DirectSynthesisStreamer F S) (local : LocalAddr) (dest : D)
      (conns : List C)
      → parse_obs_time equals_now parse_float now flags.obs_time ≡ some obs_time
      → new_streamer fl cpus draws order (stream_config fl obs_time flags) ≡ ok streamer
      → local_addr by_name addrs_of flags.destination ≡ finished local
      → resolve flags.destination.dest_ip flags.destination.dest_port ≡ some dest
      → dialled (dial local dest) 0 (stream_shards flags) ≡ some conns
      → (r : Prepared F S C) × (noise_stream fl cpus draws order by_name addrs_of resolve dial
            equals_now parse_float now flags
          ≡ finished r)
        × (num_shards r.queue ≡ stream_shards flags)
        × (r.pool.conns ≡ conns)
        × (length conns ≡ stream_shards flags)
        × (map (λ (loop : ℕ × C). loop.0) r.pool.loops ≡ range_from 0 (stream_shards flags))
        × (map (λ (loop : ℕ × C). loop.1) r.pool.loops ≡ conns)
        × (r.pool.packetizer.quantize_scale_bits ≡ fl.bits (quantize_scale fl streamer))
        × (r.streamer ≡ streamer)
        × (is_running r.control ≡ true)
        × (flags.num_senders_is_set ≡ false
            → stream_shards flags ≡ default_num_senders_for_channels (pos_part flags.num_channels))
  unfolding noise_stream set_quantize_scale is_running Control.start
  noise_stream_lem obs_time streamer local dest conns parsed built at resolved all =
      let station = stream_station flags in
      let queue : ShardedHeapQueue F S = new_sharded (stream_senders flags) queue_max_size in
      let shards = num_shards-new_sharded F S (stream_senders flags) queue_max_size in
      let pool =
        new_sender_pool_all (dial local dest) station (stream_shards flags) conns
          (shards_positive (stream_senders flags)) all in
      let size = length-dialled (dial local dest) 0 (stream_shards flags) conns all in
      (
        record {
          obs_time = obs_time;
          scan_duration = flags.scan_duration;
          streamer = streamer;
          tone_feed = static_feed fl obs_time;
          queue = queue;
          pool = record {
            conns = conns;
            loops = loops_from 0 conns;
            packetizer =
                set_quantize_scale fl (quantize_scale fl streamer) (new_packetizer station);
          };
          control = Control.start Control.idle;
        },
        rw (parsed, built, at, resolved, shards, pool) refl,
        shards,
        refl,
        size,
        loops_from-shards 0 conns ∙ ap (range_from 0) size,
        loops_from-conns 0 conns,
        refl,
        refl,
        refl,
        λ unset.
            ap shards_of (default_senders flags unset)
            ∙ shards_of_pos _ (default_positive (pos_part flags.num_channels)),
      )
