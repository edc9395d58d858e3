-- ===== src/Server/Starting.antt =====
-- grpc_server.go: Start, which opens the sockets, and the stream of WatchStatus. What the network does is
-- an argument: the interfaces of the host, net.ResolveUDPAddr, and the dialling of socket `i`.
pub mod Opening
pub mod Watching
use text.Mathlib.Text.{◌==◌}
use Prim.Native.String.{String}
use ska_low_station_beam_sim.Prelude.{
  ℕ, Bool, true, false, List, [], ◌∷◌, Option, none, some, if◌then◌else◌, map_option,
}
use ska_low_station_beam_sim.Prelude.Int.{ℤ, pos, ltb_ℤ}
use ska_low_station_beam_sim.Float.{Float, constant}
use ska_low_station_beam_sim.Common.Queue.{num_shards}
use ska_low_station_beam_sim.Spead.Sender.{SenderPool, new_sender_pool}
use ska_low_station_beam_sim.Netutil.{
  Addr, Lookup, found, lookup_failed, LookupError, interface_ipv4_addr,
}
use ska_low_station_beam_sim.Server.Requests.{Server, StatusResponse}
use ska_low_station_beam_sim.Server.Handlers.{snapshot_status}

-- The fields of a server that Start reads and nothing changes.
pub record Destination : Type 0 where
  pub source_interface : String
  pub dest_ip : String
  pub dest_port : ℤ

pub data StartError : Type 0 where
  no_source_address : LookupError → StartError
  no_destination no_sockets : StartError

-- The pool that runs from then on, or the error and the sockets that were closed.
pub data Started (C : Type 0) : Type 0 where
  opened : SenderPool C → Started C
  not_opened : StartError → List C → Started C

-- The local address: none leaves it to the system.
pub data LocalAddr : Type 0 where
  any_local : LocalAddr
  local_ip : List ℕ → LocalAddr

module _ {I D C F S : Type 0} (by_name : String → Option I) (addrs_of : I → Option (List Addr))
    (resolve : String → ℤ → Option D) (dial : LocalAddr → D → ℕ → Option C) where
  abbrev pub with_pool : Server F S → Option (SenderPool C) × List C → Server F S × Started C
  with_pool s (none, closed) = (s, not_opened no_sockets closed)
  with_pool s (some pool, closed) =
      (record s { sender_pool = some pool.packetizer.quantize_scale_bits }, opened pool)

  abbrev pub with_destination : Server F S → LocalAddr → Option D → Server F S × Started C
  with_destination s local none = (s, not_opened no_destination [])
  with_destination s local (some dest) =
      with_pool s (new_sender_pool (dial local dest) s.station_cfg (num_shards s.send_queue))

  abbrev pub with_lookup : Server F S → Destination → Lookup → Server F S × Started C
  with_lookup s d (lookup_failed e) = (s, not_opened (no_source_address e) [])
  with_lookup s d (found ip) = with_destination s (local_ip ip) (resolve d.dest_ip d.dest_port)

  -- Start
  unfoldable pub start_server : Destination → Server F S → Server F S × Started C
  unfolding num_shards
  start_server d s =
      if d.source_interface == ""
      then with_destination s any_local (resolve d.dest_ip d.dest_port)
      else with_lookup s d (interface_ipv4_addr by_name addrs_of d.source_interface)

-- What ends the wait of WatchStatus after a reply.
pub data Wake : Type 0 where
  cancelled shutting_down ticked : Wake

-- One round of WatchStatus: the server then, whether the reply could be sent, and what ends the wait.
pub record Round (F S : Type 0) : Type 0 where
  pub server : Server F S
  pub sends : Bool
  pub wake : Wake

-- How WatchStatus returns; `still_watching` is where the rounds that are given end.
pub data Watched : Type 0 where
  send_error was_cancelled was_shut_down still_watching : Watched

module _ {F S : Type 0} (fl : Float F S) where
  -- The interval in nanoseconds.
  abbrev pub watch_interval : F → ℤ
  watch_interval update_interval_s =
      if fl.lt (constant fl (pos 0)) update_interval_s
      then fl.to_int (fl.mul update_interval_s (constant fl (pos 1_000_000_000)))
      else pos 1_000_000_000

  -- time.NewTicker, which panics unless the interval is positive
  abbrev pub new_ticker : ℤ → Option ℤ
  new_ticker interval = if ltb_ℤ (pos 0) interval then some interval else none

  abbrev pub after_wake :
      Wake → List (StatusResponse F) × Watched → List (StatusResponse F) × Watched
  after_wake cancelled later = ([], was_cancelled)
  after_wake shutting_down later = ([], was_shut_down)
  after_wake ticked later = later

  -- The loop of WatchStatus: the replies that were sent, and its end.
  unfoldable pub watch_rounds : List (Round F S) → List (StatusResponse F) × Watched
  watch_rounds [] = ([], still_watching)
  watch_rounds (round ∷ rounds) =
      let (replies, ending) = after_wake round.wake (watch_rounds rounds) in
      if round.sends then (snapshot_status fl round.server ∷ replies, ending) else ([], send_error)

  -- WatchStatus
  unfoldable pub watch_status : F → List (Round F S) → Option (List (StatusResponse F) × Watched)
  unfolding watch_rounds
  watch_status update_interval_s rounds =
      map_option (λ _. watch_rounds rounds) (new_ticker (watch_interval update_interval_s))
