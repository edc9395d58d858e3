-- ===== src/Spead/Sender.antt =====
-- internal/spead/sender.go: how many senders a station gets, and the sockets they dial. `dial i` is the
-- outcome of the call of net.DialUDP for socket `i`; SetWriteBuffer's error is only logged.
pub mod Sockets
pub mod Closing
use ska_low_station_beam_sim.Prelude.{
  ℕ, zero, suc, ◌+◌, ◌-◌, ◌*◌, ◌/◌, Bool, true, false, List, [], ◌∷◌, ◌++◌, Option, none, some,
  ◌||◌, map, set, if◌then◌else◌, ltb,
}
use ska_low_station_beam_sim.Common.Constants.{max_num_channels}
use ska_low_station_beam_sim.Common.Heap.{StationConfig}
use ska_low_station_beam_sim.Spead.Packetizer.{SpsPacketizer, new_packetizer}

abbrev pub full_band_num_senders : ℕ
full_band_num_senders = 16

-- DefaultNumSendersForChannels
unfoldable pub default_num_senders_for_channels : ℕ → ℕ
default_num_senders_for_channels num_channels =
    let n = (full_band_num_senders * num_channels + max_num_channels - 1) / max_num_channels in
    if ltb n 1 then 1 else n

-- A socket that was dialled goes on to the next; a failure closes those before it.
abbrev pub or_close :
    {C : Type 0} → List C → Option C → (C → Option (List C) × List C) → Option (List C) × List C
or_close conns none next = (none, conns)
or_close conns (some conn) next = next conn

module _ {C : Type 0} (dial : ℕ → Option C) where
  -- The loop of UDPSenderSockets for `n` sockets from `i` on, `conns` dialled before: the sockets that it
  -- returns, or `none` for its error, and those it has closed.
  unfoldable pub dial_from : ℕ → ℕ → List C → Option (List C) × List C
  dial_from zero i conns = (some conns, [])
  dial_from (suc n) i conns =
      or_close conns (dial i) (λ conn. dial_from n (i + 1) (conns ++ (conn ∷ [])))

  -- UDPSenderSockets
  unfoldable pub udp_sender_sockets : ℕ → Option (List C) × List C
  unfolding dial_from
  udp_sender_sockets n = dial_from (if ltb n 1 then 1 else n) 0 []

-- SenderPool: its sockets, the shard that each of its goroutines drains and the socket it sends to, and
-- the packetizer that they share.
pub record SenderPool (C : Type 0) : Type 0 where
  pub conns : List C
  pub loops : List (ℕ × C)
  pub packetizer : SpsPacketizer

module _ {C : Type 0} where
  -- The goroutines of NewSenderPool, for the sockets from number `i` on.
  abbrev pub loops_from : ℕ → List C → List (ℕ × C)
  loops_from i [] = []
  loops_from i (conn ∷ conns) = (i, conn) ∷ loops_from (i + 1) conns

  abbrev pool_of : StationConfig → Option (List C) × List C → Option (SenderPool C) × List C
  pool_of station (none, closed) = (none, closed)
  pool_of station (some conns, closed) = (
    some
        (record { conns = conns; loops = loops_from 0 conns; packetizer = new_packetizer station }),
    closed,
  )

  -- NewSenderPool, for the number of the queue's shards; the second part is what it has closed.
  unfoldable pub new_sender_pool :
      (ℕ → Option C) → StationConfig → ℕ → Option (SenderPool C) × List C
  unfolding udp_sender_sockets
  new_sender_pool dial station shards = pool_of station (udp_sender_sockets dial shards)

-- A pool while it runs: which of its goroutines have not returned yet, and the closed sockets.
pub record Senders (C : Type 0) : Type 0 where
  pub pool : SenderPool C
  pub running : List Bool
  pub closed : List C

abbrev pub any_running : List Bool → Bool
any_running [] = false
any_running (r ∷ running) = r || any_running running

module _ {C : Type 0} where
  -- The pool that NewSenderPool returns.
  abbrev pub running_pool : SenderPool C → Senders C
  running_pool pool = record { pool = pool; running = map (λ _. true) pool.loops; closed = [] }

  -- Goroutine `i` returns from its BatchSendLoop.
  abbrev pub return_loop : ℕ → Senders C → Senders C
  return_loop i s = record s { running = set s.running i false }

  -- Close, when the wait for the goroutines is over; `none` is where it still waits.
  unfoldable pub close : Senders C → Option (Senders C)
  close s = if any_running s.running then none else some (record s { closed = s.pool.conns })
