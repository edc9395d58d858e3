-- ===== src/Tests/Sender.antt =====
-- internal/spead/sender.go: 100 channels, and a third socket that cannot be dialled.
use ska_low_station_beam_sim.Prelude.{
  ℕ, ◌+◌, ◌-◌, ◌*◌, ◌≤◌, ◌<◌, ◌≡◌, refl, [], ◌∷◌, Option, some, none, ltb, if◌then◌else◌, arith,
}
use ska_low_station_beam_sim.Spead.Sender.{
  default_num_senders_for_channels, udp_sender_sockets, SenderPool, running_pool, return_loop,
}
use ska_low_station_beam_sim.Spead.Packetizer.{new_packetizer}
use ska_low_station_beam_sim.Spead.Sender.Closing.{begins, then_step, returns, no_send_on_closed}
use ska_low_station_beam_sim.Prelude.Int.{pos}
use ska_low_station_beam_sim.Spead.Sender.Sockets.{senders-cover, NoLeak, udp_sender_sockets-NoLeak}

senders-cover_example :
    let r = default_num_senders_for_channels 100 in
    (1600 ≤ r * 384) × ((r - 1) * 384 < 1600) × (1 ≤ r) × (100 ≤ 384 → r ≤ 16)
senders-cover_example = senders-cover 100 (omega arith)

abbrev dial : ℕ → Option ℕ
dial i = if ltb i 2 then some (40_000 + i) else none

udp_sender_sockets-NoLeak_example : NoLeak dial 4 0 [] (udp_sender_sockets dial 4)
udp_sender_sockets-NoLeak_example = udp_sender_sockets-NoLeak dial 4

leaks_no_socket : udp_sender_sockets dial 4 ≡ (none, 40_000 ∷ 40_001 ∷ [])
unfolding udp_sender_sockets
leaks_no_socket = refl

abbrev two_senders : SenderPool ℕ
two_senders = record {
  conns = 40_000 ∷ 40_001 ∷ [];
  loops = (0, 40_000) ∷ (1, 40_001) ∷ [];
  packetizer = new_packetizer (record {
    station_id = pos 1;
    substation_id = pos 1;
    subarray_id = pos 1;
    beam_id = pos 1;
    scan_id = pos 1;
    start_channel = pos 64;
  });
}

no_send_on_closed_example : (return_loop 0 (running_pool two_senders)).closed ≡ []
no_send_on_closed_example =
    no_send_on_closed two_senders (return_loop 0 (running_pool two_senders)) 1
      (then_step begins (returns 0)) refl
