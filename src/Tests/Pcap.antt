-- ===== src/Tests/Pcap.antt =====
-- internal/pcap: a packet of three bytes into a file that is a list of bytes.
use ska_low_station_beam_sim.Prelude.{
  ℕ, ◌≡◌, refl, Bool, true, List, [], ◌∷◌, ◌++◌, length, take, drop, arith,
}
use ska_low_station_beam_sim.Binary.{put_be, read_be, read_le}
use ska_low_station_beam_sim.Pcap.{PcapWriter, write_udp_packet, internet_checksum}
use ska_low_station_beam_sim.Pcap.Checksum.{internet_checksum-verifies}
use ska_low_station_beam_sim.Pcap.Framing.{IsAddressed, write_udp_packet-frame}

abbrev append : List ℕ → List ℕ → List ℕ × Bool
append bytes file = (file ++ bytes, true)

abbrev writer : PcapWriter (List ℕ)
writer = record {
  w = [];
  src_mac = 2 ∷ 0 ∷ 0 ∷ 0 ∷ 0 ∷ 1 ∷ [];
  dst_mac = 2 ∷ 0 ∷ 0 ∷ 0 ∷ 0 ∷ 2 ∷ [];
  src_ip = 10 ∷ 0 ∷ 0 ∷ 1 ∷ [];
  dst_ip = 10 ∷ 0 ∷ 0 ∷ 2 ∷ [];
  src_port = 40000;
  dst_port = 8000;
  ip_id = 65535;
}

writer-IsAddressed : IsAddressed writer
writer-IsAddressed = record {
  src_mac_len = refl;
  dst_mac_len = refl;
  src_ip_len = refl;
  dst_ip_len = refl;
  ip_bytes = ground arith;
}

write_udp_packet-frame_example :
    (header bytes : List ℕ) × (write_udp_packet append (1 ∷ 2 ∷ 3 ∷ []) 1_700_000_000 5_000 writer
      ≡ (record writer { w = ([] ++ header) ++ bytes; ip_id = 0 }, true))
    × (length header ≡ 16)
    × (read_le (take 4 header) ≡ 1_700_000_000)
    × (read_le (take 4 (drop 4 header)) ≡ 5)
    × (read_le (take 4 (drop 8 header)) ≡ length bytes)
    × (read_le (drop 12 header) ≡ length bytes)
    × (length bytes ≡ 45)
    × (drop 42 bytes ≡ 1 ∷ 2 ∷ 3 ∷ [])
    × (read_be 0 (take 2 (drop 16 bytes)) ≡ 31)
    × (read_be 0 (take 2 (drop 38 bytes)) ≡ 11)
    × (internet_checksum (take 20 (drop 14 bytes)) ≡ 0)
write_udp_packet-frame_example =
    write_udp_packet-frame append (1 ∷ 2 ∷ 3 ∷ []) 1_700_000_000 5_000 writer writer-IsAddressed
      (omega arith) (omega arith) (omega arith) (λ _ _. refl)

internet_checksum-verifies_example :
    internet_checksum (
      (1 ∷ 2 ∷ [])
      ++ (put_be 2 (internet_checksum ((1 ∷ 2 ∷ []) ++ (put_be 2 0 ++ (255 ∷ [])))) ++ (255 ∷ [])))
    ≡ 0
internet_checksum-verifies_example =
    internet_checksum-verifies 1 (1 ∷ 2 ∷ []) (255 ∷ []) refl (omega arith) (ground arith)
      (ground arith)
