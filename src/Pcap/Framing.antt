-- ===== src/Pcap/Framing.antt =====
-- writer.go: the record and the frame that WriteUDPPacket writes.
use mathlib.Core.List.{append_assoc}
use ska_low_station_beam_sim.Prelude.{
  ℕ, ◌+◌, ◌/◌, ◌^◌, ◌≤◌, ◌<◌, ◌≡◌, refl, sym, ap, ◌∙◌, Bool, true, false, List, ◌++◌, ltb, length,
  take, drop, take_append, drop_append, drop-drop, length-append, All, arith,
}
use ska_low_station_beam_sim.Prelude.Bits.{u16, u32}
use ska_low_station_beam_sim.Binary.{
  put_be, put_le, read_be, read_le, length-put_be, read_be-put_be, read_le-put_le,
}
use ska_low_station_beam_sim.Pcap.{
  internet_checksum, PcapWriter, ip_len, ip_front, ip_header, udp_datagram, frame, record_header,
  write_udp_packet,
}
use ska_low_station_beam_sim.Pcap.Checksum.{IsByte, internet_checksum-verifies}

front_bytes : (total_len ip_id : ℕ) → All IsByte (ip_front total_len ip_id)
unfolding put_be
front_bytes total_len ip_id = ground arith

length-ip_front : (total_len ip_id : ℕ) → length (ip_front total_len ip_id) ≡ 10
unfolding put_be
length-ip_front total_len ip_id = refl

module _ {W : Type 0} where
  -- The addresses have the lengths of their array types.
  pub record IsAddressed (pw : PcapWriter W) : Type 0 where
    pub src_mac_len : length pw.src_mac ≡ 6
    pub dst_mac_len : length pw.dst_mac ≡ 6
    pub src_ip_len : length pw.src_ip ≡ 4
    pub dst_ip_len : length pw.dst_ip ≡ 4
    pub ip_bytes : All IsByte (pw.src_ip ++ pw.dst_ip)

  abbrev checked : PcapWriter W → List ℕ → List ℕ
  checked pw payload =
      ip_header pw (ip_len payload) (internet_checksum (ip_header pw (ip_len payload) 0))

  abbrev ethernet : PcapWriter W → List ℕ
  ethernet pw = pw.dst_mac ++ (pw.src_mac ++ put_be 2 0x0800)

  frame_parts :
      (pw : PcapWriter W) (payload : List ℕ)
      → frame pw payload ≡ ethernet pw ++ (checked pw payload ++ udp_datagram pw payload)
  unfolding frame
  frame_parts pw payload = simp append_assoc

  module _ (pw : PcapWriter W) (ok : IsAddressed pw) (payload : List ℕ) where
    length-ethernet : length (ethernet pw) ≡ 14
    length-ethernet = omega (
      arith,
      ok.src_mac_len,
      ok.dst_mac_len,
      length-append pw.dst_mac (pw.src_mac ++ put_be 2 0x0800),
      length-append pw.src_mac (put_be 2 0x0800),
      length-put_be 2 0x0800,
    )

    length-ip_header : (c : ℕ) → length (ip_header pw (ip_len payload) c) ≡ 20
    length-ip_header c = omega (
      arith,
      ok.src_ip_len,
      ok.dst_ip_len,
      length-append (ip_front (ip_len payload) pw.ip_id) (put_be 2 c ++ (pw.src_ip ++ pw.dst_ip)),
      length-append (put_be 2 c) (pw.src_ip ++ pw.dst_ip),
      length-append pw.src_ip pw.dst_ip,
      length-ip_front (ip_len payload) pw.ip_id,
      length-put_be 2 c,
    )

    ip_part : drop 14 (frame pw payload) ≡ checked pw payload ++ udp_datagram pw payload
    ip_part =
        ap (drop 14) (frame_parts pw payload)
        ∙ drop_append 14 (ethernet pw) (checked pw payload ++ udp_datagram pw payload)
            length-ethernet

    udp_part : drop 34 (frame pw payload) ≡ udp_datagram pw payload
    udp_part =
        sym (drop-drop 14 20 (frame pw payload))
        ∙ ap (drop 20) ip_part
        ∙ drop_append 20 (checked pw payload) (udp_datagram pw payload) (length-ip_header _)

    ip_total : read_be 0 (take 2 (drop 16 (frame pw payload))) ≡ u16 (ip_len payload)
    unfolding put_be
    ip_total =
        ap (λ l. read_be 0 (take 2 l))
          (sym (drop-drop 14 2 (frame pw payload)) ∙ ap (drop 2) ip_part)
        ∙ read_be-put_be 2 (u16 (ip_len payload)) (omega arith)

    udp_length : read_be 0 (take 2 (drop 38 (frame pw payload))) ≡ u16 (8 + length payload)
    unfolding put_be
    udp_length =
        ap (λ l. read_be 0 (take 2 l))
          (sym (drop-drop 34 4 (frame pw payload)) ∙ ap (drop 4) udp_part)
        ∙ read_be-put_be 2 (u16 (8 + length payload)) (omega arith)

    body : drop 42 (frame pw payload) ≡ payload
    unfolding put_be
    body = sym (drop-drop 34 8 (frame pw payload)) ∙ ap (drop 8) udp_part

    header_sum : internet_checksum (take 20 (drop 14 (frame pw payload))) ≡ 0
    header_sum =
        ap (λ l. internet_checksum (take 20 l)) ip_part
        ∙ ap internet_checksum
            (take_append 20 (checked pw payload) (udp_datagram pw payload) (length-ip_header _))
        ∙ internet_checksum-verifies 5 (ip_front (ip_len payload) pw.ip_id) (pw.src_ip ++ pw.dst_ip)
            (length-ip_front (ip_len payload) pw.ip_id)
            (omega (
              arith,
              length-ip_front (ip_len payload) pw.ip_id,
              length-append pw.src_ip pw.dst_ip,
              ok.src_ip_len,
              ok.dst_ip_len,
            ))
            (front_bytes (ip_len payload) pw.ip_id) ok.ip_bytes

    length-udp_datagram : length (udp_datagram pw payload) ≡ 8 + length payload
    unfolding put_be
    length-udp_datagram = omega arith

    length-frame : length (frame pw payload) ≡ 42 + length payload
    length-frame =
        let parts = checked pw payload ++ udp_datagram pw payload in
        let l4 = length-udp_datagram in
        omega (
          arith,
          ap length (frame_parts pw payload),
          length-append (ethernet pw) parts,
          length-append (checked pw payload) (udp_datagram pw payload),
          length-ethernet,
          length-ip_header (internet_checksum (ip_header pw (ip_len payload) 0)),
          l4,
        )

  -- For a payload of at most 65507 bytes and a writer that does not fail, WriteUDPPacket writes a record
  -- header and then a frame: the header has twice the frame's length, and the seconds and microseconds
  -- of the time; the frame is the payload behind 42 bytes, its IPv4 and UDP lengths are right, and the
  -- checksum of its IPv4 header verifies. The packet id counts up modulo 2^16.
  pub write_udp_packet-frame :
      (write : List ℕ → W → W × Bool) (payload : List ℕ) (unix nanosecond : ℕ) (pw : PcapWriter W)
      → IsAddressed pw
      → length payload ≤ 65507
      → unix < 2 ^ 32
      → nanosecond < 10 ^ 9
      → ((bytes : List ℕ) (w : W) → (write bytes w).1 ≡ true)
      → (header bytes : List ℕ) × (write_udp_packet write payload unix nanosecond pw ≡ (
        record pw { w = (write bytes (write header pw.w).0).0; ip_id = u16 (pw.ip_id + 1) },
        true,
      ))
        × (length header ≡ 16)
        × (read_le (take 4 header) ≡ unix)
        × (read_le (take 4 (drop 4 header)) ≡ nanosecond / 1000)
        × (read_le (take 4 (drop 8 header)) ≡ length bytes)
        × (read_le (drop 12 header) ≡ length bytes)
        × (length bytes ≡ 42 + length payload)
        × (drop 42 bytes ≡ payload)
        × (read_be 0 (take 2 (drop 16 bytes)) ≡ 28 + length payload)
        × (read_be 0 (take 2 (drop 38 bytes)) ≡ 8 + length payload)
        × (internet_checksum (take 20 (drop 14 bytes)) ≡ 0)
  unfolding write_udp_packet record_header put_le
  write_udp_packet-frame write payload unix nanosecond pw ok short early sub_second works =
      let counted = record pw { ip_id = u16 (pw.ip_id + 1) } in
      let ok' : IsAddressed counted = record {
        src_mac_len = ok.src_mac_len;
        dst_mac_len = ok.dst_mac_len;
        src_ip_len = ok.src_ip_len;
        dst_ip_len = ok.dst_ip_len;
        ip_bytes = ok.ip_bytes;
      } in
      let fits : ltb 0xffff (ip_len payload) ≡ false = ground arith in
      let bytes = frame counted payload in
      let size = length-frame counted ok' payload in
      let header = record_header unix nanosecond (length bytes) in
      let n : u32 (length bytes) ≡ length bytes = omega (arith, size) in
      let total : u16 (ip_len payload) ≡ 28 + length payload = omega arith in
      let datagram : u16 (8 + length payload) ≡ 8 + length payload = omega arith in
      (
        header,
        bytes,
        rw (fits, works header pw.w, works bytes (write header pw.w).0) refl,
        refl,
        read_le-put_le 4 (u32 unix) (omega arith) ∙ omega arith,
        read_le-put_le 4 (nanosecond / 1000) (omega arith),
        read_le-put_le 4 (u32 (length bytes)) (omega arith) ∙ n,
        read_le-put_le 4 (u32 (length bytes)) (omega arith) ∙ n,
        size,
        body counted ok' payload,
        ip_total counted ok' payload ∙ total,
        udp_length counted ok' payload ∙ datagram,
        header_sum counted ok' payload,
      )
