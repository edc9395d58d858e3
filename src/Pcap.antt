-- ===== src/Pcap.antt =====
-- internal/pcap/writer.go: a capture file with one Ethernet, IPv4 and UDP frame for each payload. The
-- io.Writer is a state and a function that says whether a write succeeded.
pub mod Checksum
pub mod Framing
use ska_low_station_beam_sim.Prelude.{
  ℕ, zero, suc, ◌+◌, ◌-◌, ◌*◌, ◌/◌, ◌%◌, ◌^◌, Bool, true, false, not, List, [], ◌∷◌, ◌++◌, Option,
  none, some, if◌then◌else◌, ltb, length, replicate,
}
use ska_low_station_beam_sim.Prelude.Bits.{u16, u32}
use ska_low_station_beam_sim.Binary.{put_be, put_le}

abbrev pub ethernet_header_len : ℕ
ethernet_header_len = 14

abbrev pub ipv4_header_len : ℕ
ipv4_header_len = 20

abbrev pub udp_header_len : ℕ
udp_header_len = 8

-- The sum of internetChecksum before it is folded: 16-bit words, and an odd last byte as a high byte.
unfoldable pub word_sum : List ℕ → ℕ
word_sum [] = 0
word_sum (b ∷ []) = b * 256
word_sum (b ∷ c ∷ bytes) = b * 256 + c + word_sum bytes

-- The loop that adds the carries; each round makes a sum above 0xffff smaller.
unfoldable pub fold_carries : ℕ → ℕ → ℕ
fold_carries zero sum = sum
fold_carries (suc fuel) sum =
    let rest = fold_carries fuel (sum % 2 ^ 16 + sum / 2 ^ 16) in
    if ltb 0xffff sum then rest else sum

-- internetChecksum. A uint32 sum is at most 0x1fffe after one round and at most 0xffff after two.
unfoldable pub internet_checksum : List ℕ → ℕ
internet_checksum b = 0xffff - u16 (fold_carries 2 (u32 (word_sum b)))

pub record PcapWriter (W : Type 0) : Type 0 where
  pub w : W
  pub src_mac : List ℕ
  pub dst_mac : List ℕ
  pub src_ip : List ℕ
  pub dst_ip : List ℕ
  pub src_port : ℕ
  pub dst_port : ℕ
  pub ip_id : ℕ

-- writeGlobalHeader
unfoldable pub global_header : List ℕ
global_header =
    put_le 4 0xa1b2c3d4 ++ put_le 2 2 ++ put_le 2 4 ++ replicate 8 0 ++ put_le 4 65535 ++ put_le 4 1

abbrev pub ip_len : List ℕ → ℕ
ip_len payload = ipv4_header_len + (udp_header_len + length payload)

-- The IPv4 header, up to its checksum and after it.
abbrev pub ip_front : ℕ → ℕ → List ℕ
ip_front total_len ip_id =
    0x45 ∷ 0 ∷ (put_be 2 (u16 total_len) ++ (put_be 2 ip_id ++ (put_be 2 0 ++ (64 ∷ 17 ∷ []))))

-- recHdr, for a time of whole seconds and nanoseconds
unfoldable pub record_header : ℕ → ℕ → ℕ → List ℕ
record_header unix nanosecond frame_len =
    put_le 4 (u32 unix)
    ++ (put_le 4 (nanosecond / 1000) ++ (put_le 4 (u32 frame_len) ++ put_le 4 (u32 frame_len)))

module _ {W : Type 0} where
  abbrev pub ip_header : PcapWriter W → ℕ → ℕ → List ℕ
  ip_header pw total_len checksum =
      ip_front total_len pw.ip_id ++ (put_be 2 checksum ++ (pw.src_ip ++ pw.dst_ip))

  abbrev pub udp_datagram : PcapWriter W → List ℕ → List ℕ
  udp_datagram pw payload =
      put_be 2 pw.src_port
      ++ (put_be 2 pw.dst_port
          ++ (put_be 2 (u16 (udp_header_len + length payload)) ++ (put_be 2 0 ++ payload)))

  -- The frame of WriteUDPPacket.
  unfoldable pub frame : PcapWriter W → List ℕ → List ℕ
  frame pw payload =
      pw.dst_mac
      ++ (pw.src_mac
          ++ (put_be 2 0x0800
              ++ (ip_header pw (ip_len payload)
                    (internet_checksum (ip_header pw (ip_len payload) 0))
                  ++ udp_datagram pw payload)))

  -- NewWriter: `none` is the error of the write.
  unfoldable pub new_writer : (List ℕ → W → W × Bool) → W → Option (PcapWriter W)
  unfolding global_header
  new_writer write w =
      let (w', ok) = write global_header w in
      if ok
      then some (record {
        w = w';
        src_mac = 0x02 ∷ 0 ∷ 0 ∷ 0 ∷ 0 ∷ 1 ∷ [];
        dst_mac = 0x02 ∷ 0 ∷ 0 ∷ 0 ∷ 0 ∷ 2 ∷ [];
        src_ip = 10 ∷ 0 ∷ 0 ∷ 1 ∷ [];
        dst_ip = 10 ∷ 0 ∷ 0 ∷ 2 ∷ [];
        src_port = 40000;
        dst_port = 8000;
        ip_id = 0;
      })
      else none

  -- WriteUDPPacket: the writer after it, and whether it returned without an error. The id is counted up
  -- before the writes, which may fail.
  unfoldable pub write_udp_packet :
      (List ℕ → W → W × Bool) → List ℕ → ℕ → ℕ → PcapWriter W → PcapWriter W × Bool
  unfolding frame record_header
  write_udp_packet write payload unix nanosecond pw =
      if ltb 0xffff (ip_len payload)
      then (pw, false)
      else let counted = record pw { ip_id = u16 (pw.ip_id + 1) } in
        let bytes = frame counted payload in
        let (w1, ok1) = write (record_header unix nanosecond (length bytes)) pw.w in
        if not ok1
        then (record counted { w = w1 }, false)
        else let (w2, ok2) = write bytes w1 in (record counted { w = w2 }, ok2)
