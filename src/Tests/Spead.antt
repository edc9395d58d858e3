-- ===== src/Tests/Spead.antt =====
-- internal/spead: tests and examples, on heaps of given bytes and of given samples.
use ska_low_station_beam_sim.Prelude.{
  ℕ, ◌/◌, ◌%◌, ◌^◌, ◌≤◌, ◌≡◌, refl, true, false, List, [], ◌∷◌, ◌++◌, Option, some, none, length,
  replicate, arith, All,
}
use ska_low_station_beam_sim.Prelude.Int.{ℤ, pos}
use ska_low_station_beam_sim.Float.Fixed.{fixed}
use ska_low_station_beam_sim.Common.Heap.{StationConfig, ChannelHeap}
use ska_low_station_beam_sim.Binary.{read_be}
use ska_low_station_beam_sim.Spead.Wire.{
  spead_item_pointer, spead_value_mask, spead_header, num_heap_items, pack_channel_info,
  pack_antenna_info, heap_wire_size_bytes,
}
use ska_low_station_beam_sim.Spead.Wire.Fields.{item_pointer_roundtrip, packed_fields}
use ska_low_station_beam_sim.Spead.Payload.Layout.{interleave}
use ska_low_station_beam_sim.Spead.Packetizer.{EncodeError, SpsPacketizer, encode_channel_heap_into}
use ska_low_station_beam_sim.Spead.Packetizer.Encoding.{items_bytes, pol_pairs}
use ska_low_station_beam_sim.Spead.Packetizer.Wire.{
  icd_items, encode_layout, IsEncodable, datagram, encode-datagram,
}
use ska_low_station_beam_sim.Spead.Packetizer.Total.{encode_total}
use ska_low_station_beam_sim.Spead.Packetizer.Reuse.{encode_reuse}
use ska_low_station_beam_sim.Spead.SendLoop.{Arrival, batch_send_loop}
use ska_low_station_beam_sim.Spead.SendLoop.Slots.{datagrams}
use ska_low_station_beam_sim.Spead.SendLoop.Batches.{joined, IsBatch, batch_send_loop-datagrams}

abbrev station : StationConfig
station = record {
  station_id = pos 345;
  substation_id = pos 1;
  subarray_id = pos 3;
  beam_id = pos 7;
  scan_id = pos 4242;
  start_channel = pos 64;
}

abbrev packetizer : SpsPacketizer
packetizer = record { station = station; quantize_scale_bits = 0 }

-- 2048 pairs of bytes in V, and 2048 zero samples in H; it starts 10 s after the TAI2000 epoch.
abbrev mixed_heap : ChannelHeap ℤ ℤ
mixed_heap = record {
  channel_id = pos 5;
  v_samples = [];
  h_samples = replicate 2048 (pos 0, pos 0);
  v_quantized = some (replicate 4096 200);
  h_quantized = none;
  heap_start_time = pos 946_684_741_000_000;
}

-- The same heap of a channel with too few samples.
abbrev short_heap : ChannelHeap ℤ ℤ
short_heap = record mixed_heap { h_samples = (pos 0, pos 0) ∷ [] }

abbrev zeros : List ℕ
zeros = replicate heap_wire_size_bytes 0

item_pointer_roundtrip_example :
    (bytes : List ℕ) × (spead_item_pointer 0x3010 4242 true ≡ some bytes)
    × (length bytes ≡ 8)
    × (read_be 0 bytes / 2 ^ 63 ≡ 1)
    × (read_be 0 bytes / 2 ^ 48 % 2 ^ 15 ≡ 0x3010)
    × (read_be 0 bytes % 2 ^ 48 ≡ 4242)
item_pointer_roundtrip_example = item_pointer_roundtrip 0x3010 4242 true (omega arith) (omega arith)

packed_fields_example :
    let channel = pack_channel_info 65_543 69 in
    let antenna = pack_antenna_info 1 3 345 in
    (channel / 2 ^ 16 ≡ 7)
    × (channel % 2 ^ 16 ≡ 69)
    × (antenna / 2 ^ 40 ≡ 1)
    × (antenna / 2 ^ 32 % 2 ^ 8 ≡ 3)
    × (antenna / 2 ^ 16 % 2 ^ 16 ≡ 345)
    × (antenna % 2 ^ 16 ≡ 0)
    × (channel ≤ spead_value_mask)
    × (antenna ≤ spead_value_mask)
packed_fields_example = packed_fields 65_543 69 1 3 345 (omega arith) (omega arith) (omega arith)

encode_total_example :
    (after : List ℕ) × (err : Option EncodeError) × (encode_channel_heap_into fixed packetizer zeros
        short_heap
      ≡ some (after, err))
    × (length after ≡ length zeros)
encode_total_example = encode_total fixed packetizer zeros short_heap

encode_layout_example :
    encode_channel_heap_into fixed packetizer zeros mixed_heap
    ≡ some (
      spead_header num_heap_items
          ++ (items_bytes (icd_items station (pos 5) 4523 4242)
              ++ interleave
                  (pol_pairs fixed packetizer [] (some (replicate 4096 200)))
                  (pol_pairs fixed packetizer (replicate 2048 (pos 0, pos 0)) none)),
      none,
    )
unfolding ska_low_station_beam_sim.Common.Time.unix_to_tai2000_seconds
encode_layout_example =
    encode_layout fixed packetizer mixed_heap zeros 4523 4242 refl refl refl refl refl (omega arith)
      refl (omega arith)

mixed_heap-IsEncodable : IsEncodable fixed packetizer mixed_heap
unfolding ska_low_station_beam_sim.Common.Time.unix_to_tai2000_seconds pack_channel_info
    pack_antenna_info
mixed_heap-IsEncodable = record {
  v_count = refl;
  h_count = refl;
  in_range = refl;
  items_fit = ground arith;
}

encode_reuse_example :
    encode_channel_heap_into fixed packetizer (replicate heap_wire_size_bytes 255) mixed_heap
    ≡ some (datagram fixed packetizer mixed_heap, none)
encode_reuse_example =
    encode_reuse fixed packetizer mixed_heap zeros (replicate heap_wire_size_bytes 255)
      (datagram fixed packetizer mixed_heap)
      (encode-datagram fixed packetizer mixed_heap zeros refl mixed_heap-IsEncodable) refl

-- Three heaps, of which the second is refused and the third is late.
abbrev arrivals : List (Arrival ℤ ℤ)
arrivals =
    record { heap = mixed_heap; in_time = true }
    ∷ record { heap = short_heap; in_time = true }
    ∷ record { heap = mixed_heap; in_time = false }
    ∷ []

batch_send_loop-datagrams_example :
    (batches : List (List (List ℕ))) × (batch_send_loop fixed packetizer 2 arrivals ≡ some batches)
    × (joined batches ≡ datagrams fixed packetizer arrivals)
    × All (IsBatch 2) batches
batch_send_loop-datagrams_example = batch_send_loop-datagrams fixed packetizer 2 arrivals
