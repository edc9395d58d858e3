-- ===== src/Spead/Wire.antt =====
-- internal/spead/packetizer.go: the packet header, the item pointers and the packed fields.
pub mod Fields
use Prim.Native.Nat.{bit_or}
use ska_low_station_beam_sim.Prelude.{
  ℕ, ◌+◌, ◌-◌, ◌*◌, ◌/◌, ◌^◌, Bool, List, Option, none, some, if◌then◌else◌, ltb,
}
use ska_low_station_beam_sim.Prelude.Bits.{u8, u16, u32, u64}
use ska_low_station_beam_sim.Binary.{put_be}

abbrev pub spead_version : ℕ
spead_version = 4

abbrev pub spead_item_pointer_bits : ℕ
spead_item_pointer_bits = 64

abbrev pub spead_heap_address_bits : ℕ
spead_heap_address_bits = 48

abbrev pub spead_id_bits : ℕ
spead_id_bits = spead_item_pointer_bits - 1 - spead_heap_address_bits

abbrev pub spead_heap_counter_bits : ℕ
spead_heap_counter_bits = 40

abbrev pub spead_id_mask : ℕ
spead_id_mask = 2 ^ spead_id_bits - 1

abbrev pub spead_value_mask : ℕ
spead_value_mask = 2 ^ spead_heap_address_bits - 1

abbrev pub spead_heap_counter_mask : ℕ
spead_heap_counter_mask = 2 ^ spead_heap_counter_bits - 1

abbrev pub payload_length_bytes : ℕ
payload_length_bytes = 0x2000

abbrev pub num_heap_items : ℕ
num_heap_items = 6

abbrev pub spead_header_size : ℕ
spead_header_size = 8

abbrev pub item_pointer_bytes : ℕ
item_pointer_bytes = 8

abbrev pub heap_payload_offset : ℕ
heap_payload_offset = spead_header_size + num_heap_items * item_pointer_bytes

abbrev pub heap_wire_size_bytes : ℕ
heap_wire_size_bytes = heap_payload_offset + payload_length_bytes

-- `x << k` on a uint64
abbrev pub shl64 : ℕ → ℕ → ℕ
shl64 x k = u64 (x * 2 ^ k)

-- `x & 0xFFFF` keeps the low 16 bits.
unfoldable pub pack_channel_info : ℕ → ℕ → ℕ
pack_channel_info beam_id frequency_id = bit_or (shl64 (u16 beam_id) 16) (u16 frequency_id)

unfoldable pub pack_antenna_info : ℕ → ℕ → ℕ → ℕ
pack_antenna_info substation_id subarray_id station_id =
    bit_or (bit_or (shl64 substation_id 40) (shl64 subarray_id 32)) (shl64 station_id 16)

-- The 64-bit word that writeSpeadHeader stores.
unfoldable pub header_word : ℕ → ℕ
header_word n_items =
    let heap_address_bytes = spead_heap_address_bits / 8 in
    let id_bytes = spead_item_pointer_bits / 8 - heap_address_bytes in
    bit_or
      (bit_or (bit_or (shl64 (bit_or 0x5300 spead_version) 48) (shl64 id_bytes 40))
        (shl64 heap_address_bytes 32))
      n_items

-- writeSpeadHeader: the 8 bytes that it stores into dst
unfoldable pub spead_header : ℕ → List ℕ
unfolding header_word
spead_header n_items = put_be 8 (header_word n_items)

unfoldable pub pointer_word : ℕ → ℕ → Bool → ℕ
pointer_word item_id value immediate =
    let mode_bit : ℕ = if immediate then 1 else 0 in
    bit_or (bit_or (shl64 mode_bit 63) (shl64 item_id spead_heap_address_bits)) value

-- writeSpeadItemPointer: the 8 bytes that it stores into dst, or `none` for its two errors, which
-- store nothing
unfoldable pub spead_item_pointer : ℕ → ℕ → Bool → Option (List ℕ)
unfolding pointer_word
spead_item_pointer item_id value immediate =
    if ltb spead_id_mask item_id
    then none
    else if ltb spead_value_mask value
    then none
    else some (put_be 8 (pointer_word item_id value immediate))
