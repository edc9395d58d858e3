-- ===== src/Spead/Wire/Fields.antt =====
-- packetizer.go: the fields of a heap's words, as a receiver reads them back.
use ska_low_station_beam_sim.Prelude.{
  ℕ, ◌+◌, ◌*◌, ◌/◌, ◌%◌, ◌^◌, ◌≤◌, ◌<◌, ◌≡◌, refl, Bool, List, [], ◌∷◌, ◌∙◌, some, if◌then◌else◌,
  arith, length,
}
use ska_low_station_beam_sim.Prelude.Bits.{bit_or-shift, u16}
use ska_low_station_beam_sim.Binary.{put_be, read_be, length-put_be, read_be-put_be}
use ska_low_station_beam_sim.Spead.Wire.{
  spead_id_mask, spead_value_mask, pack_channel_info, pack_antenna_info, pointer_word,
  spead_item_pointer, spead_header,
}

-- packChannelInfo: 16 bits of beam id above 16 bits of frequency id, each cut to its width.
pack_channel_info_sum :
    (beam_id frequency_id : ℕ)
    → pack_channel_info beam_id frequency_id ≡ beam_id % 2 ^ 16 * 2 ^ 16 + frequency_id % 2 ^ 16
unfolding pack_channel_info
pack_channel_info_sum b f =
    let field : b % 2 ^ 16 * 2 ^ 16 % 2 ^ 64 ≡ b % 2 ^ 16 * 2 ^ 16 = omega arith in
    rw field (bit_or-shift 16 (b % 2 ^ 16) (f % 2 ^ 16) (omega arith))

pack_antenna_info_sum :
    (substation_id subarray_id station_id : ℕ)
    → substation_id < 2 ^ 8
    → subarray_id < 2 ^ 8
    → station_id < 2 ^ 16
    → pack_antenna_info substation_id subarray_id station_id
      ≡ substation_id * 2 ^ 40 + subarray_id * 2 ^ 32 + station_id * 2 ^ 16
unfolding pack_antenna_info
pack_antenna_info_sum p a s hp ha hs =
    let top : p * 2 ^ 40 % 2 ^ 64 ≡ p * 2 ^ 40 = omega arith in
    let middle : a * 2 ^ 32 % 2 ^ 64 ≡ a * 2 ^ 32 = omega arith in
    let low : s * 2 ^ 16 % 2 ^ 64 ≡ s * 2 ^ 16 = omega arith in
    let joined : p * 2 ^ 40 + a * 2 ^ 32 ≡ (p * 2 ^ 8 + a) * 2 ^ 32 = omega arith in
    rw
      (
        top,
        middle,
        low,
        bit_or-shift 40 p (a * 2 ^ 32) (omega arith),
        joined,
        bit_or-shift 32 (p * 2 ^ 8 + a) (s * 2 ^ 16) (omega arith),
      )
      (omega arith)

mode : Bool → ℕ
mode immediate = if immediate then 1 else 0

pointer_word_sum :
    (item_id value : ℕ) (immediate : Bool)
    → item_id ≤ spead_id_mask
    → value ≤ spead_value_mask
    → pointer_word item_id value immediate ≡ mode immediate * 2 ^ 63 + item_id * 2 ^ 48 + value
unfolding pointer_word mode
pointer_word_sum i v immediate hi hv =
    let m : ℕ = if immediate then 1 else 0 in
    let small : m ≤ 1 = ground arith in
    let top : m * 2 ^ 63 % 2 ^ 64 ≡ m * 2 ^ 63 = omega arith in
    let middle : i * 2 ^ 48 % 2 ^ 64 ≡ i * 2 ^ 48 = omega arith in
    let joined : m * 2 ^ 63 + i * 2 ^ 48 ≡ (m * 2 ^ 15 + i) * 2 ^ 48 = omega arith in
    rw
      (
        top,
        middle,
        bit_or-shift 63 m (i * 2 ^ 48) (omega arith),
        joined,
        bit_or-shift 48 (m * 2 ^ 15 + i) v (omega arith),
      )
      (omega arith)

-- An item pointer whose id fits 15 bits and whose value fits 48 bits is stored in 8 bytes, from which
-- a receiver reads the addressing mode in the top bit, the id in the 15 bits below it and the value in
-- the low 48 bits, unchanged.
pub item_pointer_roundtrip :
    (item_id value : ℕ) (immediate : Bool)
    → item_id ≤ spead_id_mask
    → value ≤ spead_value_mask
    → (bytes : List ℕ) × (spead_item_pointer item_id value immediate ≡ some bytes)
      × (length bytes ≡ 8)
      × (read_be 0 bytes / 2 ^ 63 ≡ (if immediate then 1 else 0))
      × (read_be 0 bytes / 2 ^ 48 % 2 ^ 15 ≡ item_id)
      × (read_be 0 bytes % 2 ^ 48 ≡ value)
unfolding mode
item_pointer_roundtrip i v immediate hi hv = (
  put_be 8 (pointer_word i v immediate),
  unfold spead_item_pointer in ground arith,
  length-put_be 8 _,
  ground (arith, small, word),
  ground (arith, small, word),
  ground (arith, small, word),
)
  where
    small : mode immediate ≤ 1
    small = ground arith

    word :
        read_be 0 (put_be 8 (pointer_word i v immediate)) ≡ mode immediate * 2 ^ 63 + i * 2 ^ 48 + v
    word =
        let sum = pointer_word_sum i v immediate hi hv in
        read_be-put_be 8 (pointer_word i v immediate) (omega (arith, sum, small)) ∙ sum

-- The channel item keeps the low 16 bits of the beam and frequency ids in the fields that the ICD
-- gives them, and the antenna item keeps its three ids whole; both values fit the 48 bits of an item.
pub packed_fields :
    (beam_id frequency_id substation_id subarray_id station_id : ℕ)
    → substation_id < 2 ^ 8
    → subarray_id < 2 ^ 8
    → station_id < 2 ^ 16
    → let channel = pack_channel_info beam_id frequency_id in
      let antenna = pack_antenna_info substation_id subarray_id station_id in
      (channel / 2 ^ 16 ≡ u16 beam_id)
      × (channel % 2 ^ 16 ≡ u16 frequency_id)
      × (antenna / 2 ^ 40 ≡ substation_id)
      × (antenna / 2 ^ 32 % 2 ^ 8 ≡ subarray_id)
      × (antenna / 2 ^ 16 % 2 ^ 16 ≡ station_id)
      × (antenna % 2 ^ 16 ≡ 0)
      × (channel ≤ spead_value_mask)
      × (antenna ≤ spead_value_mask)
packed_fields b f p a s hp ha hs =
    omega (arith, pack_channel_info_sum b f, pack_antenna_info_sum p a s hp ha hs)

header_bytes : spead_header 6 ≡ 0x53 ∷ 0x04 ∷ 0x02 ∷ 0x06 ∷ 0 ∷ 0 ∷ 0 ∷ 6 ∷ []
unfolding spead_header put_be
header_bytes = refl
