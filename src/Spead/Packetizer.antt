-- ===== src/Spead/Packetizer.antt =====
-- internal/spead/packetizer.go: SpsPacketizer, which encodes one channel heap into a wire buffer.
pub mod Encoding
pub mod Wire
pub mod Total
pub mod Reuse
use ska_low_station_beam_sim.Prelude.{
  ℕ, ◌+◌, ◌/◌, Bool, true, false, not, ◌&&◌, ◌||◌, List, [], ◌∷◌, ◌++◌, Option, none, some,
  if◌then◌else◌, ◌==◌, length, take, drop, replicate, ◌>>=◌, map_option,
}
use ska_low_station_beam_sim.Prelude.Int.{ℤ, pos, to_word, ◌+ℤ◌}
use ska_low_station_beam_sim.Float.{Float, constant}
use ska_low_station_beam_sim.Common.Heap.{StationConfig, ChannelHeap, Complex}
use ska_low_station_beam_sim.Common.Time.{unix_to_tai2000_seconds, block_duration_s}
use ska_low_station_beam_sim.Spead.Wire.{
  payload_length_bytes, num_heap_items, spead_header_size, item_pointer_bytes, heap_payload_offset,
  heap_wire_size_bytes, spead_heap_counter_mask, pack_channel_info, pack_antenna_info, spead_header,
  spead_item_pointer,
}
use ska_low_station_beam_sim.Spead.Payload.{
  quantize8bit_scale, quantize8bit_into_payload, copy_quantized_into_payload,
  copy_quantized_vh_into_payload,
}

-- The errors of EncodeChannelHeapInto and SendChannelHeap.
pub data EncodeError : Type 0 where
  wrong_buffer_size wrong_sample_count counter_out_of_range item_too_large no_sender : EncodeError

pub record Item : Type 0 where
  pub id : ℕ
  pub value : ℕ
  pub immediate : Bool

abbrev pub item : ℕ → ℕ → Bool → Item
item id value immediate = record { id = id; value = value; immediate = immediate }

-- `dst[offset : offset+len(bytes)] = bytes`, for a range inside dst
abbrev pub store_at : ℕ → List ℕ → List ℕ → List ℕ
store_at offset bytes dst = take offset dst ++ (bytes ++ drop (offset + length bytes) dst)

-- The loop over the item table: the buffer so far, and whether an item was refused.
unfoldable pub write_items : ℕ → List Item → List ℕ → List ℕ × Bool
write_items offset [] dst = (dst, true)
write_items offset (it ∷ items) dst = elim (spead_item_pointer it.id it.value it.immediate) [
  | none ↦ (dst, false)
  | some bytes ↦ write_items (offset + item_pointer_bytes) items (store_at offset bytes dst)
]

-- The fields of SpsPacketizer; quantizeScaleBits is 0 when no fixed scale is set.
pub record SpsPacketizer : Type 0 where
  pub station : StationConfig
  pub quantize_scale_bits : ℕ

-- NewSpsPacketizer
unfoldable pub new_packetizer : StationConfig → SpsPacketizer
new_packetizer station = record { station = station; quantize_scale_bits = 0 }

module _ {F S : Type 0} (fl : Float F S) where
  -- SetQuantizeScale
  unfoldable pub set_quantize_scale : F → SpsPacketizer → SpsPacketizer
  set_quantize_scale scale p = record p { quantize_scale_bits = fl.bits scale }

  -- resolveQuantizeScale
  unfoldable pub resolve_quantize_scale : SpsPacketizer → List (Complex S) → F
  resolve_quantize_scale p samples =
      if not (p.quantize_scale_bits == 0)
      then fl.from_bits p.quantize_scale_bits
      else quantize8bit_scale fl samples

  -- The sample count of one polarisation, in either representation.
  abbrev pub sample_count : List (Complex S) → Option (List ℕ) → ℕ
  sample_count samples none = length samples
  sample_count samples (some quantized) = length quantized / 2

  -- heapCounterF
  abbrev pub heap_counter : ChannelHeap F S → F
  heap_counter heap =
      fl.round (fl.div (unix_to_tai2000_seconds fl heap.heap_start_time) (block_duration_s fl))

  abbrev pub counter_is_out_of_range : F → Bool
  counter_is_out_of_range f =
      fl.lt f (constant fl (pos 0)) || fl.lt (constant fl (pos spead_heap_counter_mask)) f

  -- The item table of EncodeChannelHeapInto.
  abbrev pub heap_items : StationConfig → ChannelHeap F S → List Item
  heap_items station heap =
      item 0x0001 (to_word 64 (fl.to_int (heap_counter heap))) true
      ∷ item 0x0004 payload_length_bytes true
      ∷ item 0x3010 (to_word 64 station.scan_id) true
      ∷ item 0x3000
          (pack_channel_info (to_word 32 station.beam_id)
            (to_word 32 (station.start_channel +ℤ heap.channel_id)))
          true
      ∷ item 0x3001
          (pack_antenna_info (to_word 8 station.substation_id) (to_word 8 station.subarray_id)
            (to_word 16 station.station_id))
          true
      ∷ item 0x3300 0 false
      ∷ []

  -- One polarisation of the `default` case of the payload's switch.
  store_pol : SpsPacketizer → List (Complex S) → Option (List ℕ) → List ℕ → ℕ → Option (List ℕ)
  store_pol p samples (some quantized) payload offset =
      copy_quantized_into_payload quantized payload offset 4
  store_pol p samples none payload offset =
      quantize8bit_into_payload fl samples payload offset 4 (resolve_quantize_scale p samples)

  -- The switch that fills the payload.
  unfoldable pub store_payload :
      SpsPacketizer → ChannelHeap F S → Option (List ℕ) → Option (List ℕ) → List ℕ → Option (List ℕ)
  unfolding store_pol
  store_payload p heap (some vq) (some hq) payload = copy_quantized_vh_into_payload vq hq payload
  store_payload p heap v h payload =
      store_pol p heap.v_samples v payload 0 >>= λ d. store_pol p heap.h_samples h d 2

  -- EncodeChannelHeapInto: the buffer that it leaves and its error; `none` is a panic.
  unfoldable pub encode_channel_heap_into :
      SpsPacketizer → List ℕ → ChannelHeap F S → Option (List ℕ × Option EncodeError)
  encode_channel_heap_into p dst heap =
      if not (length dst == heap_wire_size_bytes)
      then some (dst, some wrong_buffer_size)
      else if not (sample_count heap.v_samples heap.v_quantized == payload_length_bytes / 4)
          || not (sample_count heap.h_samples heap.h_quantized == payload_length_bytes / 4)
      then some (dst, some wrong_sample_count)
      else if counter_is_out_of_range (heap_counter heap)
      then some (dst, some counter_out_of_range)
      else let (written, fits) =
          write_items spead_header_size (heap_items p.station heap)
            (store_at 0 (spead_header num_heap_items) dst) in
        if not fits
        then some (written, some item_too_large)
        else map_option (λ payload. (take heap_payload_offset written ++ payload, none))
            (store_payload p heap heap.v_quantized heap.h_quantized
              (drop heap_payload_offset written))

  -- EncodeChannelHeap: a fresh buffer, or the error
  unfoldable pub encode_channel_heap :
      SpsPacketizer → ChannelHeap F S → Option (List ℕ × Option EncodeError)
  unfolding encode_channel_heap_into
  encode_channel_heap p heap =
      map_option (λ (buf, err). elim err [ none ↦ (buf, none) | some e ↦ ([], some e) ])
        (encode_channel_heap_into p (replicate heap_wire_size_bytes 0) heap)

  -- SendChannelHeap, for a sender that is a function from a datagram to whether it was written.
  unfoldable pub send_channel_heap :
      SpsPacketizer → Option (List ℕ → Bool) → ChannelHeap F S → Option (Option EncodeError × Bool)
  unfolding encode_channel_heap
  send_channel_heap p none heap = some (some no_sender, false)
  send_channel_heap p (some write) heap =
      map_option
        (λ (encoded, err). elim err [ none ↦ (none, write encoded) | some e ↦ (some e, false) ])
        (encode_channel_heap p heap)
