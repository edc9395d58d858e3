-- ===== src/Spead/Packetizer/Wire.antt =====
-- packetizer.go: the datagram of a heap that EncodeChannelHeapInto accepts, byte for byte.
use mathlib.Core.List.{append_assoc}
use mathlib.Core.Path.{subst}
use ska_low_station_beam_sim.Prelude.{
  ℕ, ◌/◌, ◌%◌, ◌^◌, ◌≤◌, ◌<◌, ◌≡◌, refl, ap, ◌∙◌, true, false, List, [], ◌∷◌, ◌++◌, some, none,
  ==_iff, length, take, drop, take_append, drop_append, length-append, length-drop, All, arith, sym,
}
use ska_low_station_beam_sim.Prelude.Int.{ℤ, pos, to_word, ◌+ℤ◌}
use ska_low_station_beam_sim.Float.{Float}
use ska_low_station_beam_sim.Common.Heap.{StationConfig, ChannelHeap}
use ska_low_station_beam_sim.Binary.{length-put_be}
use ska_low_station_beam_sim.Spead.Wire.{
  payload_length_bytes, num_heap_items, heap_wire_size_bytes, spead_heap_counter_mask,
  spead_value_mask, pack_channel_info, pack_antenna_info, spead_header, header_word,
}
use ska_low_station_beam_sim.Spead.Wire.Fields.{packed_fields}
use ska_low_station_beam_sim.Spead.Payload.Layout.{interleave}
use ska_low_station_beam_sim.Spead.Packetizer.{
  Item, item, SpsPacketizer, sample_count, heap_counter, counter_is_out_of_range, heap_items,
  encode_channel_heap_into, write_items, store_at, store_payload,
}
use ska_low_station_beam_sim.Spead.Packetizer.Encoding.{
  ItemFits, items_bytes, pol_pairs, write_items_lem, store_at_lem, length-items_bytes,
  length-pol_pairs, store_payload-interleave,
}

-- The ICD's six items, for a heap counter and a scan id that fit.
abbrev pub icd_items : StationConfig → ℤ → ℕ → ℕ → List Item
icd_items station channel_id counter scan_id =
    item 0x0001 counter true
    ∷ item 0x0004 0x2000 true
    ∷ item 0x3010 scan_id true
    ∷ item 0x3000
        (pack_channel_info (to_word 32 station.beam_id)
          (to_word 32 (station.start_channel +ℤ channel_id)))
        true
    ∷ item 0x3001
        (pack_antenna_info (to_word 8 station.substation_id) (to_word 8 station.subarray_id)
          (to_word 16 station.station_id))
        true
    ∷ item 0x3300 0 false
    ∷ []

to_word-lt : (w : ℕ) (z : ℤ) → 0 < 2 ^ w → to_word w z < 2 ^ w
to_word-lt w z h = ground arith

icd_items_fit :
    (station : StationConfig) (channel_id : ℤ) (counter scan_id : ℕ)
    → counter ≤ spead_heap_counter_mask
    → scan_id ≤ spead_value_mask
    → All ItemFits (icd_items station channel_id counter scan_id)
icd_items_fit station channel_id counter scan_id hc hs =
    let fields =
      packed_fields (to_word 32 station.beam_id) (to_word 32 (station.start_channel +ℤ channel_id))
        (to_word 8 station.substation_id) (to_word 8 station.subarray_id)
        (to_word 16 station.station_id) (to_word-lt 8 station.substation_id (omega arith))
        (to_word-lt 8 station.subarray_id (omega arith))
        (to_word-lt 16 station.station_id (omega arith)) in
    omega (arith, fields)

length-spead_header : length (spead_header num_heap_items) ≡ 8
unfolding spead_header
length-spead_header = length-put_be 8 (header_word num_heap_items)

-- The header and the item pointers, with what is left of the buffer behind them.
written_prefix :
    (items : List Item) (dst : List ℕ)
    → All ItemFits items
    → write_items 8 items (store_at 0 (spead_header num_heap_items) dst) ≡ (
      spead_header num_heap_items
          ++ (items_bytes items ++ drop (length (items_bytes items)) (drop 8 dst)),
      true,
    )
written_prefix items dst fits =
    let stored = store_at_lem [] (spead_header num_heap_items) dst 0 refl in
    rw (stored, length-spead_header)
      (write_items_lem items (spead_header num_heap_items) (drop 8 dst) 8 length-spead_header fits)

module _ {F S : Type 0} (fl : Float F S) (p : SpsPacketizer) (heap : ChannelHeap F S) where
  payload_stored :
      (items : List Item) (dst : List ℕ)
      → length items ≡ 6
      → length dst ≡ heap_wire_size_bytes
      → sample_count fl heap.v_samples heap.v_quantized ≡ payload_length_bytes / 4
      → sample_count fl heap.h_samples heap.h_quantized ≡ payload_length_bytes / 4
      → store_payload fl p heap heap.v_quantized heap.h_quantized
          (drop (length (items_bytes items)) (drop 8 dst))
        ≡ some (
            interleave
              (pol_pairs fl p heap.v_samples heap.v_quantized)
              (pol_pairs fl p heap.h_samples heap.h_quantized))
  payload_stored items dst six size nv nh =
      let lv = length-pol_pairs fl p heap.v_samples heap.v_quantized in
      let lh = length-pol_pairs fl p heap.h_samples heap.h_quantized in
      store_payload-interleave fl p heap heap.v_quantized heap.h_quantized _
        (omega (
          arith,
          length-drop (length (items_bytes items)) (drop 8 dst),
          length-drop 8 dst,
          length-items_bytes items,
          lv,
        ))
        (omega (arith, lv, lh))

  -- The datagram of a heap whose items all fit.
  abbrev pub datagram : List ℕ
  datagram =
      spead_header num_heap_items
      ++ (items_bytes (heap_items fl p.station heap)
          ++ interleave (pol_pairs fl p heap.v_samples heap.v_quantized)
              (pol_pairs fl p heap.h_samples heap.h_quantized))

  -- What EncodeChannelHeapInto asks of a heap, whatever the buffer.
  pub record IsEncodable : Type 0 where
    pub v_count : sample_count fl heap.v_samples heap.v_quantized ≡ payload_length_bytes / 4
    pub h_count : sample_count fl heap.h_samples heap.h_quantized ≡ payload_length_bytes / 4
    pub in_range : counter_is_out_of_range fl (heap_counter fl heap) ≡ false
    pub items_fit : All ItemFits (heap_items fl p.station heap)

  pub encode-datagram :
      (dst : List ℕ)
      → length dst ≡ heap_wire_size_bytes
      → IsEncodable
      → encode_channel_heap_into fl p dst heap ≡ some (datagram, none)
  unfolding encode_channel_heap_into
  encode-datagram dst size can =
      let items = heap_items fl p.station heap in
      rw (
        (==_iff _ _).1 size,
        (==_iff _ _).1 can.v_count,
        (==_iff _ _).1 can.h_count,
        can.in_range,
        written_prefix items dst can.items_fit,
        prefix_dropped,
        payload_stored items dst refl size can.v_count can.h_count,
        prefix_taken,
        append_assoc,
      )
    where
      before : List ℕ
      before = spead_header num_heap_items

      pointers : List ℕ
      pointers = items_bytes (heap_items fl p.station heap)

      rest : List ℕ
      rest = drop (length pointers) (drop 8 dst)

      size_of_prefix : length (before ++ pointers) ≡ 56
      size_of_prefix = omega (
        arith,
        length-append before pointers,
        length-spead_header,
        length-items_bytes (heap_items fl p.station heap),
      )

      prefix_dropped : drop 56 (before ++ (pointers ++ rest)) ≡ rest
      prefix_dropped =
          ap (drop 56) (sym (append_assoc before pointers rest))
          ∙ drop_append 56 (before ++ pointers) rest size_of_prefix

      prefix_taken : take 56 (before ++ (pointers ++ rest)) ≡ before ++ pointers
      prefix_taken =
          ap (take 56) (sym (append_assoc before pointers rest))
          ∙ take_append 56 (before ++ pointers) rest size_of_prefix

  items_checked :
      (counter scan_id : ℕ)
      → fl.to_int (heap_counter fl heap) ≡ pos counter
      → counter ≤ spead_heap_counter_mask
      → p.station.scan_id ≡ pos scan_id
      → scan_id ≤ spead_value_mask
      → heap_items fl p.station heap ≡ icd_items p.station heap.channel_id counter scan_id
  items_checked counter scan_id hc lc hs ls =
      let c : counter % 2 ^ 64 ≡ counter = omega arith in
      let s : scan_id % 2 ^ 64 ≡ scan_id = omega arith in rw (hc, hs, c, s)

  -- A heap with 2048 samples in each polarisation, given as samples or as bytes, whose counter is in
  -- range and fits 40 bits, of a station whose scan id fits 48 bits, is encoded with no error into a
  -- buffer of 8248 bytes: the header, the six item pointers of the ICD with the values of the station
  -- and the heap, and V's and H's bytes interleaved. Nothing of what the buffer held before is left.
  pub encode_layout :
      (dst : List ℕ) (counter scan_id : ℕ)
      → length dst ≡ heap_wire_size_bytes
      → sample_count fl heap.v_samples heap.v_quantized ≡ payload_length_bytes / 4
      → sample_count fl heap.h_samples heap.h_quantized ≡ payload_length_bytes / 4
      → counter_is_out_of_range fl (heap_counter fl heap) ≡ false
      → fl.to_int (heap_counter fl heap) ≡ pos counter
      → counter ≤ spead_heap_counter_mask
      → p.station.scan_id ≡ pos scan_id
      → scan_id ≤ spead_value_mask
      → encode_channel_heap_into fl p dst heap
        ≡ some (
          spead_header num_heap_items
              ++ (items_bytes (icd_items p.station heap.channel_id counter scan_id)
                  ++ interleave
                      (pol_pairs fl p heap.v_samples heap.v_quantized)
                      (pol_pairs fl p heap.h_samples heap.h_quantized)),
          none,
        )
  encode_layout dst counter scan_id size nv nh range hc lc hs ls =
      let same = items_checked counter scan_id hc lc hs ls in
      let fit = icd_items_fit p.station heap.channel_id counter scan_id lc ls in
      encode-datagram dst size (record {
        v_count = nv;
        h_count = nh;
        in_range = range;
        items_fit = subst (All ItemFits) (sym same) fit;
      })
      ∙ ap
          (λ items. some (
            spead_header num_heap_items
                ++ (items_bytes items
                    ++ interleave (pol_pairs fl p heap.v_samples heap.v_quantized)
                        (pol_pairs fl p heap.h_samples heap.h_quantized)),
            none,
          ))
          same
