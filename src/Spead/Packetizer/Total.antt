-- ===== src/Spead/Packetizer/Total.antt =====
-- packetizer.go: the outcome of EncodeChannelHeapInto on every input.
use ska_low_station_beam_sim.Prelude.{
  ℕ, ◌+◌, ◌*◌, ◌/◌, ◌≤◌, ◌≡◌, refl, inl, inr, Bool, false, not, ◌||◌, List, [], ◌∷◌, ◌++◌, Option,
  some, none, ◌==◌, length, take, drop, length-append, length-drop, length-take, arith,
  Option-cases, map_option, ◌∙◌, if_cases,
}
use ska_low_station_beam_sim.Float.{Float}
use ska_low_station_beam_sim.Common.Heap.{ChannelHeap}
use ska_low_station_beam_sim.Binary.{length-put_be}
use ska_low_station_beam_sim.Spead.Wire.{
  heap_wire_size_bytes, payload_length_bytes, spead_header, header_word, num_heap_items,
  pointer_word, spead_item_pointer, spead_header_size,
}
use ska_low_station_beam_sim.Spead.Payload.Layout.{interleave, length-interleave}
use ska_low_station_beam_sim.Spead.Packetizer.{
  EncodeError, wrong_buffer_size, wrong_sample_count, counter_out_of_range, item_too_large, Item,
  store_at, write_items, SpsPacketizer, sample_count, heap_counter, counter_is_out_of_range,
  heap_items, encode_channel_heap_into, store_payload,
}
use ska_low_station_beam_sim.Spead.Packetizer.Encoding.{
  pol_pairs, length-pol_pairs, store_payload-interleave,
}

length-spead_header : length (spead_header num_heap_items) ≡ 8
unfolding spead_header
length-spead_header = length-put_be 8 (header_word num_heap_items)

length-store_at :
    (offset : ℕ) (bytes dst : List ℕ)
    → offset + length bytes ≤ length dst
    → length (store_at offset bytes dst) ≡ length dst
length-store_at offset bytes dst h = omega (
  arith,
  length-append (take offset dst) (bytes ++ drop (offset + length bytes) dst),
  length-append bytes (drop (offset + length bytes) dst),
  length-take offset dst,
  length-drop (offset + length bytes) dst,
)

length-pointer :
    (it : Item) {bytes : List ℕ}
    → spead_item_pointer it.id it.value it.immediate ≡ some bytes
    → length bytes ≡ 8
unfolding spead_item_pointer
length-pointer it e = ground (arith, length-put_be 8 (pointer_word it.id it.value it.immediate))

length-write_items :
    (items : List Item) (offset : ℕ) (dst : List ℕ)
    → offset + length items * 8 ≤ length dst
    → length (write_items offset items dst).0 ≡ length dst
unfolding write_items
length-write_items [] offset dst h = refl
length-write_items (it ∷ items) offset dst h =
    elim (Option-cases (spead_item_pointer it.id it.value it.immediate)) [
      | inl refused ↦ rw (refused, write_items) refl
      | inr (bytes, e) ↦
          let size = length-pointer it e in
          let kept = length-store_at offset bytes dst (omega arith) in
          rw (e, write_items)
            (length-write_items items (offset + 8) (store_at offset bytes dst) (omega arith) ∙ kept)
    ]

module _ {F S : Type 0} (fl : Float F S) where
  abbrev pub Returns : ℕ → Option (List ℕ × Option EncodeError) → Type 0
  Returns n r =
      (after : List ℕ) × (err : Option EncodeError) × (r ≡ some (after, err)) × (length after ≡ n)

  -- The last step: the payload is stored behind what was written.
  payload_Returns :
      (p : SpsPacketizer) (heap : ChannelHeap F S) (written : List ℕ) (n : ℕ)
      → length written ≡ n
      → n ≡ heap_wire_size_bytes
      → sample_count fl heap.v_samples heap.v_quantized ≡ payload_length_bytes / 4
      → sample_count fl heap.h_samples heap.h_quantized ≡ payload_length_bytes / 4
      → Returns n (
          map_option
            (λ payload. (take 56 written ++ payload, none))
            (store_payload fl p heap heap.v_quantized heap.h_quantized (drop 56 written)))
  payload_Returns p heap written n kept size nv nh =
      let vs = pol_pairs fl p heap.v_samples heap.v_quantized in
      let hs = pol_pairs fl p heap.h_samples heap.h_quantized in
      let lv = length-pol_pairs fl p heap.v_samples heap.v_quantized in
      let lh = length-pol_pairs fl p heap.h_samples heap.h_quantized in
      let stored =
        store_payload-interleave fl p heap heap.v_quantized heap.h_quantized (drop 56 written)
          (omega (arith, length-drop 56 written, lv)) (omega (arith, lv, lh)) in
      (
        take 56 written ++ interleave vs hs,
        none,
        rw stored,
        omega (
          arith,
          length-append (take 56 written) (interleave vs hs),
          length-take 56 written,
          length-interleave vs hs (omega (arith, lv, lh)),
          lv,
        ),
      )

  -- Whatever the buffer, the heap and the station, EncodeChannelHeapInto does not panic: it returns, with
  -- an error or without, and the buffer keeps its length.
  pub encode_total :
      (p : SpsPacketizer) (dst : List ℕ) (heap : ChannelHeap F S)
      → (after : List ℕ) × (err : Option EncodeError) × (encode_channel_heap_into fl p dst heap
          ≡ some (after, err))
        × (length after ≡ length dst)
  unfolding encode_channel_heap_into
  encode_total p dst heap =
      if_cases (Returns (length dst)) (not (length dst == heap_wire_size_bytes))
        (λ _. (dst, some wrong_buffer_size, refl, refl))
        (λ size.
          if_cases (Returns (length dst)) bad_counts
            (λ _. (dst, some wrong_sample_count, refl, refl))
            (λ counts.
              if_cases (Returns (length dst)) (counter_is_out_of_range fl (heap_counter fl heap))
                (λ _. (dst, some counter_out_of_range, refl, refl))
                (λ _.
                  if_cases (Returns (length dst)) (not all_fit)
                    (λ _. (written, some item_too_large, refl, written_size (sized size)))
                    (λ _.
                      payload_Returns p heap written (length dst) (written_size (sized size))
                        (sized size) (ground arith) (ground arith)))))
    where
      bad_counts : Bool
      bad_counts =
          not (sample_count fl heap.v_samples heap.v_quantized == payload_length_bytes / 4)
          || not (sample_count fl heap.h_samples heap.h_quantized == payload_length_bytes / 4)

      sized : not (length dst == heap_wire_size_bytes) ≡ false → length dst ≡ heap_wire_size_bytes
      sized e = ground arith

      prefix : List ℕ
      prefix = store_at 0 (spead_header num_heap_items) dst

      all_fit : Bool
      all_fit = (write_items spead_header_size (heap_items fl p.station heap) prefix).1

      written : List ℕ
      written = (write_items spead_header_size (heap_items fl p.station heap) prefix).0

      written_size : length dst ≡ heap_wire_size_bytes → length written ≡ length dst
      written_size total =
          let size = length-spead_header in
          let start = length-store_at 0 (spead_header num_heap_items) dst (omega (arith, size)) in
          length-write_items (heap_items fl p.station heap) spead_header_size prefix
            (omega (arith, start))
          ∙ start
