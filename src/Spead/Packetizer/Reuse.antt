-- ===== src/Spead/Packetizer/Reuse.antt =====
-- packetizer.go: encoding into a buffer that another heap left behind.
use ska_low_station_beam_sim.Prelude.{
  ℕ, ◌+◌, ◌/◌, ◌≡◌, sym, ◌∙◌, inl, inr, Bool, true, not, ◌||◌, List, [], ◌∷◌, Option, some, none,
  if_cases, ◌==◌, length, All, arith, Option-cases,
}
use ska_low_station_beam_sim.Float.{Float}
use ska_low_station_beam_sim.Common.Heap.{ChannelHeap}
use ska_low_station_beam_sim.Spead.Wire.{
  heap_wire_size_bytes, payload_length_bytes, spead_header, num_heap_items, spead_item_pointer,
  spead_header_size,
}
use ska_low_station_beam_sim.Spead.Packetizer.{
  EncodeError, Item, store_at, write_items, SpsPacketizer, sample_count, heap_counter,
  counter_is_out_of_range, heap_items, encode_channel_heap_into,
}
use ska_low_station_beam_sim.Spead.Packetizer.Encoding.{ItemFits}
use ska_low_station_beam_sim.Spead.Packetizer.Wire.{IsEncodable, encode-datagram}

pointer_fits :
    (it : Item) {bytes : List ℕ}
    → spead_item_pointer it.id it.value it.immediate ≡ some bytes
    → ItemFits it
unfolding spead_item_pointer
pointer_fits it e = ground arith

written_fits :
    (items : List Item) (offset : ℕ) (dst : List ℕ)
    → (write_items offset items dst).1 ≡ true
    → All ItemFits items
unfolding write_items
written_fits [] offset dst e = tt
written_fits (it ∷ items) offset dst e =
    elim (Option-cases (spead_item_pointer it.id it.value it.immediate)) [
      | inl refused ↦ cc (rw (refused, write_items) at e)
      | inr (bytes, ok) ↦ (
        pointer_fits it ok,
        written_fits items (offset + 8) (store_at offset bytes dst) (rw (ok, write_items) at e),
      )
    ]

module _ {F S : Type 0} (fl : Float F S) (p : SpsPacketizer) (heap : ChannelHeap F S) where
  -- Only an encodable heap is encoded with no error.
  pub accepted-IsEncodable :
      (dst after : List ℕ)
      → encode_channel_heap_into fl p dst heap ≡ some (after, none)
      → IsEncodable fl p heap × (length dst ≡ heap_wire_size_bytes)
  unfolding encode_channel_heap_into
  accepted-IsEncodable dst after =
      if_cases Accepts (not (length dst == heap_wire_size_bytes)) (λ _ e. cc)
        (λ size.
          if_cases Accepts bad_counts (λ _ e. cc)
            (λ counts.
              if_cases Accepts (counter_is_out_of_range fl (heap_counter fl heap)) (λ _ e. cc)
                (λ range.
                  if_cases Accepts (not all_fit) (λ _ e. cc)
                    (λ fit e. (
                      record {
                        v_count = ground arith;
                        h_count = ground arith;
                        in_range = range;
                        items_fit =
                            written_fits (heap_items fl p.station heap) spead_header_size prefix
                              (ground arith);
                      },
                      ground arith,
                    )))))
    where
      Accepts : Option (List ℕ × Option EncodeError) → Type 0
      Accepts r =
          r ≡ some (after, none) → IsEncodable fl p heap × (length dst ≡ heap_wire_size_bytes)

      bad_counts : Bool
      bad_counts =
          not (sample_count fl heap.v_samples heap.v_quantized == payload_length_bytes / 4)
          || not (sample_count fl heap.h_samples heap.h_quantized == payload_length_bytes / 4)

      prefix : List ℕ
      prefix = store_at 0 (spead_header num_heap_items) dst

      all_fit : Bool
      all_fit = (write_items spead_header_size (heap_items fl p.station heap) prefix).1

  -- If a heap is encoded with no error into one buffer of the wire size, it is encoded with no error into
  -- every buffer of that size, and the bytes are the same: nothing of an earlier heap shows in them.
  pub encode_reuse :
      (dst dst' after : List ℕ)
      → encode_channel_heap_into fl p dst heap ≡ some (after, none)
      → length dst' ≡ heap_wire_size_bytes
      → encode_channel_heap_into fl p dst' heap ≡ some (after, none)
  encode_reuse dst dst' after e size' =
      let (can, size) = accepted-IsEncodable dst after e in
      encode-datagram fl p heap dst' size' can ∙ sym (encode-datagram fl p heap dst size can) ∙ e
