-- ===== src/Spead/Packetizer/Encoding.antt =====
-- packetizer.go: what EncodeChannelHeapInto leaves in the wire buffer.
use mathlib.Core.List.{append_assoc}
use native.Mathlib.Nat.{zero-add, suc-add}
use ska_low_station_beam_sim.Prelude.{
  ℕ, zero, suc, ◌+◌, ◌*◌, ◌≤◌, ◌≡◌, refl, sym, ap, ◌∙◌, true, List, [], ◌∷◌, ◌++◌, Option, none,
  some, length, drop, map, ◌>>=◌, >>=-congr, drop-drop, length-append, length-map, All, arith,
}
use ska_low_station_beam_sim.Float.{Float}
use ska_low_station_beam_sim.Common.Heap.{ChannelHeap, Complex}
use ska_low_station_beam_sim.Binary.{put_be, length-put_be}
use ska_low_station_beam_sim.Spead.Wire.{
  spead_id_mask, spead_value_mask, spead_item_pointer, pointer_word,
}
use ska_low_station_beam_sim.Spead.Payload.Layout.{
  Pairs, interleave, pairs_of, quantized_pair, store_pairs, store_both, copied_pairs,
  quantized_pairs, copy_vh-interleave, length-pairs_of,
}
use ska_low_station_beam_sim.Spead.Packetizer.{
  Item, store_at, write_items, SpsPacketizer, resolve_quantize_scale, sample_count, store_pol,
  store_payload,
}

-- The 8 bytes of an item pointer.
abbrev pub item_bytes : Item → List ℕ
item_bytes it = put_be 8 (pointer_word it.id it.value it.immediate)

abbrev pub items_bytes : List Item → List ℕ
items_bytes [] = []
items_bytes (it ∷ items) = item_bytes it ++ items_bytes items

abbrev pub ItemFits : Item → Type 0
ItemFits it = (it.id ≤ spead_id_mask) × (it.value ≤ spead_value_mask)

pub store_at_lem :
    (before bytes rest : List ℕ) (offset : ℕ)
    → length before ≡ offset
    → store_at offset bytes (before ++ rest) ≡ before ++ (bytes ++ drop (length bytes) rest)
store_at_lem [] bytes rest zero e = rw zero-add
store_at_lem [] bytes rest (suc offset) e = absurd (omega arith)
store_at_lem (b ∷ before) bytes rest zero e = absurd (omega arith)
store_at_lem (b ∷ before) bytes rest (suc offset) e =
    rw suc-add (ap (◌∷◌ b) (store_at_lem before bytes rest offset (omega arith)))

spead_item_pointer_fits :
    (it : Item)
    → ItemFits it
    → spead_item_pointer it.id it.value it.immediate ≡ some (item_bytes it)
unfolding spead_item_pointer
spead_item_pointer_fits it fits = ground arith

pub write_items_lem :
    (items : List Item) (before rest : List ℕ) (offset : ℕ)
    → length before ≡ offset
    → All ItemFits items
    → write_items offset items (before ++ rest)
      ≡ (before ++ (items_bytes items ++ drop (length (items_bytes items)) rest), true)
unfolding write_items
write_items_lem [] before rest offset e fits = refl
write_items_lem (it ∷ items) before rest offset e (fit, fits) =
    let ib = item_bytes it in
    let n = length (items_bytes items) in
    let after =
      write_items_lem items (before ++ ib) (drop (length ib) rest) (offset + 8)
        (omega (
          arith,
          length-append before ib,
          length-put_be 8 (pointer_word it.id it.value it.immediate),
        ))
        fits in
    rw (spead_item_pointer_fits it fit, write_items)
      (ap (write_items (offset + 8) items) (
          store_at_lem before ib rest offset e
          ∙ sym (append_assoc before ib (drop (length ib) rest)))
        ∙ after
        ∙ ap (λ l. (l, true)) (simp (append_assoc, drop-drop, length-append)))

pub length-items_bytes : (items : List Item) → length (items_bytes items) ≡ length items * 8
length-items_bytes [] = refl
length-items_bytes (it ∷ items) =
    let word = pointer_word it.id it.value it.immediate in
    omega (
      arith,
      length-append (put_be 8 word) (items_bytes items),
      length-put_be 8 word,
      length-items_bytes items,
    )

module _ {F S : Type 0} (fl : Float F S) where
  -- The byte pairs of one polarisation: those at hand, or the samples at the packetizer's scale.
  abbrev pub pol_pairs : SpsPacketizer → List (Complex S) → Option (List ℕ) → Pairs
  pol_pairs p samples none = map (quantized_pair fl (resolve_quantize_scale fl p samples)) samples
  pol_pairs p samples (some quantized) = pairs_of quantized

  pub length-pol_pairs :
      (p : SpsPacketizer) (samples : List (Complex S)) (q : Option (List ℕ))
      → length (pol_pairs p samples q) ≡ sample_count fl samples q
  length-pol_pairs p samples none = length-map samples _
  length-pol_pairs p samples (some quantized) = length-pairs_of quantized

  store_pol-eq-store :
      (p : SpsPacketizer) (samples : List (Complex S)) (q : Option (List ℕ)) (dst : List ℕ)
      (offset : ℕ)
      → store_pol fl p samples q dst offset ≡ store_pairs 0 (pol_pairs p samples q) dst offset
  unfolding store_pol
  store_pol-eq-store p samples none dst offset = quantized_pairs fl samples dst offset _
  store_pol-eq-store p samples (some quantized) dst offset = copied_pairs quantized dst offset

  two_passes :
      (p : SpsPacketizer) (vs hs : List (Complex S)) (v h : Option (List ℕ)) (dst : List ℕ)
      → length dst ≡ length (pol_pairs p vs v) * 4
      → length (pol_pairs p hs h) ≡ length (pol_pairs p vs v)
      → (store_pol fl p vs v dst 0 >>= λ d. store_pol fl p hs h d 2)
        ≡ some (interleave (pol_pairs p vs v) (pol_pairs p hs h))
  two_passes p vs hs v h dst size same =
      >>=-congr (store_pol fl p vs v dst 0) _ _ (λ d. store_pol-eq-store p hs h d 2)
      ∙ rw (store_pol-eq-store p vs v dst 0)
          (store_both (pol_pairs p vs v) (pol_pairs p hs h) dst size same)

  -- The fast path and the two passes fill the payload alike.
  pub store_payload-interleave :
      (p : SpsPacketizer) (heap : ChannelHeap F S) (v h : Option (List ℕ)) (dst : List ℕ)
      → length dst ≡ length (pol_pairs p heap.v_samples v) * 4
      → length (pol_pairs p heap.h_samples h) ≡ length (pol_pairs p heap.v_samples v)
      → store_payload fl p heap v h dst
        ≡ some (interleave (pol_pairs p heap.v_samples v) (pol_pairs p heap.h_samples h))
  unfolding store_payload
  store_payload-interleave p heap (some vq) (some hq) dst size same =
      copy_vh-interleave vq hq dst size same
  store_payload-interleave p heap none h dst size same =
      two_passes p heap.v_samples heap.h_samples none h dst size same
  store_payload-interleave p heap (some vq) none dst size same =
      two_passes p heap.v_samples heap.h_samples (some vq) none dst size same
