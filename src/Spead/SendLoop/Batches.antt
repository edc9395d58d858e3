-- ===== src/Spead/SendLoop/Batches.antt =====
-- sendloop.go: what the batches hold.
use mathlib.Core.List.{append_assoc}
use ska_low_station_beam_sim.Prelude.{
  ℕ, zero, suc, ◌≤◌, ◌<◌, ◌≡◌, refl, ap, ◌∙◌, inl, inr, List, [], ◌∷◌, ◌++◌, Option, some, ltb,
  length, replicate, map_option, All, ◌&&◌, arith, length-replicate, length-range_from, Bool-cases,
}
use ska_low_station_beam_sim.Float.{Float}
use ska_low_station_beam_sim.Spead.Packetizer.{SpsPacketizer, encode_channel_heap_into}
use ska_low_station_beam_sim.Spead.SendLoop.{
  Arrival, Pool, read_slots, drain, sent_batch, send_rounds, batch_send_loop, at_least_one,
}
use ska_low_station_beam_sim.Spead.SendLoop.Slots.{
  All-replicate, accepted_bytes, one_more, IsWire, Claims, encode_heap_into-Claims,
  read_slots_range, fresh, length-fresh, datagrams,
}

-- All the batches, one after another.
abbrev pub joined : List (List (List ℕ)) → List (List ℕ)
joined [] = []
joined (batch ∷ batches) = batch ++ joined batches

abbrev pub IsBatch : ℕ → List (List ℕ) → Type 0
IsBatch n batch = (0 < length batch) × (length batch ≤ n)

module _ {F S : Type 0} (fl : Float F S) (p : SpsPacketizer) where
  drain-Claims :
      (n : ℕ) (queue : List (Arrival F S)) (pool : Pool) (bufs : List ℕ) (out : List (List ℕ))
      → Claims n pool bufs out
      → length out ≤ n
      → (pool' : Pool) × (bufs' : List ℕ) × (rest : List (Arrival F S)) × (out' : List (List ℕ))
        × (drain fl p n pool bufs queue ≡ some (pool', bufs', rest))
        × Claims n pool' bufs' out'
        × (out' ++ datagrams fl p rest ≡ out ++ datagrams fl p queue)
        × (length out' ≤ n)
        × (length rest ≤ length queue)
  unfolding drain datagrams
  drain-Claims n [] pool bufs out c room = (pool, bufs, [], out, refl, c, refl, room, omega arith)
  drain-Claims n (a ∷ queue) pool bufs out c room =
      let k : length bufs ≡ length out = ap length c.slots ∙ length-range_from 0 (length out) in
      elim (Bool-cases (ltb (length bufs) n && a.in_time)) [
        | inr full ↦ (pool, bufs, a ∷ queue, out, rw full, c, refl, room, omega arith)
        | inl free ↦
            let here = accepted_bytes (encode_channel_heap_into fl p fresh a.heap) in
            let (pool1, bufs1, e1, c1) =
              encode_heap_into-Claims fl p n pool bufs out a.heap c (ground arith) in
            let (pool2, bufs2, rest, out2, e2, c2, same, fits, less) =
              drain-Claims n queue pool1 bufs1 (out ++ here) c1
                (one_more n out (encode_channel_heap_into fl p fresh a.heap) (ground arith)) in
            (
              pool2,
              bufs2,
              rest,
              out2,
              rw (free, e1) e2,
              c2,
              same ∙ append_assoc out here (datagrams fl p queue),
              fits,
              omega arith,
            )
      ]

  Sends : ℕ → List (Arrival F S) → Option (List (List (List ℕ))) → Type 0
  Sends n heaps r =
      (batches : List (List (List ℕ))) × (r ≡ some batches)
      × (joined batches ≡ datagrams fl p heaps)
      × All (IsBatch n) batches

  read_claimed :
      (n : ℕ) (pool : Pool) (bufs : List ℕ) (out : List (List ℕ))
      → Claims n pool bufs out
      → length out ≤ n
      → read_slots pool bufs ≡ some out
  read_claimed n pool bufs out c fits =
      rw c.slots (read_slots_range [] pool 0 (length out) refl (omega (arith, c.size)))
      ∙ ap some c.content

  sent_Sends :
      (n : ℕ) (pool : Pool) (bufs : List ℕ) (out : List (List ℕ)) (heaps rest : List (Arrival F S))
      (r : Option (List (List (List ℕ))))
      → Claims n pool bufs out
      → length out ≤ n
      → out ++ datagrams fl p rest ≡ datagrams fl p heaps
      → Sends n rest r
      → Sends n heaps (map_option (sent_batch bufs out) r)
  unfolding Sends
  sent_Sends n pool bufs [] heaps rest r c fits same (batches, e, joins, ok) =
      (batches, rw (e, c.slots), joins ∙ same, ok)
  sent_Sends n pool bufs (o ∷ out) heaps rest r c fits same (batches, e, joins, ok) = (
    (o ∷ out) ∷ batches,
    rw (e, c.slots),
    ap (λ l. (o ∷ out) ++ l) joins ∙ same,
    ((omega arith, fits), ok),
  )

  send_rounds-Sends :
      (fuel n : ℕ) (heaps : List (Arrival F S)) (pool : Pool)
      → 0 < n
      → length heaps ≤ fuel
      → Claims n pool [] []
      → Sends n heaps (send_rounds fl p fuel n pool heaps)
  unfolding send_rounds datagrams
  send_rounds-Sends fuel n [] pool some_room enough c = unfold Sends in ([], refl, refl, tt)
  send_rounds-Sends zero n (a ∷ queue) pool some_room enough c = absurd (omega arith)
  send_rounds-Sends (suc fuel) n (a ∷ queue) pool some_room enough c =
      let r = encode_channel_heap_into fl p fresh a.heap in
      let (pool1, bufs1, e1, c1) = encode_heap_into-Claims fl p n pool [] [] a.heap c some_room in
      let (pool2, bufs2, rest, out2, e2, c2, same, fits, less) =
        drain-Claims n queue pool1 bufs1 (accepted_bytes r) c1 (one_more n [] r some_room) in
      let next =
        send_rounds-Sends fuel n rest pool2 some_room (omega arith)
          (record { size = c2.size; wire = c2.wire; slots = refl; content = refl }) in
      rw (e1, e2, read_claimed n pool2 bufs2 out2 c2 fits)
        (sent_Sends n pool2 bufs2 out2 (a ∷ queue) rest (send_rounds fl p fuel n pool2 rest) c2 fits
          same next)

  -- For every batch size, all heaps and any timing of their arrivals, BatchSendLoop takes every heap and
  -- reads and writes its pool in range; the batches it sends are not empty and hold at most the batch
  -- size (at least 1), and joined together they are the datagrams of the heaps that have no error, in
  -- order, each once, with the bytes that a buffer of its own would have had.
  pub batch_send_loop-datagrams :
      (batch_size : ℕ) (arrivals : List (Arrival F S))
      → (batches : List (List (List ℕ))) × (batch_send_loop fl p batch_size arrivals ≡ some batches)
        × (joined batches ≡ datagrams fl p arrivals)
        × All (IsBatch (at_least_one batch_size)) batches
  unfolding batch_send_loop Sends fresh
  batch_send_loop-datagrams batch_size arrivals =
      let n = at_least_one batch_size in
      send_rounds-Sends (length arrivals) n arrivals (replicate n fresh) (positive batch_size)
        (omega arith)
        (record {
          size = length-replicate n fresh;
          wire = All-replicate IsWire n fresh length-fresh;
          slots = refl;
          content = refl;
        })
    where
      positive : (b : ℕ) → 0 < at_least_one b
      positive zero = omega arith
      positive (suc b) = omega arith
