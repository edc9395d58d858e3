-- ===== src/Spead/SendLoop.antt =====
-- internal/spead/sendloop.go: the loop that encodes the heaps of one shard into a pool of reused
-- buffers and sends them in batches. A buffer of a batch is an alias of a slot of the pool, so a batch
-- is a list of slots, read when WriteBatch is called. `none` is a panic, or a loop out of fuel.
pub mod Slots
pub mod Batches
use ska_low_station_beam_sim.Prelude.{
  ℕ, zero, suc, ◌+◌, Bool, true, false, List, [], ◌∷◌, ◌++◌, Option, none, some, if◌then◌else◌, ltb,
  ◌&&◌, ◌==◌, length, get_elem?, set, replicate, ◌>>=◌, map_option,
}
use ska_low_station_beam_sim.Float.{Float}
use ska_low_station_beam_sim.Common.Heap.{ChannelHeap}
use ska_low_station_beam_sim.Spead.Wire.{heap_wire_size_bytes}
use ska_low_station_beam_sim.Spead.Packetizer.{EncodeError, SpsPacketizer, encode_channel_heap_into}

abbrev pub Pool : Type 0
Pool = List (List ℕ)

-- A heap of the channel, and whether it is there when the drain loop asks for it.
pub record Arrival (F S : Type 0) : Type 0 where
  pub heap : ChannelHeap F S
  pub in_time : Bool

-- The bytes of the slots of a batch.
unfoldable pub read_slots : Pool → List ℕ → Option (List (List ℕ))
read_slots pool [] = some []
read_slots pool (slot ∷ bufs) =
    get_elem? pool slot >>= λ buf. map_option (◌∷◌ buf) (read_slots pool bufs)

abbrev claimed : Option EncodeError → List ℕ → List ℕ
claimed none bufs = bufs ++ (length bufs ∷ [])
claimed (some _) bufs = bufs

-- An empty batch is not sent.
abbrev sent_batch : List ℕ → List (List ℕ) → List (List (List ℕ)) → List (List (List ℕ))
sent_batch [] batch batches = batches
sent_batch (_ ∷ _) batch batches = batch ∷ batches

-- A batch size of 0 or less is taken as 1; the size is a natural number here, and 0 stands for them.
abbrev pub at_least_one : ℕ → ℕ
at_least_one zero = 1
at_least_one (suc n) = suc n

module _ {F S : Type 0} (fl : Float F S) (p : SpsPacketizer) where
  -- encodeHeapInto: the first unclaimed slot is written, and claimed if the heap was encoded.
  unfoldable pub encode_heap_into : Pool → List ℕ → ChannelHeap F S → Option (Pool × List ℕ)
  encode_heap_into pool bufs heap = get_elem? pool (length bufs) >>= λ dst.
      encode_channel_heap_into fl p dst heap >>= λ (buf, err).
      some (set pool (length bufs) buf, claimed err bufs)

  -- The drain loop, over the heaps that are still to come: it ends at a full batch, and at a heap that
  -- is not there yet (the `default` case of its select).
  drain : ℕ → Pool → List ℕ → List (Arrival F S) → Option (Pool × List ℕ × List (Arrival F S))
  drain batch_size pool bufs [] = some (pool, bufs, [])
  drain batch_size pool bufs (a ∷ queue) =
      if ltb (length bufs) batch_size && a.in_time
      then (encode_heap_into pool bufs a.heap >>= λ (pool', bufs').
          drain batch_size pool' bufs' queue)
      else some (pool, bufs, a ∷ queue)

  -- The rounds of the loop until the last heap was taken: the batches handed to WriteBatch, whose error
  -- is only logged. A round blocks until its first heap is there.
  send_rounds : ℕ → ℕ → Pool → List (Arrival F S) → Option (List (List (List ℕ)))
  send_rounds fuel batch_size pool [] = some []
  send_rounds zero batch_size pool (a ∷ queue) = none
  send_rounds (suc fuel) batch_size pool (a ∷ queue) =
      encode_heap_into pool [] a.heap >>= λ (pool1, bufs1).
      drain batch_size pool1 bufs1 queue >>= λ (pool2, bufs2, rest).
      read_slots pool2 bufs2 >>= λ batch.
      map_option (sent_batch bufs2 batch) (send_rounds fuel batch_size pool2 rest)

  -- BatchSendLoop over the heaps that it takes from its channel before the shutdown: each round takes at least one heap, so
  -- their number is fuel enough.
  unfoldable pub batch_send_loop : ℕ → List (Arrival F S) → Option (List (List (List ℕ)))
  unfolding send_rounds drain encode_heap_into read_slots
  batch_send_loop batch_size arrivals =
      let n = at_least_one batch_size in
      send_rounds (length arrivals) n (replicate n (replicate heap_wire_size_bytes 0)) arrivals
