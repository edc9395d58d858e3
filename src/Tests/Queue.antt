-- ===== src/Tests/Queue.antt =====
-- internal/common/heap_queue.go: examples with two shards of room for two heaps each.
use ska_low_station_beam_sim.Prelude.{
  ℕ, ◌+◌, ◌*◌, ◌≤◌, ◌≡◌, refl, true, false, List, [], ◌∷◌, ◌++◌, some, none, if◌then◌else◌, ltb,
  length, get_elem?, set, arith,
}
use ska_low_station_beam_sim.Prelude.Int.{ℤ, pos}
use ska_low_station_beam_sim.Common.Heap.{ChannelHeap}
use ska_low_station_beam_sim.Common.Queue.{
  HeapQueue, new_sharded, send_sharded, recv_sharded, shard_for, sharded_len,
}
use ska_low_station_beam_sim.Common.Queue.Order.{
  Traffic, sends, receives, Reaches, here, onward, idle, of_channel, per_channel_order,
}
use ska_low_station_beam_sim.Common.Queue.Capacity.{send_sharded_total, queue_conserves}

abbrev heap_of : ℤ → ℤ → ChannelHeap ℤ ℤ
heap_of channel start = record {
  channel_id = channel;
  v_samples = [];
  h_samples = [];
  v_quantized = none;
  h_quantized = none;
  heap_start_time = start;
}

abbrev first : ChannelHeap ℤ ℤ
first = heap_of (pos 3) (pos 0)

abbrev second : ChannelHeap ℤ ℤ
second = heap_of (pos 3) (pos 1)

abbrev third : ChannelHeap ℤ ℤ
third = heap_of (pos 5) (pos 2)

abbrev queue_of : List (ChannelHeap ℤ ℤ) → HeapQueue (ChannelHeap ℤ ℤ)
queue_of heaps = record { buffered = heaps; size = 2 }

-- Two heaps of channel 3 are sent, one of them is received, and the heap of channel 5 is sent.
abbrev after_all : Traffic ℤ ℤ
after_all = record {
  shards = queue_of [] ∷ queue_of (second ∷ third ∷ []) ∷ [];
  accepted = first ∷ second ∷ third ∷ [];
  received = first ∷ [];
}

run : Reaches (idle (pos 2) 2) after_all
unfolding new_sharded send_sharded recv_sharded
run =
    onward
      (onward (onward (onward here (sends first _ true refl refl)) (sends second _ true refl refl))
        (receives 1 first _ refl refl))
      (sends third _ true refl refl)

per_channel_order_example :
    of_channel (pos 3) (first ∷ []) ++ of_channel (pos 3) (second ∷ third ∷ [])
    ≡ of_channel (pos 3) (first ∷ second ∷ third ∷ [])
unfolding shard_for
per_channel_order_example =
    per_channel_order (pos 2) 2 run (pos 3) 1 (queue_of (second ∷ third ∷ [])) refl refl

queue_conserves_example :
    (3 ≡ 1 + sharded_len after_all.shards) × (sharded_len after_all.shards ≤ 2 * 2)
queue_conserves_example = queue_conserves (pos 2) 2 run

send_sharded_total_example :
    (i : ℕ) × (q : HeapQueue (ChannelHeap ℤ ℤ)) × (shard_for (pos 3) 2 ≡ pos i)
    × (get_elem? after_all.shards i ≡ some q)
    × (send_sharded first after_all.shards ≡ (
        if ltb (length q.buffered) q.size
        then some
            (set after_all.shards i (record q { buffered = q.buffered ++ (first ∷ []) }), true)
        else some (after_all.shards, false)))
send_sharded_total_example = send_sharded_total first after_all.shards (omega arith) (λ e. cc)
