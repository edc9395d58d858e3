-- ===== src/Common/Queue.antt =====
-- internal/common/heap_queue.go: bounded queues between the producer and the sender goroutines. A Go
-- channel with a buffer is the list of its buffered items, oldest first, and its capacity.
pub mod Shards
pub mod Order
pub mod Capacity
use ska_low_station_beam_sim.Prelude.{
  ℕ, suc, ◌+◌, Bool, true, false, List, [], ◌∷◌, ◌++◌, Option, none, some, if◌then◌else◌, ltb,
  length, get_elem?, set, replicate, ◌>>=◌,
}
use ska_low_station_beam_sim.Prelude.Int.{ℤ, pos, negsuc, neg_int, rem_int, ltb_ℤ}
use ska_low_station_beam_sim.Common.Heap.{ChannelHeap}

pub record HeapQueue {ℓ} (A : Type ℓ) : Type ℓ where
  pub buffered : List A
  pub size : ℕ

-- NewHeapQueue
unfoldable pub new_queue {ℓ} : {A : Type ℓ} → ℕ → HeapQueue A
new_queue size = record { buffered = []; size = size }

module _ {ℓ} {A : Type ℓ} where
  -- HeapQueue.Send: the `default` case of the select is taken when the buffer is full.
  unfoldable pub send : A → HeapQueue A → HeapQueue A × Bool
  send heap q =
      if ltb (length q.buffered) q.size
      then (record q { buffered = q.buffered ++ (heap ∷ []) }, true)
      else (q, false)

  take_oldest : List A → ℕ → Option (A × HeapQueue A)
  take_oldest [] size = none
  take_oldest (x ∷ xs) size = some (x, record { buffered = xs; size = size })

  -- A receive from HeapQueue.Recv(): `none` is where it would block.
  unfoldable pub recv : HeapQueue A → Option (A × HeapQueue A)
  unfolding take_oldest
  recv q = take_oldest q.buffered q.size

  -- HeapQueue.Len
  unfoldable pub queue_len : HeapQueue A → ℕ
  queue_len q = length q.buffered

-- shardFor. In Go a negative index is a panic, so the result keeps its sign.
unfoldable pub shard_for : ℤ → ℕ → ℤ
shard_for channel_id n =
    let magnitude = if ltb_ℤ channel_id (pos 0) then neg_int channel_id else channel_id in
    rem_int magnitude n

-- An index into a slice: `none` is Go's panic.
abbrev pub index_at : ℤ → Option ℕ
index_at (pos i) = some i
index_at (negsuc _) = none

-- A ShardedHeapQueue is its shards.
abbrev pub ShardedHeapQueue : Type 0 → Type 0 → Type 0
ShardedHeapQueue F S = List (HeapQueue (ChannelHeap F S))

module _ {F S : Type 0} where
  -- NewShardedHeapQueue, for an `n` that may be below 1
  unfoldable pub new_sharded : ℤ → ℕ → ShardedHeapQueue F S
  unfolding new_queue
  new_sharded (pos (suc n)) size = replicate (suc n) (new_queue size)
  new_sharded _ size = replicate 1 (new_queue size)

  -- ShardedHeapQueue.Send
  unfoldable pub send_sharded :
      ChannelHeap F S → ShardedHeapQueue F S → Option (ShardedHeapQueue F S × Bool)
  unfolding shard_for send
  send_sharded heap shards = index_at (shard_for heap.channel_id (length shards)) >>= λ i.
      get_elem? shards i >>= λ q. let (q', sent) = send heap q in some (set shards i q', sent)

  -- ShardedHeapQueue.NumShards
  unfoldable pub num_shards : ShardedHeapQueue F S → ℕ
  num_shards shards = length shards

  -- A receive from ShardedHeapQueue.Recv(i)
  unfoldable pub recv_sharded :
      ℕ → ShardedHeapQueue F S → Option (ChannelHeap F S × ShardedHeapQueue F S)
  unfolding recv
  recv_sharded i shards =
      get_elem? shards i >>= λ q. recv q >>= λ (heap, q'). some (heap, set shards i q')

  -- ShardedHeapQueue.Len
  unfoldable pub sharded_len : ShardedHeapQueue F S → ℕ
  unfolding queue_len
  sharded_len [] = 0
  sharded_len (q ∷ shards) = queue_len q + sharded_len shards
