-- ===== src/Common/Queue/Shards.antt =====
-- heap_queue.go: where a sharded send puts its heap, and what a receive takes.
use ska_low_station_beam_sim.Prelude.{
  ℕ, zero, suc, ◌-◌, ◌%◌, ◌^◌, ◌<◌, ◌≡◌, ◌≢◌, ◌⊎◌, Bool, List, [], ◌∷◌, some, length, get_elem?,
  set, arith, >>=-some, ap,
}
use ska_low_station_beam_sim.Prelude.Int.{ℤ, pos, negsuc, min_int}
use ska_low_station_beam_sim.Common.Heap.{ChannelHeap}
use ska_low_station_beam_sim.Common.Queue.{
  HeapQueue, send, take_oldest, recv, shard_for, index_at, ShardedHeapQueue, send_sharded,
  recv_sharded,
}

-- Every channel but the one numbered -2^63 has a shard, and it is a valid index.
pub shard_for_in_range :
    (channel_id : ℤ) (n : ℕ)
    → 0 < n
    → channel_id ≢ min_int
    → (i : ℕ) × (shard_for channel_id n ≡ pos i) × (i < n)
unfolding shard_for
shard_for_in_range (pos a) n h ne = (a % n, ground arith, omega arith)
shard_for_in_range (negsuc a) n h ne = (suc a % n, ground (arith, smallest a), omega arith)
  where
    smallest : (b : ℕ) → b ≡ 2 ^ 63 - 1 → negsuc b ≡ min_int
    smallest b e = ap negsuc e

pub get_elem?-set_cases {ℓ} :
    {A : Type ℓ} (xs : List A) (i j : ℕ) (v : A) {w : A}
    → get_elem? (set xs i v) j ≡ some w
    → ((i ≡ j) × (w ≡ v)) ⊎ ((i ≢ j) × (get_elem? xs j ≡ some w))
get_elem?-set_cases [] i j v e = cc
get_elem?-set_cases (x ∷ xs) zero zero v e = ground arith
get_elem?-set_cases (x ∷ xs) zero (suc j) v e = ground arith
get_elem?-set_cases (x ∷ xs) (suc i) zero v e = ground arith
get_elem?-set_cases (x ∷ xs) (suc i) (suc j) v e = ground (arith, get_elem?-set_cases xs i j v e)

index_at_inv : (z : ℤ) {i : ℕ} → index_at z ≡ some i → z ≡ pos i
index_at_inv (pos n) e = ground arith
index_at_inv (negsuc n) e = cc

recv_inv {ℓ} :
    {A : Type ℓ} (q : HeapQueue A) (p : A × HeapQueue A)
    → recv q ≡ some p
    → (rest : List A) × (q.buffered ≡ p.0 ∷ rest) × (p.1 ≡ record q { buffered = rest })
unfolding recv
recv_inv {A} q p e = oldest q.buffered e
  where
    oldest :
        (xs : List A)
        → take_oldest xs q.size ≡ some p
        → (rest : List A) × (xs ≡ p.0 ∷ rest) × (p.1 ≡ record q { buffered = rest })
    oldest [] e' = cc
    oldest (x ∷ xs) e' = (xs, ground arith, ground arith)

module _ {F S : Type 0} (shards : ShardedHeapQueue F S) where
  -- A send that returns has put the heap into its channel's shard, or found that shard full.
  pub send_sharded_inv :
      (heap : ChannelHeap F S) {after : ShardedHeapQueue F S} {sent : Bool}
      → send_sharded heap shards ≡ some (after, sent)
      → (i : ℕ) × (q : HeapQueue (ChannelHeap F S)) × (shard_for heap.channel_id (length shards)
          ≡ pos i)
        × (get_elem? shards i ≡ some q)
        × (after ≡ set shards i (send heap q).0)
        × (sent ≡ (send heap q).1)
  unfolding send_sharded
  send_sharded_inv heap e =
      let (i, at, e') = >>=-some (index_at (shard_for heap.channel_id (length shards))) _ e in
      let (q, found, e'') = >>=-some (get_elem? shards i) _ e' in
      (i, q, index_at_inv _ at, found, ground arith, ground arith)

  pub recv_sharded_inv :
      (i : ℕ) {heap : ChannelHeap F S} {after : ShardedHeapQueue F S}
      → recv_sharded i shards ≡ some (heap, after)
      → (q : HeapQueue (ChannelHeap F S)) × (rest : List (ChannelHeap F S)) × (get_elem? shards i
          ≡ some q)
        × (q.buffered ≡ heap ∷ rest)
        × (after ≡ set shards i (record q { buffered = rest }))
  unfolding recv_sharded
  recv_sharded_inv i e =
      let (q, found, e') = >>=-some (get_elem? shards i) _ e in
      let (p, taken, e'') = >>=-some (recv q) _ e' in
      let (rest, full, left) = recv_inv q p taken in (q, rest, found, ground arith, ground arith)
