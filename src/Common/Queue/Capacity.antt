-- ===== src/Common/Queue/Capacity.antt =====
-- heap_queue.go: the outcome of a send, and the number of heaps in the queue.
use ska_low_station_beam_sim.Prelude.{
  ℕ, zero, suc, ◌+◌, ◌*◌, ◌≤◌, ◌<◌, ◌≡◌, refl, ◌≢◌, inl, inr, true, false, [], ◌∷◌, ◌++◌, some,
  if◌then◌else◌, length, get_elem?, get_elem?-some, set, arith, Bool-cases, ap, ◌∙◌, length-append,
  replicate, ltb,
}
use ska_low_station_beam_sim.Prelude.Int.{ℤ, pos, negsuc, min_int}
use ska_low_station_beam_sim.Common.Heap.{ChannelHeap}
use ska_low_station_beam_sim.Common.Queue.{
  HeapQueue, send, shard_for, ShardedHeapQueue, new_sharded, new_queue, send_sharded, sharded_len,
}
use ska_low_station_beam_sim.Common.Queue.Shards.{
  get_elem?-set_cases, shard_for_in_range, send_sharded_inv, recv_sharded_inv,
}
use ska_low_station_beam_sim.Common.Queue.Order.{
  Traffic, Moves, sends, receives, Reaches, here, onward, idle, set_same, send_cases,
}

module _ {F S : Type 0} where
  -- A send to a queue with at least one shard does not panic unless the channel is numbered -2^63: it
  -- appends the heap to the shard of its channel and returns true if that shard has room, and returns
  -- false and changes no shard if it is full.
  pub send_sharded_total :
      (heap : ChannelHeap F S) (shards : ShardedHeapQueue F S)
      → 0 < length shards
      → heap.channel_id ≢ min_int
      → (i : ℕ) × (q : HeapQueue (ChannelHeap F S)) × (shard_for heap.channel_id (length shards)
          ≡ pos i)
        × (get_elem? shards i ≡ some q)
        × (send_sharded heap shards ≡ (
            if ltb (length q.buffered) q.size
            then some (set shards i (record q { buffered = q.buffered ++ (heap ∷ []) }), true)
            else some (shards, false)))
  unfolding send_sharded
  send_sharded_total heap shards some_shard id =
      let (i, own, in_range) = shard_for_in_range heap.channel_id (length shards) some_shard id in
      let (q, found) = get_elem?-some shards i in_range in
      (
        i,
        q,
        own,
        found,
        elim (Bool-cases (ltb (length q.buffered) q.size)) [
          | inl room ↦ rw (own, found, room)
          | inr full ↦ rw (own, found, full, set_same shards i q found)
        ],
      )

  -- The number of heaps in the shards, after shard `i` was replaced.
  sharded_len-set :
      (shards : ShardedHeapQueue F S) (i : ℕ) (q q' : HeapQueue (ChannelHeap F S))
      → get_elem? shards i ≡ some q
      → sharded_len (set shards i q') + length q.buffered ≡ sharded_len shards + length q'.buffered
  unfolding sharded_len
  sharded_len-set [] i q q' e = cc
  sharded_len-set (x ∷ shards) zero q q' e =
      let same : x ≡ q = ground arith in rw same (omega arith)
  sharded_len-set (x ∷ shards) (suc i) q q' e = omega (arith, sharded_len-set shards i q q' e)

  abbrev Conserves : Traffic F S → Type 0
  Conserves t = length t.accepted ≡ length t.received + sharded_len t.shards

  Moves-Conserves : (t u : Traffic F S) → Moves t u → Conserves t → Conserves u
  Moves-Conserves t u (sends heap after sent e next) inv =
      let (i, q, own, found, placed, done) = send_sharded_inv t.shards heap e in
      elim (send_cases heap q) [
        | inl ok ↦
            rw (next, placed, done, ok)
              (omega (
                arith,
                inv,
                sharded_len-set t.shards i q (record q { buffered = q.buffered ++ (heap ∷ []) })
                    found,
                length-append q.buffered (heap ∷ []),
                length-append t.accepted (heap ∷ []),
              ))
        | inr full ↦ rw (next, placed, done, full, set_same t.shards i q found) inv
      ]
  Moves-Conserves t u (receives i heap after e next) inv =
      let (q, rest, found, full, left) = recv_sharded_inv t.shards i e in
      rw (next, left)
        (omega (
          arith,
          inv,
          ap length full,
          sharded_len-set t.shards i q (record q { buffered = rest }) found,
          length-append t.received (heap ∷ []),
        ))

  -- Every shard has the capacity it was made with, and holds no more.
  IsBounded : ℕ → ShardedHeapQueue F S → Type 0
  IsBounded size shards =
      (j : ℕ) (q : HeapQueue (ChannelHeap F S))
      → get_elem? shards j ≡ some q
      → (q.size ≡ size) × (length q.buffered ≤ size)

  set-IsBounded :
      (size : ℕ) (shards : ShardedHeapQueue F S) (i : ℕ) (q : HeapQueue (ChannelHeap F S))
      → IsBounded size shards
      → q.size ≡ size
      → length q.buffered ≤ size
      → IsBounded size (set shards i q)
  unfolding IsBounded
  set-IsBounded size shards i q b same fits j p e = elim (get_elem?-set_cases shards i j q e) [
    | inl (at, new) ↦ rw new (same, fits)
    | inr (other, old) ↦ b j p old
  ]

  send-fits :
      (heap : ChannelHeap F S) (q : HeapQueue (ChannelHeap F S))
      → length q.buffered ≤ q.size
      → ((send heap q).0.size ≡ q.size) × (length (send heap q).0.buffered ≤ q.size)
  unfolding send
  send-fits heap q h = ground (arith, length-append q.buffered (heap ∷ []))

  Moves-IsBounded :
      (size : ℕ) (t u : Traffic F S) → Moves t u → IsBounded size t.shards → IsBounded size u.shards
  unfolding IsBounded
  Moves-IsBounded size t u (sends heap after sent e next) b =
      let (i, q, own, found, placed, done) = send_sharded_inv t.shards heap e in
      let (same, fits) = b i q found in
      let (kept, fits') = send-fits heap q (omega arith) in
      rw (next, placed)
        (set-IsBounded size t.shards i (send heap q).0 b (kept ∙ same) (omega arith))
  Moves-IsBounded size t u (receives i heap after e next) b =
      let (q, rest, found, full, left) = recv_sharded_inv t.shards i e in
      let (same, fits) = b i q found in
      rw (next, left)
        (set-IsBounded size t.shards i (record q { buffered = rest }) b same
          (omega (arith, ap length full)))

  sharded_len-le :
      (size : ℕ) (shards : ShardedHeapQueue F S)
      → IsBounded size shards
      → sharded_len shards ≤ length shards * size
  unfolding IsBounded sharded_len
  sharded_len-le size [] b = omega arith
  sharded_len-le size (q ∷ shards) b =
      omega (arith, b 0 q refl, sharded_len-le size shards (λ j p e. b (suc j) p e))

module _ (F S : Type 0) where
  empty-IsBounded : (m size : ℕ) → IsBounded {F = F} {S = S} size (replicate m (new_queue size))
  unfolding IsBounded new_queue
  empty-IsBounded zero size j q e = cc
  empty-IsBounded (suc m) size zero q e = ground arith
  empty-IsBounded (suc m) size (suc j) q e = empty-IsBounded m size j q e

  new_sharded-IsBounded : (n : ℤ) (size : ℕ) → IsBounded {F = F} {S = S} size (new_sharded n size)
  unfolding new_sharded
  new_sharded-IsBounded (pos zero) size = empty-IsBounded 1 size
  new_sharded-IsBounded (pos (suc n)) size = empty-IsBounded (suc n) size
  new_sharded-IsBounded (negsuc n) size = empty-IsBounded 1 size

  empty-len : (m size : ℕ) → sharded_len (replicate m (new_queue {A = ChannelHeap F S} size)) ≡ 0
  unfolding sharded_len new_queue
  empty-len zero size = refl
  empty-len (suc m) size = omega (arith, empty-len m size)

  new_sharded-len : (n : ℤ) (size : ℕ) → sharded_len (new_sharded {F = F} {S = S} n size) ≡ 0
  unfolding new_sharded
  new_sharded-len (pos zero) size = empty-len 1 size
  new_sharded-len (pos (suc n)) size = empty-len (suc n) size
  new_sharded-len (negsuc n) size = empty-len 1 size

module _ {F S : Type 0} where
  Reaches-sound :
      (n : ℤ) (size : ℕ) {t : Traffic F S}
      → Reaches (idle n size) t
      → Conserves t × IsBounded size t.shards
  Reaches-sound n size here =
      (omega (arith, new_sharded-len F S n size), new_sharded-IsBounded F S n size)
  Reaches-sound n size (onward r m) =
      let (c, b) = Reaches-sound n size r in (Moves-Conserves _ _ m c, Moves-IsBounded size _ _ m b)

  -- At any time the heaps whose send was accepted are as many as those received and those that
  -- ShardedHeapQueue.Len counts together, and the queue never holds more than its shards' capacities.
  pub queue_conserves :
      (n : ℤ) (size : ℕ) {t : Traffic F S}
      → Reaches (idle n size) t
      → (length t.accepted ≡ length t.received + sharded_len t.shards)
        × (sharded_len t.shards ≤ length t.shards * size)
  queue_conserves n size r = let (c, b) = Reaches-sound n size r in (c, sharded_len-le size _ b)
