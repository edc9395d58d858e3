-- ===== src/Common/Queue/Order.antt =====
-- heap_queue.go: the producer and the sender goroutines as steps in any order, and what that leaves of
-- the order of one channel's heaps.
use mathlib.Core.List.{append_assoc, append-nil}
use ska_low_station_beam_sim.Prelude.{
  ℕ, zero, suc, ◌≡◌, refl, ◌≢◌, ◌⊎◌, inl, inr, Bool, true, false, List, [], ◌∷◌, ◌++◌, some,
  if◌then◌else◌, ◌==◌, length, get_elem?, set, All, All-append, arith, Bool-cases, sym, ap, ◌∙◌,
  length-set, replicate, ltb,
}
use ska_low_station_beam_sim.Prelude.Int.{ℤ, pos, negsuc}
use ska_low_station_beam_sim.Common.Heap.{ChannelHeap}
use ska_low_station_beam_sim.Common.Queue.{
  HeapQueue, send, shard_for, ShardedHeapQueue, new_sharded, send_sharded, recv_sharded,
}
use ska_low_station_beam_sim.Common.Queue.Shards.{
  get_elem?-set_cases, send_sharded_inv, recv_sharded_inv,
}

-- What has happened so far: the shards now, the heaps whose send returned true, and the heaps that the
-- sender goroutines have received, both in order of time.
pub record Traffic (F S : Type 0) : Type 0 where
  pub shards : ShardedHeapQueue F S
  pub accepted : List (ChannelHeap F S)
  pub received : List (ChannelHeap F S)

abbrev same_id : ℤ → ℤ → Bool
same_id (pos a) (pos b) = a == b
same_id (negsuc a) (negsuc b) = a == b
same_id _ _ = false

same_id→eq : (a b : ℤ) → same_id a b ≡ true → a ≡ b
same_id→eq (pos a) (pos b) e = ground arith
same_id→eq (negsuc a) (negsuc b) e = ground arith
same_id→eq (pos a) (negsuc b) e = cc
same_id→eq (negsuc a) (pos b) e = cc

module _ {F S : Type 0} where
  -- One goroutine moves: the producer sends, or the goroutine of shard `i` receives.
  pub data Moves (t u : Traffic F S) : Type 0 where
    sends :
        (heap : ChannelHeap F S) (after : ShardedHeapQueue F S) (sent : Bool)
        → send_sharded heap t.shards ≡ some (after, sent)
        → u ≡ record t {
          shards = after;
          accepted = if sent then t.accepted ++ (heap ∷ []) else t.accepted;
        }
        → Moves t u
    receives :
        (i : ℕ) (heap : ChannelHeap F S) (after : ShardedHeapQueue F S)
        → recv_sharded i t.shards ≡ some (heap, after)
        → u ≡ record t { shards = after; received = t.received ++ (heap ∷ []) }
        → Moves t u

  pub data Reaches (s : Traffic F S) : Traffic F S → Type 0 where
    here : Reaches s s
    onward : {t u : Traffic F S} → Reaches s t → Moves t u → Reaches s u

  -- The heaps of one channel, in order.
  unfoldable pub of_channel : ℤ → List (ChannelHeap F S) → List (ChannelHeap F S)
  of_channel c [] = []
  of_channel c (h ∷ hs) = if same_id c h.channel_id then h ∷ of_channel c hs else of_channel c hs

  of_channel-append :
      (c : ℤ) (xs ys : List (ChannelHeap F S))
      → of_channel c (xs ++ ys) ≡ of_channel c xs ++ of_channel c ys
  unfolding of_channel
  of_channel-append c [] ys = refl
  of_channel-append c (x ∷ xs) ys = ground (arith, of_channel-append c xs ys)

  abbrev InShard : ℕ → ℕ → ChannelHeap F S → Type 0
  InShard n j h = shard_for h.channel_id n ≡ pos j

  of_channel_elsewhere :
      (n j k : ℕ) (c : ℤ) (xs : List (ChannelHeap F S))
      → shard_for c n ≡ pos j
      → j ≢ k
      → All (InShard n k) xs
      → of_channel c xs ≡ []
  unfolding of_channel
  of_channel_elsewhere n j k c [] at ne h = refl
  of_channel_elsewhere n j k c (x ∷ xs) at ne (h, hs) = elim (Bool-cases (same_id c x.channel_id)) [
    | inl same ↦
        let e : shard_for c n ≡ shard_for x.channel_id n =
          ap (λ z. shard_for z n) (same_id→eq _ _ same) in
        absurd (ne (ground arith))
    | inr other ↦ rw other (of_channel_elsewhere n j k c xs at ne hs)
  ]

  -- Each shard holds heaps of its own channels only, and for each channel what was received and what
  -- waits in its shard make up what was accepted.
  record InOrder (n : ℕ) (t : Traffic F S) : Type 0 where
    count : length t.shards ≡ n
    placed :
        (j : ℕ) (q : HeapQueue (ChannelHeap F S))
        → get_elem? t.shards j ≡ some q
        → All (InShard n j) q.buffered
    ordered :
        (c : ℤ) (j : ℕ) (q : HeapQueue (ChannelHeap F S))
        → shard_for c n ≡ pos j
        → get_elem? t.shards j ≡ some q
        → of_channel c t.received ++ of_channel c q.buffered ≡ of_channel c t.accepted

  pub send_cases :
      (heap : ChannelHeap F S) (q : HeapQueue (ChannelHeap F S))
      → (send heap q ≡ (record q { buffered = q.buffered ++ (heap ∷ []) }, true))
        ⊎ (send heap q ≡ (q, false))
  unfolding send
  send_cases heap q = elim (Bool-cases (ltb (length q.buffered) q.size)) [
    | inl e ↦ inl (rw e)
    | inr e ↦ inr (rw e)
  ]

  pub set_same :
      (xs : ShardedHeapQueue F S) (i : ℕ) (q : HeapQueue (ChannelHeap F S))
      → get_elem? xs i ≡ some q
      → set xs i q ≡ xs
  set_same [] i q e = refl
  set_same (x ∷ xs) zero q e = ground arith
  set_same (x ∷ xs) (suc i) q e = ap (◌∷◌ x) (set_same xs i q e)

  accepted-InOrder :
      (n i : ℕ) (t : Traffic F S) (heap : ChannelHeap F S) (q : HeapQueue (ChannelHeap F S))
      → InOrder n t
      → InShard n i heap
      → get_elem? t.shards i ≡ some q
      → InOrder n (record t {
        shards = set t.shards i (record q { buffered = q.buffered ++ (heap ∷ []) });
        accepted = t.accepted ++ (heap ∷ []);
      })
  accepted-InOrder n i t heap q inv at found = record {
    count = length-set t.shards i _ ∙ inv.count;
    placed = λ j p e. elim (get_elem?-set_cases t.shards i j _ e) [
      | inl (same, new) ↦
          let added : All (InShard n j) (q.buffered ++ (heap ∷ [])) =
            rw (← same) (All-append (InShard n i) q.buffered _ (inv.placed i q found) (at, tt)) in
          rw new added
      | inr (other, old) ↦ inv.placed j p old
    ];
    ordered = λ c j p own e. elim (get_elem?-set_cases t.shards i j _ e) [
      | inl (same, new) ↦ rw (
        new,
        of_channel-append c q.buffered,
        of_channel-append c t.accepted,
        ← append_assoc,
        inv.ordered c i q (rw same own) found,
      )
      | inr (other, old) ↦
          rw
            (
              of_channel-append c t.accepted,
              of_channel_elsewhere n j i c (heap ∷ []) own (λ x. other (sym x)) (at, tt),
              append-nil,
            )
            (inv.ordered c j p own old)
    ];
  }

  received-InOrder :
      (n i : ℕ) (t : Traffic F S) (heap : ChannelHeap F S) (q : HeapQueue (ChannelHeap F S))
      (rest : List (ChannelHeap F S))
      → InOrder n t
      → get_elem? t.shards i ≡ some q
      → q.buffered ≡ heap ∷ rest
      → InOrder n (record t {
        shards = set t.shards i (record q { buffered = rest });
        received = t.received ++ (heap ∷ []);
      })
  received-InOrder n i t heap q rest inv found full =
      let own_shard : All (InShard n i) (heap ∷ rest) = rw full at (inv.placed i q found) in
      record {
        count = length-set t.shards i _ ∙ inv.count;
        placed = λ j p e. elim (get_elem?-set_cases t.shards i j _ e) [
          | inl (same, new) ↦ rw (new, ← same) own_shard.1
          | inr (other, old) ↦ inv.placed j p old
        ];
        ordered = λ c j p own e. elim (get_elem?-set_cases t.shards i j _ e) [
          | inl (same, new) ↦
              let was : of_channel c t.received ++ of_channel c (heap ∷ rest)
                  ≡ of_channel c t.accepted =
                rw full at (inv.ordered c i q (rw same own) found) in
              rw
                (
                  new,
                  of_channel-append c t.received,
                  append_assoc,
                  ← of_channel-append c (heap ∷ []) rest,
                )
                was
          | inr (other, old) ↦
              rw
                (
                  of_channel-append c t.received,
                  of_channel_elsewhere n j i c (heap ∷ []) own (λ x. other (sym x))
                      (own_shard.0, tt),
                  append-nil,
                )
                (inv.ordered c j p own old)
        ];
      }

  Moves-InOrder : (n : ℕ) (t u : Traffic F S) → Moves t u → InOrder n t → InOrder n u
  Moves-InOrder n t u (sends heap after sent e next) inv =
      let (i, q, own, found, placed, done) = send_sharded_inv t.shards heap e in
      let at : InShard n i heap = rw inv.count at own in
      elim (send_cases heap q) [
        | inl ok ↦ rw (next, placed, done, ok) (accepted-InOrder n i t heap q inv at found)
        | inr full ↦ rw (next, placed, done, full, set_same t.shards i q found) inv
      ]
  Moves-InOrder n t u (receives i heap after e next) inv =
      let (q, rest, found, full, left) = recv_sharded_inv t.shards i e in
      rw (next, left) (received-InOrder n i t heap q rest inv found full)

  Reaches-InOrder : (n : ℕ) {s t : Traffic F S} → InOrder n s → Reaches s t → InOrder n t
  Reaches-InOrder n inv here = inv
  Reaches-InOrder n inv (onward r m) = Moves-InOrder n _ _ m (Reaches-InOrder n inv r)

  -- Before the first send.
  abbrev pub idle : ℤ → ℕ → Traffic F S
  idle n size = record { shards = new_sharded n size; accepted = []; received = [] }

  all_empty :
      (m j : ℕ) (empty q : HeapQueue (ChannelHeap F S))
      → get_elem? (replicate m empty) j ≡ some q
      → q ≡ empty
  all_empty zero j empty q e = cc
  all_empty (suc m) zero empty q e = ground arith
  all_empty (suc m) (suc j) empty q e = all_empty m j empty q e

  new_sharded_empty :
      (n : ℤ) (size j : ℕ) (q : HeapQueue (ChannelHeap F S))
      → get_elem? (new_sharded n size) j ≡ some q
      → q.buffered ≡ []
  unfolding new_sharded
  new_sharded_empty (pos zero) size j q e = ground (arith, all_empty 1 j _ q e)
  new_sharded_empty (pos (suc n)) size j q e = ground (arith, all_empty (suc n) j _ q e)
  new_sharded_empty (negsuc n) size j q e = ground (arith, all_empty 1 j _ q e)

  idle-InOrder :
      (n : ℤ) (size : ℕ) → InOrder (length (new_sharded {F = F} {S = S} n size)) (idle n size)
  unfolding of_channel
  idle-InOrder n size = record {
    count = refl;
    placed = λ j q e. rw (new_sharded_empty n size j q e) tt;
    ordered = λ c j q own e. rw (new_sharded_empty n size j q e);
  }

  -- However the producer and the sender goroutines interleave, for every channel the heaps received so
  -- far, followed by those that wait in the channel's shard, are the accepted heaps in the order of
  -- their sends: no heap of a channel is lost, doubled or overtaken.
  pub per_channel_order :
      (n : ℤ) (size : ℕ) {t : Traffic F S}
      → Reaches (idle n size) t
      → (c : ℤ) (j : ℕ) (q : HeapQueue (ChannelHeap F S)) → shard_for c (length t.shards) ≡ pos j
      → get_elem? t.shards j ≡ some q
      → of_channel c t.received ++ of_channel c q.buffered ≡ of_channel c t.accepted
  per_channel_order n size r c j q own found =
      let inv =
        Reaches-InOrder (length (new_sharded {F = F} {S = S} n size)) (idle-InOrder n size) r in
      inv.ordered c j q (rw inv.count at own) found
