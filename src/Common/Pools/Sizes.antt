-- ===== src/Common/Pools/Sizes.antt =====
-- heap_accumulator.go: the lengths of the buffers in the pools.
use ska_low_station_beam_sim.Prelude.{
  ℕ, zero, suc, ◌*◌, ◌≡◌, List, [], ◌∷◌, Option, none, some, if_cases, ◌==◌, ==_iff, length,
  length-replicate, All,
}
use ska_low_station_beam_sim.Common.Constants.{heap_len}
use ska_low_station_beam_sim.Common.Heap.{Complex, ChannelHeap}
use ska_low_station_beam_sim.Common.Pools.{
  Pools, take_out, get_from_pool, put_if_size, or_nil_slice, empty_pools, get_sample_buffer,
  get_quantized_buffer, release_sample_buffers, warm, warm_buffer_pools,
}

module _ {A : Type 0} (size : ℕ) where
  AllSized : List (List A) → Type 0
  AllSized pool = All (λ buffer. length buffer ≡ size) pool

  SizedPair : List A × List (List A) → Type 0
  SizedPair (buffer, pool) = (length buffer ≡ size) × AllSized pool

  take_out-SizedPair :
      (new : List A) (i : ℕ) (pool : List (List A))
      → length new ≡ size
      → AllSized pool
      → SizedPair (take_out new i pool)
  unfolding take_out AllSized SizedPair
  take_out-SizedPair new i [] fresh sized = (fresh, tt)
  take_out-SizedPair new zero (x ∷ xs) fresh (here, sized) = (here, sized)
  take_out-SizedPair new (suc i) (x ∷ xs) fresh (here, sized) =
      let (taken, rest) = take_out-SizedPair new i xs fresh sized in (taken, (here, rest))

  get_from_pool-SizedPair :
      (new : List A) (choice : Option ℕ) (pool : List (List A))
      → length new ≡ size
      → AllSized pool
      → SizedPair (get_from_pool new choice pool)
  unfolding get_from_pool SizedPair
  get_from_pool-SizedPair new none pool fresh sized = (fresh, sized)
  get_from_pool-SizedPair new (some i) pool fresh sized = take_out-SizedPair new i pool fresh sized

  put_if_size-AllSized :
      (slice : List A) (pool : List (List A))
      → AllSized pool
      → AllSized (put_if_size size slice pool)
  unfolding put_if_size AllSized
  put_if_size-AllSized slice pool sized =
      if_cases AllSized (length slice == size) (λ e. ((==_iff (length slice) size).0 e, sized))
        (λ _. sized)

module _ {S : Type 0} where
  AreSized : Pools S → Type 0
  AreSized p = AllSized heap_len p.sample × AllSized (heap_len * 2) p.quantized

  -- The calls on the pools, in any order. A buffer that the garbage collector drops is one that a Get
  -- takes out and that is not used.
  pub data Called (F : Type 0) (blank : Complex S) (p : Pools S) : Pools S → Type 0 where
    got_sample : (choice : Option ℕ) → Called F blank p ((get_sample_buffer blank choice p).1)
    got_quantized : (choice : Option ℕ) → Called F blank p ((get_quantized_buffer choice p).1)
    released : (heap : Option (ChannelHeap F S)) → Called F blank p (release_sample_buffers heap p)
    warmed : (num_channels : ℕ) → Called F blank p (warm_buffer_pools blank num_channels p)

  pub data ReachesPools (F : Type 0) (blank : Complex S) : Pools S → Type 0 where
    starts_empty : ReachesPools F blank empty_pools
    after_call :
        {p p' : Pools S} → ReachesPools F blank p → Called F blank p p' → ReachesPools F blank p'

  warm-AreSized : (blank : Complex S) (n : ℕ) (p : Pools S) → AreSized p → AreSized (warm blank n p)
  unfolding warm AreSized AllSized
  warm-AreSized blank zero p sized = sized
  warm-AreSized blank (suc n) p (s, q) =
      warm-AreSized blank n _
        ((length-replicate heap_len blank, s), (length-replicate {A = ℕ} (heap_len * 2) 0, q))

  Called-AreSized :
      {F : Type 0} {blank : Complex S} {p p' : Pools S}
      → Called F blank p p'
      → AreSized p
      → AreSized p'
  unfolding AreSized get_sample_buffer get_quantized_buffer release_sample_buffers SizedPair
      warm_buffer_pools
  Called-AreSized {F} {blank} {p} (got_sample choice) (s, q) = (
    (get_from_pool-SizedPair heap_len _ choice p.sample (length-replicate heap_len blank) s).1,
    q,
  )
  Called-AreSized {F} {blank} {p} (got_quantized choice) (s, q) = (
    s,
    (get_from_pool-SizedPair (heap_len * 2) _ choice p.quantized
        (length-replicate {A = ℕ} (heap_len * 2) 0) q).1,
  )
  Called-AreSized (released none) sized = sized
  Called-AreSized (released (some heap)) (s, q) = (
    put_if_size-AllSized heap_len heap.h_samples _
        (put_if_size-AllSized heap_len heap.v_samples _ s),
    put_if_size-AllSized (heap_len * 2) (or_nil_slice heap.h_quantized) _
        (put_if_size-AllSized (heap_len * 2) (or_nil_slice heap.v_quantized) _ q),
  )
  Called-AreSized {F} {blank} {p} (warmed n) sized = warm-AreSized blank (n * 2) p sized

  ReachesPools-AreSized :
      {F : Type 0} {blank : Complex S} {p : Pools S} → ReachesPools F blank p → AreSized p
  unfolding AreSized AllSized
  ReachesPools-AreSized starts_empty = (tt, tt)
  ReachesPools-AreSized (after_call reaches call) =
      Called-AreSized call (ReachesPools-AreSized reaches)

  -- Whatever heaps were released before, however the pools were warmed and whatever the garbage
  -- collector dropped, a buffer that is got from the pool of samples has 2048 samples, and one from the
  -- pool of quantized samples 4096 bytes.
  pub get-sizes :
      {F : Type 0} (blank : Complex S) (p : Pools S) (choice : Option ℕ)
      → ReachesPools F blank p
      → (length ((get_sample_buffer blank choice p).0) ≡ heap_len)
        × (length ((get_quantized_buffer choice p).0) ≡ heap_len * 2)
  unfolding get_sample_buffer get_quantized_buffer AreSized SizedPair
  get-sizes blank p choice reaches =
      let (s, q) = ReachesPools-AreSized reaches in
      (
        (get_from_pool-SizedPair heap_len _ choice p.sample (length-replicate heap_len blank) s).0,
        (get_from_pool-SizedPair (heap_len * 2) _ choice p.quantized
            (length-replicate {A = ℕ} (heap_len * 2) 0) q).0,
      )
