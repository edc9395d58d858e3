-- ===== src/Common/Accumulator.antt =====
-- internal/common/heap_accumulator.go: HeapAccumulator, which collects each channel's samples and pops
-- them as heaps of 2048. A buffer is the cells of its backing array, up to its capacity, and a length; a
-- buffer that the pool gives holds what its last user left, and is an argument here. `none` is a panic.
pub mod Buffers
pub mod Writing
pub mod Adding
pub mod Blocks
pub mod Popping
use ska_low_station_beam_sim.Prelude.{
  ℕ, zero, suc, ◌+◌, ◌-◌, ◌*◌, ◌/◌, Bool, true, false, ◌&&◌, ◌||◌, List, [], ◌∷◌, ◌++◌, Option,
  none, some, if◌then◌else◌, ltb, leb, ◌==◌, length, get_elem?, take, drop, replicate, range_from,
  map, ◌>>=◌,
}
use ska_low_station_beam_sim.Prelude.Int.{ℤ, pos}
use ska_low_station_beam_sim.Float.{Float}
use ska_low_station_beam_sim.Common.Constants.{heap_len}
use ska_low_station_beam_sim.Common.Heap.{Complex, ChannelHeap}
use ska_low_station_beam_sim.Common.Channels.{default_parallelism, for_each_channel_range}

pub record Buffer (C : Type 0) : Type 0 where
  pub cells : List C
  pub len : ℕ

module _ {C : Type 0} where
  -- A nil slice.
  abbrev pub nil_buffer : Buffer C
  nil_buffer = record { cells = []; len = 0 }

  -- `copy(b[from:to], xs)`
  unfoldable pub copy_into : Buffer C → ℕ → ℕ → List C → Buffer C
  copy_into b from to xs =
      let new = take (to - from) xs in
      record b { cells = take from b.cells ++ (new ++ drop (from + length new) b.cells) }

  -- The growth of one channel's buffer in PrepareWrite: its new buffer, and the bounds of the new part.
  unfoldable pub grow : C → List C → ℕ → Buffer C → Buffer C × (ℕ × ℕ)
  grow blank pooled n_samples old =
      let new_len = old.len + n_samples in
      let cells =
        if leb new_len (length old.cells)
        then old.cells
        else if leb new_len heap_len
        then take old.len old.cells ++ drop old.len pooled
        else take old.len old.cells ++ replicate n_samples blank in
      (record { cells = cells; len = new_len }, (old.len, new_len))

  -- takeHeapSlice: the samples of the heap, and the buffer of the rest.
  unfoldable pub take_heap_slice : Buffer C → Option (List C × Buffer C)
  take_heap_slice b =
      if ltb b.len heap_len
      then none
      else if b.len == heap_len
      then some (take heap_len b.cells, nil_buffer)
      else some (
        take heap_len b.cells,
        record { cells = take (b.len - heap_len) (drop heap_len b.cells); len = b.len - heap_len },
      )

pub data Pol : Type 0 where
  pol_v pol_h : Pol

-- `n` rows for the polarisation they belong to.
abbrev pub share : Pol → Pol → ℕ → ℕ
share pol_v pol_v n = n
share pol_h pol_h n = n
share _ _ n = 0

-- The buffers of one channel, V's and H's.
abbrev pub Buffers : Type 0 → Type 0
Buffers C = Buffer C × Buffer C

module _ {C : Type 0} where
  abbrev pub on_pol : Pol → (Buffer C → Buffer C × (ℕ × ℕ)) → Buffers C → Buffers C × (ℕ × ℕ)
  on_pol pol_v f (v, h) = let (v', target) = f v in ((v', h), target)
  on_pol pol_h f (v, h) = let (h', target) = f h in ((v, h'), target)

  abbrev pub write_pol : Pol → List C → ℕ × ℕ → Buffers C → Buffers C
  write_pol pol_v piece (from, to) (v, h) = (copy_into v from to piece, h)
  write_pol pol_h piece (from, to) (v, h) = (v, copy_into h from to piece)

-- `bufs[ch]` is the pair of bufV[ch] and bufH[ch].
pub record HeapAccumulator (F S : Type 0) : Type 0 where
  pub num_channels : ℕ
  pub obs_time : F
  pub sample_rate_per_channel : F
  pub channel_id_map : List ℤ
  pub num_workers : ℕ
  pub bufs : List (Buffers (Complex S))
  pub rows_v : ℕ
  pub rows_h : ℕ
  pub samples_consumed : ℕ

abbrev or_identity : ℕ → Option (List ℤ) → List ℤ
or_identity num_channels none = map pos (range_from 0 num_channels)
or_identity num_channels (some ids) = ids

module _ {F S : Type 0} where
  -- NewHeapAccumulator; `none` for the channel ids is a nil map.
  unfoldable pub new_accumulator : ℕ → ℕ → F → F → Option (List ℤ) → HeapAccumulator F S
  unfolding default_parallelism
  new_accumulator cpus num_channels obs_time rate channel_id_map = record {
    num_channels = num_channels;
    obs_time = obs_time;
    sample_rate_per_channel = rate;
    channel_id_map = or_identity num_channels channel_id_map;
    num_workers = default_parallelism cpus num_channels;
    bufs = replicate num_channels (nil_buffer, nil_buffer);
    rows_v = 0;
    rows_h = 0;
    samples_consumed = 0;
  }

  abbrev pub counted : Pol → ℕ → HeapAccumulator F S → HeapAccumulator F S
  counted pol n a = record a {
    rows_v = a.rows_v + share pol pol_v n;
    rows_h = a.rows_h + share pol pol_h n;
  }

  -- PrepareWrite: the grown buffers, and each channel's target. `pooled ch` is the buffer that the pool
  -- gives for the channel, if it is asked for one.
  unfoldable pub prepare_write :
      Complex S
      → (ℕ → List (Complex S))
      → Pol
      → ℕ
      → HeapAccumulator F S
      → Option (HeapAccumulator F S × List (ℕ × ℕ))
  prepare_write blank pooled pol n_samples a =
      if n_samples == 0
      then some (a, [])
      else for_each_channel_range a.num_workers a.num_channels
          (λ ch b. some (on_pol pol (grow blank (pooled ch) n_samples) b)) a.bufs
        >>= λ (bufs', targets). some (counted pol n_samples (record a { bufs = bufs' }), targets)

  -- The copy of each channel's part into its target.
  unfoldable pub write_targets :
      Pol
      → List (ℕ × ℕ)
      → (ℕ → List (Complex S))
      → HeapAccumulator F S
      → Option (HeapAccumulator F S)
  write_targets pol targets piece a =
      for_each_channel_range {B = Bool} a.num_workers a.num_channels
        (λ ch b. get_elem? targets ch >>= λ target. some (write_pol pol (piece ch) target b, true))
        a.bufs
      >>= λ (bufs', _). some (record a { bufs = bufs' })

  -- Add: `chunk` holds the samples of one channel after another.
  unfoldable pub add :
      Complex S
      → (ℕ → List (Complex S))
      → Pol
      → List (Complex S)
      → HeapAccumulator F S
      → Option (HeapAccumulator F S)
  add blank pooled pol [] a = some a
  add blank pooled pol (c ∷ chunk) a =
      if a.num_channels == 0
      then none
      else let n_samples = length (c ∷ chunk) / a.num_channels in
        prepare_write blank pooled pol n_samples a >>= λ (a', targets).
        write_targets pol targets (λ ch. take n_samples (drop (ch * n_samples) (c ∷ chunk))) a'

  abbrev pub is_ready : HeapAccumulator F S → Bool
  is_ready a = leb heap_len a.rows_v && leb heap_len a.rows_h

  module _ (fl : Float F S) where
    -- heapStartTime
    abbrev pub heap_start : HeapAccumulator F S → F
    heap_start a =
        fl.add a.obs_time (fl.div (fl.of_int (pos a.samples_consumed)) a.sample_rate_per_channel)

    unfoldable pub pop_channel :
        HeapAccumulator F S
        → ℕ
        → Buffers (Complex S)
        → Option (Buffers (Complex S) × ChannelHeap F S)
    pop_channel a ch (v, h) = take_heap_slice v >>= λ (v_heap, v_rem).
        take_heap_slice h >>= λ (h_heap, h_rem). get_elem? a.channel_id_map ch >>= λ id. some (
          (v_rem, h_rem),
          record {
            channel_id = id;
            v_samples = v_heap;
            h_samples = h_heap;
            v_quantized = none;
            h_quantized = none;
            heap_start_time = heap_start a;
          },
        )

    -- One iteration of the loop of PopReadyHeaps.
    unfoldable pub pop_block :
        HeapAccumulator F S → Option (HeapAccumulator F S × List (ChannelHeap F S))
    pop_block a =
        for_each_channel_range a.num_workers a.num_channels (pop_channel a) a.bufs
        >>= λ (bufs', heaps). some (
          record a {
            bufs = bufs';
            rows_v = a.rows_v - heap_len;
            rows_h = a.rows_h - heap_len;
            samples_consumed = a.samples_consumed + heap_len;
          },
          heaps,
        )

    -- The loop of PopReadyHeaps; out of fuel is `none`.
    unfoldable pub pop_blocks :
        ℕ → HeapAccumulator F S → Option (HeapAccumulator F S × List (ChannelHeap F S))
    pop_blocks zero a = if is_ready a then none else some (a, [])
    pop_blocks (suc fuel) a =
        let rest = pop_block a >>= λ (a', heaps).
        pop_blocks fuel a' >>= λ (a'', more). some (a'', heaps ++ more) in
        if is_ready a then rest else some (a, [])

    -- PopReadyHeaps; each iteration takes 2048 rows, so their number is fuel enough.
    unfoldable pub pop_ready_heaps :
        HeapAccumulator F S → Option (HeapAccumulator F S × List (ChannelHeap F S))
    unfolding pop_blocks
    pop_ready_heaps a = pop_blocks (a.rows_v / heap_len) a
