-- ===== src/Spead/SendLoop/Slots.antt =====
-- sendloop.go: the slots of the pool while a batch is filled.
use mathlib.Core.List.{append_assoc, append-nil}
use mathlib.Core.Path.{subst}
use ska_low_station_beam_sim.Prelude.{
  ℕ, zero, suc, ◌+◌, ◌≤◌, ◌<◌, ◌≡◌, refl, sym, ap, ◌∙◌, List, [], ◌∷◌, ◌++◌, Option, none, some,
  length, get_elem?, get_elem?-some, get_elem?-append, set, take, replicate, range_from, All, arith,
  length-append, length-set, length-replicate, length-range_from,
}
use ska_low_station_beam_sim.Float.{Float}
use ska_low_station_beam_sim.Common.Heap.{ChannelHeap}
use ska_low_station_beam_sim.Spead.Wire.{heap_wire_size_bytes}
use ska_low_station_beam_sim.Spead.Packetizer.{EncodeError, SpsPacketizer, encode_channel_heap_into}
use ska_low_station_beam_sim.Spead.Packetizer.Reuse.{encode_reuse}
use ska_low_station_beam_sim.Spead.Packetizer.Total.{encode_total}
use ska_low_station_beam_sim.Spead.SendLoop.{Arrival, Pool, read_slots, claimed, encode_heap_into}

take-set :
    (pool : Pool) (k : ℕ) (buf : List ℕ)
    → k < length pool
    → take (suc k) (set pool k buf) ≡ take k pool ++ (buf ∷ [])
take-set [] k buf h = elim h [ ]
take-set (x ∷ pool) zero buf h = refl
take-set (x ∷ pool) (suc k) buf h = ap (◌∷◌ x) (take-set pool k buf (omega arith))

take-set_same : (pool : Pool) (k : ℕ) (buf : List ℕ) → take k (set pool k buf) ≡ take k pool
take-set_same [] k buf = refl
take-set_same (x ∷ pool) zero buf = refl
take-set_same (x ∷ pool) (suc k) buf = ap (◌∷◌ x) (take-set_same pool k buf)

All-set :
    (P : List ℕ → Type 0) (pool : Pool) (k : ℕ) (buf : List ℕ)
    → All P pool
    → P buf
    → All P (set pool k buf)
All-set P [] k buf ps q = tt
All-set P (x ∷ pool) zero buf (p, ps) q = (q, ps)
All-set P (x ∷ pool) (suc k) buf (p, ps) q = (p, All-set P pool k buf ps q)

All-get :
    (P : List ℕ → Type 0) (pool : Pool) (k : ℕ) (buf : List ℕ)
    → All P pool
    → get_elem? pool k ≡ some buf
    → P buf
All-get P [] k buf ps e = cc
All-get P (x ∷ pool) zero buf (p, ps) e = let same : x ≡ buf = cc in subst P same p
All-get P (x ∷ pool) (suc k) buf (p, ps) e = All-get P pool k buf ps e

range_from_last : (i n : ℕ) → range_from i (suc n) ≡ range_from i n ++ ((i + n) ∷ [])
range_from_last i zero = let same : i ≡ i + 0 = omega arith in ap (λ k. k ∷ []) same
range_from_last i (suc n) =
    let same : i + 1 + n ≡ i + suc n = omega arith in
    ap (◌∷◌ i) (range_from_last (i + 1) n ∙ ap (λ k. range_from (i + 1) n ++ (k ∷ [])) same)

range_from_zero : (n : ℕ) → range_from 0 (suc n) ≡ range_from 0 n ++ (n ∷ [])
range_from_zero n =
    let same : 0 + n ≡ n = omega arith in
    range_from_last 0 n ∙ ap (λ k. range_from 0 n ++ (k ∷ [])) same

more : (out : Pool) (buf : List ℕ) → length (out ++ (buf ∷ [])) ≡ suc (length out)
more out buf = omega (arith, length-append out (buf ∷ []))

-- The slots from `i` on, read in order.
pub read_slots_range :
    (before pool : Pool) (i n : ℕ)
    → length before ≡ i
    → n ≤ length pool
    → read_slots (before ++ pool) (range_from i n) ≡ some (take n pool)
unfolding read_slots
read_slots_range before pool i zero e h = refl
read_slots_range before [] i (suc n) e h = elim h [ ]
read_slots_range before (x ∷ pool) i (suc n) e h =
    let next =
      read_slots_range (before ++ (x ∷ [])) pool (i + 1) n
        (omega (arith, length-append before (x ∷ []))) (omega arith) in
    rw (get_elem?-append before x pool i e, rw append_assoc at next)

-- A buffer as the pool is made of.
unfoldable pub fresh : List ℕ
fresh = replicate heap_wire_size_bytes 0

pub length-fresh : length fresh ≡ heap_wire_size_bytes
unfolding fresh
length-fresh = length-replicate {A = ℕ} heap_wire_size_bytes 0

abbrev pub accepted_bytes : Option (List ℕ × Option EncodeError) → List (List ℕ)
accepted_bytes (some (buf, none)) = buf ∷ []
accepted_bytes (some (buf, some _)) = []
accepted_bytes none = []

pub one_more :
    (n : ℕ) (xs : List (List ℕ)) (r : Option (List ℕ × Option EncodeError))
    → length xs < n
    → length (xs ++ accepted_bytes r) ≤ n
one_more n xs none h = omega (arith, length-append xs [])
one_more n xs (some (buf, none)) h = omega (arith, length-append xs (buf ∷ []))
one_more n xs (some (buf, some _)) h = omega (arith, length-append xs [])

pub All-replicate : (P : List ℕ → Type 0) (n : ℕ) (x : List ℕ) → P x → All P (replicate n x)
All-replicate P zero x px = tt
All-replicate P (suc n) x px = (px, All-replicate P n x px)

abbrev pub IsWire : List ℕ → Type 0
IsWire buf = length buf ≡ heap_wire_size_bytes

-- The claimed slots are the first ones, and hold the datagrams of the batch so far.
pub record Claims (n : ℕ) (pool : Pool) (bufs : List ℕ) (out : List (List ℕ)) : Type 0 where
  pub size : length pool ≡ n
  pub wire : All IsWire pool
  pub slots : bufs ≡ range_from 0 (length out)
  pub content : take (length out) pool ≡ out

module _ {F S : Type 0} (fl : Float F S) (p : SpsPacketizer) where
  -- The datagrams of the heaps that have no error, each encoded into a buffer of its own.
  unfoldable pub datagrams : List (Arrival F S) → List (List ℕ)
  datagrams [] = []
  datagrams (a ∷ arrivals) =
      accepted_bytes (encode_channel_heap_into fl p fresh a.heap) ++ datagrams arrivals

  accepted_same :
      (dst : List ℕ) (heap : ChannelHeap F S) (after : List ℕ) (err : Option EncodeError)
      → IsWire dst
      → encode_channel_heap_into fl p dst heap ≡ some (after, err)
      → accepted_bytes (encode_channel_heap_into fl p fresh heap)
        ≡ accepted_bytes (some (after, err))
  accepted_same dst heap after none size e =
      ap accepted_bytes (encode_reuse fl p heap dst fresh after e length-fresh)
  accepted_same dst heap after (some x) size e =
      let (after', err', e', _) = encode_total fl p fresh heap in
      ap accepted_bytes e' ∙ refused err' after' e'
    where
      refused :
          (err' : Option EncodeError) (after' : List ℕ)
          → encode_channel_heap_into fl p fresh heap ≡ some (after', err')
          → accepted_bytes (some (after', err')) ≡ []
      refused (some x') after' e' = refl
      refused none after' e' = cc (encode_reuse fl p heap fresh dst after' e' size)

  claimed-Claims :
      (n : ℕ) (pool : Pool) (bufs : List ℕ) (out : List (List ℕ)) (after : List ℕ)
      (err : Option EncodeError)
      → Claims n pool bufs out
      → length out < n
      → IsWire after
      → Claims n
          (set pool (length out) after)
          (claimed err bufs)
          (out ++ accepted_bytes (some (after, err)))
  claimed-Claims n pool bufs out after none c room size = record {
    size = length-set pool (length out) after ∙ c.size;
    wire = All-set IsWire pool (length out) after c.wire size;
    slots = rw (more out after, c.slots, length-range_from) (sym (range_from_zero (length out)));
    content = rw (more out after) (
        take-set pool (length out) after (omega (arith, c.size))
        ∙ ap (λ l. l ++ (after ∷ [])) c.content);
  }
  claimed-Claims n pool bufs out after (some x) c room size = record {
    size = length-set pool (length out) after ∙ c.size;
    wire = All-set IsWire pool (length out) after c.wire size;
    slots = rw append-nil c.slots;
    content = rw append-nil (take-set_same pool (length out) after ∙ c.content);
  }

  pub encode_heap_into-Claims :
      (n : ℕ) (pool : Pool) (bufs : List ℕ) (out : List (List ℕ)) (heap : ChannelHeap F S)
      → Claims n pool bufs out
      → length out < n
      → (pool' : Pool) × (bufs' : List ℕ) × (encode_heap_into fl p pool bufs heap
          ≡ some (pool', bufs'))
        × Claims n pool' bufs' (out ++ accepted_bytes (encode_channel_heap_into fl p fresh heap))
  unfolding encode_heap_into
  encode_heap_into-Claims n pool bufs out heap c room =
      let k : length bufs ≡ length out = ap length c.slots ∙ length-range_from 0 (length out) in
      let (dst, found) = get_elem?-some pool (length bufs) (omega (arith, c.size)) in
      let wire = All-get IsWire pool (length bufs) dst c.wire found in
      let (after, err, ret, size) = encode_total fl p dst heap in
      let bytes = accepted_same dst heap after err wire ret in
      let next = claimed-Claims n pool bufs out after err c room (size ∙ wire) in
      (
        set pool (length bufs) after,
        claimed err bufs,
        rw (found, ret),
        subst
            (λ j.
              Claims n (set pool j after) (claimed err bufs)
                (out ++ accepted_bytes (encode_channel_heap_into fl p fresh heap)))
            (sym k)
            (subst (λ b. Claims n (set pool (length out) after) (claimed err bufs) (out ++ b))
              (sym bytes) next),
      )
