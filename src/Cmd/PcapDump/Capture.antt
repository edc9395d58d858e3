-- ===== src/Cmd/PcapDump/Capture.antt =====
-- cmd/pcap-dump/main.go: what the capture holds.
use mathlib.Core.Path.{subst}
use ska_low_station_beam_sim.Prelude.{
  ℕ, zero, suc, ◌+◌, ◌*◌, ◌≤◌, ◌≡◌, refl, sym, ap, ◌∙◌, Bool, true, false, List, [], ◌∷◌, ◌++◌,
  Option, none, some, length,
}
use ska_low_station_beam_sim.Prelude
use ska_low_station_beam_sim.Float.{Float}
use ska_low_station_beam_sim.Common.Constants.{heap_len}
use ska_low_station_beam_sim.Common.Heap.{Complex, ChannelHeap}
use ska_low_station_beam_sim.Common.Accumulator.{HeapAccumulator, pop_ready_heaps}
use ska_low_station_beam_sim.Common.Accumulator.Popping.{Same}
use ska_low_station_beam_sim.Common.ScanRunner.{
  Streamer, Pace, Run, quantized_of, fill, sim_time, produce,
}
use ska_low_station_beam_sim.Common.ScanRunner.Ticks.{
  IsIdle, Delivers, offered_at, scan_heaps, scan_heaps-Same, produce-offered,
}
use ska_low_station_beam_sim.Spead.Packetizer.{SpsPacketizer}
use ska_low_station_beam_sim.Pcap.{PcapWriter}
use ska_low_station_beam_sim.Cmd.Exit.{Exit, finished, ◌>>=◌, >>=-assoc}
use ska_low_station_beam_sim.Cmd.PcapDump.{write_heap, write_heaps, dump_ticks}

-- A chain of options that has a result has one at its start.
some_begun :
    {A B : Type 0} (m : Option A) (f : A → Option B) {b : B}
    → Prelude.◌>>=◌ m f ≡ some b
    → (a : A) × (m ≡ some a) × (f a ≡ some b)
some_begun none f e = cc
some_begun (some a) f e = (a, refl, e)

module _ {F S W : Type 0} (fl : Float F S) (write : List ℕ → W → W × Bool) (clock : ℕ → ℕ × ℕ)
    (p : SpsPacketizer) where
  write_heaps_nil : (st : PcapWriter W × ℕ) → write_heaps fl write clock p [] st ≡ finished st
  unfolding write_heaps
  write_heaps_nil st = refl

  write_heaps-append :
      (xs ys : List (ChannelHeap F S)) (st : PcapWriter W × ℕ)
      → write_heaps fl write clock p (xs ++ ys) st
        ≡ (write_heaps fl write clock p xs st >>= write_heaps fl write clock p ys)
  unfolding write_heaps
  write_heaps-append [] ys st = refl
  write_heaps-append (x ∷ xs) ys st =
      ap
        (λ (next : PcapWriter W × ℕ → Exit (PcapWriter W × ℕ)).
          write_heap fl write clock p x st >>= next)
        (λ i st'. write_heaps-append xs ys st' i)
      ∙ sym (
          >>=-assoc (write_heap fl write clock p x st) (write_heaps fl write clock p xs)
            (write_heaps fl write clock p ys))

  module _ (blank : Complex S) (streamer : Streamer F S) (obs_time : F) (pace : ℕ → Pace F S) where
    -- The two calls of a tick that could panic, and what they give.
    tick_calls :
        (k consumed : ℕ) (a : HeapAccumulator F S)
        → IsIdle fl blank streamer obs_time pace a consumed
        → Delivers fl blank streamer obs_time pace a.num_channels
        → let t = sim_time fl blank streamer obs_time k in
          (filled a' : HeapAccumulator F S) × (heaps : List (ChannelHeap F S)) × (fill blank
              streamer
              (pace k)
              k
              t
              a
            ≡ some filled)
          × (pop_ready_heaps fl filled ≡ some (a', heaps))
          × (heaps ++ quantized_of streamer.generate_quantized_heaps k t
              ≡ offered_at fl blank streamer obs_time pace a k consumed)
          × Same fl a a'
          × IsIdle fl blank streamer obs_time pace a' (consumed + heap_len)
    unfolding produce
    tick_calls k consumed a idle ok =
        let r : Run F S = record {
          accumulator = a;
          drift_seconds = obs_time;
          tick_number = 0;
          offered = [];
        } in
        let (r', e, offers, same, idle') =
          produce-offered fl blank streamer obs_time pace k consumed r idle ok in
        let (filled, e1, rest) = some_begun _ _ e in
        let ((a', heaps), e2, last) = some_begun _ _ rest in
        let here : r'.accumulator ≡ a' = cc in
        let all : r'.offered ≡ heaps ++ quantized_of streamer.generate_quantized_heaps k _ = cc in
        (
          filled,
          a',
          heaps,
          e1,
          e2,
          sym all ∙ offers,
          subst (Same fl a) here same,
          subst (λ x. IsIdle fl blank streamer obs_time pace x (consumed + heap_len)) here idle',
        )

    -- The loop over the ticks writes the heaps that a scan of these ticks offers.
    pub dump_ticks-writes :
        (n k consumed : ℕ) (a : HeapAccumulator F S) (st : PcapWriter W × ℕ)
        → IsIdle fl blank streamer obs_time pace a consumed
        → Delivers fl blank streamer obs_time pace a.num_channels
        → dump_ticks fl write clock p blank streamer pace obs_time n k a st
          ≡ write_heaps fl write clock p
              (scan_heaps fl blank streamer obs_time pace a n k consumed)
              st
    unfolding dump_ticks scan_heaps
    dump_ticks-writes zero k consumed a st idle ok = sym (write_heaps_nil st)
    dump_ticks-writes (suc n) k consumed a st idle ok =
        let (filled, a', heaps, e1, e2, all, same, idle') = tick_calls k consumed a idle ok in
        let silent = quantized_of streamer.generate_quantized_heaps k _ in
        let later = scan_heaps fl blank streamer obs_time pace a n (k + 1) (consumed + heap_len) in
        let rest : (st2 : PcapWriter W × ℕ)
            → dump_ticks fl write clock p blank streamer pace obs_time n (k + 1) a' st2
              ≡ write_heaps fl write clock p later st2 =
          λ st2.
            dump_ticks-writes n (k + 1) (consumed + heap_len) a' st2 idle'
              (subst (Delivers fl blank streamer obs_time pace) (sym same.1) ok)
            ∙ ap (λ (l : List (ChannelHeap F S)). write_heaps fl write clock p l st2)
                (scan_heaps-Same fl blank streamer obs_time pace a a' n (k + 1)
                  (consumed + heap_len) same) in
        rw (e1, e2)
          (ap
              (λ (next : PcapWriter W × ℕ → Exit (PcapWriter W × ℕ)).
                write_heaps fl write clock p heaps st >>= λ st1.
                write_heaps fl write clock p silent st1 >>= next)
              (λ i st2. rest st2 i)
            ∙ sym (
                >>=-assoc (write_heaps fl write clock p heaps st)
                  (write_heaps fl write clock p silent) (write_heaps fl write clock p later))
            ∙ ap (λ (e : Exit (PcapWriter W × ℕ)). e >>= write_heaps fl write clock p later)
                (sym (write_heaps-append heaps silent st)
                  ∙ ap (λ (l : List (ChannelHeap F S)). write_heaps fl write clock p l st) all)
            ∙ sym (
                write_heaps-append (offered_at fl blank streamer obs_time pace a k consumed) later
                  st))
