-- ===== src/Common/ScanRunner/Ticks.antt =====
-- scan_runner.go: what a run of the loop offers to the sender.
use mathlib.Core.Path.{subst}
use mathlib.Core.List.{append_assoc, append-nil}
use ska_low_station_beam_sim.Prelude.{
  ℕ, zero, suc, ◌+◌, ◌≤◌, ◌<◌, ◌≡◌, refl, sym, ap, ◌∙◌, inl, inr, Bool, true, false, ◌&&◌, ◌||◌,
  List, [], ◌∷◌, ◌++◌, Option, none, some, length, take, arith, Bool-cases,
}
use ska_low_station_beam_sim.Prelude.Int.{ℤ}
use ska_low_station_beam_sim.Float.{Float}
use ska_low_station_beam_sim.Common.Constants.{heap_len}
use ska_low_station_beam_sim.Common.Heap.{Complex, ChannelHeap}
use ska_low_station_beam_sim.Common.Accumulator.{Buffers, Pol, pol_v, pol_h, HeapAccumulator}
use ska_low_station_beam_sim.Common.Accumulator.Buffers.{take_all}
use ska_low_station_beam_sim.Common.Accumulator.Writing.{contents, appended, Level}
use ska_low_station_beam_sim.Common.Accumulator.Adding.{IsWellFormed}
use ska_low_station_beam_sim.Common.Accumulator.Blocks.{heaps_of}
use ska_low_station_beam_sim.Common.Accumulator.Popping.{
  split, start_of, blocks_ready, Same, pop_ready_heaps-split,
}
use ska_low_station_beam_sim.Common.ScanRunner.{
  Streamer, Pace, Run, quantized_of, sim_time, produce, run_ticks, run, n_ticks,
}
use ska_low_station_beam_sim.Common.ScanRunner.Filling.{filled_with, fill_lem}

first_samples :
    {C : Type 0} (xs piece : List C) (n : ℕ)
    → n ≡ 0
    → length piece ≡ heap_len
    → take heap_len (take n xs ++ piece) ≡ piece
first_samples xs piece n none_left size = rw none_left (take_all piece heap_len size)

module _ {F S : Type 0} where
  -- One heap for each channel, with what the streamer wrote for it.
  abbrev pub tick_heaps :
      F → (ℕ → List (Complex S)) → (ℕ → List (Complex S)) → ℕ → List ℤ → List (ChannelHeap F S)
  tick_heaps start xv xh i [] = []
  tick_heaps start xv xh i (id ∷ ids) =
      record {
        channel_id = id;
        v_samples = xv i;
        h_samples = xh i;
        v_quantized = none;
        h_quantized = none;
        heap_start_time = start;
      }
      ∷ tick_heaps start xv xh (i + 1) ids

  heaps_of-eq-tick_heaps :
      (start : F) (xv xh : ℕ → List (Complex S)) (i : ℕ) (ids : List ℤ)
      (bufs : List (Buffers (Complex S)))
      → length ids ≡ length bufs
      → Level 0 0 bufs
      → ((ch : ℕ) → ch < i + length bufs → length (xv ch) ≡ heap_len)
      → ((ch : ℕ) → ch < i + length bufs → length (xh ch) ≡ heap_len)
      → heaps_of start ids
          (appended i xv (contents pol_v bufs))
          (appended i xh (contents pol_h bufs))
        ≡ tick_heaps start xv xh i ids
  unfolding contents appended
  heaps_of-eq-tick_heaps start xv xh i [] [] same level sv sh = refl
  heaps_of-eq-tick_heaps start xv xh i [] (b ∷ bufs) same level sv sh = absurd (omega arith)
  heaps_of-eq-tick_heaps start xv xh i (id ∷ ids) [] same level sv sh = absurd (omega arith)
  heaps_of-eq-tick_heaps start xv xh i (id ∷ ids) ((v, h) ∷ bufs) same ((ev, eh), level) sv sh =
      rw
        (
          first_samples v.cells (xv i) v.len ev (sv i (omega arith)),
          first_samples h.cells (xh i) h.len eh (sh i (omega arith)),
          heaps_of-eq-tick_heaps start xv xh (i + 1) ids bufs (omega arith) level
              (λ ch small. sv ch (omega arith)) (λ ch small. sh ch (omega arith)),
        )
        refl

module _ {F S : Type 0} (fl : Float F S) (blank : Complex S) (streamer : Streamer F S)
    (obs_time : F) (pace : ℕ → Pace F S) where
  -- What tick `k` offers, if each channel's first sample is number `consumed`.
  abbrev pub offered_at : HeapAccumulator F S → ℕ → ℕ → List (ChannelHeap F S)
  offered_at a k consumed =
      let t = sim_time fl blank streamer obs_time k in
      tick_heaps (start_of fl a consumed) (streamer.generate_next_tick k t pol_v)
        (streamer.generate_next_tick k t pol_h) 0 a.channel_id_map
      ++ quantized_of streamer.generate_quantized_heaps k t

  -- What the `n` ticks from `k` on offer.
  unfoldable pub scan_heaps : HeapAccumulator F S → ℕ → ℕ → ℕ → List (ChannelHeap F S)
  scan_heaps a zero k consumed = []
  scan_heaps a (suc n) k consumed =
      offered_at a k consumed ++ scan_heaps a n (k + 1) (consumed + heap_len)

  -- Between two ticks: no sample waits in the accumulator.
  pub record IsIdle (a : HeapAccumulator F S) (consumed : ℕ) : Type 0 where
    pub well_formed : IsWellFormed a
    pub no_v : a.rows_v ≡ 0
    pub no_h : a.rows_h ≡ 0
    pub count : a.samples_consumed ≡ consumed

  -- What the streamer and the pool promise of each call.
  pub record Delivers (num_channels : ℕ) : Type 0 where
    pub whole_heap : streamer.tick_n_samples ≡ heap_len
    pub pooled : (k : ℕ) (pol : Pol) (ch : ℕ) → length ((pace k).pooled pol ch) ≡ heap_len
    pub pieces :
        (k : ℕ) (t : F) (pol : Pol) (ch : ℕ)
        → ch < num_channels
        → length (streamer.generate_next_tick k t pol ch) ≡ heap_len

  one_block :
      (a : HeapAccumulator F S) (k consumed n : ℕ) (bufs : List (Buffers (Complex S)))
      → IsIdle a consumed
      → Delivers a.num_channels
      → n ≡ heap_len
      → blocks_ready fl (filled_with blank streamer bufs n a) ≡ 1
  one_block a k consumed n bufs idle ok whole =
      let v = idle.no_v in let h = idle.no_h in omega (arith, v, h)

  IsIdle-Level : (a : HeapAccumulator F S) (consumed : ℕ) → IsIdle a consumed → Level 0 0 a.bufs
  IsIdle-Level a consumed idle =
      let level = idle.well_formed.level in
      subst (λ m. Level m 0 a.bufs) idle.no_v (subst (λ m. Level a.rows_v m a.bufs) idle.no_h level)

  split_one :
      (a : HeapAccumulator F S) (consumed : ℕ) (vs hs : List (List (Complex S)))
      → split fl 1 a consumed vs hs ≡ heaps_of (start_of fl a consumed) a.channel_id_map vs hs
  unfolding split
  split_one a consumed vs hs = append-nil (heaps_of (start_of fl a consumed) a.channel_id_map vs hs)

  pub produce-offered :
      (k consumed : ℕ) (r : Run F S)
      → IsIdle r.accumulator consumed
      → Delivers r.accumulator.num_channels
      → (r' : Run F S) × (produce fl blank streamer (pace k) obs_time k r ≡ some r')
        × (r'.offered ≡ r.offered ++ offered_at r.accumulator k consumed)
        × Same fl r.accumulator r'.accumulator
        × IsIdle r'.accumulator (consumed + heap_len)
  unfolding produce
  produce-offered k consumed r idle ok =
      let a = r.accumulator in
      let wf = idle.well_formed in
      let n = streamer.tick_n_samples in
      let t = sim_time fl blank streamer obs_time k in
      let whole = ok.whole_heap in
      let (bufs, e, cv, ch, wf') =
        fill_lem blank streamer (pace k) k t a wf (omega (arith, whole)) (ok.pooled k)
          (λ pol c small. ok.pieces k t pol c small ∙ sym whole) in
      let filled = filled_with blank streamer bufs n a in
      let one = one_block a k consumed n bufs idle ok whole in
      let (a', popped, rest) = pop_ready_heaps-split fl filled wf' in
      let (_, _, c, nv, nh, same, wf'') = rest in
      let heaps =
        heaps_of-eq-tick_heaps (start_of fl a consumed) (streamer.generate_next_tick k t pol_v)
          (streamer.generate_next_tick k t pol_h) 0 a.channel_id_map a.bufs (wf.ids ∙ sym wf.count)
          (IsIdle-Level a consumed idle)
          (λ ch small. ok.pieces k t pol_v ch (omega (arith, wf.count)))
          (λ ch small. ok.pieces k t pol_h ch (omega (arith, wf.count))) in
      let ticked : split fl (blocks_ready fl filled) filled filled.samples_consumed
            (contents pol_v filled.bufs) (contents pol_h filled.bufs)
          ≡ tick_heaps (start_of fl a consumed) (streamer.generate_next_tick k t pol_v)
              (streamer.generate_next_tick k t pol_h) 0 a.channel_id_map =
        rw (one, split_one, cv, ch, idle.count) heaps in
      let no_v = idle.no_v in
      let no_h = idle.no_h in
      let count = idle.count in
      (
        record {
          accumulator = a';
          drift_seconds = (pace k).drift;
          tick_number = k;
          offered = r.offered ++ offered_at a k consumed;
        },
        rw (e, popped, ticked) refl,
        refl,
        same,
        record {
          well_formed = wf'';
          no_v = omega (arith, nv, no_v, whole, one);
          no_h = omega (arith, nh, no_h, whole, one);
          count = omega (arith, c, one, count);
        },
      )

  -- Scans of accumulators that differ in their samples only are alike.
  pub scan_heaps-Same :
      (a a' : HeapAccumulator F S) (n k consumed : ℕ)
      → Same fl a a'
      → scan_heaps a' n k consumed ≡ scan_heaps a n k consumed
  unfolding scan_heaps
  scan_heaps-Same a a' zero k consumed same = refl
  scan_heaps-Same a a' (suc n) k consumed (ids, channels, start, rate) =
      rw
        (
          ids,
          start,
          rate,
          scan_heaps-Same a a' n (k + 1) (consumed + heap_len) (ids, channels, start, rate),
        )
        refl

  -- The ticks of a run: `done` of them were produced.
  Runs : ℕ → ℕ → ℕ → Run F S → Option (Run F S × Bool) → Type 0
  Runs n k consumed r result =
      (done : ℕ) × (stopped : Bool) × (r' : Run F S) × (result ≡ some (r', stopped))
      × (done ≤ n)
      × (stopped ≡ false → done ≡ n)
      × (r'.offered ≡ r.offered ++ scan_heaps r.accumulator done k consumed)

  run_ticks-Runs :
      (n k consumed : ℕ) (r : Run F S)
      → IsIdle r.accumulator consumed
      → Delivers r.accumulator.num_channels
      → Runs n k consumed r (run_ticks fl blank streamer pace obs_time n k r)
  unfolding run_ticks Runs scan_heaps
  run_ticks-Runs zero k consumed r idle ok =
      (0, false, r, refl, omega arith, λ _. refl, sym (append-nil r.offered))
  run_ticks-Runs (suc n) k consumed r idle ok =
      elim (Bool-cases ((pace k).stopped || (pace k).early && (pace k).stopped_waiting)) [
        | inl stops ↦ (0, true, r, rw stops refl, omega arith, λ e. cc, sym (append-nil r.offered))
        | inr goes ↦
            let (r1, e, offers, same, idle') = produce-offered k consumed r idle ok in
            let (done, stopped, r', e', small, all, offers') =
              run_ticks-Runs n (k + 1) (consumed + heap_len) r1 idle'
                (subst Delivers (sym same.1) ok) in
            (
              suc done,
              stopped,
              r',
              rw (goes, e) e',
              omega arith,
              λ f. ap suc (all f),
              offers'
                  ∙ rw
                      (
                        offers,
                        scan_heaps-Same r.accumulator r1.accumulator done (k + 1)
                            (consumed + heap_len) same,
                      )
                      (append_assoc r.offered (offered_at r.accumulator k consumed)
                        (scan_heaps r.accumulator done (k + 1) (consumed + heap_len))),
            )
      ]

  -- If each tick has the samples of one heap for every channel, then however the clock and Stop go, the
  -- scan loop does not panic, and what it offers to the sender are the heaps of its first `done` ticks,
  -- all of them if it is not stopped: tick after tick, for each channel in order one heap with the
  -- samples that the streamer wrote for this channel in this tick, and a start time of 2048 samples per
  -- earlier tick after the observation's; then the streamer's quantized heaps of the tick.
  pub run-offered :
      (scan_duration_s : F) (r : Run F S)
      → IsIdle r.accumulator 0
      → Delivers r.accumulator.num_channels
      → let n = n_ticks fl blank streamer scan_duration_s in
        (done : ℕ) × (stopped : Bool) × (r' : Run F S) × (run fl blank streamer pace obs_time
            scan_duration_s r
          ≡ some (r', stopped))
        × (done ≤ n)
        × (stopped ≡ false → done ≡ n)
        × (r'.offered ≡ r.offered ++ scan_heaps r.accumulator done 0 0)
  unfolding Runs run
  run-offered scan_duration_s r idle ok =
      run_ticks-Runs (n_ticks fl blank streamer scan_duration_s) 0 0 r idle ok
