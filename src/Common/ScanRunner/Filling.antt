-- ===== src/Common/ScanRunner/Filling.antt =====
-- scan_runner.go: one tick's samples in the accumulator. Both polarisations get their targets before
-- either is written.
use mathlib.Core.List.{append_assoc}
use ska_low_station_beam_sim.Prelude.{
  ℕ, suc, ◌+◌, ◌<◌, ◌≡◌, refl, ap, ◌∙◌, Bool, true, List, [], ◌∷◌, ◌++◌, some, length, get_elem?,
  get_elem?-append, ◌>>=◌, length-append, arith,
}
use ska_low_station_beam_sim.Common.Constants.{heap_len}
use ska_low_station_beam_sim.Common.Heap.{Complex}
use ska_low_station_beam_sim.Common.Channels.Partition.{
  map_each, for_each_channel_range-eq-map_each,
}
use ska_low_station_beam_sim.Common.Accumulator.{
  Buffers, Pol, pol_v, pol_h, HeapAccumulator, write_pol, write_targets,
}
use ska_low_station_beam_sim.Common.Accumulator.Writing.{
  contents, appended, grown, grown_from, targets_from, written_from, length-grown_from,
  length-written_from, written_from-Appends, written_from-Level,
}
use ska_low_station_beam_sim.Common.Accumulator.Adding.{IsWellFormed, with_bufs, prepared_all}
use ska_low_station_beam_sim.Common.ScanRunner.{Streamer, Pace, fill}

module _ {C : Type 0} where
  -- Each channel's piece in its target.
  zip_write : Pol → (ℕ → List C) → ℕ → List (ℕ × ℕ) → List (Buffers C) → List (Buffers C)
  zip_write pol piece i (t ∷ ts) (b ∷ bufs) =
      write_pol pol (piece i) t b ∷ zip_write pol piece (i + 1) ts bufs
  zip_write pol piece i _ bufs = bufs

  wrote :
      (pol : Pol) (piece : ℕ → List C) (i : ℕ) (before ts : List (ℕ × ℕ)) (bufs : List (Buffers C))
      → length before ≡ i
      → length ts ≡ length bufs
      → (done : List Bool) × (map_each
            (λ ch b. get_elem? (before ++ ts) ch >>= λ target.
              some (write_pol pol (piece ch) target b, true))
            i
            bufs
          ≡ some (zip_write pol piece i ts bufs, done))
  unfolding map_each zip_write
  wrote pol piece i before [] [] size same = ([], refl)
  wrote pol piece i before [] (b ∷ bufs) size same = absurd (omega arith)
  wrote pol piece i before (t ∷ ts) [] size same = absurd (omega arith)
  wrote pol piece i before (t ∷ ts) (b ∷ bufs) size same =
      let (done, e) =
        wrote pol piece (i + 1) (before ++ (t ∷ [])) ts bufs
          (omega (arith, length-append before (t ∷ []))) (omega arith) in
      (true ∷ done, rw (get_elem?-append before t ts i size, rw append_assoc at e))

  length-targets_from :
      (pol : Pol) (blank : C) (pooled : ℕ → List C) (n i : ℕ) (bufs : List (Buffers C))
      → length (targets_from pol blank pooled n i bufs) ≡ length bufs
  unfolding targets_from
  length-targets_from pol blank pooled n i [] = refl
  length-targets_from pol blank pooled n i (b ∷ bufs) =
      ap suc (length-targets_from pol blank pooled n (i + 1) bufs)

  length-zip_write :
      (pol : Pol) (piece : ℕ → List C) (i : ℕ) (ts : List (ℕ × ℕ)) (bufs : List (Buffers C))
      → length (zip_write pol piece i ts bufs) ≡ length bufs
  unfolding zip_write
  length-zip_write pol piece i [] bufs = refl
  length-zip_write pol piece i (t ∷ ts) [] = refl
  length-zip_write pol piece i (t ∷ ts) (b ∷ bufs) =
      ap suc (length-zip_write pol piece (i + 1) ts bufs)

  module _ (blank : C) (pv ph : ℕ → List C) (n : ℕ) (xv xh : ℕ → List C) where
    -- V grown and H grown, then V written and H written.
    interleaved : ℕ → List (Buffers C) → List (Buffers C)
    interleaved i bufs =
        let vs = grown_from pol_v blank pv n i bufs in
        zip_write pol_h xh i (targets_from pol_h blank ph n i vs) (
          zip_write pol_v xv i (targets_from pol_v blank pv n i bufs)
            (grown_from pol_h blank ph n i vs))

    in_turn : ℕ → List (Buffers C) → List (Buffers C)
    in_turn i bufs = written_from pol_h blank ph n xh i (written_from pol_v blank pv n xv i bufs)

    -- The order does not matter.
    interleaved-eq-in_turn : (i : ℕ) (bufs : List (Buffers C)) → interleaved i bufs ≡ in_turn i bufs
    unfolding interleaved in_turn zip_write grown_from targets_from written_from
    interleaved-eq-in_turn i [] = refl
    interleaved-eq-in_turn i ((v, h) ∷ bufs) =
        let first =
          write_pol pol_v (xv i) (grown pol_v blank pv n i (v, h)).1
            (grown pol_v blank pv n i (v, h)).0 in
        let second = grown pol_h blank ph n i first in
        ap (◌∷◌ (write_pol pol_h (xh i) second.1 second.0)) (interleaved-eq-in_turn (i + 1) bufs)

module _ {F S : Type 0} (blank : Complex S) (streamer : Streamer F S) where
  abbrev pub filled_with :
      List (Buffers (Complex S)) → ℕ → HeapAccumulator F S → HeapAccumulator F S
  filled_with bufs n a = with_bufs bufs pol_h n (with_bufs bufs pol_v n a)

  write_all :
      (pol : Pol) (piece : ℕ → List (Complex S)) (ts : List (ℕ × ℕ)) (a : HeapAccumulator F S)
      → length a.bufs ≡ a.num_channels
      → length ts ≡ length a.bufs
      → write_targets pol ts piece a ≡ some (record a { bufs = zip_write pol piece 0 ts a.bufs })
  unfolding write_targets
  write_all pol piece ts a count same =
      let (done, e) = wrote pol piece 0 [] ts a.bufs refl same in
      rw
        (
          for_each_channel_range-eq-map_each {A = Buffers (Complex S)} {B = Bool} _ a.num_workers
              a.num_channels a.bufs count,
          e,
        )
        refl

  pub fill_lem :
      (pace : Pace F S) (tick : ℕ) (t : F) (a : HeapAccumulator F S)
      → IsWellFormed a
      → 0 < streamer.tick_n_samples
      → ((pol : Pol) (ch : ℕ) → length (pace.pooled pol ch) ≡ heap_len)
      → ((pol : Pol) (ch : ℕ)
          → ch < a.num_channels
          → length (streamer.generate_next_tick tick t pol ch) ≡ streamer.tick_n_samples)
      → (bufs' : List (Buffers (Complex S))) × (fill blank streamer pace tick t a
          ≡ some (filled_with bufs' streamer.tick_n_samples a))
        × (contents pol_v bufs'
            ≡ appended 0 (streamer.generate_next_tick tick t pol_v) (contents pol_v a.bufs))
        × (contents pol_h bufs'
            ≡ appended 0 (streamer.generate_next_tick tick t pol_h) (contents pol_h a.bufs))
        × IsWellFormed (filled_with bufs' streamer.tick_n_samples a)
  unfolding fill interleaved in_turn
  fill_lem pace tick t a wf some_samples sizes pieces =
      let n = streamer.tick_n_samples in
      let pv = pace.pooled pol_v in
      let ph = pace.pooled pol_h in
      let xv = streamer.generate_next_tick tick t pol_v in
      let xh = streamer.generate_next_tick tick t pol_h in
      let vs = grown_from pol_v blank pv n 0 a.bufs in
      let hs = grown_from pol_h blank ph n 0 vs in
      let tv = targets_from pol_v blank pv n 0 a.bufs in
      let th = targets_from pol_h blank ph n 0 vs in
      let ws = zip_write pol_v xv 0 tv hs in
      let nv = length-grown_from pol_v blank pv n 0 a.bufs in
      let nh = length-grown_from pol_h blank ph n 0 vs in
      let ntv = length-targets_from pol_v blank pv n 0 a.bufs in
      let nth = length-targets_from pol_h blank ph n 0 vs in
      let nws = length-zip_write pol_v xv 0 tv hs in
      let a1 = with_bufs vs pol_v n a in
      let a2 = with_bufs hs pol_h n a1 in
      let p1 = prepared_all pol_v blank pv n a wf.count some_samples in
      let p2 = prepared_all pol_h blank ph n a1 (nv ∙ wf.count) some_samples in
      let w1 = write_all pol_v xv tv a2 (nh ∙ nv ∙ wf.count) (omega (arith, nv, nh, ntv)) in
      let w2 =
        write_all pol_h xh th (record a2 { bufs = ws }) (nws ∙ nh ∙ nv ∙ wf.count)
          (omega (arith, nws, nh, nth)) in
      let same = interleaved-eq-in_turn blank pv ph n xv xh 0 a.bufs in
      let first = written_from pol_v blank pv n xv 0 a.bufs in
      let nf = length-written_from pol_v blank pv n xv 0 a.bufs in
      let (v1, h1, s1) =
        written_from-Appends pol_v blank pv n xv 0 a.bufs wf.sound (sizes pol_v)
          (λ ch small. pieces pol_v ch (omega (arith, wf.count))) in
      let (h2, v2, s2) =
        written_from-Appends pol_h blank ph n xh 0 first s1 (sizes pol_h)
          (λ ch small. pieces pol_h ch (omega (arith, wf.count, nf))) in
      (
        in_turn blank pv ph n xv xh 0 a.bufs,
        rw (p1, p2, w1, w2) (ap (λ bufs. some (filled_with bufs n a)) same),
        v2 ∙ v1,
        h2 ∙ ap (appended 0 xh) h1,
        record {
          count = length-written_from pol_h blank ph n xh 0 first ∙ nf ∙ wf.count;
          sound = s2;
          level =
              written_from-Level pol_h blank ph xh n 0 _ _ first
                (written_from-Level pol_v blank pv xv n 0 a.rows_v a.rows_h a.bufs wf.level);
          ids = wf.ids;
        },
      )
