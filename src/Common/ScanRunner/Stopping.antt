-- ===== src/Common/ScanRunner/Stopping.antt =====
-- scan_runner.go: the end of a scan that is told to stop.
use mathlib.Core.Path.{subst}
use mathlib.Core.List.{append_assoc, append-nil}
use ska_low_station_beam_sim.Prelude.{
  ℕ, zero, suc, ◌+◌, ◌≤◌, ◌<◌, ◌≡◌, refl, sym, ◌∙◌, inl, inr, Bool, true, false, ◌&&◌, ◌||◌, ◌++◌,
  Option, some, arith, Bool-cases, ltb, ltb→lt,
}
use ska_low_station_beam_sim.Float.{Float}
use ska_low_station_beam_sim.Common.Constants.{heap_len}
use ska_low_station_beam_sim.Common.Heap.{Complex}
use ska_low_station_beam_sim.Common.ScanRunner.{Streamer, Pace, Run, run_ticks, run, n_ticks}
use ska_low_station_beam_sim.Common.ScanRunner.Ticks.{
  IsIdle, Delivers, offered_at, scan_heaps, scan_heaps-Same, produce-offered,
}

-- A tick that is not stopped comes before the one that is.
not_yet :
    (k j : ℕ) (stopped waiting : Bool)
    → k ≤ j
    → (j ≤ k → stopped ≡ true)
    → (stopped || waiting) ≡ false
    → k + 1 ≤ j
not_yet k j true waiting from ends goes = cc
not_yet k j false waiting from ends goes = elim (Bool-cases (ltb k j)) [
  | inl before ↦ let small = ltb→lt k j before in omega (arith, small)
  | inr now ↦ let bad = ends (ground arith) in cc
]

module _ {F S : Type 0} (fl : Float F S) (blank : Complex S) (streamer : Streamer F S)
    (obs_time : F) (pace : ℕ → Pace F S) where
  Stops : ℕ → ℕ → ℕ → Run F S → Option (Run F S × Bool) → Type 0
  Stops j k consumed r result =
      (done : ℕ) × (r' : Run F S) × (result ≡ some (r', true))
      × (k + done ≤ j)
      × (r'.offered
          ≡ r.offered ++ scan_heaps fl blank streamer obs_time pace r.accumulator done k consumed)

  run_ticks-Stops :
      (j n k consumed : ℕ) (r : Run F S)
      → IsIdle fl blank streamer obs_time pace r.accumulator consumed
      → Delivers fl blank streamer obs_time pace r.accumulator.num_channels
      → ((i : ℕ) → j ≤ i → (pace i).stopped ≡ true)
      → k ≤ j
      → j < k + n
      → Stops j k consumed r (run_ticks fl blank streamer pace obs_time n k r)
  unfolding run_ticks Stops scan_heaps
  run_ticks-Stops j zero k consumed r idle ok stopped from to = absurd (omega arith)
  run_ticks-Stops j (suc n) k consumed r idle ok stopped from to =
      elim (Bool-cases ((pace k).stopped || (pace k).early && (pace k).stopped_waiting)) [
        | inl stops ↦ (0, r, rw stops refl, omega arith, sym (append-nil r.offered))
        | inr goes ↦
            let (r1, e, offers, same, idle') =
              produce-offered fl blank streamer obs_time pace k consumed r idle ok in
            let later : k + 1 ≤ j = not_yet k j (pace k).stopped _ from (stopped k) goes in
            let (done, r', e', small, offers') =
              run_ticks-Stops j n (k + 1) (consumed + heap_len) r1 idle'
                (subst (Delivers fl blank streamer obs_time pace) (sym same.1) ok) stopped later
                (omega arith) in
            (
              suc done,
              r',
              rw (goes, e) e',
              omega arith,
              offers'
                  ∙ rw
                      (
                        offers,
                        scan_heaps-Same fl blank streamer obs_time pace r.accumulator r1.accumulator
                            done (k + 1) (consumed + heap_len) same,
                      )
                      (append_assoc r.offered
                        (offered_at fl blank streamer obs_time pace r.accumulator k consumed)
                        (scan_heaps fl blank streamer obs_time pace r.accumulator done (k + 1)
                          (consumed + heap_len))),
            )
      ]

  -- If the stop channel is closed from tick `j` of the scan on, then the scan loop ends, as stopped,
  -- before it produces this tick: what it has offered are the heaps of at most the `j` ticks before.
  pub run-stops :
      (scan_duration_s : F) (r : Run F S) (j : ℕ)
      → IsIdle fl blank streamer obs_time pace r.accumulator 0
      → Delivers fl blank streamer obs_time pace r.accumulator.num_channels
      → ((i : ℕ) → j ≤ i → (pace i).stopped ≡ true)
      → j < n_ticks fl blank streamer scan_duration_s
      → (done : ℕ) × (r' : Run F S) × (run fl blank streamer pace obs_time scan_duration_s r
          ≡ some (r', true))
        × (done ≤ j)
        × (r'.offered
            ≡ r.offered ++ scan_heaps fl blank streamer obs_time pace r.accumulator done 0 0)
  unfolding run Stops
  run-stops scan_duration_s r j idle ok stopped inside =
      let (done, r', e, small, offers) =
        run_ticks-Stops j (n_ticks fl blank streamer scan_duration_s) 0 0 r idle ok stopped
          (omega arith) (omega arith) in
      (done, r', e, omega arith, offers)
