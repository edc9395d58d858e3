-- ===== src/Server/Scans.antt =====
-- grpc_server.go and scan_runner.go: the goroutines of the scans, over any order of calls and of ends.
use native.Mathlib.Nat.{zero-add}
use ska_low_station_beam_sim.Prelude.{
  ℕ, zero, suc, ◌+◌, ◌≤◌, ◌≡◌, ◌↔◌, refl, sym, ap, ◌∙◌, inl, inr, Bool, true, false, List, [], ◌∷◌,
  Option, none, some, if◌then◌else◌, get_elem?, set, Bool-cases, arith,
}
use ska_low_station_beam_sim.Prelude.Int.{ℤ}
use ska_low_station_beam_sim.Float.{Float}
use ska_low_station_beam_sim.Common.Control.{Control, is_running, finish}
use ska_low_station_beam_sim.Common.Queue.{sharded_len}
use ska_low_station_beam_sim.Server.Requests.{
  StartScanRequest, PushDelayUpdateRequest, Reply, answer, refusal, Scan, Server,
}
use ska_low_station_beam_sim.Server.Handlers.{
  scan_running, stop_scan, stop, push_delay_update, snapshot_status, snapshot, new_server,
  start_scan,
}
use ska_low_station_beam_sim.Server.Refusals.{Outcome, busy, invalid, started, start_scan-Outcome}

-- A server, and the goroutines of the scans before its last one.
pub record World (F S : Type 0) : Type 0 where
  pub server : Server F S
  pub earlier : List Control

not_live : (b : Bool) (n : ℕ) → (if b then 1 else 0) + n ≡ 0 → b ≡ false
not_live true n e = absurd (omega arith)
not_live false n e = refl

count_one :
    (b : Bool) (n : ℕ)
    → n ≡ 0
    → ((if b then 1 else 0) + n ≤ 1) × ((b ≡ true) ↔ ((if b then 1 else 0) + n ≡ 1))
count_one true n e = (omega arith, ((λ _. omega arith), (λ _. refl)))
count_one false n e = (omega arith, ((λ h. cc), (λ h. absurd (omega arith))))

module _ {F S : Type 0} (fl : Float F S) (cpus : ℕ) (draws : ℕ → ℕ → ℕ → F)
    (order : List ℕ → List ℕ) where
  -- A scan that is replaced is no longer the server's.
  abbrev pub retired : Option (Scan F S) → List Control → List Control
  retired none earlier = earlier
  retired (some scan) earlier = scan.control ∷ earlier

  abbrev pub started_world : World F S → Server F S × Reply (Unit {0}) → World F S
  started_world w (s, refusal code) = record w { server = s }
  started_world w (s, answer tt') = record {
    server = s;
    earlier = retired w.server.scan_runner w.earlier;
  }

  -- The calls, in any order, and what the goroutine of a scan does meanwhile.
  pub data Step (w : World F S) : World F S → Type 0 where
    starts :
        (req : StartScanRequest F)
        → Step w (started_world w (start_scan fl cpus draws order req w.server))
    stops : Step w (record w { server = stop_scan w.server })
    shuts_down : (s : Server F S) → stop w.server ≡ some s → Step w (record w { server = s })
    pushes :
        (req : PushDelayUpdateRequest F)
        → Step w (record w { server = (push_delay_update req w.server).0 })
    reports :
        (scan : Scan F S) (drift : F) (tick : ℕ)
        → w.server.scan_runner ≡ some scan
        → is_running scan.control ≡ true
        → Step w (record w {
          server = record (w.server) {
            scan_runner = some (record scan { drift_seconds = drift; tick_number = tick });
          };
        })
    ends :
        (scan : Scan F S)
        → w.server.scan_runner ≡ some scan
        → is_running scan.control ≡ true
        → Step w (record w {
          server = record (w.server) {
            scan_runner = some (record scan { control = finish scan.control });
          };
        })
    ends_earlier :
        (i : ℕ) (c : Control)
        → get_elem? w.earlier i ≡ some c
        → is_running c ≡ true
        → Step w (record w { earlier = set w.earlier i (finish c) })

  pub data Reach : World F S → Type 0 where
    begins :
        (station_id substation_id num_senders : ℤ)
        → Reach
            (record { server = new_server fl station_id substation_id num_senders; earlier = [] })
    then_step : {w w' : World F S} → Reach w → Step w w' → Reach w'

  abbrev one_if : Bool → ℕ
  one_if b = if b then 1 else 0

  -- How many goroutines of scans run.
  pub running_of : List Control → ℕ
  running_of [] = 0
  running_of (c ∷ cs) = one_if (is_running c) + running_of cs

  pub running : World F S → ℕ
  running w = one_if (scan_running w.server.scan_runner) + running_of w.earlier

  Ended : World F S → Type 0
  Ended w = running_of w.earlier ≡ 0

  retired_ended :
      (scan : Option (Scan F S)) (earlier : List Control)
      → scan_running scan ≡ false
      → running_of earlier ≡ 0
      → running_of (retired scan earlier) ≡ 0
  unfolding running_of
  retired_ended none earlier free e = e
  retired_ended (some scan) earlier free e = rw free (zero-add _ ∙ e)

  none_live :
      (cs : List Control) (i : ℕ) (c : Control)
      → get_elem? cs i ≡ some c
      → running_of cs ≡ 0
      → is_running c ≡ false
  unfolding running_of
  none_live [] i c found e = cc
  none_live (c' ∷ cs) zero c found e =
      let same : c' ≡ c = cc in ap is_running (sym same) ∙ not_live (is_running c') _ e
  none_live (c' ∷ cs) (suc i) c found e = none_live cs i c found (omega (arith, e))

  start-Ended :
      (w : World F S) (req : StartScanRequest F) (r : Server F S × Reply (Unit {0}))
      → Outcome fl cpus draws order req w.server r
      → Ended w
      → Ended (started_world w r)
  unfolding Ended running_of
  start-Ended w req _ (busy running) e = e
  start-Ended w req _ (invalid free bad) e = e
  start-Ended w req _ (started cfgs m feeds streamer free ids beam loop built) e =
      retired_ended w.server.scan_runner w.earlier free e

  Step-Ended : {w w' : World F S} → Step w w' → Ended w → Ended w'
  unfolding Ended
  Step-Ended {w} (starts req) e =
      start-Ended w req _ (start_scan-Outcome fl cpus draws order req w.server) e
  Step-Ended stops e = e
  Step-Ended (shuts_down s h) e = e
  Step-Ended (pushes req) e = e
  Step-Ended (reports scan drift tick h live) e = e
  Step-Ended (ends scan h live) e = e
  Step-Ended {w} (ends_earlier i c found live) e = let ended = none_live w.earlier i c found e in cc

  Reach-Ended : {w : World F S} → Reach w → Ended w
  unfolding Ended running_of
  Reach-Ended (begins a b n) = refl
  Reach-Ended (then_step r s) = Step-Ended s (Reach-Ended r)

  status_running :
      (depth : ℕ) (scan : Option (Scan F S))
      → (snapshot fl depth scan).scan_running ≡ scan_running scan
  status_running depth none = refl
  status_running depth (some scan) = elim (Bool-cases (is_running scan.control)) [
    | inl live ↦ rw live refl
    | inr ended ↦ rw ended refl
  ]

  -- Whatever the order of StartScan, StopScan, Stop and PushDelayUpdate calls and of the ends of the
  -- goroutines, at most one goroutine of a scan runs, and if one does it is the server's own, which
  -- GetStatus reports.
  pub at_most_one_scan :
      (w : World F S)
      → Reach w
      → (running w ≤ 1) × ((snapshot_status fl w.server).scan_running ≡ true ↔ running w ≡ 1)
  unfolding running snapshot_status Ended
  at_most_one_scan w r =
      let scan = w.server.scan_runner in
      let ended = Reach-Ended r in
      let (few, exact) = count_one (scan_running scan) (running_of w.earlier) ended in
      let status = status_running (sharded_len w.server.send_queue) scan in
      (few, ((λ h. exact.0 (sym status ∙ h)), (λ h. status ∙ exact.1 h)))
