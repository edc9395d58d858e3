-- ===== src/Server/Refusals.antt =====
-- grpc_server.go: what StartScan accepts, and what it leaves when it refuses.
use Prim.Native.String.{String}
use mathlib.Core.Path.{subst}
use ska_low_station_beam_sim.Prelude.{
  ℕ, ◌≡◌, refl, sym, ap, ◌∙◌, ◌↔◌, ◌⊎◌, inl, inr, Bool, true, false, List, [], Option, none, some,
  map_option, if◌then◌else◌, Bool-cases,
}
use ska_low_station_beam_sim.Float.{Float}
use ska_low_station_beam_sim.Common.Delay.{DelayFeed}
use ska_low_station_beam_sim.Spead.Packetizer.{SpsPacketizer}
use ska_low_station_beam_sim.Synth.Config.{ConfigError, ToneSourceConfig, Checked, ok, err}
use ska_low_station_beam_sim.Synth.Streamer.{DirectSynthesisStreamer, num_channels_of, new_streamer}
use ska_low_station_beam_sim.Synth.Streamer.Building.{IsBeam, new_streamer-accepts}
use ska_low_station_beam_sim.Server.Requests.{
  StartScanRequest, Code, failed_precondition, invalid_argument, Reply, answer, refusal, Server,
}
use ska_low_station_beam_sim.Server.Handlers.{
  station_of, scan_running, pool_packetizer, packetizer_with, register, config_of, after_streamer,
  after_register, start_scan,
}
use ska_low_station_beam_sim.Server.Registering.{
  HasIds, register-HasIds, register-Registered, register-refusal, none_known,
}

Reply-cases :
    {A : Type 0} (r : Reply A) → ((a : A) × (r ≡ answer a)) ⊎ ((c : Code) × (r ≡ refusal c))
Reply-cases (answer a) = inl (a, refl)
Reply-cases (refusal c) = inr (c, refl)

Checked-cases :
    {A : Type 0} (r : Checked A) → ((a : A) × (r ≡ ok a)) ⊎ ((e : ConfigError) × (r ≡ err e))
Checked-cases (ok a) = inl (a, refl)
Checked-cases (err e) = inr (e, refl)

module _ {F S : Type 0} (fl : Float F S) (cpus : ℕ) (draws : ℕ → ℕ → ℕ → F)
    (order : List ℕ → List ℕ) where
  -- The three outcomes of StartScan.
  pub data Outcome (req : StartScanRequest F) (s : Server F S)
      : Server F S × Reply (Unit {0}) → Type 0 where
    busy : scan_running s.scan_runner ≡ true → Outcome req s (s, refusal failed_precondition)
    invalid :
        scan_running s.scan_runner ≡ false
        → ¬ (HasIds req.tone_sources × IsBeam (num_channels_of req.num_channels) req.start_channel)
        → Outcome req s
            (record s { station_cfg = station_of req s.station_cfg }, refusal invalid_argument)
    started :
        (cfgs : List (ToneSourceConfig F)) (m : List (String × ℕ)) (feeds : List (DelayFeed F))
        (streamer : DirectSynthesisStreamer F S)
        → scan_running s.scan_runner ≡ false
        → HasIds req.tone_sources
        → IsBeam (num_channels_of req.num_channels) req.start_channel
        → register fl req.tone_sources [] s.feeds ≡ answer (cfgs, m, feeds)
        → new_streamer fl cpus draws order (config_of fl req cfgs) ≡ ok streamer
        → Outcome req s (
            after_streamer fl cpus draws order
              (record s { station_cfg = station_of req s.station_cfg })
              req
              m
              feeds
              (ok streamer))

  pub start_scan-Outcome :
      (req : StartScanRequest F) (s : Server F S)
      → Outcome req s (start_scan fl cpus draws order req s)
  unfolding start_scan
  start_scan-Outcome req s =
      let s1 = record s { station_cfg = station_of req s.station_cfg } in
      let go = after_register fl cpus draws order s1 req in
      let choice = λ (b : Bool) (r : Server F S × Reply (Unit {0})).
        if b then (s, refusal failed_precondition) else r in
      let loop = register fl req.tone_sources [] s.feeds in
      elim (Bool-cases (scan_running s.scan_runner)) [
        | inl running ↦
            subst (Outcome req s) (sym (ap (λ b. choice b (go loop)) running)) (busy running)
        | inr free ↦ elim (Reply-cases loop) [
          | inr (code, e) ↦
              let known = register-refusal fl req.tone_sources [] s.feeds code e in
              subst (Outcome req s)
                (sym (ap (λ b. choice b (go loop)) free ∙ ap go (e ∙ ap refusal known)))
                (invalid free (λ (ids, beam).
                  let (_, _, _, done) =
                    register-HasIds fl req.tone_sources [] s.feeds ids
                      (none_known fl req.tone_sources) in
                  cc))
          | inl ((cfgs, m, feeds), e) ↦
              let registered = register-Registered fl req.tone_sources [] s.feeds cfgs m feeds e in
              let built = new_streamer fl cpus draws order (config_of fl req cfgs) in
              let accepts = new_streamer-accepts fl cpus draws order (config_of fl req cfgs) in
              let path = ap (λ b. choice b (go loop)) free ∙ ap go e in
              elim (Checked-cases built) [
                | inl (streamer, done) ↦
                    subst (Outcome req s)
                      (sym (path ∙ ap (after_streamer fl cpus draws order s1 req m feeds) done))
                      (started cfgs m feeds streamer free registered.ids
                        (accepts.0 (streamer, done)).0 e done)
                | inr (why, failed) ↦
                    subst (Outcome req s)
                      (sym (path ∙ ap (after_streamer fl cpus draws order s1 req m feeds) failed))
                      (invalid free (λ (ids, beam).
                        let (streamer, done) = accepts.1 (beam, registered.have) in cc))
              ]
        ]
      ]

  abbrev pub Accepts : StartScanRequest F → Server F S → Type 0
  Accepts req s =
      (scan_running s.scan_runner ≡ false)
      × HasIds req.tone_sources
      × IsBeam (num_channels_of req.num_channels) req.start_channel

  answered :
      {req : StartScanRequest F} {s : Server F S} {r : Server F S × Reply (Unit {0})}
      → Outcome req s r
      → r.1 ≡ answer tt
      → Accepts req s
  answered (busy running) e = cc
  answered (invalid free bad) e = cc
  answered (started cfgs m feeds streamer free ids beam loop built) e = (free, ids, beam)

  accepted :
      {req : StartScanRequest F} {s : Server F S} {r : Server F S × Reply (Unit {0})}
      → Outcome req s r
      → Accepts req s
      → r.1 ≡ answer tt
  accepted (busy running) (free, ids, beam) = cc
  accepted (invalid free bad) (free', ids, beam) = absurd (bad (ids, beam))
  accepted (started cfgs m feeds streamer free ids beam loop built) ok' = refl

  pub start_scan-answers :
      (req : StartScanRequest F) (s : Server F S)
      → ((start_scan fl cpus draws order req s).1 ≡ answer tt) ↔ Accepts req s
  start_scan-answers req s =
      (answered (start_scan-Outcome req s), accepted (start_scan-Outcome req s))

  -- What a refusal leaves.
  abbrev pub Leaves : StartScanRequest F → Server F S → Code → Server F S → Type 0
  Leaves req s code s' =
      ((scan_running s.scan_runner ≡ true) × (code ≡ failed_precondition) × (s' ≡ s))
      ⊎ ((scan_running s.scan_runner ≡ false)
          × (code ≡ invalid_argument)
          × (s' ≡ record s { station_cfg = station_of req s.station_cfg })
          × (pool_packetizer s'
              ≡ map_option
                  (λ (p : SpsPacketizer). record p { station = station_of req s.station_cfg })
                  (pool_packetizer s)))

  same_pool :
      (req : StartScanRequest F) (s : Server F S) (pool : Option ℕ)
      → map_option (packetizer_with (station_of req s.station_cfg)) pool
        ≡ map_option
            (λ (p : SpsPacketizer). record p { station = station_of req s.station_cfg })
            (map_option (packetizer_with s.station_cfg) pool)
  same_pool req s none = refl
  same_pool req s (some bits) = refl

  refused :
      {req : StartScanRequest F} {s : Server F S} {r : Server F S × Reply (Unit {0})} (code : Code)
      → Outcome req s r
      → r.1 ≡ refusal code
      → Leaves req s code r.0
  unfolding pool_packetizer
  refused code (busy running) e = inl (running, cc, refl)
  refused {req} {s} code (invalid free bad) e = inr (free, cc, refl, same_pool req s s.sender_pool)
  refused code (started cfgs m feeds streamer free ids beam loop built) e = cc

  -- A StartScan that is refused because a scan runs changes nothing. One that is refused for its arguments
  -- keeps the last scan, its feeds and the queue, but the packets that are sent from then on carry the
  -- identity in the refused request.
  pub start_scan-refused :
      (req : StartScanRequest F) (s : Server F S) (code : Code)
      → (start_scan fl cpus draws order req s).1 ≡ refusal code
      → Leaves req s code (start_scan fl cpus draws order req s).0
  start_scan-refused req s code e = refused code (start_scan-Outcome req s) e
