-- ===== src/Server/Feeds.antt =====
-- grpc_server.go: the delay feeds of a scan, and who reads what PushDelayUpdate brings.
use ska_low_station_beam_sim.Prelude.{
  ℕ, zero, suc, ◌+◌, ◌≤◌, ◌<◌, ◌≡◌, refl, ap, ◌∙◌, ◌≢◌, List, [], ◌∷◌, Option, none, some, length,
  get_elem?, get_elem?-some, map, map_option, arith,
}
use ska_low_station_beam_sim.Float.{Float}
use ska_low_station_beam_sim.Common.Delay.{DelayFeed, DelayPolynomial, update}
use ska_low_station_beam_sim.Synth.Config.{ToneSourceConfig, ok}
use ska_low_station_beam_sim.Synth.Streamer.{with_amplitude}
use ska_low_station_beam_sim.Synth.Streamer.Built.{new_streamer-IsBuilt}
use ska_low_station_beam_sim.Server.Requests.{
  ToneSource, StartScanRequest, Reply, answer, Scan, Server,
}
use ska_low_station_beam_sim.Server.Handlers.{
  update_at, push_to, push_delay_update, start_scan, config_of, after_streamer, station_of,
  tone_config,
}
use ska_low_station_beam_sim.Server.Registering.{register-Registered}
use ska_low_station_beam_sim.Server.Refusals.{Outcome, busy, invalid, started, start_scan-Outcome}

get_elem?-map :
    {A B : Type 0} (f : A → B) (xs : List A) (i : ℕ)
    → get_elem? (map f xs) i ≡ map_option f (get_elem? xs i)
get_elem?-map f [] i = refl
get_elem?-map f (x ∷ xs) zero = refl
get_elem?-map f (x ∷ xs) (suc i) = get_elem?-map f xs i

get_elem?-lt : {A : Type 0} (xs : List A) (i : ℕ) {x : A} → get_elem? xs i ≡ some x → i < length xs
get_elem?-lt [] i h = cc
get_elem?-lt (y ∷ xs) zero h = omega arith
get_elem?-lt (y ∷ xs) (suc i) h = omega (arith, get_elem?-lt xs i h)

module _ {F : Type 0} where
  update_at_self :
      (a : ℕ) (p : DelayPolynomial F) (feeds : List (DelayFeed F))
      → get_elem? (update_at a p feeds) a ≡ map_option (update p) (get_elem? feeds a)
  update_at_self zero p [] = refl
  update_at_self zero p (feed ∷ feeds) = refl
  update_at_self (suc a) p [] = refl
  update_at_self (suc a) p (feed ∷ feeds) = update_at_self a p feeds

  update_at_other :
      (a b : ℕ) (p : DelayPolynomial F) (feeds : List (DelayFeed F))
      → b ≢ a
      → get_elem? (update_at a p feeds) b ≡ get_elem? feeds b
  update_at_other zero b p [] other = refl
  update_at_other zero zero p (feed ∷ feeds) other = absurd (other refl)
  update_at_other zero (suc b) p (feed ∷ feeds) other = refl
  update_at_other (suc a) b p [] other = refl
  update_at_other (suc a) zero p (feed ∷ feeds) other = refl
  update_at_other (suc a) (suc b) p (feed ∷ feeds) other =
      update_at_other a b p feeds (λ e. other (ap suc e))

module _ {F S : Type 0} (fl : Float F S) (cpus : ℕ) (draws : ℕ → ℕ → ℕ → F)
    (order : List ℕ → List ℕ) where
  -- The tone `k` of a scan, as its streamer has it.
  abbrev pub tone_of : Option (Scan F S) → ℕ → Option (ToneSourceConfig F)
  tone_of none k = none
  tone_of (some scan) k = get_elem? scan.streamer.tone_cfgs k

  abbrev pub pushed : Server F S → ToneSource F → DelayPolynomial F → Server F S × Reply (Unit {0})
  pushed s ts p = push_delay_update (record { source_id = ts.source_id; polynomial = some p }) s

  -- What a push to the source of tone `k` does: the tone reads a feed made for this scan, and this feed
  -- gets the polynomial, and no other.
  pub record Reaches (s s' : Server F S) (p : DelayPolynomial F) (k : ℕ) (ts : ToneSource F)
      : Type 0 where
    pub address : ℕ
    pub cfg : ToneSourceConfig F
    pub feed : DelayFeed F
    pub read_by_tone : tone_of s'.scan_runner k ≡ some cfg
    pub its_frequency : cfg.freq_hz ≡ ts.freq_hz
    pub its_feed : cfg.delay_feed ≡ some address
    pub new_feed : length s.feeds ≤ address
    pub held : get_elem? s'.feeds address ≡ some feed
    pub answered : (pushed s' ts p).1 ≡ answer tt
    pub brought : get_elem? (pushed s' ts p).0.feeds address ≡ some (update p feed)
    pub no_other :
        (b : ℕ) → b ≢ address → get_elem? (pushed s' ts p).0.feeds b ≡ get_elem? s'.feeds b

  reaches :
      (req : StartScanRequest F) (s : Server F S) (p : DelayPolynomial F) (k : ℕ)
      (ts : ToneSource F) (r : Server F S × Reply (Unit {0}))
      → Outcome fl cpus draws order req s r
      → r.1 ≡ answer tt
      → get_elem? req.tone_sources k ≡ some ts
      → Reaches s r.0 p k ts
  unfolding push_delay_update
  reaches req s p k ts _ (busy running) e h = cc
  reaches req s p k ts _ (invalid free bad) e h = cc
  reaches req s p k ts _ (started cfgs m feeds streamer free ids beam loop built) e h =
      let registered = register-Registered fl req.tone_sources [] s.feeds cfgs m feeds loop in
      let (cfg, found) = registered.found k ts h in
      let a = length s.feeds + k in
      let tones =
        (new_streamer-IsBuilt fl cpus draws order (config_of fl req cfgs) streamer built).tones in
      let size = registered.size in
      let (feed, held) =
        get_elem?-some feeds a (omega (arith, size, get_elem?-lt req.tone_sources k h)) in
      let s' =
        (after_streamer fl cpus draws order
          (record s { station_cfg = station_of req s.station_cfg }) req m feeds (ok streamer)).0 in
      let push = ap (push_to s' (some p)) found in
      record {
        address = a;
        cfg = with_amplitude fl (tone_config fl a ts);
        feed = feed;
        read_by_tone =
            ap (λ (l : List (ToneSourceConfig F)). get_elem? l k) tones
            ∙ get_elem?-map (with_amplitude fl) cfgs k
            ∙ ap (map_option (with_amplitude fl)) cfg;
        its_frequency = refl;
        its_feed = refl;
        new_feed = omega arith;
        held = held;
        answered = ap (λ (r : Server F S × Reply (Unit {0})). r.1) push;
        brought =
            ap (λ (r : Server F S × Reply (Unit {0})). get_elem? r.0.feeds a) push
            ∙ update_at_self a p feeds
            ∙ ap (map_option (update p)) held;
        no_other = λ b other.
            ap (λ (r : Server F S × Reply (Unit {0})). get_elem? r.0.feeds b) push
            ∙ update_at_other a b p feeds other;
      }

  -- After a StartScan that is answered, a PushDelayUpdate with a polynomial for the id of a tone source
  -- is answered, brings the polynomial to the feed that the streamer's tone for this source reads, and
  -- changes no other feed; and the feed was made for this scan.
  pub push_delay_update-Reaches :
      (req : StartScanRequest F) (s : Server F S) (p : DelayPolynomial F) (k : ℕ)
      (ts : ToneSource F)
      → (start_scan fl cpus draws order req s).1 ≡ answer tt
      → get_elem? req.tone_sources k ≡ some ts
      → Reaches s (start_scan fl cpus draws order req s).0 p k ts
  push_delay_update-Reaches req s p k ts e h =
      reaches req s p k ts _ (start_scan-Outcome fl cpus draws order req s) e h
