-- ===== src/Synth/Ticks/Delays.antt =====
-- tone.go and delay.go: the delay in a tone's samples.
use ska_low_station_beam_sim.Prelude.{
  ℕ, zero, suc, ◌+◌, ◌<◌, ◌≡◌, refl, sym, ap, ◌∙◌, true, false, List, [], ◌∷◌, some, get_elem?,
  range_from, map, arith,
}
use ska_low_station_beam_sim.Prelude.Int.{pos}
use ska_low_station_beam_sim.Float.{Float, constant}
use ska_low_station_beam_sim.Common.Heap.{Complex}
use ska_low_station_beam_sim.Common.Time.{unix_to_tai2000_seconds}
use ska_low_station_beam_sim.Common.Accumulator.{Pol, pol_v, pol_h}
use ska_low_station_beam_sim.Common.Delay.{
  DelayPolynomial, DelayFeed, sum_terms, offset_of, eval_delay_seconds,
}
use ska_low_station_beam_sim.Synth.Tone.{
  add_terms, eval_delay_poly_ns, elapsed, rect, tone_delay_ns, tone_phase, tone_sample,
  synth_tone_channel,
}
use ska_low_station_beam_sim.Synth.Config.{ToneSourceConfig}
use ska_low_station_beam_sim.Synth.Streamer.{DirectSynthesisStreamer}
use ska_low_station_beam_sim.Synth.Ticks.{tone_call}

get_elem?-map_range :
    {A : Type 0} (f : ℕ → A) (i n j : ℕ)
    → j < n
    → get_elem? (map f (range_from i n)) j ≡ some (f (i + j))
get_elem?-map_range f i zero j small = absurd (omega arith)
get_elem?-map_range f i (suc n) zero small = ap (λ k. some (f k)) (omega arith)
get_elem?-map_range f i (suc n) (suc j) small =
    get_elem?-map_range f (i + 1) n j (omega arith) ∙ ap (λ k. some (f k)) (omega arith)

module _ {F S : Type 0} (fl : Float F S) where
  add_terms-eq-sum_terms :
      (coeffs : List F) (t tau power : F)
      → add_terms fl coeffs t tau power ≡ sum_terms fl t coeffs tau power
  unfolding add_terms sum_terms
  add_terms-eq-sum_terms [] t tau power = refl
  add_terms-eq-sum_terms (c ∷ coeffs) t tau power =
      add_terms-eq-sum_terms coeffs t (fl.add tau (fl.mul c power)) (fl.mul power t)

  abbrev terms : DelayPolynomial F → F → F
  terms p x = sum_terms fl x p.xypol_coeffs_ns (constant fl (pos 0)) (constant fl (pos 1))

  poly_ns : (p : DelayPolynomial F) (x : F) → eval_delay_poly_ns fl p.xypol_coeffs_ns x ≡ terms p x
  unfolding eval_delay_poly_ns
  poly_ns p x = add_terms-eq-sum_terms p.xypol_coeffs_ns x _ _

  module _ (s : DirectSynthesisStreamer F S) (inf : F) (feeds : Pol → ℕ → DelayFeed F)
      (cfg : ToneSourceConfig F) (p : DelayPolynomial F) (t t' : F) (n i : ℕ) where
    delay_kept :
        (pol : Pol) (x : F)
        → s.negate_delay ≡ false
        → tone_delay_ns fl (tone_call fl s inf feeds cfg p pol t) x ≡ offset_of fl pol p (terms p x)
    unfolding tone_delay_ns
    delay_kept pol_v x kept = rw kept (poly_ns p x)
    delay_kept pol_h x kept = rw kept (ap (λ tau. fl.add tau p.ypol_offset_ns) (poly_ns p x))

    delay_negated :
        (pol : Pol) (x : F)
        → s.negate_delay ≡ true
        → tone_delay_ns fl (tone_call fl s inf feeds cfg p pol t) x
          ≡ offset_of fl pol p (fl.neg (terms p x))
    unfolding tone_delay_ns
    delay_negated pol_v x negated = rw negated (ap fl.neg (poly_ns p x))
    delay_negated pol_h x negated =
        rw negated (ap (λ tau. fl.add (fl.neg tau) p.ypol_offset_ns) (poly_ns p x))

    -- The sample with a given delay in seconds.
    abbrev pub delayed : Pol → F → Complex S
    delayed pol delay_s =
        let c = tone_call fl s inf feeds cfg p pol t in
        rect fl cfg.amplitude
          (tone_phase fl c (fl.add (fl.sub t s.obs_time_ref) (elapsed fl c i)) delay_s)

    -- At sample `i` of a tick at `t` a tone has, for either polarisation, the phase of its delay at the time
    -- of this sample: if the delays are not negated, the delay that EvalDelaySeconds gives for any time
    -- `t'` as far after the polynomial's start; if they are, the negated polynomial with H's offset added
    -- as it is.
    pub synth_tone_channel-delay :
        (pol : Pol)
        → i < n
        → fl.sub (unix_to_tai2000_seconds fl t') p.start_validity_sec
          ≡ fl.add
              (fl.sub (unix_to_tai2000_seconds fl t) p.start_validity_sec)
              (fl.div (fl.of_int (pos i)) s.channel_output_rate)
        → let sample =
            get_elem? (synth_tone_channel fl (tone_call fl s inf feeds cfg p pol t) n).1 i in
          (s.negate_delay ≡ false → sample ≡ some (delayed pol (eval_delay_seconds fl t' pol p)))
          × (s.negate_delay ≡ true
              → sample
                ≡ some (
                    delayed pol (
                      fl.mul
                        (offset_of fl pol p (
                          fl.neg (
                            sum_terms fl
                              (fl.sub (unix_to_tai2000_seconds fl t') p.start_validity_sec)
                              p.xypol_coeffs_ns
                              (constant fl (pos 0))
                              (constant fl (pos 1)))))
                        (fl.of_ratio (pos 1) 1_000_000_000))))
    unfolding synth_tone_channel tone_sample eval_delay_seconds
    synth_tone_channel-delay pol small same =
        let c = tone_call fl s inf feeds cfg p pol t in
        let x = fl.sub (unix_to_tai2000_seconds fl t') p.start_validity_sec in
        let tick = fl.sub (unix_to_tai2000_seconds fl t) p.start_validity_sec in
        let at_i =
          get_elem?-map_range (tone_sample fl c) 0 n i small
          ∙ ap (λ k. some (tone_sample fl c k)) (omega arith) in
        let seconds =
          λ (ns : F). some (delayed pol (fl.mul ns (fl.of_ratio (pos 1) 1_000_000_000))) in
        let moved = ap (λ (y : F). seconds (tone_delay_ns fl c y)) (sym same) in
        (
          (λ kept. at_i ∙ moved ∙ ap seconds (delay_kept pol x kept)),
          (λ negated. at_i ∙ moved ∙ ap seconds (delay_negated pol x negated)),
        )
