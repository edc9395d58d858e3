-- ===== src/Common/Delay.antt =====
-- internal/common/delay.go: delay polynomials, and the feed that says which one applies. Update and Get
-- are atomic here: each reads or swaps the polynomial in one step.
pub mod Warnings
use ska_low_station_beam_sim.Prelude.{
  ℕ, Bool, true, false, not, ◌&&◌, ◌||◌, List, [], ◌∷◌, Option, none, some, if◌then◌else◌,
}
use ska_low_station_beam_sim.Prelude.Int.{ℤ, pos, negsuc}
use ska_low_station_beam_sim.Float.{Float, constant}
use ska_low_station_beam_sim.Common.Time.{unix_to_tai2000_seconds}
use ska_low_station_beam_sim.Common.Accumulator.{Pol, pol_v, pol_h}

pub record DelayPolynomial (F : Type 0) : Type 0 where
  pub station_id : ℤ
  pub start_validity_sec : F
  pub validity_period_sec : F
  pub xypol_coeffs_ns : List F
  pub ypol_offset_ns : F

-- The name, which is only logged, is left out.
pub record DelayFeed (F : Type 0) : Type 0 where
  pub poly : Option (DelayPolynomial F)
  pub warned_no_poly : Bool
  pub warned_stale_valid_until : F
  pub has_warned_stale_validity : Bool

module _ {F : Type 0} where
  -- Update
  unfoldable pub update : DelayPolynomial F → DelayFeed F → DelayFeed F
  update p f = record f { poly = some p; has_warned_stale_validity = false }

module _ {F S : Type 0} (fl : Float F S) where
  -- ValidUntil
  unfoldable pub valid_until : DelayPolynomial F → F
  valid_until p = fl.add p.start_validity_sec p.validity_period_sec

  -- The loop of EvalDelaySeconds over the coefficients.
  unfoldable pub sum_terms : F → List F → F → F → F
  sum_terms t [] tau power = tau
  sum_terms t (c ∷ coeffs) tau power =
      sum_terms t coeffs (fl.add tau (fl.mul c power)) (fl.mul power t)

  abbrev pub offset_of : Pol → DelayPolynomial F → F → F
  offset_of pol_v p tau = tau
  offset_of pol_h p tau = fl.add tau p.ypol_offset_ns

  -- EvalDelaySeconds
  unfoldable pub eval_delay_seconds : F → Pol → DelayPolynomial F → F
  unfolding sum_terms
  eval_delay_seconds t pol p =
      let t_rel = fl.sub (unix_to_tai2000_seconds fl t) p.start_validity_sec in
      let tau_x = sum_terms t_rel p.xypol_coeffs_ns (constant fl (pos 0)) (constant fl (pos 1)) in
      fl.mul (offset_of pol p tau_x) (fl.of_ratio (pos 1) 1_000_000_000)

  -- NewDelayFeed
  unfoldable pub new_delay_feed : DelayFeed F
  new_delay_feed = record {
    poly = none;
    warned_no_poly = false;
    warned_stale_valid_until = constant fl (pos 0);
    has_warned_stale_validity = false;
  }

  -- The polynomial of Get before the first Update; `inf` is math.Inf(1).
  abbrev pub zero_delay : F → F → DelayPolynomial F
  zero_delay inf t_tai = record {
    station_id = negsuc 0;
    start_validity_sec = t_tai;
    validity_period_sec = inf;
    xypol_coeffs_ns = constant fl (pos 0) ∷ [];
    ypol_offset_ns = constant fl (pos 0);
  }

  -- `t >= until`
  abbrev pub has_expired : F → F → Bool
  has_expired t until = fl.lt until t || fl.eq t until

  get_from :
      F → F → DelayFeed F → Option (DelayPolynomial F) → DelayFeed F × DelayPolynomial F × Bool
  get_from inf t_tai f none =
      (record f { warned_no_poly = true }, zero_delay inf t_tai, not f.warned_no_poly)
  get_from inf t_tai f (some p) =
      let until = valid_until p in
      if has_expired t_tai until
        && (not f.has_warned_stale_validity || not (fl.eq f.warned_stale_valid_until until))
      then (
        record f { warned_stale_valid_until = until; has_warned_stale_validity = true },
        p,
        true,
      )
      else (f, p, false)

  -- Get: the feed after it, the polynomial, and whether a warning was logged.
  unfoldable pub get : F → F → DelayFeed F → DelayFeed F × DelayPolynomial F × Bool
  unfolding get_from
  get inf t f = get_from inf (unix_to_tai2000_seconds fl t) f f.poly
