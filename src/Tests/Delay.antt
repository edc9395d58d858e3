-- ===== src/Tests/Delay.antt =====
-- internal/common/delay.go: a feed that is asked before and after its only polynomial, also when that
-- has expired.
use ska_low_station_beam_sim.Prelude.{List, [], ◌∷◌}
use ska_low_station_beam_sim.Prelude.Int.{ℤ, pos}
use ska_low_station_beam_sim.Common.Delay.{DelayPolynomial}
use ska_low_station_beam_sim.Common.Delay.Warnings.{Call, updates, gets}

abbrev poly : DelayPolynomial ℤ
poly = record {
  station_id = pos 345;
  start_validity_sec = pos 10_000_000;
  validity_period_sec = pos 5_000_000;
  xypol_coeffs_ns = pos 3_000_000 ∷ [];
  ypol_offset_ns = pos 0;
}

abbrev now : ℤ
now = pos 946_684_800_000_000

abbrev calls : List (Call ℤ)
calls = gets now ∷ gets now ∷ updates poly ∷ gets now ∷ gets now ∷ []
