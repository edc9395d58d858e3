-- ===== src/Common/Time.antt =====
-- internal/common/tai2000.go, and the float64 forms of the ICD's constants.
use ska_low_station_beam_sim.Prelude.{◌-◌}
use ska_low_station_beam_sim.Prelude.Int.{pos}
use ska_low_station_beam_sim.Float.{Float, constant}
use ska_low_station_beam_sim.Common.Constants.{
  block_duration_num, block_duration_den, output_rate_num, oversampling_denominator,
}

module _ {F S : Type 0} (fl : Float F S) where
  -- UnixToTAI2000Seconds: 37 leap seconds, and the epoch 32 s before 2000-01-01T00:00:00 UTC.
  unfoldable pub unix_to_tai2000_seconds : F → F
  unix_to_tai2000_seconds t =
      fl.sub (fl.add t (constant fl (pos 37))) (constant fl (pos (946_684_800 - 32)))

  abbrev pub block_duration_s : F
  block_duration_s = fl.of_ratio (pos block_duration_num) block_duration_den

  abbrev pub channel_output_rate_hz : F
  channel_output_rate_hz = fl.of_ratio (pos output_rate_num) oversampling_denominator
