-- ===== src/Common/Constants.antt =====
-- internal/common/constants.go. Go's constants are exact; those that are no whole number are kept as a
-- numerator and a denominator.
use ska_low_station_beam_sim.Prelude.{ℕ, ◌*◌}

abbrev pub channel_width_hz : ℕ
channel_width_hz = 781_250

abbrev pub channel_start : ℕ
channel_start = 64

abbrev pub min_num_channels : ℕ
min_num_channels = 8

abbrev pub max_num_channels : ℕ
max_num_channels = 384

abbrev pub num_channels_step : ℕ
num_channels_step = 8

abbrev pub base_freq_hz : ℕ
base_freq_hz = 50_000_000

abbrev pub heap_len : ℕ
heap_len = 2048

abbrev pub oversampling_numerator : ℕ
oversampling_numerator = 32

abbrev pub oversampling_denominator : ℕ
oversampling_denominator = 27

-- ChannelOutputRateHz is `output_rate_num / oversampling_denominator`.
abbrev pub output_rate_num : ℕ
output_rate_num = channel_width_hz * oversampling_numerator

-- BlockDurationS = HeapLen / ChannelOutputRateHz.
abbrev pub block_duration_num : ℕ
block_duration_num = heap_len * oversampling_denominator

abbrev pub block_duration_den : ℕ
block_duration_den = output_rate_num

abbrev pub queue_max_size : ℕ
queue_max_size = 4096
