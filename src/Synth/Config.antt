-- ===== src/Synth/Config.antt =====
-- internal/synth/streamer.go: the configuration of a streamer, and what is wrong with it.
use ska_low_station_beam_sim.Prelude.{ℕ, ◌≡◌, refl, Bool, Option, List}
use ska_low_station_beam_sim.Prelude.Int.{ℤ}

-- A feed is shared between the server and the streamer: `delay_feed` is its address, none is a nil
-- pointer.
pub record ToneSourceConfig (F : Type 0) : Type 0 where
  pub delay_feed : Option ℕ
  pub freq_hz : F
  pub amplitude : F

pub record NoiseConfig (F : Type 0) : Type 0 where
  pub std : F
  pub seed : ℤ  -- int64

-- The station, which the streamer keeps and never reads, is left out.
pub record StreamerConfig (F : Type 0) : Type 0 where
  pub tone_sources : List (ToneSourceConfig F)
  pub obs_time_ref : F
  pub noise : Option (NoiseConfig F)
  pub num_channels : ℤ
  pub start_channel : ℤ
  pub base_freq_hz : F
  pub channel_width_hz : F
  pub n_tiles : ℕ
  pub tile_n_samples : ℕ
  pub num_workers : ℕ
  pub negate_delay : Bool

-- The errors of NewDirectSynthesisStreamer; the last has the index of the tone source.
pub data ConfigError : Type 0 where
  bad_num_channels bad_start_channel : ConfigError
  no_delay_feed : ℕ → ConfigError

pub data Checked {ℓ} (A : Type ℓ) : Type ℓ where
  ok : A → Checked A
  err : ConfigError → Checked A

-- The rest of the construction, unless an error ends it.
infixl 5 ◌>>=◌
abbrev pub ◌>>=◌ {ℓ κ} : {B : Type κ} {A : Type ℓ} → Checked A → (A → Checked B) → Checked B
◌>>=◌ (err why) rest = err why
◌>>=◌ (ok checked) rest = rest checked

-- A chain that ends well has begun well.
pub >>=-begun {ℓ κ} :
    {B : Type κ} {A : Type ℓ} (rest : A → Checked B) (start : Checked A) {result : B}
    → (start >>= rest) ≡ ok result
    → (checked : A) × (rest checked ≡ ok result) × (start ≡ ok checked)
>>=-begun rest (err why) end = cc
>>=-begun rest (ok checked) end = (checked, end, refl)
