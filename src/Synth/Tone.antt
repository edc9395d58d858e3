-- ===== src/Synth/Tone.antt =====
-- internal/synth/tone.go: a tone in the channel that its frequency maps to.
use ska_low_station_beam_sim.Prelude.{
  ℕ, ◌*◌, ◌^◌, Bool, List, [], ◌∷◌, if◌then◌else◌, range_from, map,
}
use ska_low_station_beam_sim.Prelude.Int.{ℤ, pos}
use ska_low_station_beam_sim.Float.{Float, constant}
use ska_low_station_beam_sim.Common.Heap.{Complex}

-- The arguments of synthToneChannel, but for the number of samples.
pub record ToneCall (F : Type 0) : Type 0 where
  pub freq_hz : F
  pub amplitude : F
  pub base_freq_hz : F
  pub channel_width_hz : F
  pub delay_coeffs : List F
  pub poly_t_rel_start : F
  pub ypol_offset_ns : F
  pub negate_delay : Bool
  pub is_h_pol : Bool
  pub t_local_rel_start : F
  pub sample_rate_per_channel : F

module _ {F S : Type 0} (fl : Float F S) where
  -- The loop of evalDelayPolyNs.
  unfoldable pub add_terms : List F → F → F → F → F
  add_terms [] t_rel tau_ns power = tau_ns
  add_terms (c ∷ coeffs) t_rel tau_ns power =
      add_terms coeffs t_rel (fl.add tau_ns (fl.mul c power)) (fl.mul power t_rel)

  -- evalDelayPolyNs
  unfoldable pub eval_delay_poly_ns : List F → F → F
  unfolding add_terms
  eval_delay_poly_ns coeffs t_rel =
      add_terms coeffs t_rel (constant fl (pos 0)) (constant fl (pos 1))

  -- toneChannelIndex
  unfoldable pub tone_channel_index : F → F → F → ℤ
  tone_channel_index freq_hz base_freq_hz channel_width_hz =
      fl.to_int (fl.round (fl.div (fl.sub freq_hz base_freq_hz) channel_width_hz))

  -- The constant `2.0*math.Pi`.
  abbrev pub two_pi : F
  two_pi =
      fl.of_ratio
        (pos
          (2 * 314_159_265_358_979_323_846_264_338_327_950_288_419_716_939_937_510_582_097_494_459))
        (10 ^ 62)

  -- `complex64(cmplx.Rect(r, theta))`
  abbrev pub rect : F → F → Complex S
  rect r theta =
      let (sine, cosine) = fl.sincos theta in
      (fl.narrow (fl.mul r cosine), fl.narrow (fl.mul r sine))

  -- The time of sample `i` after the tick's first.
  abbrev pub elapsed : ToneCall F → ℕ → F
  elapsed c i = fl.div (fl.of_int (pos i)) c.sample_rate_per_channel

  -- tauNs, with its two corrections.
  unfoldable pub tone_delay_ns : ToneCall F → F → F
  tone_delay_ns c t_poly =
      let tau_ns = eval_delay_poly_ns c.delay_coeffs t_poly in
      let signed = if c.negate_delay then fl.neg tau_ns else tau_ns in
      if c.is_h_pol then fl.add signed c.ypol_offset_ns else signed

  -- The phase at a local time, for a delay in seconds.
  unfoldable pub tone_phase : ToneCall F → F → F → F
  tone_phase c t_local tau_s =
      let channel_idx = tone_channel_index c.freq_hz c.base_freq_hz c.channel_width_hz in
      let channel_center =
        fl.add c.base_freq_hz (fl.mul (fl.of_int channel_idx) c.channel_width_hz) in
      let residual_freq = fl.sub c.freq_hz channel_center in
      fl.sub (fl.mul (fl.mul two_pi residual_freq) t_local) (fl.mul (fl.mul two_pi c.freq_hz) tau_s)

  -- The body of the loop of synthToneChannel.
  unfoldable pub tone_sample : ToneCall F → ℕ → Complex S
  tone_sample c i =
      let t_local = fl.add c.t_local_rel_start (elapsed c i) in
      let t_poly = fl.add c.poly_t_rel_start (elapsed c i) in
      let tau_s = fl.mul (tone_delay_ns c t_poly) (fl.of_ratio (pos 1) 1_000_000_000) in
      rect c.amplitude (tone_phase c t_local tau_s)

  -- synthToneChannel
  unfoldable pub synth_tone_channel : ToneCall F → ℕ → ℤ × List (Complex S)
  synth_tone_channel c n_samples = (
    tone_channel_index c.freq_hz c.base_freq_hz c.channel_width_hz,
    map (tone_sample c) (range_from 0 n_samples),
  )
