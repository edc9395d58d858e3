-- ===== src/Spead/Payload.antt =====
-- internal/spead/packetizer.go: quantisation to int8, and the loops that store a heap's samples into
-- the payload part of its wire buffer.
pub mod Rounding
pub mod Layout
use ska_low_station_beam_sim.Prelude.{
  ℕ, zero, suc, ◌+◌, ◌*◌, Bool, true, false, List, [], ◌∷◌, Option, none, some, if◌then◌else◌, map,
  ◌>>=◌, map_option,
}
use ska_low_station_beam_sim.Prelude.Int.{ℤ, pos, negsuc, to_word}
use ska_low_station_beam_sim.Float.{Float, constant, half}
use ska_low_station_beam_sim.Common.Heap.{Complex}

-- `dst[i] = v`: `none` is the panic of an index out of range.
abbrev pub put_at {ℓ} : {A : Type ℓ} → List A → ℕ → A → Option (List A)
put_at [] _ _ = none
put_at (_ ∷ xs) zero v = some (v ∷ xs)
put_at (x ∷ xs) (suc i) v = map_option (◌∷◌ x) (put_at xs i v)

module _ {F S : Type 0} (fl : Float F S) where
  -- QuantizeComponent. The two tests leave the conversion to int8 a value from -128 to 127.
  unfoldable pub quantize_component : F → ℤ
  quantize_component v =
      let v' = fl.add v (fl.copysign (half fl) v) in
      if fl.lt (constant fl (pos 127)) v'
      then pos 127
      else if fl.lt v' (constant fl (negsuc 127))
      then negsuc 127
      else fl.to_int v'

  -- clampToInt8
  unfoldable pub clamp_to_int8 : F → ℤ
  clamp_to_int8 v =
      let v' =
        if fl.lt (constant fl (pos 127)) v
        then constant fl (pos 127)
        else if fl.lt v (constant fl (negsuc 127))
        then constant fl (negsuc 127)
        else v in
      fl.to_int v'

  -- The loop of quantize8bitScale: the largest squared magnitude so far.
  max_squared : F → List (Complex S) → F
  max_squared max_sq [] = max_sq
  max_squared max_sq ((s_re, s_im) ∷ samples) =
      let re = fl.widen s_re in
      let im = fl.widen s_im in
      let sq = fl.add (fl.mul re re) (fl.mul im im) in
      max_squared (if fl.lt max_sq sq then sq else max_sq) samples

  -- quantize8bitScale
  unfoldable pub quantize8bit_scale : List (Complex S) → F
  unfolding max_squared
  quantize8bit_scale samples = fl.div (constant fl (pos 127)) (
      fl.add (fl.sqrt (max_squared (constant fl (pos 0)) samples))
        (fl.of_ratio (pos 1) 1_000_000_000_000))

  -- `QuantizeComponent(float64(x) * scale)`
  abbrev pub quantize_scaled : F → S → ℤ
  quantize_scaled scale x = quantize_component (fl.mul (fl.widen x) scale)

  -- quantize8bit: the real parts and the imaginary parts
  unfoldable pub quantize8bit : List (Complex S) → List ℤ × List ℤ
  unfolding quantize8bit_scale quantize_component
  quantize8bit samples =
      let scale = quantize8bit_scale samples in
      (map (λ s. quantize_scaled scale s.0) samples, map (λ s. quantize_scaled scale s.1) samples)

  -- quantize8bitIntoPayload from sample `i` on
  quantize_from : ℕ → List (Complex S) → List ℕ → ℕ → ℕ → F → Option (List ℕ)
  quantize_from i [] dst real_offset stride scale = some dst
  quantize_from i ((re, im) ∷ samples) dst real_offset stride scale =
      put_at dst (i * stride + real_offset) (to_word 8 (quantize_scaled scale re)) >>= λ d.
      put_at d (i * stride + real_offset + 1) (to_word 8 (quantize_scaled scale im)) >>= λ d'.
      quantize_from (i + 1) samples d' real_offset stride scale

  unfoldable pub quantize8bit_into_payload : List (Complex S) → List ℕ → ℕ → ℕ → F → Option (List ℕ)
  unfolding quantize_from
  quantize8bit_into_payload = quantize_from 0

-- copyQuantizedIntoPayload from pair `i` on; an odd byte at the end is not copied
copy_from : ℕ → List ℕ → List ℕ → ℕ → ℕ → Option (List ℕ)
copy_from i (re ∷ im ∷ quantized) dst real_offset stride =
    put_at dst (i * stride + real_offset) re >>= λ d.
    put_at d (i * stride + real_offset + 1) im >>= λ d'.
    copy_from (i + 1) quantized d' real_offset stride
copy_from i _ dst real_offset stride = some dst

unfoldable pub copy_quantized_into_payload : List ℕ → List ℕ → ℕ → ℕ → Option (List ℕ)
unfolding copy_from
copy_quantized_into_payload = copy_from 0

-- copyQuantizedVHIntoPayload from pair `i` on; an hQuantized that is too short is a panic
copy_vh_from : ℕ → List ℕ → List ℕ → List ℕ → Option (List ℕ)
copy_vh_from i (v_re ∷ v_im ∷ v_quantized) (h_re ∷ h_im ∷ h_quantized) dst =
    let j = i * 4 in
    put_at dst j v_re >>= λ d0. put_at d0 (j + 1) v_im >>= λ d1. put_at d1 (j + 2) h_re >>= λ d2.
    put_at d2 (j + 3) h_im >>= λ d3. copy_vh_from (i + 1) v_quantized h_quantized d3
copy_vh_from i (v_re ∷ v_im ∷ v_quantized) _ dst = none
copy_vh_from i _ _ dst = some dst

unfoldable pub copy_quantized_vh_into_payload : List ℕ → List ℕ → List ℕ → Option (List ℕ)
unfolding copy_vh_from
copy_quantized_vh_into_payload = copy_vh_from 0
