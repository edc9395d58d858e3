-- ===== src/Spead/Payload/Layout.antt =====
-- packetizer.go: the payload that the store loops leave, whatever the buffer held before.
use mathlib.Core.List.{append_assoc}
use ska_low_station_beam_sim.Prelude.{
  ℕ, zero, suc, ◌+◌, ◌*◌, ◌/◌, ◌≡◌, refl, sym, ap, ◌∙◌, List, [], ◌∷◌, ◌++◌, Option, none, some,
  map, ◌>>=◌, >>=-congr, map_option, length, length-append, arith,
}
use ska_low_station_beam_sim.Prelude.Int.{to_word}
use ska_low_station_beam_sim.Float.{Float}
use ska_low_station_beam_sim.Common.Heap.{Complex}
use ska_low_station_beam_sim.Spead.Payload.{
  put_at, quantize_scaled, quantize_from, quantize8bit_into_payload, copy_from,
  copy_quantized_into_payload, copy_vh_from, copy_quantized_vh_into_payload,
}

abbrev pub Pairs : Type 0
Pairs = List (ℕ × ℕ)

-- The payload of the ICD: for each sample V's two bytes and then H's two bytes.
abbrev pub interleave : Pairs → Pairs → List ℕ
interleave ((a, b) ∷ vs) ((c, d) ∷ hs) = a ∷ b ∷ c ∷ d ∷ interleave vs hs
interleave [] _ = []
interleave _ [] = []

-- The bytes of one polarisation, two by two.
abbrev pub pairs_of : List ℕ → Pairs
pairs_of (re ∷ im ∷ rest) = (re, im) ∷ pairs_of rest
pairs_of (_ ∷ []) = []
pairs_of [] = []

-- The pair of bytes of a sample at a scale.
abbrev pub quantized_pair : {F S : Type 0} (fl : Float F S) → F → Complex S → ℕ × ℕ
quantized_pair fl scale s =
    (to_word 8 (quantize_scaled fl scale s.0), to_word 8 (quantize_scaled fl scale s.1))

map_option_id : (o : Option (List ℕ)) → o ≡ map_option (λ zs. zs) o
map_option_id none = refl
map_option_id (some zs) = refl

put_at_offset :
    (xs ys : List ℕ) (i k v : ℕ)
    → i ≡ length xs + k
    → put_at (xs ++ ys) i v ≡ map_option (λ zs. xs ++ zs) (put_at ys k v)
put_at_offset [] ys i k v e =
    let same : i ≡ k = omega arith in rw same (map_option_id (put_at ys k v))
put_at_offset (x ∷ xs) ys zero k v e = absurd (omega arith)
put_at_offset (x ∷ xs) ys (suc i) k v e =
    rw (put_at_offset xs ys i k v (omega arith)) (map_option_twice (put_at ys k v))
  where
    map_option_twice :
        (o : Option (List ℕ))
        → map_option (◌∷◌ x) (map_option (λ zs. xs ++ zs) o) ≡ map_option (λ zs. (x ∷ xs) ++ zs) o
    map_option_twice none = refl
    map_option_twice (some zs) = refl

-- Both loops over one polarisation, over the pairs that they store.
pub store_pairs : ℕ → Pairs → List ℕ → ℕ → Option (List ℕ)
store_pairs i [] dst offset = some dst
store_pairs i ((a, b) ∷ ps) dst offset = put_at dst (i * 4 + offset) a >>= λ d.
    put_at d (i * 4 + offset + 1) b >>= λ d'. store_pairs (i + 1) ps d' offset

copy_from-eq-store :
    (i : ℕ) (q dst : List ℕ) (offset : ℕ)
    → copy_from i q dst offset 4 ≡ store_pairs i (pairs_of q) dst offset
unfolding copy_from store_pairs
copy_from-eq-store i [] dst offset = refl
copy_from-eq-store i (a ∷ []) dst offset = refl
copy_from-eq-store i (a ∷ b ∷ q) dst offset = >>=-congr (put_at dst (i * 4 + offset) a) _ _ λ d.
    >>=-congr (put_at d (i * 4 + offset + 1) b) _ _ λ d'. copy_from-eq-store (i + 1) q d' offset

quantize_from-eq-store :
    {F S : Type 0} (fl : Float F S) (i : ℕ) (samples : List (Complex S)) (dst : List ℕ) (offset : ℕ)
    (scale : F)
    → quantize_from fl i samples dst offset 4 scale
      ≡ store_pairs i (map (quantized_pair fl scale) samples) dst offset
unfolding quantize_from store_pairs
quantize_from-eq-store fl i [] dst offset scale = refl
quantize_from-eq-store fl i (s ∷ samples) dst offset scale =
    >>=-congr (put_at dst (i * 4 + offset) (quantized_pair fl scale s).0) _ _ λ d.
      >>=-congr (put_at d (i * 4 + offset + 1) (quantized_pair fl scale s).1) _ _
        λ d'. quantize_from-eq-store fl (i + 1) samples d' offset scale

regroup :
    (done : List ℕ) (a b c d : ℕ) (rest : List ℕ)
    → done ++ (a ∷ b ∷ c ∷ d ∷ rest) ≡ (done ++ (a ∷ b ∷ c ∷ d ∷ [])) ++ rest
regroup done a b c d rest = sym (append_assoc done (a ∷ b ∷ c ∷ d ∷ []) rest)

-- Two stores next to one another, in the block of four bytes at `4 * i`.
store_pairs-v :
    (i : ℕ) (ps olds hs : Pairs) (done : List ℕ)
    → length done ≡ i * 4
    → length olds ≡ length ps
    → length hs ≡ length ps
    → store_pairs i ps (done ++ interleave olds hs) 0 ≡ some (done ++ interleave ps hs)
unfolding store_pairs
store_pairs-v i [] [] hs done at n m = refl
store_pairs-v i [] (o ∷ olds) hs done at n m = absurd (omega arith)
store_pairs-v i (p ∷ ps) [] hs done at n m = absurd (omega arith)
store_pairs-v i (p ∷ ps) (o ∷ olds) [] done at n m = absurd (omega arith)
store_pairs-v i ((a, b) ∷ ps) ((x, y) ∷ olds) ((c, d) ∷ hs) done at n m =
    rw
      (
        put_at_offset done (x ∷ y ∷ c ∷ d ∷ interleave olds hs) (i * 4 + 0) 0 a (omega arith),
        put_at_offset done (a ∷ y ∷ c ∷ d ∷ interleave olds hs) (i * 4 + 0 + 1) 1 b (omega arith),
      )
      (ap (λ l. store_pairs (i + 1) ps l 0) (regroup done a b c d (interleave olds hs))
        ∙ store_pairs-v (i + 1) ps olds hs (done ++ (a ∷ b ∷ c ∷ d ∷ []))
            (omega (arith, length-append done (a ∷ b ∷ c ∷ d ∷ []))) (omega arith) (omega arith)
        ∙ ap some (sym (regroup done a b c d (interleave ps hs))))

store_pairs-h :
    (i : ℕ) (ps vs olds : Pairs) (done : List ℕ)
    → length done ≡ i * 4
    → length olds ≡ length ps
    → length vs ≡ length ps
    → store_pairs i ps (done ++ interleave vs olds) 2 ≡ some (done ++ interleave vs ps)
unfolding store_pairs
store_pairs-h i [] [] [] done at n m = refl
store_pairs-h i [] (v ∷ vs) [] done at n m = absurd (omega arith)
store_pairs-h i [] vs (o ∷ olds) done at n m = absurd (omega arith)
store_pairs-h i (p ∷ ps) vs [] done at n m = absurd (omega arith)
store_pairs-h i (p ∷ ps) [] (o ∷ olds) done at n m = absurd (omega arith)
store_pairs-h i ((c, d) ∷ ps) ((a, b) ∷ vs) ((x, y) ∷ olds) done at n m =
    rw
      (
        put_at_offset done (a ∷ b ∷ x ∷ y ∷ interleave vs olds) (i * 4 + 2) 2 c (omega arith),
        put_at_offset done (a ∷ b ∷ c ∷ y ∷ interleave vs olds) (i * 4 + 2 + 1) 3 d (omega arith),
      )
      (ap (λ l. store_pairs (i + 1) ps l 2) (regroup done a b c d (interleave vs olds))
        ∙ store_pairs-h (i + 1) ps vs olds (done ++ (a ∷ b ∷ c ∷ d ∷ []))
            (omega (arith, length-append done (a ∷ b ∷ c ∷ d ∷ []))) (omega arith) (omega arith)
        ∙ ap some (sym (regroup done a b c d (interleave vs ps))))

-- A buffer of four bytes for each sample is the interleaving of what it holds for V and for H.
blocks_of :
    (n : ℕ) (dst : List ℕ)
    → length dst ≡ n * 4
    → (vs : Pairs) × (hs : Pairs) × (length vs ≡ n) × (length hs ≡ n) × (dst ≡ interleave vs hs)
blocks_of zero [] e = ([], [], refl, refl, refl)
blocks_of zero (x ∷ dst) e = absurd (omega arith)
blocks_of (suc n) [] e = absurd (omega arith)
blocks_of (suc n) (a ∷ []) e = absurd (omega arith)
blocks_of (suc n) (a ∷ b ∷ []) e = absurd (omega arith)
blocks_of (suc n) (a ∷ b ∷ c ∷ []) e = absurd (omega arith)
blocks_of (suc n) (a ∷ b ∷ c ∷ d ∷ dst) e =
    let (vs, hs, lv, lh, same) = blocks_of n dst (omega arith) in
    ((a, b) ∷ vs, (c, d) ∷ hs, ap suc lv, ap suc lh, ap (λ t. a ∷ b ∷ c ∷ d ∷ t) same)

-- Both passes, from any content of the buffer.
pub store_both :
    (vs hs : Pairs) (dst : List ℕ)
    → length dst ≡ length vs * 4
    → length hs ≡ length vs
    → (store_pairs 0 vs dst 0 >>= λ d. store_pairs 0 hs d 2) ≡ some (interleave vs hs)
store_both vs hs dst size same =
    let (old_v, old_h, lv, lh, split) = blocks_of (length vs) dst size in
    rw (split, store_pairs-v 0 vs old_v old_h [] (omega arith) lv lh)
      (store_pairs-h 0 hs vs old_h [] (omega arith) (omega arith) (omega arith))

copy_vh_from-interleave :
    (i : ℕ) (vq hq : List ℕ) (old_v old_h : Pairs) (done : List ℕ)
    → length done ≡ i * 4
    → length old_v ≡ length (pairs_of vq)
    → length old_h ≡ length (pairs_of vq)
    → length (pairs_of hq) ≡ length (pairs_of vq)
    → copy_vh_from i vq hq (done ++ interleave old_v old_h)
      ≡ some (done ++ interleave (pairs_of vq) (pairs_of hq))
unfolding copy_vh_from
copy_vh_from-interleave i [] hq [] old_h done at n m k = refl
copy_vh_from-interleave i (a ∷ []) hq [] old_h done at n m k = refl
copy_vh_from-interleave i [] hq (o ∷ old_v) old_h done at n m k = absurd (omega arith)
copy_vh_from-interleave i (a ∷ []) hq (o ∷ old_v) old_h done at n m k = absurd (omega arith)
copy_vh_from-interleave i (a ∷ b ∷ vq) [] old_v old_h done at n m k = absurd (omega arith)
copy_vh_from-interleave i (a ∷ b ∷ vq) (c ∷ []) old_v old_h done at n m k = absurd (omega arith)
copy_vh_from-interleave i (a ∷ b ∷ vq) (c ∷ d ∷ hq) [] old_h done at n m k = absurd (omega arith)
copy_vh_from-interleave i (a ∷ b ∷ vq) (c ∷ d ∷ hq) (o ∷ old_v) [] done at n m k =
    absurd (omega arith)
copy_vh_from-interleave i (a ∷ b ∷ vq) (c ∷ d ∷ hq) ((x, y) ∷ old_v) ((z, w) ∷ old_h) done at n m
      k =
    let rest = interleave old_v old_h in
    rw
      (
        put_at_offset done (x ∷ y ∷ z ∷ w ∷ rest) (i * 4) 0 a (omega arith),
        put_at_offset done (a ∷ y ∷ z ∷ w ∷ rest) (i * 4 + 1) 1 b (omega arith),
        put_at_offset done (a ∷ b ∷ z ∷ w ∷ rest) (i * 4 + 2) 2 c (omega arith),
        put_at_offset done (a ∷ b ∷ c ∷ w ∷ rest) (i * 4 + 3) 3 d (omega arith),
      )
      (ap (copy_vh_from (i + 1) vq hq) (regroup done a b c d rest)
        ∙ copy_vh_from-interleave (i + 1) vq hq old_v old_h (done ++ (a ∷ b ∷ c ∷ d ∷ []))
            (omega (arith, length-append done (a ∷ b ∷ c ∷ d ∷ []))) (omega arith) (omega arith)
            (omega arith)
        ∙ ap some (sym (regroup done a b c d (interleave (pairs_of vq) (pairs_of hq)))))

pub length-pairs_of : (q : List ℕ) → length (pairs_of q) ≡ length q / 2
length-pairs_of [] = refl
length-pairs_of (a ∷ []) = refl
length-pairs_of (a ∷ b ∷ q) = omega (arith, length-pairs_of q)

pub length-interleave :
    (vs hs : Pairs) → length hs ≡ length vs → length (interleave vs hs) ≡ length vs * 4
length-interleave [] hs e = refl
length-interleave (v ∷ vs) [] e = absurd (omega arith)
length-interleave (v ∷ vs) (h ∷ hs) e = omega (arith, length-interleave vs hs (omega arith))

-- The one pass over both polarisations.
pub copy_vh-interleave :
    (vq hq dst : List ℕ)
    → length dst ≡ length (pairs_of vq) * 4
    → length (pairs_of hq) ≡ length (pairs_of vq)
    → copy_quantized_vh_into_payload vq hq dst ≡ some (interleave (pairs_of vq) (pairs_of hq))
unfolding copy_quantized_vh_into_payload
copy_vh-interleave vq hq dst size same =
    let (old_v, old_h, lv, lh, split) = blocks_of (length (pairs_of vq)) dst size in
    rw split (copy_vh_from-interleave 0 vq hq old_v old_h [] (omega arith) lv lh (omega arith))

pub copied_pairs :
    (q dst : List ℕ) (offset : ℕ)
    → copy_quantized_into_payload q dst offset 4 ≡ store_pairs 0 (pairs_of q) dst offset
unfolding copy_quantized_into_payload
copied_pairs q dst offset = copy_from-eq-store 0 q dst offset

pub quantized_pairs :
    {F S : Type 0} (fl : Float F S) (samples : List (Complex S)) (dst : List ℕ) (offset : ℕ)
    (scale : F)
    → quantize8bit_into_payload fl samples dst offset 4 scale
      ≡ store_pairs 0 (map (quantized_pair fl scale) samples) dst offset
unfolding quantize8bit_into_payload
quantized_pairs fl samples dst offset scale = quantize_from-eq-store fl 0 samples dst offset scale
