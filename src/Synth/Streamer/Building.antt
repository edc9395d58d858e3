-- ===== src/Synth/Streamer/Building.antt =====
-- streamer.go: which configurations NewDirectSynthesisStreamer accepts, and the streamer it builds.
use mathlib.Core.Path.{subst}
use ska_low_station_beam_sim.Prelude.{
  ℕ, ◌+◌, ◌%◌, ◌≤◌, ◌<◌, ◌≡◌, refl, sym, ap, ◌∙◌, ◌≢◌, ◌↔◌, inl, inr, Bool, true, false, ◌||◌, List,
  [], ◌∷◌, none, some, if_cases, map, ◌==◌, All, Bool-cases, Option-cases, arith,
}
use ska_low_station_beam_sim.Prelude.Int.{ℤ, pos, negsuc, pos_part, ◌+ℤ◌, ◌≤ℤ◌, eqb_ℤ}
use ska_low_station_beam_sim.Float.{Float}
use ska_low_station_beam_sim.Common.Constants.{
  channel_start, min_num_channels, max_num_channels, num_channels_step,
}
use ska_low_station_beam_sim.Synth.Config.{ToneSourceConfig, StreamerConfig, ok, >>=-begun}
use ska_low_station_beam_sim.Synth.Positions.{contains, insert_in_range, is_in_range}
use ska_low_station_beam_sim.Synth.Positions.Partition.{
  IsKeys, none-IsKeys, insert_channel-IsKeys, contains-insert_channel,
}
use ska_low_station_beam_sim.Synth.Streamer.{
  DirectSynthesisStreamer, is_bad_num_channels, is_bad_start, num_channels_of, with_amplitude,
  index_of, check_tones, with_banks, build, width_of, base_of, new_streamer,
}

-- The number of channels and the first channel that the ICD allows, written without the code's tests.
abbrev pub IsBeam : ℤ → ℤ → Type 0
IsBeam n start =
    (m : ℕ) × (n ≡ pos m)
    × (min_num_channels ≤ m)
    × (m ≤ max_num_channels)
    × (m % num_channels_step ≡ 0)
    × (pos channel_start ≤ℤ start)
    × (start +ℤ pos m ≤ℤ pos (channel_start + max_num_channels))

tests-IsBeam :
    (n start : ℤ) → is_bad_num_channels n ≡ false → is_bad_start n start ≡ false → IsBeam n start
tests-IsBeam (pos m) start channels first =
    (m, refl, ground arith, ground arith, ground arith, ground arith, ground arith)
tests-IsBeam (negsuc m) start channels first = absurd (ground arith)

IsBeam-tests :
    (n start : ℤ)
    → IsBeam n start
    → (is_bad_num_channels n ≡ false) × (is_bad_start n start ≡ false)
IsBeam-tests n start (m, e, low, high, steps, first, last) = rw e (ground arith, ground arith)

insert_in_range-IsKeys :
    (n : ℕ) (z : ℤ) (set : List ℕ) → IsKeys n set → IsKeys n (insert_in_range n z set)
unfolding insert_in_range
insert_in_range-IsKeys n z set keys =
    if_cases (IsKeys n) (is_in_range n z)
      (λ inside. insert_channel-IsKeys n (pos_part z) set (ground arith) keys) (λ _. keys)

pub same_channel :
    (n : ℕ) (z : ℤ) (c : ℕ) → is_in_range n z ≡ true → (pos_part z == c) ≡ eqb_ℤ z (pos c)
same_channel n (pos m) c inside = ground arith
same_channel n (negsuc m) c inside = absurd (ground arith)

pub other_channel :
    (n : ℕ) (z : ℤ) (c : ℕ) → is_in_range n z ≡ false → c < n → eqb_ℤ z (pos c) ≡ false
other_channel n (pos m) c outside small = ground arith
other_channel n (negsuc m) c outside small = ground arith

contains-insert_in_range :
    (n : ℕ) (z : ℤ) (set : List ℕ) (c : ℕ)
    → c < n
    → contains (insert_in_range n z set) c ≡ (eqb_ℤ z (pos c) || contains set c)
unfolding insert_in_range
contains-insert_in_range n z set c small = elim (Bool-cases (is_in_range n z)) [
  | inl inside ↦
      rw (inside, contains-insert_channel)
        (ap (λ b. b || contains set c) (same_channel n z c inside))
  | inr outside ↦
      rw outside (sym (ap (λ b. b || contains set c) (other_channel n z c outside small)))
]

or_later : (a b c : Bool) → (b || (a || c)) ≡ ((a || b) || c)
or_later true true c = refl
or_later true false c = refl
or_later false b c = refl

module _ {F S : Type 0} (fl : Float F S) where
  -- Some tone of the list is in the channel.
  unfoldable pub has_tone : F → F → List (ToneSourceConfig F) → ℕ → Bool
  has_tone base width [] c = false
  has_tone base width (ts ∷ tones) c =
      eqb_ℤ (index_of fl base width ts) (pos c) || has_tone base width tones c

  abbrev pub HasFeed : ToneSourceConfig F → Type 0
  HasFeed ts = ts.delay_feed ≢ none

  check_tones-ok :
      (base width : F) (n i : ℕ) (tones : List (ToneSourceConfig F)) (set : List ℕ)
      → All HasFeed tones
      → (keys : List ℕ) × (tones' : List (ToneSourceConfig F)) × (check_tones fl base width n i
            tones set
          ≡ ok (tones', keys))
  unfolding check_tones
  check_tones-ok base width n i [] set feeds = (set, [], refl)
  check_tones-ok base width n i (ts ∷ tones) set (has, feeds) = elim (Option-cases ts.delay_feed) [
    | inl nil ↦ absurd (has nil)
    | inr (feed, e) ↦
        let (keys, tones', e') =
          check_tones-ok base width n (i + 1) tones
            (insert_in_range n (index_of fl base width ts) set) feeds in
        (keys, with_amplitude fl ts ∷ tones', rw (e, e') refl)
  ]

  pub check_tones-eq-ok :
      (base width : F) (n i : ℕ) (tones : List (ToneSourceConfig F)) (set : List ℕ)
      (tones' : List (ToneSourceConfig F)) (keys : List ℕ)
      → check_tones fl base width n i tones set ≡ ok (tones', keys)
      → IsKeys n set
      → All HasFeed tones
        × IsKeys n keys
        × ((c : ℕ) → c < n → contains keys c ≡ (has_tone base width tones c || contains set c))
        × (tones' ≡ map (with_amplitude fl) tones)
  unfolding check_tones has_tone
  check_tones-eq-ok base width n i [] set tones' keys e old =
      let same : set ≡ keys = cc in
      (tt, subst (IsKeys n) same old, λ c _. ap (λ l. contains l c) (sym same), cc)
  check_tones-eq-ok base width n i (ts ∷ tones) set tones' keys e old =
      elim (Option-cases ts.delay_feed) [
        | inl nil ↦ let e' = rw nil at e in cc
        | inr (feed, has) ↦
            let e' = rw has at e in
            let z = index_of fl base width ts in
            let ((rest, keys'), done, checked) =
              >>=-begun _ (check_tones fl base width n (i + 1) tones (insert_in_range n z set))
                e' in
            let same : keys' ≡ keys = cc in
            let (feeds, fresh, has_all, amplitudes) =
              check_tones-eq-ok base width n (i + 1) tones (insert_in_range n z set) rest keys'
                checked (insert_in_range-IsKeys n z set old) in
            (
              ((λ nil. let e'' : some feed ≡ none = sym has ∙ nil in cc), feeds),
              subst (IsKeys n) same fresh,
              λ c small.
                  ap (λ l. contains l c) (sym same)
                  ∙ has_all c small
                  ∙ ap (λ b. has_tone base width tones c || b)
                      (contains-insert_in_range n z set c small)
                  ∙ or_later (eqb_ℤ z (pos c)) (has_tone base width tones c) (contains set c),
              let first : tones' ≡ with_amplitude fl ts ∷ rest = cc in
                  first ∙ ap (◌∷◌ (with_amplitude fl ts)) amplitudes,
            )
      ]

  module _ (cpus : ℕ) (draws : ℕ → ℕ → ℕ → F) (order : List ℕ → List ℕ) where
    pub new_streamer-eq-ok :
        (cfg : StreamerConfig F) (s : DirectSynthesisStreamer F S)
        → new_streamer fl cpus draws order cfg ≡ ok s
        → let n = num_channels_of cfg.num_channels in
          let base = base_of fl cfg in
          let width = width_of fl cfg in
          (tones : List (ToneSourceConfig F)) × (keys : List ℕ) × (check_tones fl base width
              (pos_part n)
              0
              cfg.tone_sources
              []
            ≡ ok (tones, keys))
          × (s
              ≡ with_banks fl cpus draws order cfg.noise
                  (build fl cpus draws order cfg (pos_part n) base width tones keys))
          × IsBeam n cfg.start_channel
    unfolding new_streamer
    new_streamer-eq-ok cfg s e =
        let n = num_channels_of cfg.num_channels in
        elim (Bool-cases (is_bad_num_channels n)) [
          | inl bad ↦ let e' = rw bad at e in cc
          | inr channels ↦ elim (Bool-cases (is_bad_start n cfg.start_channel)) [
            | inl bad ↦ let e' = rw (channels, bad) at e in cc
            | inr first ↦
                let ((tones, keys), done, checked) = >>=-begun _ _ (rw (channels, first) at e) in
                (tones, keys, checked, cc, tests-IsBeam n cfg.start_channel channels first)
          ]
        ]

    -- A streamer is built exactly if every tone source has a delay feed, the number of channels (384, if
    -- none is configured) is from 8 to 384 in steps of 8, and the channels lie in the band.
    pub new_streamer-accepts :
        (cfg : StreamerConfig F)
        → ((s : DirectSynthesisStreamer F S) × (new_streamer fl cpus draws order cfg ≡ ok s)) ↔ (
            IsBeam (num_channels_of cfg.num_channels) cfg.start_channel
            × All HasFeed cfg.tone_sources)
    unfolding new_streamer
    new_streamer-accepts cfg = (
      (λ (s, e).
          let (tones, keys, checked, _, beam) = new_streamer-eq-ok cfg s e in
          (
            beam,
            (check_tones-eq-ok _ _ _ 0 cfg.tone_sources [] tones keys checked (none-IsKeys _)).0,
          )),
      (λ (beam, feeds).
          let (channels, first) =
            IsBeam-tests (num_channels_of cfg.num_channels) cfg.start_channel beam in
          let (keys, tones, checked) =
            check_tones-ok (base_of fl cfg) (width_of fl cfg)
              (pos_part (num_channels_of cfg.num_channels)) 0 cfg.tone_sources [] feeds in
          (
            with_banks fl cpus draws order cfg.noise (
                build fl cpus draws order cfg (pos_part (num_channels_of cfg.num_channels))
                  (base_of fl cfg) (width_of fl cfg) tones keys),
            rw (channels, first, checked) refl,
          )),
    )
