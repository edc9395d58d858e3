-- ===== src/Common/Accumulator/Writing.antt =====
-- heap_accumulator.go: the effect of PrepareWrite and of the writes into its targets, channel by channel.
use mathlib.Core.List.{append_assoc}
use ska_low_station_beam_sim.Prelude.{
  ℕ, suc, ◌+◌, ◌<◌, ◌≡◌, refl, ap, Bool, true, List, [], ◌∷◌, ◌++◌, Option, some, length, get_elem?,
  get_elem?-append, ◌>>=◌, All, length-append, arith,
}
use ska_low_station_beam_sim.Common.Constants.{heap_len}
use ska_low_station_beam_sim.Common.Channels.Partition.{map_each}
use ska_low_station_beam_sim.Common.Accumulator.{
  Buffer, Buffers, copy_into, grow, Pol, pol_v, pol_h, on_pol, write_pol, share,
}
use ska_low_station_beam_sim.Common.Accumulator.Buffers.{content, Sound, grow-copy_into}

abbrev pub other : Pol → Pol
other pol_v = pol_h
other pol_h = pol_v

module _ {C : Type 0} where
  abbrev pub side : Pol → Buffers C → Buffer C
  side pol_v (v, h) = v
  side pol_h (v, h) = h

  -- The samples of each channel in one polarisation.
  unfoldable pub contents : Pol → List (Buffers C) → List (List C)
  contents pol [] = []
  contents pol (b ∷ bufs) = content (side pol b) ∷ contents pol bufs

  abbrev pub SoundBuffers : List (Buffers C) → Type 0
  SoundBuffers = All (λ b. Sound (side pol_v b) × Sound (side pol_h b))

  -- The rows that the accumulator counts are those of every channel.
  abbrev pub Level : ℕ → ℕ → List (Buffers C) → Type 0
  Level rows_v rows_h = All (λ b. ((side pol_v b).len ≡ rows_v) × ((side pol_h b).len ≡ rows_h))

  -- Each channel's samples with its new ones behind them.
  unfoldable pub appended : ℕ → (ℕ → List C) → List (List C) → List (List C)
  appended ch piece [] = []
  appended ch piece (xs ∷ rows) = (xs ++ piece ch) ∷ appended (ch + 1) piece rows

  abbrev pub Channel : Pol → List C → Buffers C → Buffers C → Type 0
  Channel pol piece b b' =
      (content (side pol b') ≡ content (side pol b) ++ piece)
      × (content (side (other pol) b') ≡ content (side (other pol) b))
      × (Sound (side pol_v b') × Sound (side pol_h b'))

  write_pol-Channel :
      (pol : Pol) (blank : C) (pooled piece : List C) (n : ℕ) (b : Buffers C)
      → Sound (side pol_v b) × Sound (side pol_h b)
      → length pooled ≡ heap_len
      → length piece ≡ n
      → let g = on_pol pol (grow blank pooled n) b in
        Channel pol piece b (write_pol pol piece g.1 g.0)
  unfolding grow
  write_pol-Channel pol_v blank pooled piece n (v, h) (sv, sh) size piece_size =
      let (e, ok) = grow-copy_into blank pooled piece n v sv size piece_size in (e, refl, (ok, sh))
  write_pol-Channel pol_h blank pooled piece n (v, h) (sv, sh) size piece_size =
      let (e, ok) = grow-copy_into blank pooled piece n h sh size piece_size in (e, refl, (sv, ok))

  module _ (pol : Pol) (blank : C) (pooled : ℕ → List C) (n : ℕ) where
    abbrev pub grown : ℕ → Buffers C → Buffers C × (ℕ × ℕ)
    grown ch b = on_pol pol (grow blank (pooled ch) n) b

    unfoldable pub grown_from : ℕ → List (Buffers C) → List (Buffers C)
    grown_from i [] = []
    grown_from i (b ∷ bufs) = (grown i b).0 ∷ grown_from (i + 1) bufs

    unfoldable pub targets_from : ℕ → List (Buffers C) → List (ℕ × ℕ)
    targets_from i [] = []
    targets_from i (b ∷ bufs) = (grown i b).1 ∷ targets_from (i + 1) bufs

    pub length-grown_from :
        (i : ℕ) (bufs : List (Buffers C)) → length (grown_from i bufs) ≡ length bufs
    unfolding grown_from
    length-grown_from i [] = refl
    length-grown_from i (b ∷ bufs) = ap suc (length-grown_from (i + 1) bufs)

    pub prepared :
        (i : ℕ) (bufs : List (Buffers C))
        → map_each (λ ch b. some (grown ch b)) i bufs
          ≡ some (grown_from i bufs, targets_from i bufs)
    unfolding map_each grown_from targets_from
    prepared i [] = refl
    prepared i (b ∷ bufs) = rw (prepared (i + 1) bufs) refl

    module _ (piece : ℕ → List C) where
      unfoldable pub written_from : ℕ → List (Buffers C) → List (Buffers C)
      written_from i [] = []
      written_from i (b ∷ bufs) =
          write_pol pol (piece i) (grown i b).1 (grown i b).0 ∷ written_from (i + 1) bufs

      abbrev pub Written : Option (List (Buffers C) × List Bool) → List (Buffers C) → Type 0
      Written r after = (done : List Bool) × (r ≡ some (after, done))

      pub written :
          (i : ℕ) (before : List (ℕ × ℕ)) (bufs : List (Buffers C))
          → length before ≡ i
          → Written
              (map_each
                (λ ch b. get_elem? (before ++ targets_from i bufs) ch >>= λ target.
                  some (write_pol pol (piece ch) target b, true))
                i
                (grown_from i bufs))
              (written_from i bufs)
      unfolding map_each grown_from targets_from written_from
      written i before [] size = ([], refl)
      written i before (b ∷ bufs) size =
          let rest = targets_from (i + 1) bufs in
          let t = (grown i b).1 in
          let (done, e) =
            written (i + 1) (before ++ (t ∷ [])) bufs
              (omega (arith, length-append before (t ∷ []))) in
          (true ∷ done, rw (get_elem?-append before t rest i size, rw append_assoc at e))

      pub length-written_from :
          (i : ℕ) (bufs : List (Buffers C)) → length (written_from i bufs) ≡ length bufs
      unfolding written_from
      length-written_from i [] = refl
      length-written_from i (b ∷ bufs) = ap suc (length-written_from (i + 1) bufs)

      abbrev pub Appends : ℕ → List (Buffers C) → List (Buffers C) → Type 0
      Appends i bufs after =
          (contents pol after ≡ appended i piece (contents pol bufs))
          × (contents (other pol) after ≡ contents (other pol) bufs)
          × SoundBuffers after

      pub written_from-Appends :
          (i : ℕ) (bufs : List (Buffers C))
          → SoundBuffers bufs
          → ((ch : ℕ) → length (pooled ch) ≡ heap_len)
          → ((ch : ℕ) → ch < i + length bufs → length (piece ch) ≡ n)
          → Appends i bufs (written_from i bufs)
      unfolding contents appended written_from
      written_from-Appends i [] sound sizes pieces = (refl, refl, tt)
      written_from-Appends i (b ∷ bufs) (s, sound) sizes pieces =
          let (here, kept, ok) =
            write_pol-Channel pol blank (pooled i) (piece i) n b s (sizes i)
              (pieces i (omega arith)) in
          let (rest, kept', ok') =
            written_from-Appends (i + 1) bufs sound sizes (λ ch small. pieces ch (omega arith)) in
          (rw (here, rest), rw (kept, kept'), (ok, ok'))

  one_level :
      (pol : Pol) (blank : C) (pooled piece : List C) (n rv rh : ℕ) (b : Buffers C)
      → (side pol_v b).len ≡ rv
      → (side pol_h b).len ≡ rh
      → let g = on_pol pol (grow blank pooled n) b in
        let b' = write_pol pol piece g.1 g.0 in
        ((side pol_v b').len ≡ rv + share pol pol_v n)
        × ((side pol_h b').len ≡ rh + share pol pol_h n)
  unfolding grow copy_into
  one_level pol_v blank pooled piece n rv rh (v, h) ev eh = (omega arith, omega arith)
  one_level pol_h blank pooled piece n rv rh (v, h) ev eh = (omega arith, omega arith)

  pub written_from-Level :
      (pol : Pol) (blank : C) (pooled piece : ℕ → List C) (n i rv rh : ℕ) (bufs : List (Buffers C))
      → Level rv rh bufs
      → Level
          (rv + share pol pol_v n)
          (rh + share pol pol_h n)
          (written_from pol blank pooled n piece i bufs)
  unfolding written_from
  written_from-Level pol blank pooled piece n i rv rh [] level = tt
  written_from-Level pol blank pooled piece n i rv rh (b ∷ bufs) ((ev, eh), level) = (
    one_level pol blank (pooled i) (piece i) n rv rh b ev eh,
    written_from-Level pol blank pooled piece n (i + 1) rv rh bufs level,
  )
