-- ===== src/Synth/Ticks/Tones.antt =====
-- streamer.go: the tones that are added to what the noise fill left.
use mathlib.Core.List.{append_assoc}
use ska_low_station_beam_sim.Prelude.{
  ℕ, suc, ◌+◌, ◌≤◌, ◌<◌, ◌≡◌, refl, ap, ◌∙◌, inl, inr, Bool, true, false, List, [], ◌∷◌, ◌++◌,
  Option, none, some, if◌then◌else◌, ◌==◌, ==_iff, length, length-append, get_elem?-append,
  set-append, Bool-cases, arith,
}
use ska_low_station_beam_sim.Float.{Float}
use ska_low_station_beam_sim.Common.Heap.{Complex}
use ska_low_station_beam_sim.Synth.Positions.{index_from}
use ska_low_station_beam_sim.Synth.Positions.Partition.{Ascends}
use ska_low_station_beam_sim.Synth.Ticks.{add_complex, add_samples, add_at}
use ska_low_station_beam_sim.Synth.Ticks.Noise.{cells}

pub or_else : Option ℕ → Option ℕ → Option ℕ
or_else (some j) _ = some j
or_else none o = o

-- The last position of a channel.
pub find_from : ℕ → List ℕ → ℕ → Option ℕ
find_from j [] c = none
find_from j (ch ∷ chs) c = or_else (find_from (j + 1) chs c) (if c == ch then some j else none)

or_else_if :
    (o : Option ℕ) (b : Bool) (j : ℕ) (rest : Option ℕ)
    → or_else o (if b then some j else rest) ≡ or_else (or_else o (if b then some j else none)) rest
unfolding or_else
or_else_if (some k) b j rest = refl
or_else_if none true j rest = refl
or_else_if none false j rest = refl

pub or_else-none : (o : Option ℕ) → or_else o none ≡ o
unfolding or_else
or_else-none none = refl
or_else-none (some k) = refl

pub index_from-find_from :
    (j : ℕ) (chs : List ℕ) (m : ℕ → Option ℕ) (c : ℕ)
    → index_from j chs m c ≡ or_else (find_from j chs c) (m c)
unfolding index_from find_from
index_from-find_from j [] m c = unfold or_else in refl
index_from-find_from j (ch ∷ chs) m c =
    index_from-find_from (j + 1) chs (λ c'. if c' == ch then some j else m c') c
    ∙ or_else_if (find_from (j + 1) chs c) (c == ch) j (m c)

find_from_below :
    (j : ℕ) (chs : List ℕ) (c low high : ℕ)
    → Ascends low high chs
    → c < low
    → find_from j chs c ≡ none
unfolding find_from or_else
find_from_below j [] c low high a below = refl
find_from_below j (ch ∷ chs) c low high (from, to, a) below =
    rw (find_from_below (j + 1) chs c (ch + 1) high a (omega arith)) (ground arith)

module _ {A : Type 0} where
  pub cells_congr :
      (g h : ℕ → ℕ → A) (j : ℕ) (chs : List ℕ) (low high : ℕ)
      → Ascends low high chs
      → ((k ch : ℕ) → low ≤ ch → ch < high → g k ch ≡ h k ch)
      → cells g j chs ≡ cells h j chs
  unfolding cells
  cells_congr g h j [] low high a same = refl
  cells_congr g h j (ch ∷ chs) low high (from, to, a) same =
      rw
        (
          same j ch from to,
          cells_congr g h (j + 1) chs (ch + 1) high a (λ k c f t. same k c (omega arith) t),
        )
        refl

module _ {F S : Type 0} (fl : Float F S) where
  -- The sum of a channel's samples and a tone's.
  pub sum_samples : List (Complex S) → List (Complex S) → List (Complex S)
  sum_samples [] samples = []
  sum_samples (o ∷ out) [] = o ∷ out
  sum_samples (o ∷ out) (x ∷ samples) = add_complex fl o x ∷ sum_samples out samples

  pub length-sum_samples :
      (out samples : List (Complex S)) → length (sum_samples out samples) ≡ length out
  unfolding sum_samples
  length-sum_samples [] samples = refl
  length-sum_samples (o ∷ out) [] = refl
  length-sum_samples (o ∷ out) (x ∷ samples) = ap suc (length-sum_samples out samples)

  add_samples-sum_samples :
      (out samples : List (Complex S))
      → length samples ≤ length out
      → add_samples fl out samples ≡ some (sum_samples out samples)
  unfolding add_samples sum_samples
  add_samples-sum_samples [] [] fits = refl
  add_samples-sum_samples (o ∷ out) [] fits = refl
  add_samples-sum_samples [] (x ∷ samples) fits = absurd (omega arith)
  add_samples-sum_samples (o ∷ out) (x ∷ samples) fits =
      rw (add_samples-sum_samples out samples (omega arith)) refl

  module _ (samples : List (Complex S)) (n : ℕ) (fits : length samples ≡ n) where
    abbrev pub with_tone : ℕ → (ℕ → ℕ → List (Complex S)) → ℕ → ℕ → List (Complex S)
    with_tone c g k ch = if c == ch then sum_samples (g k ch) samples else g k ch

    pub added :
        (c j : ℕ) (before : List (List (Complex S))) (g : ℕ → ℕ → List (Complex S)) (chs : List ℕ)
        (low high : ℕ)
        → length before ≡ j
        → Ascends low high chs
        → ((k ch : ℕ) → k < j + length chs → length (g k ch) ≡ n)
        → add_at fl (find_from j chs c) samples (before ++ cells g j chs)
          ≡ some (before ++ cells (with_tone c g) j chs)
    unfolding cells find_from or_else add_at
    added c j before g [] low high at a sizes = refl
    added c j before g (ch ∷ chs) low high at (from, to, a) sizes = elim (Bool-cases (c == ch)) [
      | inl here ↦
          let e : c ≡ ch = (==_iff c ch).0 here in
          let below = find_from_below (j + 1) chs c (ch + 1) high a (omega arith) in
          let size = sizes j ch (omega arith) in
          let rest = cells g (j + 1) chs in
          let summed = add_samples-sum_samples (g j ch) samples (omega arith) in
          let others =
            cells_congr (with_tone c g) g (j + 1) chs (ch + 1) high a
              (λ k ch' from' to'. let later : (c == ch') ≡ false = ground arith in rw later refl) in
          rw
            (
              below,
              here,
              get_elem?-append before (g j ch) rest j at,
              summed,
              set-append before (g j ch) (sum_samples (g j ch) samples) rest j at,
              others,
            )
            refl
      | inr other ↦
          let next =
            added c (j + 1) (before ++ (g j ch ∷ [])) g chs (ch + 1) high
              (omega (arith, length-append before (g j ch ∷ []))) a
              (λ k c' small. sizes k c' (omega arith)) in
          rw (other, or_else-none (find_from (j + 1) chs c))
            (rw (append_assoc, append_assoc) at next)
    ]
