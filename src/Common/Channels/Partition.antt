-- ===== src/Common/Channels/Partition.antt =====
-- heap_accumulator.go: the channels of the ranges of forEachChannelRange.
use mathlib.Core.List.{append_assoc, append-nil}
use native.Mathlib.Nat.{zero-add, add-zero, suc-add}
use ska_low_station_beam_sim.Prelude.{
  ℕ, zero, suc, ◌+◌, ◌-◌, ◌/◌, ◌≤◌, ◌<◌, ◌≡◌, refl, ap, ◌∙◌, inl, inr, List, [], ◌∷◌, ◌++◌, Option,
  none, some, ltb, leb, ◌||◌, length, range_from, ◌>>=◌, map_option, Bool-cases, Option-cases,
  arith, if_cases, length-append, get_elem?-append, set-append,
}
use ska_low_station_beam_sim.Common.Channels.{
  ranges_from, channel_ranges, visits, visit, for_each_channel_range,
}

pub range_from-append : (i a b : ℕ) → range_from i a ++ range_from (i + a) b ≡ range_from i (a + b)
range_from-append i zero b = rw (add-zero, zero-add) refl
range_from-append i (suc a) b =
    let same : i + suc a ≡ i + 1 + a = omega arith in
    rw (same, suc-add) (ap (◌∷◌ i) (range_from-append (i + 1) a b))

visits-ranges_from :
    (fuel start chunk_size n : ℕ)
    → 0 < chunk_size
    → n ≤ start + fuel
    → visits (ranges_from fuel start chunk_size n) ≡ range_from start (n - start)
unfolding visits ranges_from
visits-ranges_from zero start c n some_size enough =
    let none_left : n - start ≡ 0 = omega arith in rw none_left refl
visits-ranges_from (suc fuel) start c n some_size enough =
    let next = visits-ranges_from fuel (start + c) c n some_size (omega arith) in
    elim (Bool-cases (ltb start n)) [
      | inr past ↦ let none_left : n - start ≡ 0 = ground arith in rw (past, none_left) refl
      | inl here ↦ elim (Bool-cases (ltb n (start + c))) [
        | inl last ↦
            let none_left : n - (start + c) ≡ 0 = ground arith in
            rw (here, last, next, none_left, append-nil)
        | inr full ↦
            let size : start + c - start ≡ c = omega arith in
            let all : c + (n - (start + c)) ≡ n - start = ground arith in
            rw (here, full, next, size, range_from-append, all)
      ]
    ]

chunk_positive : (w n : ℕ) → 1 < w → 1 < n → 0 < (n + w - 1) / w
chunk_positive (suc w) n many_workers many = grind arith
chunk_positive zero n many_workers many = absurd (omega arith)

-- Whatever the number of workers and of channels, the ranges that the goroutines of forEachChannelRange
-- get hold each channel below `n` once, and no other.
pub channel_ranges_cover :
    (num_workers n : ℕ) → visits (channel_ranges num_workers n) ≡ range_from 0 n
unfolding channel_ranges
channel_ranges_cover num_workers n =
    let all : n - 0 ≡ n = omega arith in
    if_cases (λ rs. visits rs ≡ range_from 0 n) (leb num_workers 1 || leb n 1)
      (λ one. unfold visits in rw all (append-nil (range_from 0 n)))
      (λ many.
        let whole =
          visits-ranges_from n 0 ((n + num_workers - 1) / num_workers) n
            (chunk_positive num_workers n (ground arith) (ground arith)) (omega arith) in
        rw all at whole)

module _ {A B : Type 0} (f : ℕ → A → Option (A × B)) where
  -- The work on each cell in order.
  unfoldable pub map_each : ℕ → List A → Option (List A × List B)
  map_each i [] = some ([], [])
  map_each i (x ∷ xs) =
      f i x >>= λ (x', b). map_each (i + 1) xs >>= λ (xs', bs). some (x' ∷ xs', b ∷ bs)

  visit_from :
      (i : ℕ) (before xs : List A)
      → length before ≡ i
      → visit f (range_from i (length xs)) (before ++ xs)
        ≡ map_option (λ r. (before ++ r.0, r.1)) (map_each i xs)
  unfolding visit map_each
  visit_from i before [] size = refl
  visit_from i before (x ∷ xs) size =
      let found = get_elem?-append before x xs i size in
      elim (Option-cases (f i x)) [
        | inl panics ↦ rw (found, panics) refl
        | inr ((x', b), done) ↦
            let next =
              visit_from (i + 1) (before ++ (x' ∷ [])) xs
                (omega (arith, length-append before (x' ∷ []))) in
            rw
              (
                found,
                done,
                set-append before x x' xs i size,
                ← append_assoc before (x' ∷ []) xs,
                next,
              )
              (joined x' b (map_each (i + 1) xs))
      ]
    where
      joined :
          (x' : A) (b : B) (r : Option (List A × List B))
          → ◌>>=◌ {A = List A × List B} {B = List A × List B}
              (map_option {A = List A × List B} (λ s. ((before ++ (x' ∷ [])) ++ s.0, s.1)) r)
              (λ s. some (s.0, b ∷ s.1))
            ≡ map_option {A = List A × List B}
                (λ s. (before ++ s.0, s.1))
                (◌>>=◌ {A = List A × List B} {B = List A × List B} r
                  (λ s. some (x' ∷ s.0, b ∷ s.1)))
      joined x' b none = refl
      joined x' b (some (xs', bs)) = ap (λ l. some (l, b ∷ bs)) (append_assoc before (x' ∷ []) xs')

  map_option_same : (r : Option (List A × List B)) → map_option (λ s. (s.0, s.1)) r ≡ r
  map_option_same none = refl
  map_option_same (some s) = refl

  -- forEachChannelRange does the work on each cell once, in order, for any number of workers.
  pub for_each_channel_range-eq-map_each :
      (num_workers n : ℕ) (xs : List A)
      → length xs ≡ n
      → for_each_channel_range num_workers n f xs ≡ map_each 0 xs
  unfolding for_each_channel_range
  for_each_channel_range-eq-map_each num_workers n xs size =
      rw (channel_ranges_cover, ← size) (visit_from 0 [] xs refl ∙ map_option_same (map_each 0 xs))
