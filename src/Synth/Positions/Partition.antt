-- ===== src/Synth/Positions/Partition.antt =====
-- streamer.go: tone and noise-only positions share out the channels.
use mathlib.Core.Path.{subst}
use ska_low_station_beam_sim.Prelude.{
  ℕ, zero, suc, ◌+◌, ◌≤◌, ◌<◌, ◌≡◌, refl, sym, ap, ◌∙◌, inl, inr, Bool, false, not, ◌&&◌, ◌||◌,
  List, [], ◌∷◌, if◌then◌else◌, if_cases, ltb, ◌==◌, ==_iff, range_from, Bool-cases, arith,
}
use ska_low_station_beam_sim.Synth.Positions.{
  contains, insert_channel, insert_sorted, sort_ints, tone_channel_positions, absent_from,
  noise_only_positions,
}

-- How often a channel is in a list.
pub count : ℕ → List ℕ → ℕ
count c [] = 0
count c (x ∷ xs) = (if x == c then 1 else 0) + count c xs

-- The channels of a list that a test accepts.
unfoldable pub select : (ℕ → Bool) → List ℕ → List ℕ
select p [] = []
select p (x ∷ xs) = if p x then x ∷ select p xs else select p xs

-- The list of a map's keys holds each key once.
abbrev pub IsKeys : ℕ → List ℕ → Type 0
IsKeys n set = (c : ℕ) → (count c set ≤ 1) × (0 < count c set → c < n)

pub none-IsKeys : (n : ℕ) → IsKeys n []
unfolding count
none-IsKeys n c = (omega arith, λ h. absurd (omega arith))

-- A loop over a map visits each key as often as it is there.
abbrev pub VisitsAll : (List ℕ → List ℕ) → Type 0
VisitsAll order = (set : List ℕ) (c : ℕ) → count c (order set) ≡ count c set

pub contains_count : (set : List ℕ) (c : ℕ) → contains set c ≡ ltb 0 (count c set)
unfolding contains count
contains_count [] c = refl
contains_count (x ∷ xs) c = ground (arith, contains_count xs c)

pub select_congr :
    (p q : ℕ → Bool) (i n : ℕ)
    → ((c : ℕ) → c < i + n → p c ≡ q c)
    → select p (range_from i n) ≡ select q (range_from i n)
unfolding select
select_congr p q i zero same = refl
select_congr p q i (suc n) same =
    rw (same i (omega arith), select_congr p q (i + 1) n (λ c h. same c (omega arith))) refl

select_none : (p : ℕ → Bool) (i n : ℕ) → ((c : ℕ) → p c ≡ false) → select p (range_from i n) ≡ []
unfolding select
select_none p i zero h = refl
select_none p i (suc n) h = rw (h i) (select_none p (i + 1) n h)

abbrev with_channel : ℕ → (ℕ → Bool) → ℕ → Bool
with_channel a p c = a == c || p c

-- Below `i` the new channel makes no difference.
select_above :
    (a : ℕ) (p : ℕ → Bool) (i n : ℕ)
    → a < i
    → select (with_channel a p) (range_from i n) ≡ select p (range_from i n)
unfolding select
select_above a p i zero h = refl
select_above a p i (suc n) h = ground (arith, select_above a p (i + 1) n)

insert_sorted-first :
    (a : ℕ) (p : ℕ → Bool) (i n : ℕ)
    → a < i
    → insert_sorted a (select p (range_from i n)) ≡ a ∷ select p (range_from i n)
unfolding select insert_sorted
insert_sorted-first a p i zero h = refl
insert_sorted-first a p i (suc n) h = ground (arith, insert_sorted-first a p (i + 1) n)

insert_sorted-select :
    (a : ℕ) (p : ℕ → Bool) (i n : ℕ)
    → i ≤ a
    → a < i + n
    → p a ≡ false
    → insert_sorted a (select p (range_from i n)) ≡ select (with_channel a p) (range_from i n)
unfolding select insert_sorted
insert_sorted-select a p i zero low high new = absurd (omega arith)
insert_sorted-select a p i (suc n) low high new = elim (Bool-cases (i == a)) [
  | inl here ↦
      let e : i ≡ a = (==_iff i a).0 here in
      ground (arith, ap p e, insert_sorted-first a p (i + 1) n, select_above a p (i + 1) n)
  | inr later ↦ ground (arith, insert_sorted-select a p (i + 1) n)
]

IsKeys-tail : (n a : ℕ) (set : List ℕ) → IsKeys n (a ∷ set) → IsKeys n set
unfolding count
IsKeys-tail n a set keys c = ground (arith, keys c)

IsKeys-head : (n a : ℕ) (set : List ℕ) → IsKeys n (a ∷ set) → (a < n) × (count a set ≡ 0)
unfolding count
IsKeys-head n a set keys = ground (arith, keys a)

sort_ints-select :
    (n : ℕ) (set : List ℕ) → IsKeys n set → sort_ints set ≡ select (contains set) (range_from 0 n)
unfolding sort_ints contains
sort_ints-select n [] keys = sym (select_none _ 0 n (λ _. refl))
sort_ints-select n (a ∷ set) keys =
    let (small, new) = IsKeys-head n a set keys in
    ap (insert_sorted a) (sort_ints-select n set (IsKeys-tail n a set keys))
    ∙ insert_sorted-select a (contains set) 0 n (omega arith) (omega arith)
        (contains_count set a ∙ rw new refl)

-- The sorted positions do not depend on the order in which the loop visits the keys.
pub tone_channel_positions-select :
    (order : List ℕ → List ℕ) (n : ℕ) (set : List ℕ)
    → VisitsAll order
    → IsKeys n set
    → tone_channel_positions order set ≡ select (contains set) (range_from 0 n)
unfolding tone_channel_positions
tone_channel_positions-select order n set visits keys =
    let same = λ (c : ℕ). visits set c in
    sort_ints-select n (order set) (λ c. rw (same c) (keys c))
    ∙ select_congr (contains (order set)) (contains set) 0 n
        (λ c _. contains_count (order set) c ∙ rw (same c) (sym (contains_count set c)))

absent_from-select :
    (set : List ℕ) (ch n : ℕ)
    → absent_from set ch n ≡ select (λ c. not (contains set c)) (range_from ch n)
unfolding absent_from select
absent_from-select set ch zero = refl
absent_from-select set ch (suc n) =
    ground (arith, absent_from-select set (ch + 1) n, Bool-cases (contains set ch))

pub noise_only_positions-select :
    (n : ℕ) (set : List ℕ)
    → noise_only_positions n set ≡ select (λ c. not (contains set c)) (range_from 0 n)
unfolding noise_only_positions
noise_only_positions-select n set = absent_from-select set 0 n

count-insert_channel :
    (c ch : ℕ) (set : List ℕ)
    → count c (insert_channel ch set)
      ≡ (if ch == c && not (contains set ch) then 1 else 0) + count c set
unfolding insert_channel count
count-insert_channel c ch set = ground arith

pub insert_channel-IsKeys :
    (n ch : ℕ) (set : List ℕ) → ch < n → IsKeys n set → IsKeys n (insert_channel ch set)
insert_channel-IsKeys n ch set small keys c =
    ground (arith, count-insert_channel c ch set, contains_count set ch, keys c, keys ch)

pub contains-insert_channel :
    (set : List ℕ) (ch c : ℕ) → contains (insert_channel ch set) c ≡ (ch == c || contains set c)
unfolding insert_channel contains
contains-insert_channel set ch c = elim (Bool-cases (ch == c)) [
  | inl here ↦ let e : ch ≡ c = (==_iff ch c).0 here in ground (arith, ap (contains set) e)
  | inr other ↦ ground arith
]

-- Positions that are selected by a test and its negation are all of them, each once.
pub count-select :
    (p : ℕ → Bool) (c i n : ℕ)
    → count c (select p (range_from i n)) + count c (select (λ x. not (p x)) (range_from i n))
      ≡ count c (range_from i n)
unfolding count select
count-select p c i zero = refl
count-select p c i (suc n) = ground (arith, count-select p c (i + 1) n, Bool-cases (p i))

-- Ascending channels from `low` on, below `high`.
abbrev pub Ascends : ℕ → ℕ → List ℕ → Type 0
Ascends low high [] = Unit {0}
Ascends low high (ch ∷ chs) = (low ≤ ch) × (ch < high) × Ascends (ch + 1) high chs

Ascends-mono :
    (low low' high : ℕ) (chs : List ℕ) → low ≤ low' → Ascends low' high chs → Ascends low high chs
Ascends-mono low low' high [] le a = tt
Ascends-mono low low' high (ch ∷ chs) le (from, to, a) = (omega arith, to, a)

select-Ascends : (p : ℕ → Bool) (i n : ℕ) → Ascends i (i + n) (select p (range_from i n))
unfolding select
select-Ascends p i zero = tt
select-Ascends p i (suc n) =
    let rest : Ascends (i + 1) (i + suc n) (select p (range_from (i + 1) n)) =
      subst (λ high. Ascends (i + 1) high (select p (range_from (i + 1) n))) (omega arith)
        (select-Ascends p (i + 1) n) in
    if_cases (Ascends i (i + suc n)) (p i) (λ _. (omega arith, omega arith, rest))
      (λ _. Ascends-mono i (i + 1) (i + suc n) _ (omega arith) rest)

pub select-Ascends_zero : (p : ℕ → Bool) (n : ℕ) → Ascends 0 n (select p (range_from 0 n))
select-Ascends_zero p n =
    subst (λ high. Ascends 0 high (select p (range_from 0 n))) (omega arith) (select-Ascends p 0 n)
