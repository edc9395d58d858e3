-- ===== src/Server/Registering.antt =====
-- grpc_server.go: the loop of StartScan over the tone sources.
use Prim.Native.String.{String}
use text.Mathlib.Text.{◌==◌}
use text.Mathlib.TextEquality.{eq_iff}
use mathlib.Core.Path.{subst}
use ska_low_station_beam_sim.Prelude.{
  ℕ, zero, suc, ◌+◌, ◌<◌, ◌≡◌, refl, sym, ap, ◌∙◌, ◌≢◌, inl, inr, ◌||◌, List, [], ◌∷◌, ◌++◌, none,
  some, length, get_elem?, All, Bool-cases, Option-cases, arith, length-append,
}
use ska_low_station_beam_sim.Float.{Float}
use ska_low_station_beam_sim.Common.Delay.{DelayFeed, new_delay_feed}
use ska_low_station_beam_sim.Synth.Config.{ToneSourceConfig}
use ska_low_station_beam_sim.Synth.Streamer.Building.{HasFeed}
use ska_low_station_beam_sim.Server.Requests.{
  ToneSource, Code, Reply, answer, refusal, invalid_argument,
}
use ska_low_station_beam_sim.Server.Handlers.{find_feed, is_some, tone_config, register, ◌>>=◌}

-- Every source has an id, and no two the same.
abbrev pub HasIds : {F : Type 0} → List (ToneSource F) → Type 0
HasIds [] = Unit {0}
HasIds (ts ∷ tones) =
    (ts.source_id ≢ "") × All (λ other. ts.source_id ≢ other.source_id) tones × HasIds tones

abbrev Unknown : {F : Type 0} → List (String × ℕ) → List (ToneSource F) → Type 0
Unknown m = All (λ ts. find_feed ts.source_id m ≡ none)

find_feed_self : (id : String) (a : ℕ) (m : List (String × ℕ)) → find_feed id ((id, a) ∷ m) ≡ some a
unfolding find_feed
find_feed_self id a m = rw ((eq_iff id id).1 refl) refl

find_feed_other :
    (id id' : String) (a : ℕ) (m : List (String × ℕ))
    → id' ≢ id
    → find_feed id ((id', a) ∷ m) ≡ find_feed id m
unfolding find_feed
find_feed_other id id' a m other = elim (Bool-cases (id' == id)) [
  | inl same ↦ absurd (other ((eq_iff id' id).0 same))
  | inr differ ↦ rw differ refl
]

-- A loop that ends with an answer has begun with one.
answers :
    {A B : Type 0} (rest : A → Reply B) (first : Reply A) {b : B}
    → (first >>= rest) ≡ answer b
    → (a : A) × (first ≡ answer a) × (rest a ≡ answer b)
answers rest (refusal code) end = cc
answers rest (answer a) end = (a, refl, end)

refuses :
    {A B : Type 0} (rest : A → Reply B) (first : Reply A) {code : Code}
    → ((a : A) → (b : B) × (rest a ≡ answer b))
    → (first >>= rest) ≡ refusal code
    → first ≡ refusal code
refuses rest (refusal code') goes end = cc
refuses rest (answer a) goes end = let (b, e) = goes a in cc

get_elem?-append_left :
    {A : Type 0} (xs ys : List A) (i : ℕ) → i < length xs → get_elem? (xs ++ ys) i ≡ get_elem? xs i
get_elem?-append_left [] ys i small = absurd (omega arith)
get_elem?-append_left (x ∷ xs) ys zero small = refl
get_elem?-append_left (x ∷ xs) ys (suc i) small = get_elem?-append_left xs ys i (omega arith)

Unknown-uncons :
    {F : Type 0} (id : String) (a : ℕ) (m : List (String × ℕ)) (tones : List (ToneSource F))
    → Unknown ((id, a) ∷ m) tones
    → All (λ (other : ToneSource F). id ≢ other.source_id) tones × Unknown m tones
Unknown-uncons id a m [] unknown = (tt, tt)
Unknown-uncons id a m (ts ∷ tones) (u, unknown) =
    let (differ, rest) = Unknown-uncons id a m tones unknown in
    let d : id ≢ ts.source_id = λ same.
      let seen = ap (λ i. find_feed i ((id, a) ∷ m)) same in
      let hit = find_feed_self id a m in cc in
    ((d, differ), (sym (find_feed_other ts.source_id id a m d) ∙ u, rest))

module _ {F S : Type 0} (fl : Float F S) where
  Unknown-cons :
      (id : String) (a : ℕ) (m : List (String × ℕ)) (tones : List (ToneSource F))
      → All (λ (other : ToneSource F). id ≢ other.source_id) tones
      → Unknown m tones
      → Unknown ((id, a) ∷ m) tones
  Unknown-cons id a m [] differ unknown = tt
  Unknown-cons id a m (ts ∷ tones) (d, differ) (u, unknown) =
      (find_feed_other ts.source_id id a m d ∙ u, Unknown-cons id a m tones differ unknown)

  -- Ids that are there and differ are accepted.
  pub register-HasIds :
      (tones : List (ToneSource F)) (m : List (String × ℕ)) (feeds : List (DelayFeed F))
      → HasIds tones
      → Unknown m tones
      → (cfgs : List (ToneSourceConfig F)) × (m' : List (String × ℕ)) × (feeds' : List
          (DelayFeed F))
        × (register fl tones m feeds ≡ answer (cfgs, m', feeds'))
  unfolding register
  register-HasIds [] m feeds ids unknown = ([], m, feeds, refl)
  register-HasIds (ts ∷ tones) m feeds (there, differ, ids) (u, unknown) =
      let (cfgs, m', feeds', e) =
        register-HasIds tones ((ts.source_id, length feeds) ∷ m) (feeds ++ (new_delay_feed fl ∷ []))
          ids (Unknown-cons ts.source_id (length feeds) m tones differ unknown) in
      elim (Bool-cases (ts.source_id == "")) [
        | inl empty ↦ absurd (there ((eq_iff ts.source_id "").0 empty))
        | inr given ↦ (tone_config fl (length feeds) ts ∷ cfgs, m', feeds', rw (given, u, e) refl)
      ]

  -- What the loop leaves when it accepts the sources.
  pub record Registered (tones : List (ToneSource F)) (m : List (String × ℕ))
      (feeds : List (DelayFeed F)) (cfgs : List (ToneSourceConfig F)) (m' : List (String × ℕ))
      (feeds' : List (DelayFeed F)) : Type 0 where
    pub ids : HasIds tones
    pub unknown : Unknown m tones
    pub kept : (id : String) (a : ℕ) → find_feed id m ≡ some a → find_feed id m' ≡ some a
    pub size : length feeds' ≡ length feeds + length tones
    pub store : (a : ℕ) → a < length feeds → get_elem? feeds' a ≡ get_elem? feeds a
    pub found :
        (k : ℕ) (ts : ToneSource F)
        → get_elem? tones k ≡ some ts
        → (get_elem? cfgs k ≡ some (tone_config fl (length feeds + k) ts))
          × (find_feed ts.source_id m' ≡ some (length feeds + k))
    pub have : All (HasFeed fl) cfgs

  abbrev Finds : List (ToneSource F) → List (ToneSourceConfig F) → List (String × ℕ) → ℕ → Type 0
  Finds tones cfgs m n =
      (k : ℕ) (ts : ToneSource F)
      → get_elem? tones k ≡ some ts
      → (get_elem? cfgs k ≡ some (tone_config fl (n + k) ts))
        × (find_feed ts.source_id m ≡ some (n + k))

  found_first :
      (ts : ToneSource F) (tones : List (ToneSource F)) (cfgs : List (ToneSourceConfig F))
      (m : List (String × ℕ)) (n n' : ℕ)
      → n' ≡ n + 1
      → Finds tones cfgs m n'
      → find_feed ts.source_id m ≡ some n
      → Finds (ts ∷ tones) (tone_config fl n ts ∷ cfgs) m n
  found_first ts tones cfgs m n n' next rest self zero ts' h =
      let e : ts ≡ ts' = cc in
      let none_more : n ≡ n + 0 = omega arith in
      (
        ap (λ x. some (tone_config fl n x)) e ∙ ap (λ j. some (tone_config fl j ts')) none_more,
        ap (λ (x : ToneSource F). find_feed x.source_id m) (sym e) ∙ self ∙ ap some none_more,
      )
  found_first ts tones cfgs m n n' next rest self (suc k) ts' h =
      let (cfg, seen) = rest k ts' h in
      let moved : n' + k ≡ n + suc k = omega (arith, next) in
      (cfg ∙ ap (λ j. some (tone_config fl j ts')) moved, seen ∙ ap some moved)

  pub register-Registered :
      (tones : List (ToneSource F)) (m : List (String × ℕ)) (feeds : List (DelayFeed F))
      (cfgs : List (ToneSourceConfig F)) (m' : List (String × ℕ)) (feeds' : List (DelayFeed F))
      → register fl tones m feeds ≡ answer (cfgs, m', feeds')
      → Registered tones m feeds cfgs m' feeds'
  unfolding register
  register-Registered [] m feeds cfgs m' feeds' e =
      let same : ◌≡◌ {A = List (ToneSourceConfig F) × List (String × ℕ) × List (DelayFeed F)}
          ([], m, feeds) (cfgs, m', feeds') =
        cc in
      subst (λ r. Registered [] m feeds r.0 r.1 r.2) same
        (record {
          ids = tt;
          unknown = tt;
          kept = λ id a h. h;
          size = omega arith;
          store = λ a small. refl;
          found = λ k ts h. cc;
          have = tt;
        })
  register-Registered (ts ∷ tones) m feeds cfgs m' feeds' e =
      elim (Bool-cases (ts.source_id == "")) [
        | inl empty ↦ let e' = rw empty at e in cc
        | inr given ↦ elim (Option-cases (find_feed ts.source_id m)) [
          | inr (a, old) ↦ let e' = rw (given, old) at e in cc
          | inl fresh ↦
              let id = ts.source_id in
              let n = length feeds in
              let ((cfgs1, m1, feeds1), first, done) = answers _ _ (rw (given, fresh) at e) in
              let ih =
                register-Registered tones ((id, n) ∷ m) (feeds ++ (new_delay_feed fl ∷ [])) cfgs1 m1
                  feeds1 first in
              let same : ◌≡◌
                  {A = List (ToneSourceConfig F) × List (String × ℕ) × List (DelayFeed F)}
                  (tone_config fl n ts ∷ cfgs1, m1, feeds1) (cfgs, m', feeds') =
                cc in
              let (differ, unknown) = Unknown-uncons id n m tones ih.unknown in
              let longer = length-append feeds (new_delay_feed fl ∷ []) in
              let size' = ih.size in
              subst (λ r. Registered (ts ∷ tones) m feeds r.0 r.1 r.2) same
                (record {
                  ids = ((λ e'. let e'' = (eq_iff id "").1 e' in cc), differ, ih.ids);
                  unknown = (fresh, unknown);
                  kept = λ id' a h.
                      let d : id ≢ id' = λ same'. let h' = ap (λ i. find_feed i m) same' in cc in
                      ih.kept id' a (find_feed_other id' id n m d ∙ h);
                  size = omega (arith, size', longer);
                  store = λ a small.
                      ih.store a (omega (arith, longer))
                      ∙ get_elem?-append_left feeds (new_delay_feed fl ∷ []) a small;
                  found =
                      found_first ts tones cfgs1 m1 n (length (feeds ++ (new_delay_feed fl ∷ [])))
                        longer ih.found (ih.kept id n (find_feed_self id n m));
                  have = ((λ e'. cc), ih.have);
                })
        ]
      ]

  pub register-refusal :
      (tones : List (ToneSource F)) (m : List (String × ℕ)) (feeds : List (DelayFeed F))
      (code : Code)
      → register fl tones m feeds ≡ refusal code
      → code ≡ invalid_argument
  unfolding register
  register-refusal [] m feeds code e = cc
  register-refusal (ts ∷ tones) m feeds code e =
      elim (Bool-cases (ts.source_id == "" || is_some (find_feed ts.source_id m))) [
        | inl bad ↦ let e' = rw bad at e in cc
        | inr good ↦
            register-refusal tones ((ts.source_id, length feeds) ∷ m)
              (feeds ++ (new_delay_feed fl ∷ [])) code (refuses _ _ (λ r. (_, refl)) (rw good at e))
      ]

  pub none_known : (tones : List (ToneSource F)) → Unknown [] tones
  unfolding find_feed
  none_known [] = tt
  none_known (ts ∷ tones) = (refl, none_known tones)
