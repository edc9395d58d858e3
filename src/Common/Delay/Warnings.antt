-- ===== src/Common/Delay/Warnings.antt =====
-- delay.go: the polynomials and the warnings of a sequence of calls.
use ska_low_station_beam_sim.Prelude.{
  ℕ, suc, ◌+◌, ◌≤◌, ◌≡◌, Bool, true, false, not, ◌||◌, List, [], ◌∷◌, Option, none, some,
}
use ska_low_station_beam_sim.Float.{Float}
use ska_low_station_beam_sim.Common.Time.{unix_to_tai2000_seconds}
use ska_low_station_beam_sim.Common.Delay.{
  DelayPolynomial, DelayFeed, update, valid_until, zero_delay, get,
}

-- A call of the feed: Update, or Get at a time.
pub data Call (F : Type 0) : Type 0 where
  updates : DelayPolynomial F → Call F
  gets : F → Call F

abbrev Always : Type 0
Always = true ≡ true

abbrev one_if : Bool → ℕ
one_if true = 1
one_if false = 0

module _ {F S : Type 0} (fl : Float F S) (inf : F) where
  -- The feed after the calls, and how many warnings were logged.
  pub after_calls : List (Call F) → DelayFeed F → DelayFeed F × ℕ
  after_calls [] f = (f, 0)
  after_calls (updates p ∷ calls) f = after_calls calls (update p f)
  after_calls (gets t ∷ calls) f =
      let (f', _, logged) = get fl inf t f in
      let (f'', n) = after_calls calls f' in (f'', one_if logged + n)

  unfoldable pub update_count : List (Call F) → ℕ
  update_count [] = 0
  update_count (updates p ∷ calls) = suc (update_count calls)
  update_count (gets t ∷ calls) = update_count calls

  -- The polynomial of the last Update.
  unfoldable pub last_update :
      Option (DelayPolynomial F) → List (Call F) → Option (DelayPolynomial F)
  last_update p [] = p
  last_update p (updates q ∷ calls) = last_update (some q) calls
  last_update p (gets t ∷ calls) = last_update p calls

  -- The ends of validity are numbers.
  abbrev pub IsNumber : Option (DelayPolynomial F) → Type 0
  IsNumber none = Always
  IsNumber (some p) = fl.eq (valid_until fl p) (valid_until fl p) ≡ true

  abbrev pub IsCall : Call F → Type 0
  IsCall (updates p) = IsNumber (some p)
  IsCall (gets t) = Always

  -- Whether the next Get can log.
  may_warn : DelayFeed F → Option (DelayPolynomial F) → Bool
  may_warn f none = not f.warned_no_poly
  may_warn f (some p) =
      not f.has_warned_stale_validity || not (fl.eq f.warned_stale_valid_until (valid_until fl p))

  Spends :
      DelayFeed F → Option (DelayPolynomial F) → DelayFeed F × DelayPolynomial F × Bool → Type 0
  Spends f p (f', _, logged) =
      (f'.poly ≡ f.poly) × (one_if logged + one_if (may_warn f' p) ≤ one_if (may_warn f p))

  Warned : List (Call F) → DelayFeed F → DelayFeed F × ℕ → Type 0
  Warned calls f (f', n) =
      (f'.poly ≡ last_update f.poly calls) × (n ≤ one_if (may_warn f f.poly) + update_count calls)

  -- What applies at a time: the polynomial that was installed, expired or not, or zero delay.
  abbrev pub applied : F → Option (DelayPolynomial F) → DelayPolynomial F
  applied t none = zero_delay fl inf (unix_to_tai2000_seconds fl t)
  applied t (some p) = p
