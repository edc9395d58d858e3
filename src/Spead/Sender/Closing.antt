-- ===== src/Spead/Sender/Closing.antt =====
-- internal/spead/sender.go: the end of a sender pool.
use ska_low_station_beam_sim.Prelude.{
  ℕ, zero, suc, ◌≡◌, refl, sym, ap, ◌∙◌, ◌⊎◌, inl, inr, Bool, true, false, List, [], ◌∷◌, none,
  some, if_cases, get_elem?, set, arith,
}
use ska_low_station_beam_sim.Spead.Sender.{
  SenderPool, Senders, running_pool, return_loop, any_running, close,
}

-- What can happen to a pool, in any order.
pub data PoolStep {C : Type 0} (s : Senders C) : Senders C → Type 0 where
  returns : (i : ℕ) → PoolStep s (return_loop i s)
  closes : (s' : Senders C) → close s ≡ some s' → PoolStep s s'

pub data ReachesSenders {C : Type 0} (pool : SenderPool C) : Senders C → Type 0 where
  begins : ReachesSenders pool (running_pool pool)
  then_step : {s s' : Senders C} → ReachesSenders pool s → PoolStep s s' → ReachesSenders pool s'

still_ended :
    (running : List Bool) (i : ℕ)
    → any_running running ≡ false
    → any_running (set running i false) ≡ false
still_ended [] i e = e
still_ended (r ∷ running) zero e = ground arith
still_ended (true ∷ running) (suc i) e = cc
still_ended (false ∷ running) (suc i) e = still_ended running i e

none_runs :
    (running : List Bool) (i : ℕ)
    → any_running running ≡ false
    → get_elem? running i ≡ some true
    → ⊥
none_runs [] i e here = let bad : none ≡ some true = here in cc
none_runs (true ∷ running) i e here = let bad : true ≡ false = e in cc
none_runs (false ∷ running) zero e here = let bad : some false ≡ some true = here in cc
none_runs (false ∷ running) (suc i) e here = none_runs running i e here

module _ {C : Type 0} where
  OpenOrEnded : Senders C → Type 0
  OpenOrEnded s = (s.closed ≡ []) ⊎ (any_running s.running ≡ false)

  close-Ended : (s s' : Senders C) → close s ≡ some s' → any_running s'.running ≡ false
  unfolding close
  close-Ended s s' =
      if_cases (λ r. r ≡ some s' → any_running s'.running ≡ false) (any_running s.running)
        (λ _ (e : none ≡ some s'). cc)
        (λ ended e.
          let same : record s { closed = s.pool.conns } ≡ s' = cc in
          ap (λ (x : Senders C). any_running x.running) (sym same) ∙ ended)

  PoolStep-OpenOrEnded : {s s' : Senders C} → PoolStep s s' → OpenOrEnded s → OpenOrEnded s'
  unfolding OpenOrEnded
  PoolStep-OpenOrEnded (returns i) (inl none_closed) = inl none_closed
  PoolStep-OpenOrEnded {s} (returns i) (inr ended) = inr (still_ended s.running i ended)
  PoolStep-OpenOrEnded {s} {s'} (closes _ e) inv = inr (close-Ended s s' e)

  ReachesSenders-OpenOrEnded :
      {pool : SenderPool C} {s : Senders C} → ReachesSenders pool s → OpenOrEnded s
  unfolding OpenOrEnded
  ReachesSenders-OpenOrEnded begins = inl refl
  ReachesSenders-OpenOrEnded (then_step before step) =
      PoolStep-OpenOrEnded step (ReachesSenders-OpenOrEnded before)

  -- In whatever order the goroutines of a pool return and Close is called, no socket of the pool is
  -- closed while one of them still runs.
  pub no_send_on_closed :
      (pool : SenderPool C) (s : Senders C) (i : ℕ)
      → ReachesSenders pool s
      → get_elem? s.running i ≡ some true
      → s.closed ≡ []
  unfolding OpenOrEnded
  no_send_on_closed pool s i reaches runs = elim (ReachesSenders-OpenOrEnded reaches) [
    | inl none_closed ↦ none_closed
    | inr ended ↦ absurd (none_runs s.running i ended runs)
  ]
