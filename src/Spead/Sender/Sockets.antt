-- ===== src/Spead/Sender/Sockets.antt =====
-- sender.go: the number of senders, and the sockets that are open after the dialling.
use mathlib.Core.List.{append_assoc, append-nil}
use native.Mathlib.Nat.{add-zero}
use ska_low_station_beam_sim.Prelude.{
  ℕ, zero, suc, ◌+◌, ◌-◌, ◌*◌, ◌≤◌, ◌<◌, ◌≡◌, refl, ◌∙◌, ◌⊎◌, inl, inr, List, [], ◌∷◌, ◌++◌, Option,
  none, some, if◌then◌else◌, ltb, map_option, ◌>>=◌, Option-cases, arith,
}
use ska_low_station_beam_sim.Common.Constants.{max_num_channels}
use ska_low_station_beam_sim.Spead.Sender.{
  full_band_num_senders, default_num_senders_for_channels, dial_from, udp_sender_sockets,
}

-- For at least one channel, DefaultNumSendersForChannels is the least number of senders whose share of
-- the full band's 16 covers the channels; it is at least 1, and at most 16 up to the full band.
pub senders-cover :
    (n : ℕ)
    → 0 < n
    → let r = default_num_senders_for_channels n in
      (full_band_num_senders * n ≤ r * max_num_channels)
      × ((r - 1) * max_num_channels < full_band_num_senders * n)
      × (1 ≤ r)
      × (n ≤ max_num_channels → r ≤ full_band_num_senders)
unfolding default_num_senders_for_channels
senders-cover n h = ground arith

module _ {C : Type 0} (dial : ℕ → Option C) where
  -- The sockets of `k` calls from call `i` on, if each succeeds.
  unfoldable pub dialled : ℕ → ℕ → Option (List C)
  dialled i zero = some []
  dialled i (suc k) = dial i >>= λ conn. map_option (◌∷◌ conn) (dialled (i + 1) k)

  -- All sockets are returned and none is closed; or a call fails, and every socket dialled before it,
  -- and no other, is closed.
  abbrev pub NoLeak : ℕ → ℕ → List C → Option (List C) × List C → Type 0
  NoLeak n i conns r =
      ((new : List C) × (dialled i n ≡ some new) × (r ≡ (some (conns ++ new), [])))
      ⊎ ((k : ℕ) × (new : List C) × (k < n)
          × (dialled i k ≡ some new)
          × (dial (i + k) ≡ none)
          × (r ≡ (none, conns ++ new)))

  dial_from-NoLeak : (n i : ℕ) (conns : List C) → NoLeak n i conns (dial_from dial n i conns)
  unfolding dial_from dialled
  dial_from-NoLeak zero i conns = inl ([], refl, rw append-nil refl)
  dial_from-NoLeak (suc n) i conns = elim (Option-cases (dial i)) [
    | inl fails ↦
        let here : dial (i + 0) ≡ none = rw add-zero fails in
        inr (0, [], omega arith, refl, here, rw (fails, append-nil) refl)
    | inr (conn, ok) ↦ elim (dial_from-NoLeak n (i + 1) (conns ++ (conn ∷ []))) [
      | inl (new, all, e) ↦ inl (conn ∷ new, rw (ok, all) refl, rw ok (e ∙ rw append_assoc refl))
      | inr (k, new, small, before, fails, e) ↦
          let later : i + 1 + k ≡ i + suc k = omega arith in
          inr (
            suc k,
            conn ∷ new,
            omega arith,
            rw (ok, before) refl,
            rw later at fails,
            rw ok (e ∙ rw append_assoc refl),
          )
    ]
  ]

  -- UDPSenderSockets either returns one socket for each of its `n` calls, at least one, in order and
  -- open; or it returns an error after the first call that fails, and has closed exactly the sockets
  -- dialled before.
  pub udp_sender_sockets-NoLeak :
      (n : ℕ) → NoLeak (if ltb n 1 then 1 else n) 0 [] (udp_sender_sockets dial n)
  unfolding udp_sender_sockets
  udp_sender_sockets-NoLeak n = dial_from-NoLeak (if ltb n 1 then 1 else n) 0 []
