-- ===== src/Server/Starting/Opening.antt =====
-- grpc_server.go: what Start leaves.
use text.Mathlib.Text.{◌==◌}
use Prim.Native.String.{String}
use ska_low_station_beam_sim.Prelude.{
  ℕ, zero, suc, ◌+◌, ◌≡◌, refl, sym, ap, ◌∙◌, ◌⊎◌, inl, inr, true, false, List, [], ◌∷◌, Option,
  none, some, if◌then◌else◌, ltb, length, map, range_from, Option-cases,
}
use ska_low_station_beam_sim.Prelude.Int.{ℤ}
use ska_low_station_beam_sim.Common.Queue.{num_shards}
use ska_low_station_beam_sim.Spead.Sender.{SenderPool, loops_from}
use ska_low_station_beam_sim.Spead.Sender.Sockets.{dialled}
use ska_low_station_beam_sim.Netutil.{Addr, found, interface_ipv4_addr}
use ska_low_station_beam_sim.Server.Requests.{Server}
use ska_low_station_beam_sim.Server.Starting.{
  Destination, StartError, Started, opened, not_opened, LocalAddr, any_local, local_ip,
}

module _ {C : Type 0} where
  pub loops_from-shards :
      (i : ℕ) (conns : List C)
      → map (λ (loop : ℕ × C). loop.0) (loops_from i conns) ≡ range_from i (length conns)
  loops_from-shards i [] = refl
  loops_from-shards i (conn ∷ conns) = ap (◌∷◌ i) (loops_from-shards (i + 1) conns)

  pub loops_from-conns :
      (i : ℕ) (conns : List C) → map (λ (loop : ℕ × C). loop.1) (loops_from i conns) ≡ conns
  loops_from-conns i [] = refl
  loops_from-conns i (conn ∷ conns) = ap (◌∷◌ conn) (loops_from-conns (i + 1) conns)

  pub length-dialled :
      (dial : ℕ → Option C) (i n : ℕ) (conns : List C)
      → dialled dial i n ≡ some conns
      → length conns ≡ n
  unfolding dialled
  length-dialled dial i zero [] e = refl
  length-dialled dial i zero (conn ∷ conns) e = cc
  length-dialled dial i (suc n) conns e = elim (Option-cases (dial i)) [
    | inl fails ↦ let bad : none ≡ some conns = sym (rw fails refl) ∙ e in cc
    | inr (conn, ok) ↦ elim (Option-cases (dialled dial (i + 1) n)) [
      | inl fails ↦ let bad : none ≡ some conns = sym (rw (ok, fails) refl) ∙ e in cc
      | inr (rest, all) ↦
          let here : some (conn ∷ rest) ≡ some conns = sym (rw (ok, all) refl) ∙ e in
          let whole : conn ∷ rest ≡ conns = cc in
          sym (ap length whole) ∙ ap suc (length-dialled dial (i + 1) n rest all)
    ]
  ]

module _ {I D C F S : Type 0} (by_name : String → Option I) (addrs_of : I → Option (List Addr))
    (resolve : String → ℤ → Option D) (dial : LocalAddr → D → ℕ → Option C) (d : Destination)
    (s : Server F S) where
  -- The local address that the sockets are bound to.
  abbrev pub IsLocal : LocalAddr → Type 0
  IsLocal local =
      ((d.source_interface == "" ≡ true) × (local ≡ any_local))
      ⊎ ((d.source_interface == "" ≡ false)
          × (ip : List ℕ) × (local ≡ local_ip ip)
          × (interface_ipv4_addr by_name addrs_of d.source_interface ≡ found ip))

  -- One shard for each socket: the queue has at least one, and UDPSenderSockets asks for no fewer.
  abbrev pub socket_count : ℕ
  socket_count = let n = num_shards s.send_queue in if ltb n 1 then 1 else n

  -- A goroutine for each socket, each with a shard of its own, and a packetizer with no scale yet.
  abbrev pub Opens : Server F S × Started C → Type 0
  Opens r =
      (local : LocalAddr) × (dest : D) × (pool : SenderPool C) × IsLocal local
      × (resolve d.dest_ip d.dest_port ≡ some dest)
      × (dialled (dial local dest) 0 socket_count ≡ some pool.conns)
      × (map (λ (loop : ℕ × C). loop.0) pool.loops ≡ range_from 0 socket_count)
      × (map (λ (loop : ℕ × C). loop.1) pool.loops ≡ pool.conns)
      × (r ≡ (record s { sender_pool = some 0 }, opened pool))

  -- The sockets that were dialled before the error.
  abbrev pub Before : List C → Type 0
  Before closed =
      (closed ≡ [])
      ⊎ ((local : LocalAddr) × (dest : D) × (k : ℕ) × (dialled (dial local dest) 0 k ≡ some closed)
          × (dial local dest k ≡ none))

  abbrev pub Refuses : Server F S × Started C → Type 0
  Refuses r = (e : StartError) × (closed : List C) × (r ≡ (s, not_opened e closed)) × Before closed
