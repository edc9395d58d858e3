-- ===== src/Tests/Starting.antt =====
-- internal/netutil and the Start and WatchStatus of internal/server: an interface with an IPv6 and an
-- IPv4 address, a third socket that cannot be dialled, and a stream that is cancelled.
use Prim.Native.String.{String}
use text.Mathlib.Text.{◌==◌}
use ska_low_station_beam_sim.Prelude.{
  ℕ, true, List, [], ◌∷◌, Option, some, none, ltb, if◌then◌else◌, replicate, ◌+◌,
}
use ska_low_station_beam_sim.Prelude.Int.{ℤ, pos}
use ska_low_station_beam_sim.Float.Fixed.{fixed}
use ska_low_station_beam_sim.Netutil.{Addr, ip_net, other_addr, interface_ipv4_addr}
use ska_low_station_beam_sim.Netutil.First.{Resolves, interface_ipv4_addr-Resolves}
use ska_low_station_beam_sim.Server.Requests.{Server}
use ska_low_station_beam_sim.Server.Handlers.{new_server}
use ska_low_station_beam_sim.Server.Starting.{LocalAddr, Destination, Round, ticked, cancelled}

abbrev by_name : String → Option ℕ
by_name name = if name == "net1" then some 1 else none

abbrev addrs_of : ℕ → Option (List Addr)
addrs_of _ = some (ip_net (replicate 16 9) ∷ other_addr ∷ ip_net (192 ∷ 168 ∷ 0 ∷ 7 ∷ []) ∷ [])

interface_ipv4_addr-Resolves_example :
    Resolves by_name addrs_of "net1" (interface_ipv4_addr by_name addrs_of "net1")
interface_ipv4_addr-Resolves_example = interface_ipv4_addr-Resolves by_name addrs_of "net1"

abbrev resolve : String → ℤ → Option String
resolve host port = some host

abbrev dial : LocalAddr → String → ℕ → Option ℕ
dial local dest i = if ltb i 2 then some (40_000 + i) else none

abbrev destination : Destination
destination = record { source_interface = "net1"; dest_ip = "10.0.0.9"; dest_port = pos 4660 }

abbrev server : Server ℤ ℤ
server = new_server fixed (pos 3) (pos 4) (pos 4)

abbrev rounds : List (Round ℤ ℤ)
rounds =
    record { server = server; sends = true; wake = ticked }
    ∷ record { server = server; sends = true; wake = cancelled }
    ∷ []
