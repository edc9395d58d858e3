-- ===== src/Netutil.antt =====
-- internal/netutil/interface.go: the address of a network interface. What the operating system knows of
-- its interfaces is an argument; an address is a *net.IPNet with the bytes of its IP, or another
-- net.Addr.
pub mod First
use Prim.Native.String.{String}
use ska_low_station_beam_sim.Prelude.{
  ℕ, Bool, true, false, ◌&&◌, List, [], ◌∷◌, Option, none, some, if◌then◌else◌, ◌==◌, length, take,
  drop,
}

pub data Addr : Type 0 where
  ip_net : List ℕ → Addr
  other_addr : Addr

pub data LookupError : Type 0 where
  no_interface no_addresses no_ipv4 : LookupError

pub data Lookup : Type 0 where
  found : List ℕ → Lookup
  lookup_failed : LookupError → Lookup

-- Every byte of the list is `b`.
all_are : ℕ → List ℕ → Bool
all_are b [] = true
all_are b (c ∷ bytes) = c == b && all_are b bytes

-- Sixteen bytes with the prefix of the IPv4 addresses.
unfoldable pub is_mapped : List ℕ → Bool
unfolding all_are
is_mapped ip = length ip == 16 && all_are 0 (take 10 ip) && all_are 0xff (take 2 (drop 10 ip))

-- net.IP's To4: four bytes, or the last four of a sixteen-byte IPv4 address
unfoldable pub to4 : List ℕ → Option (List ℕ)
to4 ip = if length ip == 4 then some ip else if is_mapped ip then some (drop 12 ip) else none

-- The IPv4 address of an address of the interface.
abbrev pub ipv4_of : Addr → Option (List ℕ)
ipv4_of (ip_net ip) = to4 ip
ipv4_of other_addr = none

abbrev pub or_later : Option (List ℕ) → Lookup → Lookup
or_later none later = later
or_later (some ip4) later = found ip4

-- The loop over the addresses.
unfoldable pub first_ipv4 : List Addr → Lookup
first_ipv4 [] = lookup_failed no_ipv4
first_ipv4 (addr ∷ addrs) = or_later (ipv4_of addr) (first_ipv4 addrs)

module _ {I : Type 0} (by_name : String → Option I) (addrs_of : I → Option (List Addr)) where
  abbrev pub of_addrs : Option (List Addr) → Lookup
  of_addrs none = lookup_failed no_addresses
  of_addrs (some addrs) = first_ipv4 addrs

  abbrev pub of_interface : Option I → Lookup
  of_interface none = lookup_failed no_interface
  of_interface (some iface) = of_addrs (addrs_of iface)

  -- InterfaceIPv4Addr
  unfoldable pub interface_ipv4_addr : String → Lookup
  unfolding first_ipv4
  interface_ipv4_addr name = of_interface (by_name name)
