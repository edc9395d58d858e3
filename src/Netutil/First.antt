-- ===== src/Netutil/First.antt =====
-- internal/netutil/interface.go: which address is returned.
use mathlib.Core.Path.{subst}
use Prim.Native.String.{String}
use ska_low_station_beam_sim.Prelude.{
  ℕ, ◌≡◌, sym, ap, ◌∙◌, inl, inr, true, List, [], ◌∷◌, ◌++◌, Option, none, some, if_cases,
  Option-cases, ◌==◌, ==_iff, length, drop, length-drop, All, arith,
}
use ska_low_station_beam_sim.Netutil.{
  Addr, Lookup, no_interface, no_addresses, no_ipv4, found, lookup_failed, to4, is_mapped, ipv4_of,
  ip_net, other_addr, first_ipv4, of_addrs, of_interface, interface_ipv4_addr, or_later,
}

is_mapped_size : (ip : List ℕ) → is_mapped ip ≡ true → length ip ≡ 16
unfolding is_mapped
is_mapped_size ip e = ground arith

length-to4 : (ip ip4 : List ℕ) → to4 ip ≡ some ip4 → length ip4 ≡ 4
unfolding to4
length-to4 ip ip4 =
    if_cases (λ r. r ≡ some ip4 → length ip4 ≡ 4) (length ip == 4)
      (λ four e. let same : ip ≡ ip4 = cc in ap length (sym same) ∙ (==_iff (length ip) 4).0 four)
      (λ _.
        if_cases (λ r. r ≡ some ip4 → length ip4 ≡ 4) (is_mapped ip)
          (λ mapped (e : some (drop 12 ip) ≡ some ip4).
            let same : drop 12 ip ≡ ip4 = cc in
            let size = is_mapped_size ip mapped in
            ap length (sym same) ∙ omega (arith, length-drop 12 ip))
          (λ _ (e : none ≡ some ip4). cc))

length-ipv4_of : (addr : Addr) (ip : List ℕ) → ipv4_of addr ≡ some ip → length ip ≡ 4
length-ipv4_of (ip_net raw) ip e = length-to4 raw ip e
length-ipv4_of other_addr ip e = cc

abbrev pub HasNone : Addr → Type 0
HasNone addr = ipv4_of addr ≡ none

-- The outcome of the loop over the addresses.
pub data First : List Addr → Lookup → Type 0 where
  absent : (addrs : List Addr) → All HasNone addrs → First addrs (lookup_failed no_ipv4)
  present :
      (before after : List Addr) (addr : Addr) (ip : List ℕ)
      → All HasNone before
      → ipv4_of addr ≡ some ip
      → length ip ≡ 4
      → First (before ++ (addr ∷ after)) (found ip)

one_later :
    (addr : Addr) (addrs : List Addr) (r : Lookup)
    → HasNone addr
    → First addrs r
    → First (addr ∷ addrs) r
one_later addr addrs _ none_here (absent _ all) = absent (addr ∷ addrs) (none_here, all)
one_later addr _ _ none_here (present before after a ip all e size) =
    present (addr ∷ before) after a ip (none_here, all) e size

first_ipv4-First : (addrs : List Addr) → First addrs (first_ipv4 addrs)
unfolding first_ipv4
first_ipv4-First [] = absent [] tt
first_ipv4-First (addr ∷ addrs) = elim (Option-cases (ipv4_of addr)) [
  | inl none_here ↦
      subst (λ o. First (addr ∷ addrs) (or_later o (first_ipv4 addrs))) (sym none_here)
        (one_later addr addrs (first_ipv4 addrs) none_here (first_ipv4-First addrs))
  | inr (ip, e) ↦
      subst (λ o. First (addr ∷ addrs) (or_later o (first_ipv4 addrs))) (sym e)
        (present [] addrs addr ip tt e (length-ipv4_of addr ip e))
]

module _ {I : Type 0} (by_name : String → Option I) (addrs_of : I → Option (List Addr))
    (name : String) where
  -- The error says what is missing, and an address is that of the first in the list that has one.
  pub data Resolves : Lookup → Type 0 where
    unknown : by_name name ≡ none → Resolves (lookup_failed no_interface)
    unlisted :
        (iface : I)
        → by_name name ≡ some iface
        → addrs_of iface ≡ none
        → Resolves (lookup_failed no_addresses)
    listed :
        (iface : I) (addrs : List Addr) (r : Lookup)
        → by_name name ≡ some iface
        → addrs_of iface ≡ some addrs
        → First addrs r
        → Resolves r

  -- InterfaceIPv4Addr returns the four bytes of the first address of the interface that is an IPv4
  -- address. It returns an error if and only if there is no interface of the name, its addresses
  -- cannot be listed, or none of them is an IPv4 address.
  pub interface_ipv4_addr-Resolves : Resolves (interface_ipv4_addr by_name addrs_of name)
  unfolding interface_ipv4_addr
  interface_ipv4_addr-Resolves = elim (Option-cases (by_name name)) [
    | inl missing ↦
        subst (λ o. Resolves (of_interface by_name addrs_of o)) (sym missing) (unknown missing)
    | inr (iface, e) ↦
        subst (λ o. Resolves (of_interface by_name addrs_of o)) (sym e)
          (elim (Option-cases (addrs_of iface)) [
            | inl fails ↦
                subst (λ o. Resolves (of_addrs by_name addrs_of o)) (sym fails)
                  (unlisted iface e fails)
            | inr (addrs, ok) ↦
                subst (λ o. Resolves (of_addrs by_name addrs_of o)) (sym ok)
                  (listed iface addrs (first_ipv4 addrs) e ok (first_ipv4-First addrs))
          ])
  ]
