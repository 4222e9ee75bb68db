-- ===== src/AddressPolicy.antt =====
-- address_policy.py (src/trex_cli/address_policy.py): are all addresses of a generated range
-- inside the configured networks? An `ipaddress` object is modelled by its numbers; the parsing
-- of its text is the standard library's.
pub mod Cover
pub mod Networks
mod Examples
use trex_cli.Prelude.{
  ℕ, ◌+◌, ◌-◌, ◌*◌, ◌/◌, ◌^◌, Bool, true, false, Option, none, some, List, [], ◌∷◌, ltb, ◌==◌,
  if◌then◌else◌, ◌&&◌, ◌||◌,
}

-- `ipaddress.ip_network(cidr, strict=False)`: the address before the slash and the prefix length.
pub data IpNetwork : Type 0 where
  ipv4 ipv6 : ℕ → ℕ → IpNetwork

-- (network_address, broadcast_address) as integers
abbrev pub Interval : Type 0
Interval = ℕ × ℕ

-- the number of addresses of an IPv4 network
abbrev pub block_size : ℕ → ℕ
block_size prefixlen = 2 ^ (32 - prefixlen)

-- `isinstance(network, IPv4Network)` and the two ends, host bits cleared or set
unfoldable pub interval : IpNetwork → Option Interval
interval (ipv4 address prefixlen) =
    let s = block_size prefixlen in let network = address / s * s in some (network, network + s - 1)
interval (ipv6 address prefixlen) = none

-- the generator expression that `sorted` reads
unfoldable pub intervals : List IpNetwork → List Interval
unfolding interval
intervals [] = []
intervals (n ∷ ns) = elim (interval n) [ none ↦ intervals ns | some i ↦ i ∷ intervals ns ]

-- `<` on Python tuples
unfoldable pub before : Interval → Interval → Bool
before (a, b) (c, d) = ltb a c || (a == c) && ltb b d

unfoldable pub insert : Interval → List Interval → List Interval
unfolding before
insert x [] = x ∷ []
insert x (y ∷ ys) = if before y x then y ∷ insert x ys else x ∷ y ∷ ys

-- `sorted`: any sort gives this list, as the order on the pairs is total
unfoldable pub sorted : List Interval → List Interval
unfolding insert
sorted [] = []
sorted (x ∷ xs) = insert x (sorted xs)

-- the `for` loop, from the current cursor
unfoldable pub sweep : ℕ → ℕ → List Interval → Bool
sweep cursor last [] = false
sweep cursor last ((lower, upper) ∷ rest) =
    let skip = sweep cursor last rest in
    let further = sweep (upper + 1) last rest in
    if ltb upper cursor
    then skip
    else if ltb cursor lower
    then false
    else if ltb last (upper + 1)
    then true
    else further

unfoldable pub ipv4_range_allowed : ℕ → ℕ → List IpNetwork → Bool
unfolding intervals sorted sweep
ipv4_range_allowed first last cidrs =
    if ltb last first then false else sweep first last (sorted (intervals cidrs))
