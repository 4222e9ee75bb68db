-- ===== src/Policy/Addresses.antt =====
-- The address tests of `_validate_policy` in src/trex_cli/jobs.py, and `mac_range_allowed` of
-- src/trex_cli/address_policy.py.
use trex_cli.Prelude.{
  lower_char, ℕ, ◌-◌, ◌/◌, ◌^◌, Bool, true, false, ◌&&◌, ◌||◌, Option, none, some, List, [], ◌∷◌,
  ◌==◌,
}
use trex_cli.AddressPolicy.{IpNetwork, ipv4, ipv6}
use trex_cli.Policy.{
  SafetyPolicy, IpAddress, address4, address6, Variation, one, between, IpHeader, Packet,
}

-- `text.lower().startswith(prefix.lower())`
unfoldable pub starts_with : List ℕ → List ℕ → Bool
starts_with text [] = true
starts_with [] (p ∷ ps) = false
starts_with (c ∷ cs) (p ∷ ps) = lower_char c == lower_char p && starts_with cs ps

-- `mac_range_allowed`
unfoldable pub mac_range_allowed : List ℕ → List ℕ → List (List ℕ) → Bool
mac_range_allowed start end [] = false
mac_range_allowed start end (p ∷ ps) =
    (starts_with start p && starts_with end p) || mac_range_allowed start end ps

-- `any(value.lower().startswith(prefix) for prefix in prefixes)`
unfoldable pub mac_allowed : List (List ℕ) → List ℕ → Bool
mac_allowed [] value = false
mac_allowed (p ∷ ps) value = starts_with value p || mac_allowed ps value

unfoldable pub all_macs_allowed : List (List ℕ) → List (List ℕ) → Bool
all_macs_allowed prefixes [] = true
all_macs_allowed prefixes (m ∷ ms) = mac_allowed prefixes m && all_macs_allowed prefixes ms

-- a MAC or both ends of its variation under one prefix
unfoldable pub mac_value_allowed : List (List ℕ) → Variation (List ℕ) → Bool
mac_value_allowed prefixes (one m) = mac_allowed prefixes m
mac_value_allowed prefixes (between start end) = mac_range_allowed start end prefixes

-- `address in network`
unfoldable pub in_network : IpAddress → IpNetwork → Bool
in_network (address4 a) (ipv4 n prefixlen) = a / 2 ^ (32 - prefixlen) == n / 2 ^ (32 - prefixlen)
in_network (address6 a) (ipv6 n prefixlen) = a / 2 ^ (128 - prefixlen) == n / 2 ^ (128 - prefixlen)
in_network (address4 a) (ipv6 n prefixlen) = false
in_network (address6 a) (ipv4 n prefixlen) = false

-- `any(address in subnet for subnet in allowed)`
unfoldable pub ip_allowed : List IpNetwork → IpAddress → Bool
ip_allowed [] a = false
ip_allowed (n ∷ ns) a = in_network a n || ip_allowed ns a

unfoldable pub all_ips_allowed : List IpNetwork → List IpAddress → Bool
all_ips_allowed allowed [] = true
all_ips_allowed allowed (a ∷ rest) = ip_allowed allowed a && all_ips_allowed allowed rest

-- both in one subnet
unfoldable pub ip_range_in_one : List IpNetwork → IpAddress → IpAddress → Bool
ip_range_in_one [] start end = false
ip_range_in_one (n ∷ ns) start end =
    (in_network start n && in_network end n) || ip_range_in_one ns start end

-- the addresses that are looked up for a value: both ends of a variation
unfoldable pub ip_value_allowed : List IpNetwork → Variation IpAddress → Bool
ip_value_allowed allowed (one a) = ip_allowed allowed a
ip_value_allowed allowed (between start end) = ip_allowed allowed start && ip_allowed allowed end

-- `packet.ipv4 or packet.ipv6`
unfoldable pub network_header : Packet → Option IpHeader
network_header p = elim p.ipv4 [ some h ↦ some h | none ↦ p.ipv6 ]

unfoldable pub header_allowed : List IpNetwork → Option IpHeader → Bool
header_allowed allowed none = true
header_allowed allowed (some h) = ip_value_allowed allowed h.src && ip_value_allowed allowed h.dst

unfoldable pub packet_macs_allowed : SafetyPolicy → Packet → Bool
packet_macs_allowed policy p =
    policy.allow_arbitrary_unicast_mac
    || (mac_value_allowed policy.allowed_mac_prefixes p.ethernet_src
        && mac_value_allowed policy.allowed_mac_prefixes p.ethernet_dst)

-- the loop over `packets`: one refusal of a packet is as good as another
unfoldable pub packets_allowed : SafetyPolicy → List Packet → Bool
packets_allowed policy [] = true
packets_allowed policy (p ∷ ps) =
    packet_macs_allowed policy p
    && header_allowed policy.allowed_cidrs (network_header p)
    && packets_allowed policy ps
