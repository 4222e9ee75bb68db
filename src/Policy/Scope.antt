-- ===== src/Policy/Scope.antt =====
-- What the address tests of `_validate_policy` in src/trex_cli/jobs.py mean.
use trex_cli.Prelude.{
  ℕ, ◌≡◌, refl, ◌⊎◌, inl, inr, true, false, ◌&&◌, ◌||◌, not, Option, none, some, List, [], ◌∷◌,
  arith, Bool-cases, Member, All,
}
use trex_cli.AddressPolicy.{IpNetwork}
use trex_cli.Policy.{SafetyPolicy, IpAddress, Variation, one, between, IpHeader, Packet}
use trex_cli.Policy.Addresses.{
  starts_with, mac_range_allowed, mac_allowed, all_macs_allowed, mac_value_allowed, in_network,
  ip_allowed, all_ips_allowed, ip_range_in_one, ip_value_allowed, network_header, header_allowed,
  packet_macs_allowed, packets_allowed,
}
use trex_cli.Policy.Checks.{has_port, all_configured}

-- One allowed prefix has all these MAC addresses.
abbrev pub OnePrefix : List (List ℕ) → List (List ℕ) → Type 0
OnePrefix prefixes macs =
    (p : List ℕ) × (Member p prefixes × All (λ m. starts_with m p ≡ true) macs)

-- One allowed network has all these addresses.
abbrev pub OneNetwork : List IpNetwork → List IpAddress → Type 0
OneNetwork networks ips =
    (n : IpNetwork) × (Member n networks × All (λ a. in_network a n ≡ true) ips)

mac_allowed-OnePrefix :
    (prefixes : List (List ℕ)) (m : List ℕ)
    → mac_allowed prefixes m ≡ true
    → OnePrefix prefixes (m ∷ [])
unfolding mac_allowed
mac_allowed-OnePrefix [] m h = absurd (cc h)
mac_allowed-OnePrefix (p ∷ ps) m h = elim (Bool-cases (starts_with m p)) [
  | inl here ↦ (p, (inl refl, (here, tt)))
  | inr there ↦ let (q, (at, has)) = mac_allowed-OnePrefix ps m (ground arith) in (q, (inr at, has))
]

pub mac_range_allowed-OnePrefix :
    (start end : List ℕ) (prefixes : List (List ℕ))
    → mac_range_allowed start end prefixes ≡ true
    → OnePrefix prefixes (start ∷ end ∷ [])
unfolding mac_range_allowed
mac_range_allowed-OnePrefix start end [] h = absurd (cc h)
mac_range_allowed-OnePrefix start end (p ∷ ps) h =
    elim (Bool-cases (starts_with start p && starts_with end p)) [
      | inl here ↦ (p, (inl refl, (ground arith, (ground arith, tt))))
      | inr there ↦
          let (q, (at, has)) = mac_range_allowed-OnePrefix start end ps (ground arith) in
          (q, (inr at, has))
    ]

ip_allowed-OneNetwork :
    (networks : List IpNetwork) (a : IpAddress)
    → ip_allowed networks a ≡ true
    → OneNetwork networks (a ∷ [])
unfolding ip_allowed
ip_allowed-OneNetwork [] a h = absurd (cc h)
ip_allowed-OneNetwork (n ∷ ns) a h = elim (Bool-cases (in_network a n)) [
  | inl here ↦ (n, (inl refl, (here, tt)))
  | inr there ↦ let (q, (at, has)) = ip_allowed-OneNetwork ns a (ground arith) in (q, (inr at, has))
]

pub ip_range_in_one-OneNetwork :
    (networks : List IpNetwork) (start end : IpAddress)
    → ip_range_in_one networks start end ≡ true
    → OneNetwork networks (start ∷ end ∷ [])
unfolding ip_range_in_one
ip_range_in_one-OneNetwork [] start end h = absurd (cc h)
ip_range_in_one-OneNetwork (n ∷ ns) start end h =
    elim (Bool-cases (in_network start n && in_network end n)) [
      | inl here ↦ (n, (inl refl, (ground arith, (ground arith, tt))))
      | inr there ↦
          let (q, (at, has)) = ip_range_in_one-OneNetwork ns start end (ground arith) in
          (q, (inr at, has))
    ]

-- MAC addresses are free, or each has an allowed prefix.
abbrev pub MacsInScope : SafetyPolicy → List (List ℕ) → Type 0
MacsInScope policy macs =
    (policy.allow_arbitrary_unicast_mac ≡ true)
    ⊎ All (λ m. OnePrefix policy.allowed_mac_prefixes (m ∷ [])) macs

abbrev pub IpsInScope : SafetyPolicy → List IpAddress → Type 0
IpsInScope policy ips = All (λ a. OneNetwork policy.allowed_cidrs (a ∷ [])) ips

-- The ends of a generated MAC range are free, or have one allowed prefix.
abbrev pub RangeInScope : SafetyPolicy → List ℕ → List ℕ → Type 0
RangeInScope policy start end =
    (policy.allow_arbitrary_unicast_mac ≡ true)
    ⊎ OnePrefix policy.allowed_mac_prefixes (start ∷ end ∷ [])

all_macs_each :
    (prefixes macs : List (List ℕ))
    → all_macs_allowed prefixes macs ≡ true
    → All (λ m. OnePrefix prefixes (m ∷ [])) macs
unfolding all_macs_allowed
all_macs_each prefixes [] h = tt
all_macs_each prefixes (m ∷ ms) h =
    (mac_allowed-OnePrefix prefixes m (ground arith), all_macs_each prefixes ms (ground arith))

pub all_macs-MacsInScope :
    (policy : SafetyPolicy) (macs : List (List ℕ))
    → not (policy.allow_arbitrary_unicast_mac || all_macs_allowed policy.allowed_mac_prefixes macs)
      ≡ false
    → MacsInScope policy macs
all_macs-MacsInScope policy macs h = elim (Bool-cases policy.allow_arbitrary_unicast_mac) [
  | inl free ↦ inl free
  | inr bound ↦ inr (all_macs_each policy.allowed_mac_prefixes macs (ground arith))
]

pub all_ips-IpsInScope :
    (policy : SafetyPolicy) (ips : List IpAddress)
    → all_ips_allowed policy.allowed_cidrs ips ≡ true
    → IpsInScope policy ips
unfolding all_ips_allowed
all_ips-IpsInScope policy [] h = tt
all_ips-IpsInScope policy (a ∷ rest) h = (
  ip_allowed-OneNetwork policy.allowed_cidrs a (ground arith),
  all_ips-IpsInScope policy rest (ground arith),
)

-- A single MAC address, or both ends of a variation, under one prefix.
abbrev pub mac_ends : Variation (List ℕ) → List (List ℕ)
mac_ends (one m) = m ∷ []
mac_ends (between start end) = start ∷ end ∷ []

-- What is looked up for an address: both ends of a variation.
abbrev pub ip_ends : Variation IpAddress → List IpAddress
ip_ends (one a) = a ∷ []
ip_ends (between start end) = start ∷ end ∷ []

mac_value-OnePrefix :
    (prefixes : List (List ℕ)) (v : Variation (List ℕ))
    → mac_value_allowed prefixes v ≡ true
    → OnePrefix prefixes (mac_ends v)
unfolding mac_value_allowed
mac_value-OnePrefix prefixes (one m) h = mac_allowed-OnePrefix prefixes m h
mac_value-OnePrefix prefixes (between start end) h =
    mac_range_allowed-OnePrefix start end prefixes h

ip_value-IpsInScope :
    (policy : SafetyPolicy) (v : Variation IpAddress)
    → ip_value_allowed policy.allowed_cidrs v ≡ true
    → IpsInScope policy (ip_ends v)
unfolding ip_value_allowed
ip_value-IpsInScope policy (one a) h = (ip_allowed-OneNetwork policy.allowed_cidrs a h, tt)
ip_value-IpsInScope policy (between start end) h = (
  ip_allowed-OneNetwork policy.allowed_cidrs start (ground arith),
  (ip_allowed-OneNetwork policy.allowed_cidrs end (ground arith), tt),
)

abbrev pub HeaderInScope : SafetyPolicy → Option IpHeader → Type 0
HeaderInScope policy none = Unit
HeaderInScope policy (some h) =
    IpsInScope policy (ip_ends h.src) × IpsInScope policy (ip_ends h.dst)

-- Each MAC value of the packet under a prefix, and the ends of its addresses in networks.
abbrev pub PacketInScope : SafetyPolicy → Packet → Type 0
PacketInScope policy p =
    ((policy.allow_arbitrary_unicast_mac ≡ true)
      ⊎ (OnePrefix policy.allowed_mac_prefixes (mac_ends p.ethernet_src)
          × OnePrefix policy.allowed_mac_prefixes (mac_ends p.ethernet_dst)))
    × HeaderInScope policy (network_header p)

header_allowed-HeaderInScope :
    (policy : SafetyPolicy) (h : Option IpHeader)
    → header_allowed policy.allowed_cidrs h ≡ true
    → HeaderInScope policy h
unfolding header_allowed
header_allowed-HeaderInScope policy none h = tt
header_allowed-HeaderInScope policy (some x) h = (
  ip_value-IpsInScope policy x.src (ground arith),
  ip_value-IpsInScope policy x.dst (ground arith),
)

pub packets-PacketInScope :
    (policy : SafetyPolicy) (ps : List Packet)
    → packets_allowed policy ps ≡ true
    → All (PacketInScope policy) ps
unfolding packets_allowed packet_macs_allowed
packets-PacketInScope policy [] h = tt
packets-PacketInScope policy (p ∷ ps) h =
    let macs : (policy.allow_arbitrary_unicast_mac ≡ true)
        ⊎ ((mac_value_allowed policy.allowed_mac_prefixes p.ethernet_src ≡ true)
            × (mac_value_allowed policy.allowed_mac_prefixes p.ethernet_dst ≡ true)) =
      ground arith in
    (
      (
        elim macs [
          | inl free ↦ inl free
          | inr bound ↦ inr (
            mac_value-OnePrefix policy.allowed_mac_prefixes p.ethernet_src bound.0,
            mac_value-OnePrefix policy.allowed_mac_prefixes p.ethernet_dst bound.1,
          )
        ],
        header_allowed-HeaderInScope policy (network_header p) (ground arith),
      ),
      packets-PacketInScope policy ps (ground arith),
    )

has_port-Member : (p : ℕ) (ps : List ℕ) → has_port p ps ≡ true → Member p ps
unfolding has_port
has_port-Member p [] h = absurd (cc h)
has_port-Member p (q ∷ qs) h = ground (arith, has_port-Member p qs)

pub all_configured-Member :
    (configured ps : List ℕ)
    → all_configured configured ps ≡ true
    → All (λ p. Member p configured) ps
unfolding all_configured
all_configured-Member configured [] h = tt
all_configured-Member configured (p ∷ ps) h = (
  has_port-Member p configured (ground arith),
  all_configured-Member configured ps (ground arith),
)
