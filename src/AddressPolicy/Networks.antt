-- ===== src/AddressPolicy/Networks.antt =====
-- `ipv4_range_allowed` against the networks themselves, which forget the intervals and their order.
use native.Mathlib.Nat.{one-le-pow}
use trex_cli.Prelude.{
  ℕ, ◌+◌, ◌-◌, ◌*◌, ◌/◌, ◌≤◌, ◌<◌, ◌≡◌, ◌↔◌, ◌⊎◌, inl, inr, true, false, List, [], ◌∷◌, ltb, arith,
}
use trex_cli.AddressPolicy.{
  IpNetwork, ipv4, ipv6, block_size, intervals, sorted, ipv4_range_allowed,
}
use trex_cli.AddressPolicy.Cover.{
  Covered, sweep_sound, sweep_complete, Covered-sorted, sorted-IsSorted,
}

-- The specification: the address has the network's prefix.
abbrev pub InNetwork : ℕ → IpNetwork → Type 0
InNetwork a (ipv4 address prefixlen) = a / block_size prefixlen ≡ address / block_size prefixlen
InNetwork a (ipv6 address prefixlen) = ⊥

abbrev pub Allowed : ℕ → List IpNetwork → Type 0
Allowed a [] = ⊥
Allowed a (n ∷ ns) = InNetwork a n ⊎ Allowed a ns

-- An address is between the ends of a block exactly when it has the block's prefix.
block_iff :
    (a address s : ℕ)
    → 0 < s
    → ((address / s * s ≤ a) × (a ≤ address / s * s + s - 1)) ↔ (a / s ≡ address / s)
block_iff a address s h = (λ p. grind arith, λ p. grind arith)

block_size_pos : (prefixlen : ℕ) → 0 < block_size prefixlen
block_size_pos prefixlen = one-le-pow (32 - prefixlen) 2 (omega arith)

Covered-intervals : (a : ℕ) (ns : List IpNetwork) → Covered a (intervals ns) ↔ Allowed a ns
unfolding intervals
Covered-intervals a [] = (λ c. c, λ c. c)
Covered-intervals a (ipv4 address p ∷ ns) =
    let (to, from) = Covered-intervals a ns in
    let (in_block, of_block) = block_iff a address (block_size p) (block_size_pos p) in
    (
      λ c. elim c [ inl d ↦ inl (in_block d) | inr d ↦ inr (to d) ],
      λ c. elim c [ inl d ↦ inl (of_block d) | inr d ↦ inr (from d) ],
    )
Covered-intervals a (ipv6 address p ∷ ns) =
    let (to, from) = Covered-intervals a ns in
    (λ c. inr (to c), λ c. elim c [ inl d ↦ absurd d | inr d ↦ from d ])

not_reversed : (first last : ℕ) → first ≤ last → ltb last first ≡ false
not_reversed first last h = ground arith

abbrev pub RangeAllowed : ℕ → ℕ → List IpNetwork → Type 0
RangeAllowed first last cidrs = (first ≤ last) × ((a : ℕ) → first ≤ a → a ≤ last → Allowed a cidrs)

-- `ipv4_range_allowed` returns true exactly when the range is not reversed and every address in
-- it, both ends included, belongs to one of the IPv4 networks.
pub ipv4_range_allowed_iff :
    (first last : ℕ) (cidrs : List IpNetwork)
    → (ipv4_range_allowed first last cidrs ≡ true) ↔ RangeAllowed first last cidrs
unfolding ipv4_range_allowed
ipv4_range_allowed_iff first last cidrs = (
  λ h. (
    ground arith,
    λ a p q. (Covered-intervals a cidrs).0 (
        (Covered-sorted a (intervals cidrs)).0
          (sweep_sound first last (sorted (intervals cidrs)) (ground arith) a p q)),
  ),
  λ h. rw (not_reversed first last h.0) (
      sweep_complete first last (sorted (intervals cidrs)) (sorted-IsSorted (intervals cidrs)) h.0
        (λ a p q.
          (Covered-sorted a (intervals cidrs)).1 ((Covered-intervals a cidrs).1 (h.1 a p q)))),
)
