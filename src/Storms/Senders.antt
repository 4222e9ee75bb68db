-- ===== src/Storms/Senders.antt =====
-- The addresses of an ARP storm: `arp_sender_ipv4_end` of src/trex_cli/arp_storm.py.
use trex_cli.Prelude.{
  ℕ, ◌+◌, ◌-◌, ◌^◌, ◌≤◌, ◌<◌, ◌≡◌, refl, sym, ap, ◌∙◌, Option, none, some, List, arith,
}
use trex_cli.Storms.Specs.{arp_sender_ipv4_end, address_end}

address_end-inv :
    (address_of : List ℕ → Option ℕ) (address_text : ℕ → List ℕ) (start : Option ℕ) (count : ℕ)
    (end : List ℕ)
    → address_end address_of address_text start count ≡ some end
    → (first : ℕ) × ((start ≡ some first)
        × ((1 ≤ count) × ((first + count - 1 < 2 ^ 32) × (address_text (first + count - 1) ≡ end))))
unfolding address_end
address_end-inv address_of address_text none count end h = absurd (ground arith)
address_end-inv address_of address_text (some first) count end h =
    (first, (refl, (ground arith, (ground arith, ground arith))))

-- Where `ipaddress.IPv4Address` reads every address of 32 bits back from its text: a pool that is
-- given an end has a start that is an address and at least one sender, each of its addresses fits
-- in 32 bits, and the end is the text of the last one.
pub arp_sender_ipv4_end-Fits :
    (address_of : List ℕ → Option ℕ) (address_text : ℕ → List ℕ)
    → ((n : ℕ) → n < 2 ^ 32 → address_of (address_text n) ≡ some n)
    → (start : List ℕ) (count : ℕ) (end : List ℕ)
    → arp_sender_ipv4_end address_of address_text start count ≡ some end
    → (1 ≤ count)
      × ((first : ℕ) × ((address_of start ≡ some first)
            × ((address_of end ≡ some (first + count - 1))
                × ((i : ℕ) → i < count → first + i < 2 ^ 32))))
unfolding arp_sender_ipv4_end
arp_sender_ipv4_end-Fits address_of address_text reads start count end h =
    let (first, (parsed, (enough, (bound, written)))) =
      address_end-inv address_of address_text (address_of start) count end h in
    (
      enough,
      (
        first,
        (
          parsed,
          (ap address_of (sym written) ∙ reads (first + count - 1) bound, λ i hi. omega arith),
        ),
      ),
    )
