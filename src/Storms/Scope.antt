-- ===== src/Storms/Scope.antt =====
-- A DHCP storm of src/trex_cli/models.py that `_validate_policy` of src/trex_cli/jobs.py accepts:
-- its clients and the allowed prefixes.
use mathlib.Core.Path.{subst}
use trex_cli.Prelude.{
  ℕ, ◌+◌, ◌-◌, ◌^◌, ◌<◌, ◌≡◌, refl, sym, ap, ◌∙◌, ◌⊎◌, inl, inr, true, Option, none, some, List, [],
  ◌∷◌, map, arith, Member, lower_char, join, to_bytes,
}
use trex_cli.Policy.{SafetyPolicy, StormSpec, dhcp, PacketStorm, packet_storm}
use trex_cli.Policy.Addresses.{starts_with}
use trex_cli.Policy.Checks.{validate_policy}
use trex_cli.Policy.Compliance.{StormSpecComplies}
use trex_cli.Policy.Validation.{validate_policy-Complies}
use trex_cli.Storms.Mac.{parse_unicast_mac, format_mac, dhcp_client_mac_end, same_text, octet_text}
use trex_cli.Storms.MacText.{format_mac-parse_unicast_mac}
use trex_cli.Storms.Pools.{dhcp_client_mac_end-IdentityInPool}
use trex_cli.Storms.Specs.{DhcpSpec, consistent_pool, is_end, dhcp_valid}
use trex_cli.Storms.Names.{lower_again}
use trex_cli.Storms.Prefixes.{format_mac-between}

-- The storm as the policy reads it.
abbrev pub storm_spec : DhcpSpec → StormSpec
storm_spec s = dhcp s.clients_port s.server_port s.mac_start s.mac_end s.count

pub same_text-eq : (xs ys : List ℕ) → same_text xs ys ≡ true → xs ≡ ys
unfolding same_text
same_text-eq [] [] h = refl
same_text-eq [] (b ∷ ys) h = absurd (cc h)
same_text-eq (a ∷ xs) [] h = absurd (cc h)
same_text-eq (a ∷ xs) (b ∷ ys) h =
    let head : a ≡ b = ground arith in
    let tail : xs ≡ ys = same_text-eq xs ys (ground arith) in cc (head, tail)

starts_with-lower : (text p : List ℕ) → starts_with (map lower_char text) p ≡ starts_with text p
unfolding starts_with
starts_with-lower text [] = refl
starts_with-lower [] (c ∷ p) = refl
starts_with-lower (a ∷ text) (c ∷ p) = rw (starts_with-lower text p, lower_again a) refl

is_end-inv :
    (text : List ℕ) (o : Option (List ℕ)) → is_end text o ≡ true → o ≡ some (map lower_char text)
unfolding is_end
is_end-inv text none h = absurd (cc h)
is_end-inv text (some expected) h = ap some (sym (same_text-eq (map lower_char text) expected h))

-- Every client address of the pool begins with a prefix that both ends begin with.
abbrev pub ClientsBelow : DhcpSpec → List ℕ → Type 0
ClientsBelow s p =
    (first : ℕ) × ((parse_unicast_mac s.mac_start ≡ some first)
      × ((i : ℕ)
          → i < s.count
          → (text : List ℕ) × ((format_mac (first + i) ≡ some text) × (starts_with text p ≡ true))))

format_mac-some : (n : ℕ) → n < 2 ^ 48 → (text : List ℕ) × (format_mac n ≡ some text)
unfolding format_mac
format_mac-some n h = (join b':' (map octet_text (to_bytes 6 n)), ground arith)

clients_below :
    (s : DhcpSpec) (p : List ℕ)
    → dhcp_valid s ≡ true
    → starts_with s.mac_start p ≡ true
    → starts_with s.mac_end p ≡ true
    → ClientsBelow s p
unfolding dhcp_valid consistent_pool
clients_below s p valid hs he =
    let ended : dhcp_client_mac_end s.mac_start s.count ≡ some (map lower_char s.mac_end) =
      is_end-inv s.mac_end (dhcp_client_mac_end s.mac_start s.count) (ground arith) in
    let (enough, (first, (parsed, (last_parsed, each)))) =
      dhcp_client_mac_end-IdentityInPool s.mac_start (map lower_char s.mac_end) s.count ended in
    let (_, first_text) = format_mac-parse_unicast_mac s.mac_start first parsed in
    let (_, last_text) =
      format_mac-parse_unicast_mac (map lower_char s.mac_end) (first + s.count - 1) last_parsed in
    (
      first,
      (
        parsed,
        λ i hi.
            let (text, written) = format_mac-some (first + i) (each i hi).0 in
            (
              text,
              (
                written,
                format_mac-between first (first + i) (first + s.count - 1)
                    (map lower_char s.mac_start) text (map lower_char (map lower_char s.mac_end)) p
                    (omega arith) (omega arith) first_text written last_text
                    (starts_with-lower s.mac_start p ∙ hs)
                    (starts_with-lower (map lower_char s.mac_end) p
                      ∙ (starts_with-lower s.mac_end p ∙ he)),
              ),
            ),
      ),
    )

-- A valid DHCP storm that raises no policy error: unless arbitrary MAC addresses are allowed, one
-- allowed prefix begins the address of every client of its pool, from the first to the last.
pub dhcp_storm-ClientsBelow :
    (policy : SafetyPolicy) (configured : List ℕ) (d : PacketStorm) (s : DhcpSpec)
    → d.spec ≡ storm_spec s
    → dhcp_valid s ≡ true
    → validate_policy policy configured (packet_storm d) ≡ none
    → (policy.allow_arbitrary_unicast_mac ≡ true)
      ⊎ ((p : List ℕ) × (Member p policy.allowed_mac_prefixes × ClientsBelow s p))
dhcp_storm-ClientsBelow policy configured d s same valid accepted =
    let complies : StormSpecComplies policy (storm_spec s) =
      subst (StormSpecComplies policy) same
        (validate_policy-Complies policy configured (packet_storm d) accepted).spec.spec in
    elim complies.1.1 [
      | inl free ↦ inl free
      | inr (p, (listed, (hs, (he, _)))) ↦ inr (p, (listed, clients_below s p valid hs he))
    ]
