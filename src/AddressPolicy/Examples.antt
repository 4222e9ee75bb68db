-- ===== src/AddressPolicy/Examples.antt =====
-- Runs of `ipv4_range_allowed`, and its theorem at a range that needs two networks.
use trex_cli.Prelude.{◌≡◌, refl, ◌↔◌, true, false, List, [], ◌∷◌}
use trex_cli.AddressPolicy.{IpNetwork, ipv4, ipv6, ipv4_range_allowed}
use trex_cli.AddressPolicy.Networks.{RangeAllowed, ipv4_range_allowed_iff}

-- 10.0.1.0/24, an IPv6 network and 10.0.0.0/24
abbrev lab : List IpNetwork
lab = ipv4 167772416 24 ∷ ipv6 0 64 ∷ ipv4 167772161 24 ∷ []

ipv4_range_allowed_iff_example :
    (ipv4_range_allowed 167772300 167772500 lab ≡ true) ↔ RangeAllowed 167772300 167772500 lab
ipv4_range_allowed_iff_example = ipv4_range_allowed_iff 167772300 167772500 lab

across_networks : ipv4_range_allowed 167772300 167772500 lab ≡ true
unfolding ipv4_range_allowed
across_networks = refl

past_the_end : ipv4_range_allowed 167772300 167772672 lab ≡ false
unfolding ipv4_range_allowed
past_the_end = refl
