-- ===== src/Storms/Examples.antt =====
-- Runs of the storm modules of src/trex_cli at concrete inputs.
use trex_cli.Prelude.{
  ℕ, ◌+◌, ◌-◌, ◌^◌, ◌≤◌, ◌<◌, ◌≡◌, refl, ◌⊎◌, true, false, Option, none, some, List, [], ◌∷◌, map,
  arith, Member, lower_char, every, split, join, concat, prepend, to_bytes,
}
use trex_cli.Policy.{SafetyPolicy, PacketStorm, packet_storm}
use trex_cli.AddressPolicy.{ipv4}
use trex_cli.Policy.Addresses.{starts_with, mac_range_allowed, packets_allowed}
use trex_cli.Policy.Checks.{
  refuse_if, limits_of, check_rates, storm_ports, logical_ports, has_port, all_configured,
  identities_refused, check_storm_spec, check_storm, packets_of, check_document, validate_policy,
}
use trex_cli.Storms.Mac.{
  is_hex, hex_value, hex_number, is_octet, is_group, parse_unicast_mac, hex_digit, octet_text,
  format_mac, pool_end, pool_end_of, dhcp_client_mac_end, same_text, matches_mac, without_colons,
  parse_mac, range_of, valid_range,
}
use trex_cli.Storms.MacText.{format_mac-parse_unicast_mac}
use trex_cli.Storms.Pools.{
  IdentityInPool, dhcp_client_mac_end-IdentityInPool, dhcp_client_mac_end-Given,
}
use trex_cli.Storms.Dns.{
  is_alnum, label_rest, is_label, strip_dot, label_bytes, normalize_candidate, normalize_dns_name,
  type_aaaa, type_code, drop_last, query_flags, encode_dns_query, wire_size, at_least_64,
}
use trex_cli.Storms.Dhcp.{encode_dhcp_discover, discover_of, discover_payload, zeros, set_bytes}
use trex_cli.Storms.Discover.{IsDiscover, field, encode_dhcp_discover-IsDiscover}
use trex_cli.Storms.Names.{normalize_again}
use trex_cli.Storms.Queries.{IsQuery, encode_dns_query-IsQuery}
use trex_cli.Storms.Specs.{
  duration_text, is_digit, unit_of, times_unit, duration_rest, parse_duration_text, parse_duration,
  StormRun, derived_bps_l1, distance, run_valid, sized, DhcpSpec, is_end, consistent_pool,
  dhcp_valid, address_end, arp_sender_ipv4_end,
}
use trex_cli.Storms.Scope.{storm_spec, ClientsBelow, dhcp_storm-ClientsBelow}
use trex_cli.Storms.Senders.{arp_sender_ipv4_end-Fits}

-- 02:00:00:00:00:fE, its pool of four, and the last of them
abbrev start_mac : List ℕ
start_mac =
    b'0' ∷ b'2' ∷ b':' ∷ b'0' ∷ b'0' ∷ b':' ∷ b'0' ∷ b'0' ∷ b':' ∷ b'0' ∷ b'0' ∷ b':' ∷ b'0' ∷ b'0'
    ∷ b':' ∷ b'f' ∷ b'E' ∷ []

abbrev end_mac : List ℕ
end_mac =
    b'0' ∷ b'2' ∷ b':' ∷ b'0' ∷ b'0' ∷ b':' ∷ b'0' ∷ b'0' ∷ b':' ∷ b'0' ∷ b'0' ∷ b':' ∷ b'0' ∷ b'1'
    ∷ b':' ∷ b'0' ∷ b'1' ∷ []

start_number : parse_unicast_mac start_mac ≡ some 0x0200000000fe
unfolding parse_unicast_mac split prepend concat hex_number hex_value is_octet is_hex is_group every
start_number = refl

pool_of_four : dhcp_client_mac_end start_mac 4 ≡ some end_mac
unfolding dhcp_client_mac_end pool_end_of pool_end format_mac parse_unicast_mac split prepend concat
    hex_number hex_value is_octet is_hex is_group every join to_bytes octet_text hex_digit
pool_of_four = refl

variation : valid_range start_mac end_mac ≡ some (map lower_char start_mac, end_mac)
unfolding valid_range range_of parse_mac matches_mac without_colons lower_char hex_number hex_value
    is_hex is_group same_text join
variation = refl

-- 90s and 5x
seconds : parse_duration (duration_text (b'9' ∷ b'0' ∷ b's' ∷ [])) ≡ some 90000
unfolding parse_duration parse_duration_text duration_rest times_unit unit_of is_digit same_text
seconds = refl

no_unit : parse_duration (duration_text (b'5' ∷ b'x' ∷ [])) ≡ none
unfolding parse_duration parse_duration_text duration_rest times_unit unit_of is_digit same_text
no_unit = refl

format_mac-parse_unicast_mac_example :
    (0x0200000000fe < 2 ^ 48) × (format_mac 0x0200000000fe ≡ some (map lower_char start_mac))
format_mac-parse_unicast_mac_example =
    format_mac-parse_unicast_mac start_mac 0x0200000000fe start_number

dhcp_client_mac_end-IdentityInPool_example :
    (1 ≤ 4)
    × ((first : ℕ) × ((parse_unicast_mac start_mac ≡ some first)
          × ((parse_unicast_mac end_mac ≡ some (first + 4 - 1))
              × ((i : ℕ) → i < 4 → IdentityInPool first i))))
dhcp_client_mac_end-IdentityInPool_example =
    dhcp_client_mac_end-IdentityInPool start_mac end_mac 4 pool_of_four

last_in_pool : IdentityInPool 0x0200000000fe (4 - 1)
unfolding is_group
last_in_pool = (omega arith, (refl, refl))

dhcp_client_mac_end-Given_example : (end : List ℕ) × (dhcp_client_mac_end start_mac 4 ≡ some end)
dhcp_client_mac_end-Given_example =
    dhcp_client_mac_end-Given start_mac 0x0200000000fe 4 start_number (omega arith) last_in_pool

encode_dhcp_discover-IsDiscover_example :
    (payload : List ℕ) × ((encode_dhcp_discover start_mac 7 ≡ some payload)
      × (IsDiscover payload 7 0x0200000000fe
          × ((format_mac (field 28 6 payload) ≡ some (map lower_char start_mac))
              × (wire_size payload ≡ 290))))
encode_dhcp_discover-IsDiscover_example =
    encode_dhcp_discover-IsDiscover start_mac 7 0x0200000000fe start_number (omega arith)

-- A.b and a.b.
abbrev name : List ℕ
name = b'A' ∷ b'.' ∷ b'b' ∷ []

abbrev full_name : List ℕ
full_name = b'a' ∷ b'.' ∷ b'b' ∷ b'.' ∷ []

normalized : normalize_dns_name name ≡ some full_name
unfolding normalize_dns_name normalize_candidate strip_dot is_label label_rest is_alnum label_bytes
    split prepend every lower_char
normalized = refl

normalize_again_example : normalize_dns_name full_name ≡ some full_name
normalize_again_example = normalize_again name full_name normalized

encode_dns_query-IsQuery_example :
    (payload : List ℕ) × ((encode_dns_query name type_aaaa true 9 ≡ some payload)
      × (IsQuery payload 9
            (query_flags true)
            (split b'.' (drop_last full_name))
            (type_code type_aaaa)
          × ((64 ≤ wire_size payload) × (wire_size payload ≤ 317))))
encode_dns_query-IsQuery_example =
    encode_dns_query-IsQuery name full_name type_aaaa true 9 normalized (omega arith)

-- Addresses written as one code point.
abbrev one_char : List ℕ → Option ℕ
one_char [] = none
one_char (n ∷ ns) = some n

arp_sender_ipv4_end-Fits_example :
    (1 ≤ 3)
    × ((first : ℕ) × ((one_char (7 ∷ []) ≡ some first)
          × ((one_char (9 ∷ []) ≡ some (first + 3 - 1)) × ((i : ℕ) → i < 3 → first + i < 2 ^ 32))))
unfolding arp_sender_ipv4_end address_end
arp_sender_ipv4_end-Fits_example =
    arp_sender_ipv4_end-Fits one_char (λ n. n ∷ []) (λ n h. refl) (7 ∷ []) 3 (9 ∷ []) refl

-- Prefix 02, and four clients
abbrev policy : SafetyPolicy
policy = record {
  version = 1;
  allowed_cidrs = ipv4 167772160 24 ∷ [];
  allowed_mac_prefixes = (b'0' ∷ b'2' ∷ []) ∷ [];
  allow_arbitrary_unicast_mac = false;
  allow_broadcast_storms = true;
  max_job_timeout = 600000;
  max_port_wait_timeout = 600000;
  max_run_duration = 120000;
  max_burst_packets = 1000;
  max_percent_l1 = 100;
  max_pps = 1000;
  max_bps_l1 = 100000000;
  max_bps_l2 = 100000000;
  max_cps = 10;
  max_active_connections = 100;
  max_address_pool_size = 16;
}

abbrev run : StormRun
run = record { pps = 100; wire_bytes = 290; estimated_bps_l1 = 248000; duration = 5000 }

abbrev spec : DhcpSpec
spec = record {
  clients_port = 1;
  server_port = 2;
  mac_start = start_mac;
  mac_end = end_mac;
  count = 4;
  run = run;
}

abbrev storm : PacketStorm
storm = record {
  limits = record { port_wait_timeout = 1000; job_timeout = 60000 };
  spec = storm_spec spec;
  isolated_lab = true;
  rate = 100;
  wire_size = 290;
  duration = 5000;
}

run_accepted : run_valid run ≡ true
unfolding run_valid derived_bps_l1 distance
run_accepted = refl

spec_accepted : dhcp_valid spec ≡ true
unfolding dhcp_valid consistent_pool is_end sized run_valid derived_bps_l1 distance same_text
    lower_char dhcp_client_mac_end pool_end_of pool_end format_mac parse_unicast_mac split prepend
    concat hex_number hex_value is_octet is_hex is_group every join to_bytes octet_text hex_digit
    encode_dhcp_discover discover_of discover_payload zeros set_bytes wire_size at_least_64
spec_accepted = refl

storm_accepted : validate_policy policy (1 ∷ 2 ∷ []) (packet_storm storm) ≡ none
unfolding validate_policy refuse_if limits_of check_rates all_configured has_port logical_ports
    storm_ports check_document check_storm check_storm_spec identities_refused mac_range_allowed
    starts_with lower_char packets_of packets_allowed
storm_accepted = refl

dhcp_storm-ClientsBelow_example :
    (policy.allow_arbitrary_unicast_mac ≡ true)
    ⊎ ((p : List ℕ) × (Member p policy.allowed_mac_prefixes × ClientsBelow spec p))
dhcp_storm-ClientsBelow_example =
    dhcp_storm-ClientsBelow policy (1 ∷ 2 ∷ []) storm spec refl spec_accepted storm_accepted
