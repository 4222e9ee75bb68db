-- ===== src/Policy/Examples.antt =====
-- Documents under a policy (src/trex_cli/jobs.py), and the theorems of Policy at them.
use trex_cli.Prelude.{ℕ, ◌*◌, ◌≡◌, refl, true, false, none, some, [], ◌∷◌, lower_char}
use trex_cli.AddressPolicy.{ipv4}
use trex_cli.Policy.{
  scale, pps, SafetyPolicy, address4, one, between, Packet, JobLimits, Stream, JobDocument,
  stateless, packet_storm, rfc2544_suite, dhcp, capability_mismatch, address_pool_exhausted,
  rate_ceiling,
}
use trex_cli.Policy.Addresses.{
  starts_with, mac_range_allowed, mac_allowed, all_macs_allowed, mac_value_allowed, in_network,
  ip_allowed, all_ips_allowed, ip_range_in_one, ip_value_allowed, network_header, header_allowed,
  packet_macs_allowed, packets_allowed,
}
use trex_cli.Policy.Checks.{
  refuse_if, limits_of, exceeds, unit_index, same_unit, add_rate, stream_rates, set_rate,
  port_rates, document_rates, rates_exceed, check_stateless, estimated_seconds, too_long,
  check_timing, preserve_refused, check_replay, check_rates, stream_ports, stateless_ports,
  storm_ports, logical_ports, has_port, all_configured, cardinality, pool_refused, check_stateful,
  check_roles, check_udp, identities_refused, check_storm_spec, check_storm, replay_macs,
  replay_ips, check_replay_addresses, stateless_packets, rfc2544_packets, packets_of,
  check_document, validate_policy,
}
use trex_cli.Policy.Refusals.{Reason, validate_policy-Reason}

-- 10.0.0.0/24 and 10.0.2.0/24, and MAC addresses with the prefix 02
abbrev policy : SafetyPolicy
policy = record {
  version = 1;
  allowed_cidrs = ipv4 167772160 24 ∷ ipv4 167772672 24 ∷ [];
  allowed_mac_prefixes = (b'0' ∷ b'2' ∷ []) ∷ [];
  allow_arbitrary_unicast_mac = false;
  allow_broadcast_storms = true;
  max_job_timeout = 600000;
  max_port_wait_timeout = 600000;
  max_run_duration = 120000;
  max_burst_packets = 1000;
  max_percent_l1 = 100 * scale;
  max_pps = 1000 * scale;
  max_bps_l1 = 100000000 * scale;
  max_bps_l2 = 100000000 * scale;
  max_cps = 10 * scale;
  max_active_connections = 100;
  max_address_pool_size = 16;
}

abbrev limits : JobLimits
limits = record { port_wait_timeout = 1000; job_timeout = 60000 }

-- from 10.0.0.1 on, to 10.0.2.9
abbrev packet : Packet
packet = record {
  ethernet_src = one (b'0' ∷ b'2' ∷ b':' ∷ b'0' ∷ b'1' ∷ []);
  ethernet_dst = between (b'0' ∷ b'2' ∷ []) (b'0' ∷ b'2' ∷ b'f' ∷ []);
  ipv4 = some (record {
    src = one (address4 167772161);
    dst = between (address4 167772161) (address4 167772681);
  });
  ipv6 = none;
}

abbrev stream : ℕ → Stream
stream value = record {
  tx = 1;
  rx = 2;
  packet = packet;
  rate = record { unit = pps; value = value * scale };
}

abbrev traffic : ℕ → JobDocument
traffic port = stateless (record {
  ports = record { tx = 1; rx = port; bidirectional = true };
  limits = limits;
  packet = packet;
  rate = record { unit = pps; value = 1000 * scale };
  duration = some 30000;
  burst_packets = none;
  streams = [];
})

abbrev streams : JobDocument
streams = stateless (record {
  ports = record { tx = 1; rx = 2; bidirectional = false };
  limits = limits;
  packet = packet;
  rate = record { unit = pps; value = scale };
  duration = some 30000;
  burst_packets = none;
  streams = stream 400 ∷ stream 600 ∷ [];
})

abbrev storm : JobDocument
storm = packet_storm (record {
  limits = limits;
  spec = dhcp 1 2 (b'0' ∷ b'2' ∷ []) (b'0' ∷ b'2' ∷ []) 17;
  isolated_lab = true;
  rate = 10 * scale;
  wire_size = 290;
  duration = 1000;
})

-- The packet of the new-destination latency trials has a MAC address outside the allowed prefixes.
abbrev stray_packet : Packet
stray_packet = record packet { ethernet_src = one (b'f' ∷ b'f' ∷ b':' ∷ b'f' ∷ b'f' ∷ []) }

abbrev suite : JobDocument
suite = rfc2544_suite (record {
  throughput = record {
    ports = record { tx = 1; rx = 2; bidirectional = false };
    limits = limits;
    packet = packet;
    reverse_packet = none;
  };
  new_destination_packet = some stray_packet;
  maximum_burst_frames = some 100000;
})

suite_accepted : validate_policy policy (1 ∷ 2 ∷ []) suite ≡ none
unfolding rate_ceiling lower_char starts_with mac_range_allowed mac_allowed all_macs_allowed
    mac_value_allowed in_network ip_allowed all_ips_allowed ip_range_in_one ip_value_allowed
    network_header header_allowed packet_macs_allowed packets_allowed refuse_if limits_of exceeds
    unit_index same_unit add_rate stream_rates set_rate port_rates document_rates rates_exceed
    check_stateless estimated_seconds too_long check_timing preserve_refused check_replay
    check_rates stream_ports stateless_ports storm_ports logical_ports has_port all_configured
    cardinality pool_refused check_stateful check_roles check_udp identities_refused
    check_storm_spec check_storm replay_macs replay_ips check_replay_addresses stateless_packets
    rfc2544_packets packets_of check_document validate_policy
suite_accepted = refl

stray_refused : packets_allowed policy (stray_packet ∷ []) ≡ false
unfolding rate_ceiling lower_char starts_with mac_range_allowed mac_allowed all_macs_allowed
    mac_value_allowed packet_macs_allowed packets_allowed
stray_refused = refl

storm_refused : validate_policy policy (1 ∷ 2 ∷ []) storm ≡ some address_pool_exhausted
unfolding rate_ceiling lower_char starts_with mac_range_allowed mac_allowed all_macs_allowed
    mac_value_allowed in_network ip_allowed all_ips_allowed ip_range_in_one ip_value_allowed
    network_header header_allowed packet_macs_allowed packets_allowed refuse_if limits_of exceeds
    unit_index same_unit add_rate stream_rates set_rate port_rates document_rates rates_exceed
    check_stateless estimated_seconds too_long check_timing preserve_refused check_replay
    check_rates stream_ports stateless_ports storm_ports logical_ports has_port all_configured
    cardinality pool_refused check_stateful check_roles check_udp identities_refused
    check_storm_spec check_storm replay_macs replay_ips check_replay_addresses stateless_packets
    rfc2544_packets packets_of check_document validate_policy
storm_refused = refl

port_refused : validate_policy policy (1 ∷ 2 ∷ []) (traffic 3) ≡ some capability_mismatch
unfolding rate_ceiling lower_char starts_with mac_range_allowed mac_allowed all_macs_allowed
    mac_value_allowed in_network ip_allowed all_ips_allowed ip_range_in_one ip_value_allowed
    network_header header_allowed packet_macs_allowed packets_allowed refuse_if limits_of exceeds
    unit_index same_unit add_rate stream_rates set_rate port_rates document_rates rates_exceed
    check_stateless estimated_seconds too_long check_timing preserve_refused check_replay
    check_rates stream_ports stateless_ports storm_ports logical_ports has_port all_configured
    cardinality pool_refused check_stateful check_roles check_udp identities_refused
    check_storm_spec check_storm replay_macs replay_ips check_replay_addresses stateless_packets
    rfc2544_packets packets_of check_document validate_policy
port_refused = refl

-- 10.0.1.1 is in no allowed network, but between the ends of the packet's destination range, which
-- are; the packet passes.
between_networks : (ip_allowed policy.allowed_cidrs (address4 167772417)) ≡ false
unfolding rate_ceiling lower_char starts_with mac_range_allowed mac_allowed all_macs_allowed
    mac_value_allowed in_network ip_allowed all_ips_allowed ip_range_in_one ip_value_allowed
    network_header header_allowed packet_macs_allowed packets_allowed refuse_if limits_of exceeds
    unit_index same_unit add_rate stream_rates set_rate port_rates document_rates rates_exceed
    check_stateless estimated_seconds too_long check_timing preserve_refused check_replay
    check_rates stream_ports stateless_ports storm_ports logical_ports has_port all_configured
    cardinality pool_refused check_stateful check_roles check_udp identities_refused
    check_storm_spec check_storm replay_macs replay_ips check_replay_addresses stateless_packets
    rfc2544_packets packets_of check_document validate_policy
between_networks = refl

validate_policy-Reason_example : Reason policy (1 ∷ 2 ∷ []) storm address_pool_exhausted
validate_policy-Reason_example =
    validate_policy-Reason policy (1 ∷ 2 ∷ []) storm address_pool_exhausted storm_refused
