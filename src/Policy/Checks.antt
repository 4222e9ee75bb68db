-- ===== src/Policy/Checks.antt =====
-- `TestJobs._validate_policy` of src/trex_cli/jobs.py: the checks in their order, the first failure
-- being the error that is raised.
mod Traffic
unfoldable pub use Traffic.*
use trex_cli.Prelude.{
  ℕ, zero, suc, ◌+◌, ◌-◌, ◌*◌, ◌/◌, ◌%◌, ◌^◌, ◌≤◌, ◌<◌, ◌≡◌, refl, sym, ap, ◌∙◌, ◌↔◌, ◌⊎◌, inl, inr,
  Bool, true, false, ◌&&◌, ◌||◌, not, Option, none, some, List, [], ◌∷◌, ◌++◌, map, arith, length,
  All, Member, ltb, leb, ◌==◌, if◌then◌else◌, Bool-cases, Option-cases, lower_char, every, split,
  join, concat, prepend, to_bytes, from_bytes, All-append, Returns, Returns-bind, length-append,
  match_option, ◌≢◌,
}
use trex_cli.AddressPolicy.{ipv4_range_allowed}
use trex_cli.Policy.{
  SafetyPolicy, IpAddress, Packet, Stream, StatelessTraffic, Capture, ReplayAddress, rewrite,
  preserve, PcapReplay, Pool, StatefulReplay, Role, UdpWorkload, StormSpec, dns, dhcp, arp,
  PacketStorm, JobDocument, stateless, pcap_replay, stateful_replay, udp_workload, packet_storm,
  rfc2544_throughput, rfc2544_suite, PolicyError, unsafe_request, capability_mismatch,
  address_pool_exhausted, port_pool_exhausted,
}
use trex_cli.Policy.Addresses.{
  mac_range_allowed, all_macs_allowed, all_ips_allowed, ip_allowed, ip_range_in_one,
  packets_allowed,
}

unfoldable pub stream_ports : List Stream → List ℕ
stream_ports [] = []
stream_ports (s ∷ ss) = s.tx ∷ s.rx ∷ stream_ports ss

unfoldable pub stateless_ports : StatelessTraffic → List Stream → List ℕ
stateless_ports d [] = d.ports.tx ∷ d.ports.rx ∷ []
stateless_ports d (s ∷ ss) = stream_ports (s ∷ ss)

unfoldable pub storm_ports : StormSpec → List ℕ
storm_ports (dns c s pool) = c.port ∷ s.port ∷ []
storm_ports (dhcp clients server mac_start mac_end count) = clients ∷ server ∷ []
storm_ports (arp senders target mac_start mac_end ip_start ip_end count ip) = senders ∷ target ∷ []

-- `logical_ports()`, as a list
unfoldable pub logical_ports : JobDocument → List ℕ
logical_ports (stateless d) = stateless_ports d d.streams
logical_ports (pcap_replay d) = d.ports.tx ∷ d.ports.rx ∷ []
logical_ports (stateful_replay d) = d.client_port ∷ d.server_port ∷ []
logical_ports (udp_workload d) = d.initiator.port ∷ d.responder.port ∷ []
logical_ports (packet_storm d) = storm_ports d.spec
logical_ports (rfc2544_throughput d) = d.ports.tx ∷ d.ports.rx ∷ []
logical_ports (rfc2544_suite d) = d.throughput.ports.tx ∷ d.throughput.ports.rx ∷ []

unfoldable pub has_port : ℕ → List ℕ → Bool
has_port p [] = false
has_port p (q ∷ qs) = q == p || has_port p qs

-- `requested <= configured`
unfoldable pub all_configured : List ℕ → List ℕ → Bool
all_configured configured [] = true
all_configured configured (p ∷ ps) = has_port p configured && all_configured configured ps

-- `cardinality`
unfoldable pub cardinality : Pool → ℕ
cardinality p = p.end + 1 - p.start

unfoldable pub pool_refused : SafetyPolicy → Pool → Option PolicyError → Option PolicyError
pool_refused policy p rest =
    refuse_if (ltb policy.max_address_pool_size (cardinality p)) address_pool_exhausted
      (refuse_if (not (ipv4_range_allowed p.start p.end policy.allowed_cidrs)) unsafe_request rest)

unfoldable pub check_stateful :
    SafetyPolicy → StatefulReplay → Option PolicyError → Option PolicyError
check_stateful policy d rest = refuse_if (ltb policy.max_run_duration d.duration) unsafe_request (
    refuse_if (ltb policy.max_cps d.cps) unsafe_request (
      refuse_if (ltb policy.max_active_connections d.max_active_connections) unsafe_request (
        pool_refused policy d.client_pool (
          pool_refused policy d.server_pool (
            refuse_if
              (ltb (cardinality d.client_pool * cardinality d.client_transport_ports)
                d.max_active_connections)
              port_pool_exhausted rest)))))

-- two ends with a MAC and an address each
unfoldable pub check_roles : SafetyPolicy → Role → Role → Option PolicyError → Option PolicyError
check_roles policy a b rest =
    refuse_if
      (not (
        policy.allow_arbitrary_unicast_mac
        || all_macs_allowed policy.allowed_mac_prefixes (a.mac ∷ b.mac ∷ [])))
      unsafe_request
      (refuse_if (not (all_ips_allowed policy.allowed_cidrs (a.ipv4 ∷ b.ipv4 ∷ []))) unsafe_request
        rest)

unfoldable pub check_udp : SafetyPolicy → UdpWorkload → Option PolicyError → Option PolicyError
check_udp policy d rest = refuse_if (ltb policy.max_run_duration d.duration) unsafe_request (
    refuse_if (ltb policy.max_pps d.estimated_pps) unsafe_request (
      refuse_if (ltb policy.max_bps_l1 d.estimated_bps_l1) unsafe_request
        (check_roles policy d.initiator d.responder rest)))

-- `not allow_arbitrary_unicast_mac and not mac_range_allowed(...)`
unfoldable pub identities_refused : SafetyPolicy → List ℕ → List ℕ → Bool
identities_refused policy start end =
    not (
      policy.allow_arbitrary_unicast_mac || mac_range_allowed start end policy.allowed_mac_prefixes)

unfoldable pub check_storm_spec : SafetyPolicy → StormSpec → Option PolicyError → Option PolicyError
check_storm_spec policy (dns c s pool) rest =
    refuse_if (ltb policy.max_address_pool_size (cardinality pool)) port_pool_exhausted
      (check_roles policy c s rest)
check_storm_spec policy (dhcp clients server mac_start mac_end count) rest =
    refuse_if (not policy.allow_broadcast_storms) unsafe_request (
      refuse_if (ltb policy.max_address_pool_size count) address_pool_exhausted
        (refuse_if (identities_refused policy mac_start mac_end) unsafe_request rest))
check_storm_spec policy (arp senders target mac_start mac_end ip_start ip_end count ip) rest =
    refuse_if (not policy.allow_broadcast_storms) unsafe_request (
      refuse_if (ltb policy.max_address_pool_size count) address_pool_exhausted (
        refuse_if (identities_refused policy mac_start mac_end) unsafe_request (
          refuse_if
            (not (
              ip_range_in_one policy.allowed_cidrs ip_start ip_end
              && ip_allowed policy.allowed_cidrs ip))
            unsafe_request rest)))

unfoldable pub check_storm : SafetyPolicy → PacketStorm → Option PolicyError → Option PolicyError
check_storm policy d rest = refuse_if (not d.isolated_lab) unsafe_request (
    refuse_if (ltb policy.max_run_duration d.duration || ltb d.limits.job_timeout d.duration)
      unsafe_request
      (refuse_if (ltb policy.max_pps d.rate) unsafe_request (
        refuse_if (ltb policy.max_bps_l1 (d.rate * (d.wire_size + 20) * 8)) unsafe_request
          (check_storm_spec policy d.spec rest))))

unfoldable pub replay_macs : Capture → ReplayAddress → List (List ℕ)
replay_macs c (rewrite source_mac destination_mac source_ip destination_ip) =
    source_mac ∷ destination_mac ∷ []
replay_macs c (preserve version) = c.mac_endpoints

unfoldable pub replay_ips : Capture → ReplayAddress → List IpAddress
replay_ips c (rewrite source_mac destination_mac source_ip destination_ip) =
    source_ip ∷ destination_ip ∷ []
replay_ips c (preserve version) = c.ipv4_endpoints

unfoldable pub check_replay_addresses :
    SafetyPolicy → PcapReplay → Option PolicyError → Option PolicyError
check_replay_addresses policy d rest =
    refuse_if
      (not (
        policy.allow_arbitrary_unicast_mac
        || all_macs_allowed policy.allowed_mac_prefixes (replay_macs d.capture d.address)))
      unsafe_request
      (refuse_if (not (all_ips_allowed policy.allowed_cidrs (replay_ips d.capture d.address)))
        unsafe_request rest)

-- the packets that are checked last
unfoldable pub stateless_packets : StatelessTraffic → List Stream → List Packet
stateless_packets d [] = d.packet ∷ []
stateless_packets d (s ∷ ss) = map (λ x. x.packet) (s ∷ ss)

unfoldable pub rfc2544_packets : Packet → Option Packet → List Packet
rfc2544_packets p none = p ∷ []
rfc2544_packets p (some reverse) = p ∷ reverse ∷ []

unfoldable pub packets_of : JobDocument → List Packet
packets_of (stateless d) = stateless_packets d d.streams
packets_of (rfc2544_throughput d) = rfc2544_packets d.packet d.reverse_packet
packets_of (rfc2544_suite d) = rfc2544_packets d.throughput.packet d.throughput.reverse_packet
packets_of _ = []

-- the checks below those of the logical ports
unfoldable pub check_document : SafetyPolicy → JobDocument → Option PolicyError → Option PolicyError
check_document policy (stateful_replay d) rest = check_stateful policy d rest
check_document policy (udp_workload d) rest = check_udp policy d rest
check_document policy (packet_storm d) rest = check_storm policy d rest
check_document policy (pcap_replay d) rest = check_replay_addresses policy d rest
check_document policy _ rest = rest

-- `_validate_policy`: the error, if one is raised
unfoldable pub validate_policy : SafetyPolicy → List ℕ → JobDocument → Option PolicyError
validate_policy policy configured document =
    refuse_if (ltb policy.max_job_timeout (limits_of document).job_timeout) unsafe_request (
      refuse_if (ltb policy.max_port_wait_timeout (limits_of document).port_wait_timeout)
        unsafe_request
        (check_rates policy document (
          refuse_if (not (all_configured configured (logical_ports document))) capability_mismatch (
            check_document policy document (
              refuse_if (not (packets_allowed policy (packets_of document))) unsafe_request
                none)))))
