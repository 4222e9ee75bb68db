-- ===== src/Policy/Validation.antt =====
-- `_validate_policy` of src/trex_cli/jobs.py accepts only documents that comply with the policy.
use trex_cli.Prelude.{ℕ, ◌≡◌, inl, inr, false, not, Option, none, List, arith, Bool-cases}
use trex_cli.Policy.{
  SafetyPolicy, PcapReplay, StormSpec, dns, dhcp, arp, PacketStorm, JobDocument, stateless,
  pcap_replay, stateful_replay, udp_workload, packet_storm, rfc2544_throughput, rfc2544_suite,
  PolicyError, unsafe_request,
}
use trex_cli.Policy.Addresses.{packets_allowed}
use trex_cli.Policy.Checks.{
  refuse_if, check_replay, check_rates, logical_ports, identities_refused, check_storm_spec,
  check_storm, replay_macs, replay_ips, check_replay_addresses, packets_of, check_document,
  validate_policy,
}
use trex_cli.Policy.Scope.{
  RangeInScope, all_macs-MacsInScope, all_ips-IpsInScope, mac_range_allowed-OnePrefix,
  ip_range_in_one-OneNetwork, packets-PacketInScope, all_configured-Member,
}
use trex_cli.Policy.Compliance.{
  ReplayComplies, StormSpecComplies, StormComplies, DocumentComplies, Complies,
}
use trex_cli.Policy.Accepted.{
  refuse_if-none, stateless-Complies, timing-Complies, preserve-Complies, not-false,
  stateful-Complies, roles-Complies, udp-Complies,
}

identities-RangeInScope :
    (policy : SafetyPolicy) (start end : List ℕ)
    → identities_refused policy start end ≡ false
    → RangeInScope policy start end
unfolding identities_refused
identities-RangeInScope policy start end h = elim (Bool-cases policy.allow_arbitrary_unicast_mac) [
  | inl free ↦ inl free
  | inr bound ↦
      inr (mac_range_allowed-OnePrefix start end policy.allowed_mac_prefixes (ground arith))
]

storm_spec-Complies :
    (policy : SafetyPolicy) (s : StormSpec) (rest : Option PolicyError)
    → check_storm_spec policy s rest ≡ none
    → StormSpecComplies policy s × (rest ≡ none)
unfolding check_storm_spec
storm_spec-Complies policy (dns c s pool) rest h =
    let (a, h1) = refuse_if-none _ _ _ h in
    let (roles, h2) = roles-Complies policy c s rest h1 in ((ground arith, roles), h2)
storm_spec-Complies policy (dhcp clients server mac_start mac_end count) rest h =
    let (a, h1) = refuse_if-none _ _ _ h in
    let (b, h2) = refuse_if-none _ _ _ h1 in
    let (c, h3) = refuse_if-none _ _ _ h2 in
    ((not-false _ a, (ground arith, identities-RangeInScope policy mac_start mac_end c)), h3)
storm_spec-Complies policy (arp senders target mac_start mac_end ip_start ip_end count ip) rest h =
    let (a, h1) = refuse_if-none _ _ _ h in
    let (b, h2) = refuse_if-none _ _ _ h1 in
    let (c, h3) = refuse_if-none _ _ _ h2 in
    let (d, h4) = refuse_if-none _ _ _ h3 in
    (
      (
        not-false _ a,
        (
          ground arith,
          (
            identities-RangeInScope policy mac_start mac_end c,
            (
              ip_range_in_one-OneNetwork policy.allowed_cidrs ip_start ip_end (ground arith),
              ground arith,
            ),
          ),
        ),
      ),
      h4,
    )

storm-Complies :
    (policy : SafetyPolicy) (d : PacketStorm) (rest : Option PolicyError)
    → check_storm policy d rest ≡ none
    → StormComplies policy d × (rest ≡ none)
unfolding check_storm
storm-Complies policy d rest h =
    let (a, h1) = refuse_if-none _ _ _ h in
    let (b, h2) = refuse_if-none _ _ _ h1 in
    let (c, h3) = refuse_if-none _ _ _ h2 in
    let (e, h4) = refuse_if-none _ _ _ h3 in
    let (spec, h5) = storm_spec-Complies policy d.spec rest h4 in
    (
      record {
        isolated = not-false _ a;
        run = ground arith;
        job = ground arith;
        packets = ground arith;
        bits = ground arith;
        spec = spec;
      },
      h5,
    )

-- The two places where a replay is checked.
replay-Complies :
    (policy : SafetyPolicy) (d : PcapReplay) (middle rest : Option PolicyError)
    → check_replay policy d middle ≡ none
    → check_replay_addresses policy d rest ≡ none
    → ReplayComplies policy d × ((middle ≡ none) × (rest ≡ none))
unfolding check_replay check_replay_addresses
replay-Complies policy d middle rest h k =
    let (a, h1) = refuse_if-none _ _ _ h in
    let (b, h2) = refuse_if-none _ _ _ h1 in
    let (c, k1) = refuse_if-none _ _ _ k in
    let (e, k2) = refuse_if-none _ _ _ k1 in
    (
      record {
        timing = timing-Complies policy d.capture d.timing a;
        preserved = preserve-Complies policy d.capture d.address b;
        macs = all_macs-MacsInScope policy (replay_macs d.capture d.address) c;
        ips = all_ips-IpsInScope policy (replay_ips d.capture d.address) (not-false _ e);
      },
      (h2, k2),
    )

check_replay_rest :
    (policy : SafetyPolicy) (d : PcapReplay) (rest : Option PolicyError)
    → check_replay policy d rest ≡ none
    → rest ≡ none
unfolding check_replay
check_replay_rest policy d rest h =
    let (a, h1) = refuse_if-none _ _ _ h in (refuse_if-none _ _ _ h1).1

-- The checks of one document, above and below those of the ports.
document-Complies :
    (policy : SafetyPolicy) (document : JobDocument) (middle rest : Option PolicyError)
    → check_rates policy document middle ≡ none
    → (middle ≡ none → check_document policy document rest ≡ none)
    → DocumentComplies policy document × ((middle ≡ none) × (rest ≡ none))
unfolding check_rates check_document
document-Complies policy (stateless d) middle rest h k =
    let (c, m) = stateless-Complies policy d middle h in (c, (m, k m))
document-Complies policy (pcap_replay d) middle rest h k =
    replay-Complies policy d middle rest h (k (check_replay_rest policy d middle h))
document-Complies policy (stateful_replay d) middle rest h k =
    let (c, r) = stateful-Complies policy d rest (k h) in (c, (h, r))
document-Complies policy (udp_workload d) middle rest h k =
    let (c, r) = udp-Complies policy d rest (k h) in (c, (h, r))
document-Complies policy (packet_storm d) middle rest h k =
    let (c, r) = storm-Complies policy d rest (k h) in (c, (h, r))
document-Complies policy (rfc2544_throughput d) middle rest h k = (tt, (h, k h))
document-Complies policy (rfc2544_suite d) middle rest h k = (tt, (h, k h))

pub validate_policy-Complies :
    (policy : SafetyPolicy) (configured : List ℕ) (document : JobDocument)
    → validate_policy policy configured document ≡ none
    → Complies policy configured document
unfolding validate_policy
validate_policy-Complies policy configured document h =
    let (a, h1) = refuse_if-none _ _ _ h in
    let (b, h2) = refuse_if-none _ _ _ h1 in
    let last = refuse_if (not (packets_allowed policy (packets_of document))) unsafe_request none in
    let (spec, more) =
      document-Complies policy document _ last h2 (λ m. (refuse_if-none _ _ _ m).1) in
    let (ports, h3) = refuse_if-none _ _ _ more.0 in
    let (packets, h4) = refuse_if-none _ _ _ more.1 in
    record {
      job_timeout = ground arith;
      port_wait = ground arith;
      ports = all_configured-Member configured (logical_ports document) (not-false _ ports);
      spec = spec;
      packets = packets-PacketInScope policy (packets_of document) (not-false _ packets);
    }
