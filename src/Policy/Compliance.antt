-- ===== src/Policy/Compliance.antt =====
-- What it means that `_validate_policy` of src/trex_cli/jobs.py raises no error.
use trex_cli.Prelude.{
  ℕ, ◌+◌, ◌*◌, ◌≤◌, ◌≡◌, true, false, Option, none, some, List, [], ◌∷◌, Member, All,
}
use trex_cli.AddressPolicy.Networks.{RangeAllowed}
use trex_cli.Policy.{
  scale, RateUnit, SafetyPolicy, rate_ceiling, Stream, StatelessTraffic, Capture, ReplayAddress,
  rewrite, preserve, ReplayTiming, capture_timing, fixed_rate, top_speed, PcapReplay,
  StatefulReplay, Role, UdpWorkload, StormSpec, dns, dhcp, arp, PacketStorm, JobDocument, stateless,
  pcap_replay, stateful_replay, udp_workload, packet_storm, rfc2544_throughput, rfc2544_suite,
}
use trex_cli.Policy.Addresses.{ip_allowed}
use trex_cli.Policy.Checks.{
  limits_of, estimated_seconds, logical_ports, cardinality, replay_macs, replay_ips, packets_of,
}
use trex_cli.Policy.Rates.{egress_total}
use trex_cli.Policy.Scope.{MacsInScope, IpsInScope, RangeInScope, OneNetwork, PacketInScope}

-- A value that is given is at most the limit.
abbrev pub AtMost : Option ℕ → ℕ → Type 0
AtMost none limit = Unit
AtMost (some v) limit = v ≤ limit

-- All that one egress port sends in one unit is below the ceiling of the unit.
abbrev pub RatesWithin : SafetyPolicy → StatelessTraffic → List Stream → Type 0
RatesWithin policy d [] = d.rate.value ≤ rate_ceiling policy d.rate.unit
RatesWithin policy d (s ∷ ss) =
    (e : ℕ) (u : RateUnit) → egress_total e u (s ∷ ss) ≤ rate_ceiling policy u

pub record StatelessComplies (policy : SafetyPolicy) (d : StatelessTraffic) : Type 0 where
  pub run : AtMost d.duration policy.max_run_duration
  pub job : AtMost d.duration d.limits.job_timeout
  pub burst : AtMost d.burst_packets policy.max_burst_packets
  pub rates : RatesWithin policy d d.streams

-- A replay ends in time: the estimate is a fraction of seconds.
abbrev pub InTime : Option (ℕ × ℕ) → ℕ → Type 0
InTime none limit = ⊥
InTime (some (n, d)) limit = n * 1000 ≤ limit * d

abbrev pub TimingComplies : SafetyPolicy → Capture → ReplayTiming → Type 0
TimingComplies policy c (fixed_rate r) =
    (r.value ≤ rate_ceiling policy r.unit)
    × InTime (estimated_seconds c r r.unit) policy.max_run_duration
TimingComplies policy c (capture_timing multiplier) =
    (100 * scale ≤ policy.max_percent_l1)
    × (c.normalized_duration * 1000 ≤ policy.max_run_duration * multiplier)
TimingComplies policy c top_speed = 100 * scale ≤ policy.max_percent_l1

abbrev pub PreserveComplies : SafetyPolicy → Capture → ReplayAddress → Type 0
PreserveComplies policy c (preserve version) =
    (version ≡ policy.version) × ((c.has_broadcast ≡ false) × (c.has_multicast ≡ false))
PreserveComplies policy c (rewrite source_mac destination_mac source_ip destination_ip) = Unit

pub record ReplayComplies (policy : SafetyPolicy) (d : PcapReplay) : Type 0 where
  pub timing : TimingComplies policy d.capture d.timing
  pub preserved : PreserveComplies policy d.capture d.address
  pub macs : MacsInScope policy (replay_macs d.capture d.address)
  pub ips : IpsInScope policy (replay_ips d.capture d.address)

pub record StatefulComplies (policy : SafetyPolicy) (d : StatefulReplay) : Type 0 where
  pub run : d.duration ≤ policy.max_run_duration
  pub cps : d.cps ≤ policy.max_cps
  pub active : d.max_active_connections ≤ policy.max_active_connections
  pub client_size : cardinality d.client_pool ≤ policy.max_address_pool_size
  pub client_range : RangeAllowed d.client_pool.start d.client_pool.end policy.allowed_cidrs
  pub server_size : cardinality d.server_pool ≤ policy.max_address_pool_size
  pub server_range : RangeAllowed d.server_pool.start d.server_pool.end policy.allowed_cidrs
  pub capacity :
      d.max_active_connections ≤ cardinality d.client_pool * cardinality d.client_transport_ports

-- Both ends have a MAC and an address that are in scope.
abbrev pub RolesComply : SafetyPolicy → Role → Role → Type 0
RolesComply policy a b =
    MacsInScope policy (a.mac ∷ b.mac ∷ []) × IpsInScope policy (a.ipv4 ∷ b.ipv4 ∷ [])

pub record UdpComplies (policy : SafetyPolicy) (d : UdpWorkload) : Type 0 where
  pub run : d.duration ≤ policy.max_run_duration
  pub packets : d.estimated_pps ≤ policy.max_pps
  pub bits : d.estimated_bps_l1 ≤ policy.max_bps_l1
  pub roles : RolesComply policy d.initiator d.responder

abbrev pub StormSpecComplies : SafetyPolicy → StormSpec → Type 0
StormSpecComplies policy (dns c s pool) =
    (cardinality pool ≤ policy.max_address_pool_size) × RolesComply policy c s
StormSpecComplies policy (dhcp clients server mac_start mac_end count) =
    (policy.allow_broadcast_storms ≡ true)
    × ((count ≤ policy.max_address_pool_size) × RangeInScope policy mac_start mac_end)
StormSpecComplies policy (arp senders target mac_start mac_end ip_start ip_end count ip) =
    (policy.allow_broadcast_storms ≡ true)
    × ((count ≤ policy.max_address_pool_size)
        × (RangeInScope policy mac_start mac_end
            × (OneNetwork policy.allowed_cidrs (ip_start ∷ ip_end ∷ [])
                × (ip_allowed policy.allowed_cidrs ip ≡ true))))

pub record StormComplies (policy : SafetyPolicy) (d : PacketStorm) : Type 0 where
  pub isolated : d.isolated_lab ≡ true
  pub run : d.duration ≤ policy.max_run_duration
  pub job : d.duration ≤ d.limits.job_timeout
  pub packets : d.rate ≤ policy.max_pps
  pub bits : d.rate * (d.wire_size + 20) * 8 ≤ policy.max_bps_l1
  pub spec : StormSpecComplies policy d.spec

abbrev pub DocumentComplies : SafetyPolicy → JobDocument → Type 0
DocumentComplies policy (stateless d) = StatelessComplies policy d
DocumentComplies policy (pcap_replay d) = ReplayComplies policy d
DocumentComplies policy (stateful_replay d) = StatefulComplies policy d
DocumentComplies policy (udp_workload d) = UdpComplies policy d
DocumentComplies policy (packet_storm d) = StormComplies policy d
DocumentComplies policy (rfc2544_throughput d) = Unit
DocumentComplies policy (rfc2544_suite d) = Unit

pub record Complies (policy : SafetyPolicy) (configured : List ℕ) (document : JobDocument)
    : Type 0 where
  pub job_timeout : (limits_of document).job_timeout ≤ policy.max_job_timeout
  pub port_wait : (limits_of document).port_wait_timeout ≤ policy.max_port_wait_timeout
  pub ports : All (λ p. Member p configured) (logical_ports document)
  pub spec : DocumentComplies policy document
  pub packets : All (PacketInScope policy) (packets_of document)
