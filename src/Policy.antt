-- ===== src/Policy.antt =====
-- What a job may do: `SafetyPolicy` of src/trex_cli/config.py and the parts of the job documents of
-- src/trex_cli/models.py that `TestJobs._validate_policy` reads. Addresses are parsed; a MAC address
-- or prefix is its text, as code points; a port, a version or a role is a number that stands for its
-- text. A rate, a size in seconds or a multiplier is a natural number of a fixed-point unit, of which
-- `scale` make 1, with exact arithmetic where the program has floats; a duration is in milliseconds.
pub mod Addresses
pub mod Checks
pub mod Rates
pub mod Scope
pub mod Compliance
pub mod Accepted
pub mod Validation
pub mod Refusals
mod Examples
use trex_cli.Prelude.{
  ℕ, zero, suc, ◌+◌, ◌-◌, ◌*◌, ◌/◌, ◌%◌, ◌^◌, ◌≤◌, ◌<◌, ◌≡◌, refl, sym, ap, ◌∙◌, ◌↔◌, ◌⊎◌, inl, inr,
  Bool, true, false, ◌&&◌, ◌||◌, not, Option, none, some, List, [], ◌∷◌, ◌++◌, map, arith, length,
  All, Member, ltb, leb, ◌==◌, if◌then◌else◌, Bool-cases, Option-cases, lower_char, every, split,
  join, concat, prepend, to_bytes, from_bytes, All-append, Returns, Returns-bind, length-append,
  match_option, ◌≢◌,
}
use trex_cli.AddressPolicy.{IpNetwork}

abbrev pub scale : ℕ
scale = 1000000

pub data RateUnit : Type 0 where
  percent_l1 bps_l1 bps_l2 pps : RateUnit

pub record Rate : Type 0 where
  pub unit : RateUnit
  pub value : ℕ

-- `SafetyPolicy`: what `_validate_policy` reads
pub record SafetyPolicy : Type 0 where
  pub version : ℕ
  pub allowed_cidrs : List IpNetwork
  pub allowed_mac_prefixes : List (List ℕ)
  pub allow_arbitrary_unicast_mac : Bool
  pub allow_broadcast_storms : Bool
  pub max_job_timeout : ℕ
  pub max_port_wait_timeout : ℕ
  pub max_run_duration : ℕ
  pub max_burst_packets : ℕ
  pub max_percent_l1 : ℕ
  pub max_pps : ℕ
  pub max_bps_l1 : ℕ
  pub max_bps_l2 : ℕ
  pub max_cps : ℕ
  pub max_active_connections : ℕ
  pub max_address_pool_size : ℕ

-- `rate_ceiling`
unfoldable pub rate_ceiling : SafetyPolicy → RateUnit → ℕ
rate_ceiling p percent_l1 = p.max_percent_l1
rate_ceiling p pps = p.max_pps
rate_ceiling p bps_l1 = p.max_bps_l1
rate_ceiling p bps_l2 = p.max_bps_l2

pub data IpAddress : Type 0 where
  address4 address6 : ℕ → IpAddress

-- a value or its variation, of which the mode does not matter here
pub data Variation {ℓ} (A : Type ℓ) : Type ℓ where
  one : A → Variation A
  between : A → A → Variation A

-- `IPv4Header` and `IPv6Header`
pub record IpHeader : Type 0 where
  pub src : Variation IpAddress
  pub dst : Variation IpAddress

pub record Packet : Type 0 where
  pub ethernet_src : Variation (List ℕ)
  pub ethernet_dst : Variation (List ℕ)
  pub ipv4 : Option IpHeader
  pub ipv6 : Option IpHeader

pub record Ports : Type 0 where
  pub tx : ℕ
  pub rx : ℕ
  pub bidirectional : Bool

pub record JobLimits : Type 0 where
  pub port_wait_timeout : ℕ
  pub job_timeout : ℕ

-- `ResolvedTrafficStream`
pub record Stream : Type 0 where
  pub tx : ℕ
  pub rx : ℕ
  pub packet : Packet
  pub rate : Rate

pub record StatelessTraffic : Type 0 where
  pub ports : Ports
  pub limits : JobLimits
  pub packet : Packet
  pub rate : Rate
  pub duration : Option ℕ
  pub burst_packets : Option ℕ
  pub streams : List Stream

-- `CaptureBinding`
pub record Capture : Type 0 where
  pub size : ℕ
  pub packet_count : ℕ
  pub normalized_duration : ℕ
  pub mac_endpoints : List (List ℕ)
  pub ipv4_endpoints : List IpAddress
  pub has_broadcast : Bool
  pub has_multicast : Bool

pub data ReplayAddress : Type 0 where
  rewrite : List ℕ → List ℕ → IpAddress → IpAddress → ReplayAddress
  preserve : ℕ → ReplayAddress

pub data ReplayTiming : Type 0 where
  capture_timing : ℕ → ReplayTiming
  fixed_rate : Rate → ReplayTiming
  top_speed : ReplayTiming

pub record PcapReplay : Type 0 where
  pub ports : Ports
  pub limits : JobLimits
  pub capture : Capture
  pub address : ReplayAddress
  pub timing : ReplayTiming

-- `Ipv4Pool` and `TransportPortPool`: the first and the last
pub record Pool : Type 0 where
  pub start : ℕ
  pub end : ℕ

pub record StatefulReplay : Type 0 where
  pub limits : JobLimits
  pub client_port : ℕ
  pub client_pool : Pool
  pub client_transport_ports : Pool
  pub server_port : ℕ
  pub server_pool : Pool
  pub cps : ℕ
  pub max_active_connections : ℕ
  pub duration : ℕ

-- `DatagramReplayRole`
pub record Role : Type 0 where
  pub port : ℕ
  pub mac : List ℕ
  pub ipv4 : IpAddress

pub record UdpWorkload : Type 0 where
  pub limits : JobLimits
  pub initiator : Role
  pub responder : Role
  pub estimated_pps : ℕ
  pub estimated_bps_l1 : ℕ
  pub duration : ℕ

pub data StormSpec : Type 0 where
  dns : Role → Role → Pool → StormSpec
  dhcp : ℕ → ℕ → List ℕ → List ℕ → ℕ → StormSpec
  arp : ℕ → ℕ → List ℕ → List ℕ → IpAddress → IpAddress → ℕ → IpAddress → StormSpec

pub record PacketStorm : Type 0 where
  pub limits : JobLimits
  pub spec : StormSpec
  pub isolated_lab : Bool
  pub rate : ℕ
  pub wire_size : ℕ
  pub duration : ℕ

-- `Rfc2544ThroughputSpec`
pub record Rfc2544Spec : Type 0 where
  pub ports : Ports
  pub limits : JobLimits
  pub packet : Packet
  pub reverse_packet : Option Packet

-- `Rfc2544SuiteSpec`. The validation reads neither the packet of the latency trials nor the longest
-- burst of the back-to-back ones.
pub record Rfc2544Suite : Type 0 where
  pub throughput : Rfc2544Spec
  pub new_destination_packet : Option Packet
  pub maximum_burst_frames : Option ℕ

pub data JobDocument : Type 0 where
  stateless : StatelessTraffic → JobDocument
  pcap_replay : PcapReplay → JobDocument
  stateful_replay : StatefulReplay → JobDocument
  udp_workload : UdpWorkload → JobDocument
  packet_storm : PacketStorm → JobDocument
  rfc2544_throughput : Rfc2544Spec → JobDocument
  rfc2544_suite : Rfc2544Suite → JobDocument

-- the codes of the errors that `_validate_policy` raises
pub data PolicyError : Type 0 where
  unsafe_request capability_mismatch address_pool_exhausted port_pool_exhausted : PolicyError
