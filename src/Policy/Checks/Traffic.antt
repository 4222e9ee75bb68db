-- ===== src/Policy/Checks/Traffic.antt =====
-- The checks of `_validate_policy` in src/trex_cli/jobs.py above those of the logical ports: the
-- rates of a stateless test, and the timing of a replay.
use trex_cli.Prelude.{
  ℕ, ◌+◌, ◌*◌, Bool, true, false, ◌&&◌, ◌||◌, not, Option, none, some, List, [], ◌∷◌, ltb, ◌==◌,
  if◌then◌else◌,
}
use trex_cli.Policy.{
  scale, RateUnit, percent_l1, bps_l1, bps_l2, pps, Rate, SafetyPolicy, rate_ceiling, JobLimits,
  Stream, StatelessTraffic, Capture, ReplayAddress, rewrite, preserve, ReplayTiming, capture_timing,
  fixed_rate, top_speed, PcapReplay, JobDocument, stateless, pcap_replay, stateful_replay,
  udp_workload, packet_storm, rfc2544_throughput, rfc2544_suite, PolicyError, unsafe_request,
}

-- `if test: raise error`, and what follows it
unfoldable pub refuse_if : Bool → PolicyError → Option PolicyError → Option PolicyError
refuse_if true e rest = some e
refuse_if false e rest = rest

unfoldable pub limits_of : JobDocument → JobLimits
limits_of (stateless d) = d.limits
limits_of (pcap_replay d) = d.limits
limits_of (stateful_replay d) = d.limits
limits_of (udp_workload d) = d.limits
limits_of (packet_storm d) = d.limits
limits_of (rfc2544_throughput d) = d.limits
limits_of (rfc2544_suite d) = d.throughput.limits

-- `value is not None and value > limit`
unfoldable pub exceeds : Option ℕ → ℕ → Bool
exceeds none limit = false
exceeds (some v) limit = ltb limit v

unfoldable pub unit_index : RateUnit → ℕ
unit_index percent_l1 = 0
unit_index bps_l1 = 1
unit_index bps_l2 = 2
unit_index pps = 3

unfoldable pub same_unit : RateUnit → RateUnit → Bool
same_unit a b = unit_index a == unit_index b

-- `rates_by_egress[key] = rates_by_egress.get(key, 0.0) + value`
unfoldable pub add_rate : ℕ → RateUnit → ℕ → List ((ℕ × RateUnit) × ℕ) → List ((ℕ × RateUnit) × ℕ)
add_rate egress unit value [] = ((egress, unit), value) ∷ []
add_rate egress unit value (((e, u), v) ∷ rest) =
    let further = add_rate egress unit value rest in
    if e == egress && same_unit u unit then ((e, u), v + value) ∷ rest else ((e, u), v) ∷ further

unfoldable pub stream_rates : List Stream → List ((ℕ × RateUnit) × ℕ) → List ((ℕ × RateUnit) × ℕ)
stream_rates [] table = table
stream_rates (s ∷ ss) table = stream_rates ss (add_rate s.tx s.rate.unit s.rate.value table)

unfoldable pub set_rate : ℕ → RateUnit → ℕ → List ((ℕ × RateUnit) × ℕ) → List ((ℕ × RateUnit) × ℕ)
set_rate egress unit value [] = ((egress, unit), value) ∷ []
set_rate egress unit value (((e, u), v) ∷ rest) =
    let further = set_rate egress unit value rest in
    if e == egress && same_unit u unit then ((e, u), value) ∷ rest else ((e, u), v) ∷ further

-- the rates of a document without streams
unfoldable pub port_rates : StatelessTraffic → List ((ℕ × RateUnit) × ℕ)
port_rates d =
    if d.ports.bidirectional
    then set_rate d.ports.rx d.rate.unit d.rate.value
        (set_rate d.ports.tx d.rate.unit d.rate.value [])
    else set_rate d.ports.tx d.rate.unit d.rate.value []

unfoldable pub document_rates : StatelessTraffic → List Stream → List ((ℕ × RateUnit) × ℕ)
document_rates d [] = port_rates d
document_rates d (s ∷ ss) = stream_rates (s ∷ ss) []

unfoldable pub rates_exceed : SafetyPolicy → List ((ℕ × RateUnit) × ℕ) → Bool
rates_exceed policy [] = false
rates_exceed policy (((e, u), v) ∷ rest) = ltb (rate_ceiling policy u) v || rates_exceed policy rest

-- `if document.kind == "StatelessTraffic"`
unfoldable pub check_stateless :
    SafetyPolicy → StatelessTraffic → Option PolicyError → Option PolicyError
check_stateless policy d rest =
    refuse_if (exceeds d.duration policy.max_run_duration) unsafe_request (
      refuse_if (exceeds d.duration d.limits.job_timeout) unsafe_request (
        refuse_if (exceeds d.burst_packets policy.max_burst_packets) unsafe_request
          (refuse_if (rates_exceed policy (document_rates d d.streams)) unsafe_request rest)))

-- `estimated_seconds` as a fraction; `none` is the unit that is refused
unfoldable pub estimated_seconds : Capture → Rate → RateUnit → Option (ℕ × ℕ)
estimated_seconds c r pps = some (c.packet_count * scale, r.value)
estimated_seconds c r bps_l2 = some (c.size * 8 * scale, r.value)
estimated_seconds c r bps_l1 = some ((c.size + 24 * c.packet_count) * 8 * scale, r.value)
estimated_seconds c r percent_l1 = none

-- `estimated_seconds * 1_000 > max_run_duration`
unfoldable pub too_long : Option (ℕ × ℕ) → ℕ → Bool
too_long none limit = true
too_long (some (n, d)) limit = ltb (limit * d) (n * 1000)

unfoldable pub check_timing : SafetyPolicy → Capture → ReplayTiming → Bool
check_timing policy c (fixed_rate r) =
    ltb (rate_ceiling policy r.unit) r.value
    || too_long (estimated_seconds c r r.unit) policy.max_run_duration
check_timing policy c (capture_timing multiplier) =
    ltb policy.max_percent_l1 (100 * scale)
    || too_long (some (c.normalized_duration, multiplier)) policy.max_run_duration
check_timing policy c top_speed = ltb policy.max_percent_l1 (100 * scale)

unfoldable pub preserve_refused : SafetyPolicy → Capture → ReplayAddress → Bool
preserve_refused policy c (preserve version) =
    not (version == policy.version) || c.has_broadcast || c.has_multicast
preserve_refused policy c (rewrite source_mac destination_mac source_ip destination_ip) = false

unfoldable pub check_replay : SafetyPolicy → PcapReplay → Option PolicyError → Option PolicyError
check_replay policy d rest =
    refuse_if (check_timing policy d.capture d.timing) unsafe_request
      (refuse_if (preserve_refused policy d.capture d.address) unsafe_request rest)

-- the checks above those of the logical ports
unfoldable pub check_rates : SafetyPolicy → JobDocument → Option PolicyError → Option PolicyError
check_rates policy (stateless d) rest = check_stateless policy d rest
check_rates policy (pcap_replay d) rest = check_replay policy d rest
check_rates policy _ rest = rest
