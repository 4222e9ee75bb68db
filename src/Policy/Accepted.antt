-- ===== src/Policy/Accepted.antt =====
-- The checks of `_validate_policy` in src/trex_cli/jobs.py, kind by kind: what it means that one passes.
use trex_cli.Prelude.{
  ℕ, ◌≤◌, ◌≡◌, refl, Bool, true, false, not, Option, none, some, List, [], ◌∷◌, arith,
}
use trex_cli.AddressPolicy.Networks.{RangeAllowed, ipv4_range_allowed_iff}
use trex_cli.Policy.{
  SafetyPolicy, rate_ceiling, Stream, StatelessTraffic, Capture, ReplayAddress, rewrite, preserve,
  ReplayTiming, capture_timing, fixed_rate, top_speed, Pool, StatefulReplay, Role, UdpWorkload,
  PolicyError,
}
use trex_cli.Policy.Checks.{
  refuse_if, exceeds, rates_exceed, document_rates, port_rates, set_rate, check_stateless,
  estimated_seconds, too_long, check_timing, preserve_refused, cardinality, pool_refused,
  check_stateful, check_roles, check_udp, same_unit,
}
use trex_cli.Policy.Rates.{egress_total-le}
use trex_cli.Policy.Scope.{all_macs-MacsInScope, all_ips-IpsInScope}
use trex_cli.Policy.Compliance.{
  AtMost, RatesWithin, StatelessComplies, InTime, TimingComplies, PreserveComplies,
  StatefulComplies, RolesComply, UdpComplies,
}

pub refuse_if-none :
    (b : Bool) (e : PolicyError) (rest : Option PolicyError)
    → refuse_if b e rest ≡ none
    → (b ≡ false) × (rest ≡ none)
unfolding refuse_if
refuse_if-none true e rest h = absurd (cc h)
refuse_if-none false e rest h = (refl, h)

exceeds-AtMost : (o : Option ℕ) (limit : ℕ) → exceeds o limit ≡ false → AtMost o limit
unfolding exceeds
exceeds-AtMost none limit h = tt
exceeds-AtMost (some v) limit h = ground arith

port_rates_within :
    (policy : SafetyPolicy) (d : StatelessTraffic)
    → rates_exceed policy (port_rates d) ≡ false
    → d.rate.value ≤ rate_ceiling policy d.rate.unit
unfolding rates_exceed port_rates set_rate same_unit
port_rates_within policy d h = ground arith

rates-RatesWithin :
    (policy : SafetyPolicy) (d : StatelessTraffic) (ss : List Stream)
    → rates_exceed policy (document_rates d ss) ≡ false
    → RatesWithin policy d ss
unfolding document_rates
rates-RatesWithin policy d [] h = port_rates_within policy d h
rates-RatesWithin policy d (s ∷ ss) h = λ e u. egress_total-le policy (s ∷ ss) e u h

pub stateless-Complies :
    (policy : SafetyPolicy) (d : StatelessTraffic) (rest : Option PolicyError)
    → check_stateless policy d rest ≡ none
    → StatelessComplies policy d × (rest ≡ none)
unfolding check_stateless
stateless-Complies policy d rest h =
    let (a, h1) = refuse_if-none _ _ _ h in
    let (b, h2) = refuse_if-none _ _ _ h1 in
    let (c, h3) = refuse_if-none _ _ _ h2 in
    let (r, h4) = refuse_if-none _ _ _ h3 in
    (
      record {
        run = exceeds-AtMost d.duration policy.max_run_duration a;
        job = exceeds-AtMost d.duration d.limits.job_timeout b;
        burst = exceeds-AtMost d.burst_packets policy.max_burst_packets c;
        rates = rates-RatesWithin policy d d.streams r;
      },
      h4,
    )

too_long-InTime : (o : Option (ℕ × ℕ)) (limit : ℕ) → too_long o limit ≡ false → InTime o limit
unfolding too_long
too_long-InTime none limit h = absurd (cc h)
too_long-InTime (some (n, d)) limit h = ground arith

pub timing-Complies :
    (policy : SafetyPolicy) (c : Capture) (t : ReplayTiming)
    → check_timing policy c t ≡ false
    → TimingComplies policy c t
unfolding check_timing too_long
timing-Complies policy c (fixed_rate r) h = (
  ground arith,
  too_long-InTime (estimated_seconds c r r.unit) policy.max_run_duration (ground arith),
)
timing-Complies policy c (capture_timing multiplier) h = ground arith
timing-Complies policy c top_speed h = ground arith

pub preserve-Complies :
    (policy : SafetyPolicy) (c : Capture) (a : ReplayAddress)
    → preserve_refused policy c a ≡ false
    → PreserveComplies policy c a
unfolding preserve_refused
preserve-Complies policy c (preserve version) h = ground arith
preserve-Complies policy c (rewrite source_mac destination_mac source_ip destination_ip) h = tt

pub not-false : (b : Bool) → not b ≡ false → b ≡ true
not-false b h = ground arith

pool-Complies :
    (policy : SafetyPolicy) (p : Pool) (rest : Option PolicyError)
    → pool_refused policy p rest ≡ none
    → (cardinality p ≤ policy.max_address_pool_size)
      × (RangeAllowed p.start p.end policy.allowed_cidrs × (rest ≡ none))
unfolding pool_refused
pool-Complies policy p rest h =
    let (a, h1) = refuse_if-none _ _ _ h in
    let (b, h2) = refuse_if-none _ _ _ h1 in
    (
      ground arith,
      ((ipv4_range_allowed_iff p.start p.end policy.allowed_cidrs).0 (not-false _ b), h2),
    )

pub stateful-Complies :
    (policy : SafetyPolicy) (d : StatefulReplay) (rest : Option PolicyError)
    → check_stateful policy d rest ≡ none
    → StatefulComplies policy d × (rest ≡ none)
unfolding check_stateful
stateful-Complies policy d rest h =
    let (a, h1) = refuse_if-none _ _ _ h in
    let (b, h2) = refuse_if-none _ _ _ h1 in
    let (c, h3) = refuse_if-none _ _ _ h2 in
    let (client_size, client_more) = pool-Complies policy d.client_pool _ h3 in
    let (server_size, server_more) = pool-Complies policy d.server_pool _ client_more.1 in
    let (e, h6) = refuse_if-none _ _ _ server_more.1 in
    (
      record {
        run = ground arith;
        cps = ground arith;
        active = ground arith;
        client_size = client_size;
        client_range = client_more.0;
        server_size = server_size;
        server_range = server_more.0;
        capacity = ground arith;
      },
      h6,
    )

pub roles-Complies :
    (policy : SafetyPolicy) (a b : Role) (rest : Option PolicyError)
    → check_roles policy a b rest ≡ none
    → RolesComply policy a b × (rest ≡ none)
unfolding check_roles
roles-Complies policy a b rest h =
    let (macs, h1) = refuse_if-none _ _ _ h in
    let (ips, h2) = refuse_if-none _ _ _ h1 in
    (
      (
        all_macs-MacsInScope policy (a.mac ∷ b.mac ∷ []) macs,
        all_ips-IpsInScope policy (a.ipv4 ∷ b.ipv4 ∷ []) (not-false _ ips),
      ),
      h2,
    )

pub udp-Complies :
    (policy : SafetyPolicy) (d : UdpWorkload) (rest : Option PolicyError)
    → check_udp policy d rest ≡ none
    → UdpComplies policy d × (rest ≡ none)
unfolding check_udp
udp-Complies policy d rest h =
    let (a, h1) = refuse_if-none _ _ _ h in
    let (b, h2) = refuse_if-none _ _ _ h1 in
    let (c, h3) = refuse_if-none _ _ _ h2 in
    let (roles, h4) = roles-Complies policy d.initiator d.responder rest h3 in
    (record { run = ground arith; packets = ground arith; bits = ground arith; roles = roles }, h4)
