-- ===== src/Policy/Refusals.antt =====
-- What the errors of `_validate_policy` in src/trex_cli/jobs.py mean.
use mathlib.Core.Path.{subst}
use trex_cli.Prelude.{
  ◌<◌, ℕ, ◌*◌, ◌≡◌, refl, ◌⊎◌, inl, inr, Bool, true, false, not, Option, some, List, [], ◌∷◌, arith,
  Bool-cases, Member,
}
use trex_cli.Policy.{
  SafetyPolicy, PcapReplay, StatefulReplay, UdpWorkload, StormSpec, dns, dhcp, arp, PacketStorm,
  JobDocument, stateless, pcap_replay, stateful_replay, udp_workload, packet_storm,
  rfc2544_throughput, rfc2544_suite, PolicyError, unsafe_request, capability_mismatch,
  address_pool_exhausted, port_pool_exhausted,
}
use trex_cli.Policy.Checks.{
  refuse_if, check_stateless, check_replay, check_rates, logical_ports, all_configured, cardinality,
  pool_refused, check_stateful, check_roles, check_udp, check_storm_spec, check_storm,
  check_replay_addresses, check_document, validate_policy,
}
use trex_cli.Policy.Checks.{has_port}

-- A port that the document names and the agent does not have.
abbrev pub UnknownPort : List ℕ → JobDocument → Type 0
UnknownPort configured document =
    (p : ℕ) × (Member p (logical_ports document) × (Member p configured → ⊥))

-- The pool, or the count of identities, that is too large.
abbrev pub StormReason : SafetyPolicy → StormSpec → PolicyError → Type 0
StormReason policy (dns c s pool) port_pool_exhausted =
    policy.max_address_pool_size < cardinality pool
StormReason policy (dhcp clients server mac_start mac_end count) address_pool_exhausted =
    policy.max_address_pool_size < count
StormReason policy (arp senders target mac_start mac_end ip_start ip_end count ip)
      address_pool_exhausted =
    policy.max_address_pool_size < count
StormReason policy _ _ = ⊥

abbrev pub PoolReason : SafetyPolicy → JobDocument → PolicyError → Type 0
PoolReason policy (stateful_replay d) address_pool_exhausted =
    (policy.max_address_pool_size < cardinality d.client_pool)
    ⊎ (policy.max_address_pool_size < cardinality d.server_pool)
PoolReason policy (stateful_replay d) port_pool_exhausted =
    cardinality d.client_pool * cardinality d.client_transport_ports < d.max_active_connections
PoolReason policy (packet_storm d) e = StormReason policy d.spec e
PoolReason policy _ _ = ⊥

abbrev pub Reason : SafetyPolicy → List ℕ → JobDocument → PolicyError → Type 0
Reason policy configured document unsafe_request = Unit
Reason policy configured document capability_mismatch = UnknownPort configured document
Reason policy configured document address_pool_exhausted =
    PoolReason policy document address_pool_exhausted
Reason policy configured document port_pool_exhausted =
    PoolReason policy document port_pool_exhausted

refuse_if-some :
    (b : Bool) (e : PolicyError) (rest : Option PolicyError) (x : PolicyError)
    → refuse_if b e rest ≡ some x
    → ((b ≡ true) × (e ≡ x)) ⊎ (rest ≡ some x)
unfolding refuse_if
refuse_if-some true e rest x h = inl (refl, cc h)
refuse_if-some false e rest x h = inr h

-- The checks of rates, timings and preserved addresses raise UNSAFE_REQUEST only.
check_rates_error :
    (policy : SafetyPolicy) (document : JobDocument) (rest : Option PolicyError) (x : PolicyError)
    → check_rates policy document rest ≡ some x
    → (unsafe_request ≡ x) ⊎ (rest ≡ some x)
unfolding check_rates check_stateless check_replay refuse_if
check_rates_error policy (stateless d) rest x h = ground arith
check_rates_error policy (pcap_replay d) rest x h = ground arith
check_rates_error policy (stateful_replay d) rest x h = inr h
check_rates_error policy (udp_workload d) rest x h = inr h
check_rates_error policy (packet_storm d) rest x h = inr h
check_rates_error policy (rfc2544_throughput d) rest x h = inr h
check_rates_error policy (rfc2544_suite d) rest x h = inr h

-- The error of a check, or of what follows it.
abbrev Blames : (PolicyError → Type 0) → Option PolicyError → PolicyError → Type 0
Blames P rest x = (unsafe_request ≡ x) ⊎ P x ⊎ (rest ≡ some x)

check_stateful_error :
    (policy : SafetyPolicy) (d : StatefulReplay) (rest : Option PolicyError) (x : PolicyError)
    → check_stateful policy d rest ≡ some x
    → Blames (PoolReason policy (stateful_replay d)) rest x
unfolding check_stateful pool_refused refuse_if
check_stateful_error policy d rest unsafe_request h = inl refl
check_stateful_error policy d rest capability_mismatch h = inr (inr (ground arith))
check_stateful_error policy d rest address_pool_exhausted h = ground arith
check_stateful_error policy d rest port_pool_exhausted h = ground arith

check_storm_spec_error :
    (policy : SafetyPolicy) (s : StormSpec) (rest : Option PolicyError) (x : PolicyError)
    → check_storm_spec policy s rest ≡ some x
    → Blames (StormReason policy s) rest x
unfolding check_storm_spec check_roles refuse_if
check_storm_spec_error policy s rest unsafe_request h = inl refl
check_storm_spec_error policy (dns c s pool) rest capability_mismatch h = inr (inr (ground arith))
check_storm_spec_error policy (dns c s pool) rest address_pool_exhausted h =
    inr (inr (ground arith))
check_storm_spec_error policy (dns c s pool) rest port_pool_exhausted h = ground arith
check_storm_spec_error policy (dhcp a b s e n) rest capability_mismatch h = inr (inr (ground arith))
check_storm_spec_error policy (dhcp a b s e n) rest address_pool_exhausted h = ground arith
check_storm_spec_error policy (dhcp a b s e n) rest port_pool_exhausted h = inr (inr (ground arith))
check_storm_spec_error policy (arp a b s e i j n ip) rest capability_mismatch h =
    inr (inr (ground arith))
check_storm_spec_error policy (arp a b s e i j n ip) rest address_pool_exhausted h = ground arith
check_storm_spec_error policy (arp a b s e i j n ip) rest port_pool_exhausted h =
    inr (inr (ground arith))

check_storm_error :
    (policy : SafetyPolicy) (d : PacketStorm) (rest : Option PolicyError) (x : PolicyError)
    → check_storm policy d rest ≡ some x
    → Blames (StormReason policy d.spec) rest x
unfolding check_storm refuse_if
check_storm_error policy d rest x h =
    let spec : (unsafe_request ≡ x) ⊎ (check_storm_spec policy d.spec rest ≡ some x) =
      ground arith in
    elim spec [ inl e ↦ inl e | inr more ↦ check_storm_spec_error policy d.spec rest x more ]

udp_error :
    (policy : SafetyPolicy) (d : UdpWorkload) (rest : Option PolicyError) (x : PolicyError)
    → check_udp policy d rest ≡ some x
    → (unsafe_request ≡ x) ⊎ (rest ≡ some x)
unfolding check_udp check_roles refuse_if
udp_error policy d rest x h = ground arith

replay_error :
    (policy : SafetyPolicy) (d : PcapReplay) (rest : Option PolicyError) (x : PolicyError)
    → check_replay_addresses policy d rest ≡ some x
    → (unsafe_request ≡ x) ⊎ (rest ≡ some x)
unfolding check_replay_addresses refuse_if
replay_error policy d rest x h = ground arith

check_document_error :
    (policy : SafetyPolicy) (document : JobDocument) (rest : Option PolicyError) (x : PolicyError)
    → check_document policy document rest ≡ some x
    → Blames (PoolReason policy document) rest x
unfolding check_document check_udp check_roles check_replay_addresses refuse_if
check_document_error policy (stateless d) rest x h = inr (inr h)
check_document_error policy (pcap_replay d) rest x h = elim (replay_error policy d rest x h) [
  | inl e ↦ inl e
  | inr e ↦ inr (inr e)
]
check_document_error policy (stateful_replay d) rest x h = check_stateful_error policy d rest x h
check_document_error policy (udp_workload d) rest x h = elim (udp_error policy d rest x h) [
  | inl e ↦ inl e
  | inr e ↦ inr (inr e)
]
check_document_error policy (packet_storm d) rest x h = check_storm_error policy d rest x h
check_document_error policy (rfc2544_throughput d) rest x h = inr (inr h)
check_document_error policy (rfc2544_suite d) rest x h = inr (inr h)

not_has_port : (p : ℕ) (ps : List ℕ) → has_port p ps ≡ false → Member p ps → ⊥
unfolding has_port
not_has_port p [] h m = m
not_has_port p (q ∷ qs) h (inl e) = ground arith
not_has_port p (q ∷ qs) h (inr m) = not_has_port p qs (ground arith) m

missing_port :
    (configured ps : List ℕ)
    → all_configured configured ps ≡ false
    → (p : ℕ) × (Member p ps × (Member p configured → ⊥))
unfolding all_configured
missing_port configured [] h = absurd (cc h)
missing_port configured (p ∷ ps) h = elim (Bool-cases (has_port p configured)) [
  | inr gone ↦ (p, (inl refl, not_has_port p configured gone))
  | inl here ↦
      let (q, (at, gone)) = missing_port configured ps (ground arith) in (q, (inr at, gone))
]

no_storm_capability :
    (policy : SafetyPolicy) (s : StormSpec) → StormReason policy s capability_mismatch → ⊥
no_storm_capability policy (dns c s pool) r = r
no_storm_capability policy (dhcp a b s e n) r = r
no_storm_capability policy (arp a b s e i j n ip) r = r

no_capability :
    (policy : SafetyPolicy) (document : JobDocument)
    → PoolReason policy document capability_mismatch
    → ⊥
no_capability policy (stateless d) r = r
no_capability policy (pcap_replay d) r = r
no_capability policy (stateful_replay d) r = r
no_capability policy (udp_workload d) r = r
no_capability policy (packet_storm d) r = no_storm_capability policy d.spec r
no_capability policy (rfc2544_throughput d) r = r
no_capability policy (rfc2544_suite d) r = r

not-true : (b : Bool) → not b ≡ true → b ≡ false
not-true b h = ground arith

pool-Reason :
    (policy : SafetyPolicy) (configured : List ℕ) (document : JobDocument) (x : PolicyError)
    → PoolReason policy document x
    → Reason policy configured document x
pool-Reason policy configured document unsafe_request r = tt
pool-Reason policy configured document address_pool_exhausted r = r
pool-Reason policy configured document port_pool_exhausted r = r
pool-Reason policy configured document capability_mismatch r =
    absurd (no_capability policy document r)

unsafe-Reason :
    (policy : SafetyPolicy) (configured : List ℕ) (document : JobDocument) (x : PolicyError)
    → unsafe_request ≡ x
    → Reason policy configured document x
unsafe-Reason policy configured document x e = subst (Reason policy configured document) e tt

-- CAPABILITY_MISMATCH is raised only for a document with a port that is not configured,
-- ADDRESS_POOL_EXHAUSTED only for a stateful replay with an address pool, or a DHCP or ARP storm
-- with a count of identities, above the policy's maximum, and PORT_POOL_EXHAUSTED only for a
-- stateful replay with more connections than addresses times ports, or a DNS storm with more source
-- ports than the maximum.
pub validate_policy-Reason :
    (policy : SafetyPolicy) (configured : List ℕ) (document : JobDocument) (x : PolicyError)
    → validate_policy policy configured document ≡ some x
    → Reason policy configured document x
unfolding validate_policy
validate_policy-Reason policy configured document x h = elim (refuse_if-some _ _ _ x h) [
  | inl (_, e) ↦ unsafe-Reason policy configured document x e
  | inr h1 ↦ elim (refuse_if-some _ _ _ x h1) [
    | inl (_, e) ↦ unsafe-Reason policy configured document x e
    | inr h2 ↦ elim (check_rates_error policy document _ x h2) [
      | inl e ↦ unsafe-Reason policy configured document x e
      | inr h3 ↦ elim (refuse_if-some _ _ _ x h3) [
        | inl (missing, e) ↦
            subst (Reason policy configured document) e
              (missing_port configured (logical_ports document) (not-true _ missing))
        | inr h4 ↦ elim (check_document_error policy document _ x h4) [
          | inl e ↦ unsafe-Reason policy configured document x e
          | inr (inl r) ↦ pool-Reason policy configured document x r
          | inr (inr h5) ↦ elim (refuse_if-some _ _ _ x h5) [
            | inl (_, e) ↦ unsafe-Reason policy configured document x e
            | inr none_left ↦ absurd (cc none_left)
          ]
        ]
      ]
    ]
  ]
]
