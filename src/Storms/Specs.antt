-- ===== src/Storms/Specs.antt =====
-- The validators of packet storms in src/trex_cli/models.py, on the fields that they read, and
-- `arp_sender_ipv4_end` of src/trex_cli/arp_storm.py. A rate is in millionths, exact; a port is a
-- number that stands for its name.
use trex_cli.Prelude.{
  ℕ, ◌+◌, ◌-◌, ◌*◌, ◌^◌, Bool, false, ◌&&◌, ◌||◌, not, Option, none, some, List, [], ◌∷◌, map, ltb,
  leb, ◌==◌, if◌then◌else◌, lower_char,
}
use trex_cli.Storms.Mac.{dhcp_client_mac_end, same_text}
use trex_cli.Storms.Dns.{QueryType, encode_dns_query, wire_size}
use trex_cli.Storms.Dhcp.{encode_dhcp_discover}

-- `DurationMs` values: an integer of milliseconds, a text, or what is refused at once: a negative
-- integer, a Boolean, or another type
pub data DurationValue : Type 0 where
  milliseconds : ℕ → DurationValue
  duration_text : List ℕ → DurationValue
  other_value : DurationValue

unfoldable pub is_digit : ℕ → Bool
is_digit c = leb b'0' c && leb c b'9'

-- `{"ms": 1, "s": 1_000, "m": 60_000, "h": 3_600_000}`
unfoldable pub unit_of : List ℕ → Option ℕ
unit_of suffix =
    if same_text suffix (b'm' ∷ b's' ∷ [])
    then some 1
    else (if same_text suffix (b's' ∷ [])
        then some 1000
        else (if same_text suffix (b'm' ∷ [])
            then some 60000
            else (if same_text suffix (b'h' ∷ []) then some 3600000 else none)))

unfoldable pub times_unit : ℕ → Option ℕ → Option ℕ
times_unit n none = none
times_unit n (some unit) = some (n * unit)

-- `^(\d+)(ms|s|m|h)$` on ASCII text, behind a digit, with the number of the digits before
unfoldable pub duration_rest : ℕ → List ℕ → Option ℕ
duration_rest n [] = none
duration_rest n (c ∷ cs) =
    let further = duration_rest (n * 10 + (c - b'0')) cs in
    if is_digit c then further else times_unit n (unit_of (c ∷ cs))

unfoldable pub parse_duration_text : List ℕ → Option ℕ
parse_duration_text [] = none
parse_duration_text (c ∷ cs) = if is_digit c then duration_rest (c - b'0') cs else none

-- `_parse_duration`
unfoldable pub parse_duration : DurationValue → Option ℕ
parse_duration (milliseconds n) = some n
parse_duration (duration_text value) = parse_duration_text value
parse_duration other_value = none

-- `PacketStormRun`
pub record StormRun : Type 0 where
  pub pps : ℕ
  pub wire_bytes : ℕ
  pub estimated_bps_l1 : ℕ
  pub duration : ℕ

-- `pps * (wire_size + 20) * 8`
unfoldable pub derived_bps_l1 : StormRun → ℕ
derived_bps_l1 r = r.pps * (r.wire_bytes + 20) * 8

-- `abs(a - b)`
unfoldable pub distance : ℕ → ℕ → ℕ
distance a b = (a - b) + (b - a)

-- `PacketStormRun` with `positive_duration`: a difference of at most a billionth, or a millionth
unfoldable pub run_valid : StormRun → Bool
run_valid r =
    ltb 0 r.pps
    && leb 64 r.wire_bytes
    && leb r.wire_bytes 512
    && ltb 0 r.estimated_bps_l1
    && ltb 0 r.duration
    && (leb (distance r.estimated_bps_l1 (derived_bps_l1 r)) 1
        || leb (distance r.estimated_bps_l1 (derived_bps_l1 r) * 10 ^ 9) (derived_bps_l1 r))

-- `DnsStormSpec`
pub record DnsSpec : Type 0 where
  pub client_port : ℕ
  pub server_port : ℕ
  pub source_start : ℕ
  pub source_end : ℕ
  pub question_name : List ℕ
  pub question_type : QueryType
  pub recursion_desired : Bool
  pub run : StormRun

unfoldable pub sized : Option (List ℕ) → ℕ → Bool
sized none wire_bytes = false
sized (some payload) wire_bytes = wire_bytes == wire_size payload

-- `DnsStormSpec.distinct_ports` and `DnsStormClient.ordered_source_ports`
unfoldable pub dns_valid : DnsSpec → Bool
dns_valid s =
    leb 1024 s.source_start
    && leb s.source_end 65535
    && leb s.source_start s.source_end
    && run_valid s.run
    && not (s.client_port == s.server_port)
    && sized (encode_dns_query s.question_name s.question_type s.recursion_desired 0)
        s.run.wire_bytes

-- `source_port_count`
unfoldable pub source_port_count : DnsSpec → ℕ
source_port_count s = s.source_end + 1 - s.source_start

-- `DhcpStormSpec`
pub record DhcpSpec : Type 0 where
  pub clients_port : ℕ
  pub server_port : ℕ
  pub mac_start : List ℕ
  pub mac_end : List ℕ
  pub count : ℕ
  pub run : StormRun

unfoldable pub is_end : List ℕ → Option (List ℕ) → Bool
is_end text none = false
is_end text (some expected) = same_text (map lower_char text) expected

-- `DhcpStormClients.consistent_pool`
unfoldable pub consistent_pool : DhcpSpec → Bool
consistent_pool s = leb 1 s.count && is_end s.mac_end (dhcp_client_mac_end s.mac_start s.count)

-- `DhcpStormSpec.distinct_ports`
unfoldable pub dhcp_valid : DhcpSpec → Bool
dhcp_valid s =
    consistent_pool s
    && run_valid s.run
    && not (s.clients_port == s.server_port)
    && sized (encode_dhcp_discover s.mac_start 0) s.run.wire_bytes

-- `arp_sender_ipv4_end`, with the parser and the printer of `ipaddress.IPv4Address`
module _ (address_of : List ℕ → Option ℕ) (address_text : ℕ → List ℕ) where
  unfoldable pub address_end : Option ℕ → ℕ → Option (List ℕ)
  address_end none count = none
  address_end (some start) count =
      let last = start + count - 1 in
      if ltb count 1
      then none
      else (if ltb 0xffff_ffff last then none else some (address_text last))

  unfoldable pub arp_sender_ipv4_end : List ℕ → ℕ → Option (List ℕ)
  arp_sender_ipv4_end ipv4_start count = address_end (address_of ipv4_start) count
