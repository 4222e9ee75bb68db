-- ===== src/Sessions.antt =====
-- The analysis of TCP sessions while a capture is scanned, src/trex_cli/session_analysis.py:
-- `_Flow` and `StatefulSessionAnalyzer.observe`. A packet is what dpkt has decoded; an IPv4 address
-- and a byte are numbers.
pub mod Table
pub mod Totals
pub mod Sums
pub mod Keys
pub mod Bounds
pub mod Captures
mod Examples
use trex_cli.Prelude.{
  ℕ, ◌+◌, Bool, true, false, ◌&&◌, ◌||◌, not, Option, none, some, List, [], ◌∷◌, ◌++◌, ◌==◌, ltb,
  if◌then◌else◌, length,
}

-- an address and a port
pub record Endpoint : Type 0 where
  pub ip : ℕ
  pub port : ℕ

pub data Direction : Type 0 where
  client server : Direction

-- The texts that `_Flow.issue` is called with.
pub data Issue : Type 0 where
  no_client_syn conflicting_client syn_ack_in_client session_limit total_limit : Issue
  before_handshake retransmission gap : Direction → Issue

pub record Packet : Type 0 where
  pub source : Endpoint
  pub destination : Endpoint
  pub syn : Bool
  pub ack : Bool
  pub fin : Bool
  pub rst : Bool
  pub seq : ℕ
  pub payload : List ℕ

-- `_Flow`
pub record Flow : Type 0 where
  pub client_end : Endpoint
  pub server_end : Endpoint
  pub generation : ℕ
  pub closed : Bool
  pub initial_sequence : Option ℕ
  pub packet_count : ℕ
  pub saw_syn : Bool
  pub saw_syn_ack : Bool
  pub next_client_sequence : Option ℕ
  pub next_server_sequence : Option ℕ
  pub exchanges : List (Direction × List ℕ)
  pub issues : List Issue
  pub client_payload_bytes : ℕ
  pub server_payload_bytes : ℕ
  pub stored_payload_bytes : ℕ

pub record Limits : Type 0 where
  pub tracked_sessions : ℕ
  pub bytes_per_session : ℕ
  pub total_bytes : ℕ

-- `StatefulSessionAnalyzer`, with the flows in the order in which the dictionary has them
pub record Analyzer : Type 0 where
  pub flows : List ((Endpoint × Endpoint) × Flow)
  pub completed : List Flow
  pub stored_payload_bytes : ℕ
  pub omitted_tcp_packets : ℕ

unfoldable pub direction_index : Direction → ℕ
direction_index client = 0
direction_index server = 1

unfoldable pub issue_index : Issue → ℕ × ℕ
issue_index no_client_syn = (0, 0)
issue_index conflicting_client = (1, 0)
issue_index syn_ack_in_client = (2, 0)
issue_index session_limit = (3, 0)
issue_index total_limit = (4, 0)
issue_index (before_handshake d) = (5, direction_index d)
issue_index (retransmission d) = (6, direction_index d)
issue_index (gap d) = (7, direction_index d)

unfoldable pub same_issue : Issue → Issue → Bool
same_issue a b = (issue_index a).0 == (issue_index b).0 && (issue_index a).1 == (issue_index b).1

unfoldable pub has_issue : Issue → List Issue → Bool
has_issue i [] = false
has_issue i (j ∷ js) = same_issue i j || has_issue i js

-- `_Flow.issue`
unfoldable pub issue : Issue → Flow → Flow
issue i f = if has_issue i f.issues then f else record f { issues = f.issues ++ (i ∷ []) }

unfoldable pub same_end : Endpoint → Endpoint → Bool
same_end a b = a.ip == b.ip && a.port == b.port

unfoldable pub end_less : Endpoint → Endpoint → Bool
end_less a b = ltb a.ip b.ip || (a.ip == b.ip && ltb a.port b.port)

-- `sorted((source, destination))`
unfoldable pub flow_key : Endpoint → Endpoint → Endpoint × Endpoint
flow_key s d = if end_less d s then (d, s) else (s, d)

unfoldable pub initial_syn : Packet → Bool
initial_syn p = p.syn && not p.ack

-- `sequence == seq` for a sequence number that may be None
unfoldable pub is_sequence : Option ℕ → ℕ → Bool
is_sequence none seq = false
is_sequence (some n) seq = n == seq

unfoldable pub has_exchange : List (Direction × List ℕ) → Bool
has_exchange [] = false
has_exchange (x ∷ xs) = true

-- a SYN that begins another session between the same ends
unfoldable pub begins_again : Flow → Packet → Bool
begins_again f p =
    initial_syn p
    && (f.closed
        || f.saw_syn_ack
        || has_exchange f.exchanges
        || not (is_sequence f.initial_sequence p.seq))

unfoldable pub empty_flow : Packet → ℕ → Flow
empty_flow p generation = record {
  client_end = p.source;
  server_end = p.destination;
  generation = generation;
  closed = false;
  initial_sequence = none;
  packet_count = 0;
  saw_syn = false;
  saw_syn_ack = false;
  next_client_sequence = none;
  next_server_sequence = none;
  exchanges = [];
  issues = [];
  client_payload_bytes = 0;
  server_payload_bytes = 0;
  stored_payload_bytes = 0;
}

unfoldable pub new_flow : Packet → ℕ → Flow
new_flow p generation =
    if initial_syn p then empty_flow p generation else issue no_client_syn (empty_flow p generation)

-- `source == (flow.client_ip, flow.client_port)`
unfoldable pub from_client : Packet → Flow → Bool
from_client p f = same_end p.source f.client_end

-- the packet's flags: lines from `flow.packet_count += 1` on
unfoldable pub handshake : Packet → Flow → Flow
handshake p f =
    let counted = record f {
      packet_count = f.packet_count + 1;
      closed = p.fin || p.rst || f.closed;
    } in
    if initial_syn p
    then record (if from_client p f then counted else issue conflicting_client counted) {
      saw_syn = true;
      initial_sequence = some p.seq;
      next_client_sequence = some (p.seq + 1);
    }
    else if p.syn && p.ack
    then record (if from_client p f then issue syn_ack_in_client counted else counted) {
      saw_syn_ack = true;
      next_server_sequence = some (p.seq + 1);
    }
    else counted
