-- ===== src/Sessions/Examples.antt =====
-- A capture through the session analyzer (src/trex_cli/session_analysis.py), and the theorems of
-- Sessions at it.
use trex_cli.Prelude.{
  ℕ, ◌+◌, ◌≡◌, refl, Bool, true, false, Option, none, some, List, [], ◌∷◌, ◌++◌, arith,
}
use trex_cli.Sessions.{
  Flow, Issue, retransmission, client, Endpoint, Packet, Limits, Analyzer, direction_index,
  issue_index, same_issue, has_issue, issue, same_end, end_less, flow_key, initial_syn, is_sequence,
  has_exchange, begins_again, empty_flow, new_flow, from_client, handshake,
}
use trex_cli.Sessions.Table.{
  new_analyzer, direction_of, count_bytes, expected_sequence, set_expected, check_sequence,
  same_direction, add_exchange, store_payload, take_payload, advance, same_key, find_flow, set_flow,
  delete_flow, continue_flow, start_flow, complete_flow, observe_found, observe, observe_all,
}
use trex_cli.Sessions.Sums.{table_sum, list_sum}
use trex_cli.Sessions.Bounds.{IsBounded, all_packets}
use trex_cli.Sessions.Captures.{observe_all-IsBounded, observe_all_packets, tcp_packets}

abbrev limits : Limits
limits = record { tracked_sessions = 2; bytes_per_session = 3; total_bytes = 4 }

abbrev packet : ℕ → ℕ → Bool → Bool → ℕ → List ℕ → Option Packet
packet from to syn ack seq payload = some (record {
  source = record { ip = from; port = 80 };
  destination = record { ip = to; port = 80 };
  syn = syn;
  ack = ack;
  fin = false;
  rst = false;
  seq = seq;
  payload = payload;
})

-- a session with more bytes than it may store, one that begins again, and one too many
abbrev capture : List (Option Packet)
capture =
    packet 1 2 true false 10 []
    ∷ packet 2 1 true true 20 []
    ∷ packet 1 2 false true 11 (7 ∷ 8 ∷ [])
    ∷ none
    ∷ packet 2 1 false true 21 (9 ∷ 9 ∷ [])
    ∷ packet 1 2 true false 50 []
    ∷ packet 3 4 true false 1 []
    ∷ []

new_analyzer-IsBounded : IsBounded limits new_analyzer
unfolding table_sum list_sum
new_analyzer-IsBounded = record {
  distinct = tt;
  tracked = omega arith;
  total = refl;
  bound = omega arith;
  flows = tt;
  done = tt;
}

observe_all-IsBounded_example : IsBounded limits (observe_all limits capture new_analyzer)
observe_all-IsBounded_example =
    observe_all-IsBounded limits capture new_analyzer new_analyzer-IsBounded

observe_all_packets_example :
    all_packets (observe_all limits capture new_analyzer)
    ≡ all_packets new_analyzer + tcp_packets capture
observe_all_packets_example = observe_all_packets limits capture new_analyzer new_analyzer-IsBounded

abbrev summary : Analyzer → ℕ × ℕ
summary a = (a.stored_payload_bytes, a.omitted_tcp_packets)

capture-run : summary (observe_all limits capture new_analyzer) ≡ (2, 1)
unfolding direction_index issue_index same_issue has_issue issue same_end end_less flow_key
    initial_syn is_sequence has_exchange begins_again empty_flow new_flow from_client handshake
    direction_of count_bytes expected_sequence set_expected check_sequence same_direction
    add_exchange store_payload take_payload advance same_key find_flow set_flow delete_flow
    continue_flow start_flow complete_flow observe_found observe observe_all
capture-run = refl

-- The sequence number after 2 ^ 32 - 1 is 0, which the analyzer takes for a retransmission.
abbrev wrapping : List (Option Packet)
wrapping = packet 1 2 true false 4294967295 [] ∷ packet 1 2 false true 0 (7 ∷ []) ∷ []

abbrev all_issues : List ((Endpoint × Endpoint) × Flow) → List Issue
all_issues [] = []
all_issues (e ∷ es) = e.1.issues ++ all_issues es

wrapping-run :
    all_issues (observe_all limits wrapping new_analyzer).flows ≡ retransmission client ∷ []
unfolding direction_index issue_index same_issue has_issue issue same_end end_less flow_key
    initial_syn is_sequence has_exchange begins_again empty_flow new_flow from_client handshake
    direction_of count_bytes expected_sequence set_expected check_sequence same_direction
    add_exchange store_payload take_payload advance same_key find_flow set_flow delete_flow
    continue_flow start_flow complete_flow observe_found observe observe_all
wrapping-run = refl
