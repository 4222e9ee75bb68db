-- ===== src/Sessions/Table.antt =====
-- The payload of a packet and the table of flows: `StatefulSessionAnalyzer.observe` of
-- src/trex_cli/session_analysis.py.
use trex_cli.Prelude.{
  ℕ, ◌+◌, Bool, true, false, ◌&&◌, Option, none, some, List, [], ◌∷◌, ◌++◌, ◌==◌, ltb, leb,
  if◌then◌else◌, length,
}
use trex_cli.Sessions.{
  Endpoint, Direction, client, server, session_limit, total_limit, before_handshake, retransmission,
  gap, Packet, Flow, Limits, Analyzer, direction_index, issue, same_end, flow_key, begins_again,
  new_flow, from_client, handshake,
}

unfoldable pub direction_of : Bool → Direction
direction_of true = client
direction_of false = server

unfoldable pub count_bytes : Direction → ℕ → Flow → Flow
count_bytes client n f = record f { client_payload_bytes = f.client_payload_bytes + n }
count_bytes server n f = record f { server_payload_bytes = f.server_payload_bytes + n }

unfoldable pub expected_sequence : Direction → Flow → Option ℕ
expected_sequence client f = f.next_client_sequence
expected_sequence server f = f.next_server_sequence

unfoldable pub set_expected : Direction → ℕ → Flow → Flow
set_expected client n f = record f { next_client_sequence = some n }
set_expected server n f = record f { next_server_sequence = some n }

-- the checks of the sequence number
unfoldable pub check_sequence : Direction → Option ℕ → ℕ → ℕ → Flow → Flow
check_sequence d none seq size f = issue (before_handshake d) f
check_sequence d (some expected) seq size f =
    if ltb seq expected
    then issue (retransmission d) f
    else if ltb expected seq
    then issue (gap d) f
    else set_expected d (expected + size) f

unfoldable pub same_direction : Direction → Direction → Bool
same_direction a b = direction_index a == direction_index b

-- the last exchange goes on, or a new one begins
unfoldable pub add_exchange :
    Direction → List ℕ → List (Direction × List ℕ) → List (Direction × List ℕ)
add_exchange d payload [] = (d, payload) ∷ []
add_exchange d payload (x ∷ []) =
    if same_direction x.0 d then (x.0, x.1 ++ payload) ∷ [] else x ∷ (d, payload) ∷ []
add_exchange d payload (x ∷ y ∷ ys) = x ∷ add_exchange d payload (y ∷ ys)

-- the limits and the store; the number is `_stored_payload_bytes`
unfoldable pub store_payload : Limits → Direction → List ℕ → ℕ → Flow → Flow × ℕ
store_payload lim d payload stored f =
    if ltb lim.bytes_per_session (f.stored_payload_bytes + length payload)
    then (issue session_limit f, stored)
    else if ltb lim.total_bytes (stored + length payload)
    then (issue total_limit f, stored)
    else (
      record f {
        stored_payload_bytes = f.stored_payload_bytes + length payload;
        exchanges = add_exchange d payload f.exchanges;
      },
      stored + length payload,
    )

unfoldable pub take_payload : Limits → Direction → ℕ → List ℕ → ℕ → Flow → Flow × ℕ
take_payload lim d seq [] stored f = (f, stored)
take_payload lim d seq (b ∷ bs) stored f =
    let counted = count_bytes d (length (b ∷ bs)) f in
    let checked = check_sequence d (expected_sequence d counted) seq (length (b ∷ bs)) counted in
    store_payload lim d (b ∷ bs) stored checked

-- what `observe` does to the flow of the packet
unfoldable pub advance : Limits → Packet → ℕ → Flow → Flow × ℕ
advance lim p stored f =
    take_payload lim (direction_of (from_client p f)) p.seq p.payload stored (handshake p f)

unfoldable pub same_key : Endpoint × Endpoint → Endpoint × Endpoint → Bool
same_key a b = same_end a.0 b.0 && same_end a.1 b.1

-- the dictionary of flows
unfoldable pub find_flow : Endpoint × Endpoint → List ((Endpoint × Endpoint) × Flow) → Option Flow
find_flow k [] = none
find_flow k (e ∷ es) = let rest = find_flow k es in if same_key e.0 k then some e.1 else rest

unfoldable pub set_flow :
    Endpoint × Endpoint
    → Flow
    → List ((Endpoint × Endpoint) × Flow)
    → List ((Endpoint × Endpoint) × Flow)
set_flow k f [] = (k, f) ∷ []
set_flow k f (e ∷ es) =
    let rest = set_flow k f es in if same_key e.0 k then (e.0, f) ∷ es else e ∷ rest

unfoldable pub delete_flow :
    Endpoint × Endpoint → List ((Endpoint × Endpoint) × Flow) → List ((Endpoint × Endpoint) × Flow)
delete_flow k [] = []
delete_flow k (e ∷ es) = let rest = delete_flow k es in if same_key e.0 k then es else e ∷ rest

-- the flow of the packet goes on
unfoldable pub continue_flow : Limits → Packet → Flow → Analyzer → Analyzer
continue_flow lim p f a =
    let next = advance lim p a.stored_payload_bytes f in
    record a {
      flows = set_flow (flow_key p.source p.destination) next.0 a.flows;
      stored_payload_bytes = next.1;
    }

-- a new flow, or the packet is omitted
unfoldable pub start_flow : Limits → Packet → ℕ → Analyzer → Analyzer
start_flow lim p generation a =
    if leb lim.tracked_sessions (length a.flows + length a.completed)
    then record a { omitted_tcp_packets = a.omitted_tcp_packets + 1 }
    else continue_flow lim p (new_flow p generation) a

-- `_completed_flows.append(flow)` and `del self._flows[key]`
unfoldable pub complete_flow : Packet → Flow → Analyzer → Analyzer
complete_flow p f a = record a {
  flows = delete_flow (flow_key p.source p.destination) a.flows;
  completed = a.completed ++ (f ∷ []);
}

unfoldable pub observe_found : Limits → Packet → Option Flow → Analyzer → Analyzer
observe_found lim p none a = start_flow lim p 0 a
observe_found lim p (some f) a =
    if begins_again f p
    then start_flow lim p (f.generation + 1) (complete_flow p f a)
    else continue_flow lim p f a

-- `observe`; `none` is a frame that is no TCP segment over IPv4
unfoldable pub observe : Limits → Option Packet → Analyzer → Analyzer
observe lim none a = a
observe lim (some p) a = observe_found lim p (find_flow (flow_key p.source p.destination) a.flows) a

unfoldable pub observe_all : Limits → List (Option Packet) → Analyzer → Analyzer
observe_all lim [] a = a
observe_all lim (p ∷ ps) a = observe_all lim ps (observe lim p a)

abbrev pub new_analyzer : Analyzer
new_analyzer = record {
  flows = [];
  completed = [];
  stored_payload_bytes = 0;
  omitted_tcp_packets = 0;
}
