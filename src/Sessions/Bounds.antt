-- ===== src/Sessions/Bounds.antt =====
-- The limits of `StatefulSessionAnalyzer` in src/trex_cli/session_analysis.py, and what its counts
-- mean, for whole captures.
use trex_cli.Prelude.{
  ℕ, ◌+◌, ◌≤◌, ◌<◌, ◌≡◌, inl, inr, false, some, [], ◌∷◌, length, length-append, leb, arith,
  Bool-cases, All, All-append,
}
use trex_cli.Sessions.{Packet, Flow, Limits, Analyzer, issue, new_flow, empty_flow, flow_key}
use trex_cli.Sessions.Table.{
  advance, find_flow, set_flow, delete_flow, continue_flow, start_flow, complete_flow,
}
use trex_cli.Sessions.Totals.{Within, advance-Step, advance_packets, exchange_bytes}
use trex_cli.Sessions.Sums.{
  table_sum, list_sum, list_sum_append, set_flow_found, set_flow_new, delete_flow_found,
  table_sum-length,
}
use trex_cli.Sessions.Keys.{
  has_key, Distinct, has_key_find, set_flow-Distinct, delete_flow-Distinct, Every, set_flow-Every,
  delete_flow-Every,
}

abbrev stored : Flow → ℕ
stored f = f.stored_payload_bytes

abbrev packets : Flow → ℕ
packets f = f.packet_count

-- The limits hold, each flow stores the bytes of its exchanges, and the total is that of all flows.
pub record IsBounded (lim : Limits) (a : Analyzer) : Type 0 where
  pub distinct : Distinct a.flows
  pub tracked : length a.flows + length a.completed ≤ lim.tracked_sessions
  pub total : table_sum stored a.flows + list_sum stored a.completed ≡ a.stored_payload_bytes
  pub bound : a.stored_payload_bytes ≤ lim.total_bytes
  pub flows : Every (Within lim) a.flows
  pub done : All (Within lim) a.completed

-- All packets that the analyzer knows of.
unfoldable pub all_packets : Analyzer → ℕ
all_packets a = table_sum packets a.flows + list_sum packets a.completed + a.omitted_tcp_packets

new_flow-Within : (lim : Limits) (p : Packet) (generation : ℕ) → Within lim (new_flow p generation)
unfolding new_flow empty_flow issue exchange_bytes
new_flow-Within lim p generation = ground arith

new_flow_counts :
    (p : Packet) (generation : ℕ)
    → ((new_flow p generation).stored_payload_bytes ≡ 0)
      × ((new_flow p generation).packet_count ≡ 0)
unfolding new_flow empty_flow issue
new_flow_counts p generation = ground arith

pub continue_found :
    (lim : Limits) (p : Packet) (f : Flow) (a : Analyzer)
    → IsBounded lim a
    → find_flow (flow_key p.source p.destination) a.flows ≡ some f
    → Within lim f
    → IsBounded lim (continue_flow lim p f a)
      × (all_packets (continue_flow lim p f a) ≡ all_packets a + 1)
unfolding continue_flow all_packets
continue_found lim p f a inv found w =
    let key = flow_key p.source p.destination in
    let next = advance lim p a.stored_payload_bytes f in
    let effect = advance-Step lim p a.stored_payload_bytes f w inv.bound in
    let sums = set_flow_found stored key f next.0 a.flows found in
    let counts = set_flow_found (λ x. 1) key f next.0 a.flows found in
    let numbers = set_flow_found packets key f next.0 a.flows found in
    (
      record {
        distinct = set_flow-Distinct key next.0 a.flows inv.distinct;
        tracked = omega (
          arith,
          counts,
          table_sum-length (set_flow key next.0 a.flows),
          table_sum-length a.flows,
          inv.tracked,
        );
        total = omega (arith, sums, effect.total, inv.total);
        bound = effect.bound;
        flows = set_flow-Every (Within lim) key next.0 a.flows effect.within inv.flows;
        done = inv.done;
      },
      omega (arith, numbers, advance_packets lim p a.stored_payload_bytes f),
    )

continue_new :
    (lim : Limits) (p : Packet) (generation : ℕ) (a : Analyzer)
    → IsBounded lim a
    → has_key (flow_key p.source p.destination) a.flows ≡ false
    → length a.flows + length a.completed < lim.tracked_sessions
    → IsBounded lim (continue_flow lim p (new_flow p generation) a)
      × (all_packets (continue_flow lim p (new_flow p generation) a) ≡ all_packets a + 1)
unfolding continue_flow all_packets
continue_new lim p generation a inv absent room =
    let key = flow_key p.source p.destination in
    let f = new_flow p generation in
    let next = advance lim p a.stored_payload_bytes f in
    let effect =
      advance-Step lim p a.stored_payload_bytes f (new_flow-Within lim p generation) inv.bound in
    let gone = has_key_find key a.flows absent in
    let zero_counts = new_flow_counts p generation in
    (
      record {
        distinct = set_flow-Distinct key next.0 a.flows inv.distinct;
        tracked = omega (
          arith,
          set_flow_new (λ x. 1) key next.0 a.flows gone,
          table_sum-length (set_flow key next.0 a.flows),
          table_sum-length a.flows,
          room,
        );
        total = omega (
          arith,
          set_flow_new stored key next.0 a.flows gone,
          effect.total,
          inv.total,
          zero_counts.0,
        );
        bound = effect.bound;
        flows = set_flow-Every (Within lim) key next.0 a.flows effect.within inv.flows;
        done = inv.done;
      },
      omega (
        arith,
        set_flow_new packets key next.0 a.flows gone,
        advance_packets lim p a.stored_payload_bytes f,
        zero_counts.1,
      ),
    )

omit_packet :
    (lim : Limits) (a : Analyzer)
    → IsBounded lim a
    → IsBounded lim (record a { omitted_tcp_packets = a.omitted_tcp_packets + 1 })
      × (all_packets (record a { omitted_tcp_packets = a.omitted_tcp_packets + 1 })
          ≡ all_packets a + 1)
unfolding all_packets
omit_packet lim a inv = (
  record {
    distinct = inv.distinct;
    tracked = inv.tracked;
    total = inv.total;
    bound = inv.bound;
    flows = inv.flows;
    done = inv.done;
  },
  omega arith,
)

pub start_flow-IsBounded :
    (lim : Limits) (p : Packet) (generation : ℕ) (a : Analyzer)
    → IsBounded lim a
    → has_key (flow_key p.source p.destination) a.flows ≡ false
    → IsBounded lim (start_flow lim p generation a)
      × (all_packets (start_flow lim p generation a) ≡ all_packets a + 1)
unfolding start_flow
start_flow-IsBounded lim p generation a inv absent =
    elim (Bool-cases (leb lim.tracked_sessions (length a.flows + length a.completed))) [
      | inl full ↦ rw full (omit_packet lim a inv)
      | inr room ↦ rw room (continue_new lim p generation a inv absent (ground arith))
    ]

pub complete_flow-IsBounded :
    (lim : Limits) (p : Packet) (f : Flow) (a : Analyzer)
    → IsBounded lim a
    → find_flow (flow_key p.source p.destination) a.flows ≡ some f
    → Within lim f
    → IsBounded lim (complete_flow p f a) × (all_packets (complete_flow p f a) ≡ all_packets a)
unfolding complete_flow all_packets
complete_flow-IsBounded lim p f a inv found w =
    let key = flow_key p.source p.destination in
    (
      record {
        distinct = delete_flow-Distinct key a.flows inv.distinct;
        tracked = omega (
          arith,
          delete_flow_found (λ x. 1) key f a.flows found,
          table_sum-length (delete_flow key a.flows),
          table_sum-length a.flows,
          length-append a.completed (f ∷ []),
          inv.tracked,
        );
        total = omega (
          arith,
          delete_flow_found stored key f a.flows found,
          list_sum_append stored a.completed f,
          inv.total,
        );
        bound = inv.bound;
        flows = delete_flow-Every (Within lim) key a.flows inv.flows;
        done = All-append (Within lim) a.completed (f ∷ []) inv.done (w, tt);
      },
      omega (
        arith,
        delete_flow_found packets key f a.flows found,
        list_sum_append packets a.completed f,
      ),
    )
