-- ===== src/Sessions/Captures.antt =====
-- Whole captures through `StatefulSessionAnalyzer.observe` of src/trex_cli/session_analysis.py.
use trex_cli.Prelude.{
  ℕ, ◌+◌, ◌≡◌, refl, ap, ◌∙◌, inl, inr, false, Option, none, some, List, [], ◌∷◌, arith, Bool-cases,
}
use trex_cli.Sessions.{Packet, Flow, Limits, Analyzer, flow_key, begins_again}
use trex_cli.Sessions.Table.{find_flow, complete_flow, observe_found, observe, observe_all}
use trex_cli.Sessions.Totals.{Within}
use trex_cli.Sessions.Keys.{has_key, has_key_deleted, FoundHas, find_flow-Every, find_has_key}
use trex_cli.Sessions.Bounds.{
  IsBounded, all_packets, continue_found, start_flow-IsBounded, complete_flow-IsBounded,
}

-- what one packet does
abbrev Observed : Limits → Analyzer → ℕ → Analyzer → Type 0
Observed lim a n next = IsBounded lim next × (all_packets next ≡ all_packets a + n)

completed_absent :
    (lim : Limits) (p : Packet) (f : Flow) (a : Analyzer)
    → IsBounded lim a
    → has_key (flow_key p.source p.destination) (complete_flow p f a).flows ≡ false
unfolding complete_flow
completed_absent lim p f a inv =
    has_key_deleted (flow_key p.source p.destination) a.flows inv.distinct

observe_found-Observed :
    (lim : Limits) (p : Packet) (o : Option Flow) (a : Analyzer)
    → IsBounded lim a
    → find_flow (flow_key p.source p.destination) a.flows ≡ o
    → FoundHas (Within lim) o
    → Observed lim a 1 (observe_found lim p o a)
unfolding observe_found
observe_found-Observed lim p none a inv found w =
    start_flow-IsBounded lim p 0 a inv
      (find_has_key (flow_key p.source p.destination) a.flows found)
observe_found-Observed lim p (some f) a inv found w = elim (Bool-cases (begins_again f p)) [
  | inl again ↦
      let done = complete_flow-IsBounded lim p f a inv found w in
      let begun =
        start_flow-IsBounded lim p (f.generation + 1) (complete_flow p f a) done.0
          (completed_absent lim p f a inv) in
      rw again (begun.0, begun.1 ∙ ap (λ n. n + 1) done.1)
  | inr on ↦ rw on (continue_found lim p f a inv found w)
]

-- `none` is no TCP segment and counts for nothing
unfoldable pub tcp_packets : List (Option Packet) → ℕ
tcp_packets [] = 0
tcp_packets (none ∷ ps) = tcp_packets ps
tcp_packets (some p ∷ ps) = 1 + tcp_packets ps

-- From an analyzer within its limits, such as a new one, every capture leaves it within them: the
-- flows have different keys and are not more than the tracked sessions; each flow stores at most
-- the bytes of a session, which are the bytes of its exchanges, and at most those it counted; the
-- total is the sum of what all flows store and within its limit.
pub observe_all-IsBounded :
    (lim : Limits) (ps : List (Option Packet)) (a : Analyzer)
    → IsBounded lim a
    → IsBounded lim (observe_all lim ps a)
unfolding observe_all observe
observe_all-IsBounded lim [] a inv = inv
observe_all-IsBounded lim (none ∷ ps) a inv = observe_all-IsBounded lim ps a inv
observe_all-IsBounded lim (some p ∷ ps) a inv =
    let key = flow_key p.source p.destination in
    observe_all-IsBounded lim ps (observe_found lim p (find_flow key a.flows) a) (
      (observe_found-Observed lim p (find_flow key a.flows) a inv refl
        (find_flow-Every (Within lim) key a.flows inv.flows)).0)

-- From an analyzer within its limits, a capture adds to the packets of the flows and the omitted
-- packets together exactly the number of its TCP segments: none is lost, and none counted twice.
pub observe_all_packets :
    (lim : Limits) (ps : List (Option Packet)) (a : Analyzer)
    → IsBounded lim a
    → all_packets (observe_all lim ps a) ≡ all_packets a + tcp_packets ps
unfolding observe_all observe tcp_packets
observe_all_packets lim [] a inv = omega arith
observe_all_packets lim (none ∷ ps) a inv = observe_all_packets lim ps a inv
observe_all_packets lim (some p ∷ ps) a inv =
    let key = flow_key p.source p.destination in
    let seen =
      observe_found-Observed lim p (find_flow key a.flows) a inv refl
        (find_flow-Every (Within lim) key a.flows inv.flows) in
    omega (
      arith,
      seen.1,
      observe_all_packets lim ps (observe_found lim p (find_flow key a.flows) a) seen.0,
    )
