-- ===== src/Sessions/Totals.antt =====
-- What one packet does to the counts of its flow (`StatefulSessionAnalyzer.observe` of
-- src/trex_cli/session_analysis.py), and sums over the table of flows.
use trex_cli.Prelude.{
  ℕ, ◌+◌, ◌≤◌, ◌≡◌, refl, ◌∙◌, Option, none, some, List, [], ◌∷◌, length, length-append, arith,
}
use trex_cli.Sessions.{
  Direction, client, server, Issue, retransmission, gap, Packet, Flow, Limits, issue, from_client,
  handshake,
}
use trex_cli.Sessions.Table.{
  direction_of, count_bytes, expected_sequence, set_expected, check_sequence, add_exchange,
  store_payload, take_payload, advance,
}

-- The counts of a flow that the payload limits are about.
pub record SameStore (f f' : Flow) : Type 0 where
  pub stored : f'.stored_payload_bytes ≡ f.stored_payload_bytes
  pub exchanges : f'.exchanges ≡ f.exchanges
  pub clients : f'.client_payload_bytes ≡ f.client_payload_bytes
  pub servers : f'.server_payload_bytes ≡ f.server_payload_bytes

SameStore-trans : (f g h : Flow) → SameStore f g → SameStore g h → SameStore f h
SameStore-trans f g h p q = record {
  stored = q.stored ∙ p.stored;
  exchanges = q.exchanges ∙ p.exchanges;
  clients = q.clients ∙ p.clients;
  servers = q.servers ∙ p.servers;
}

SameStore-refl : (f : Flow) → SameStore f f
SameStore-refl f = record { stored = refl; exchanges = refl; clients = refl; servers = refl }

issue-SameStore : (i : Issue) (f : Flow) → SameStore f (issue i f)
unfolding issue
issue-SameStore i f = ground arith

issue_packets : (i : Issue) (f : Flow) → (issue i f).packet_count ≡ f.packet_count
unfolding issue
issue_packets i f = ground arith

check_sequence-SameStore :
    (d : Direction) (o : Option ℕ) (seq size : ℕ) (f : Flow)
    → SameStore f (check_sequence d o seq size f)
unfolding check_sequence set_expected
check_sequence-SameStore d none seq size f = issue-SameStore _ f
check_sequence-SameStore client (some n) seq size f =
    ground (arith, issue-SameStore (retransmission client) f, issue-SameStore (gap client) f)
check_sequence-SameStore server (some n) seq size f =
    ground (arith, issue-SameStore (retransmission server) f, issue-SameStore (gap server) f)

check_sequence_packets :
    (d : Direction) (o : Option ℕ) (seq size : ℕ) (f : Flow)
    → (check_sequence d o seq size f).packet_count ≡ f.packet_count
unfolding check_sequence set_expected
check_sequence_packets d none seq size f = issue_packets _ f
check_sequence_packets client (some n) seq size f =
    ground (arith, issue_packets (retransmission client) f, issue_packets (gap client) f)
check_sequence_packets server (some n) seq size f =
    ground (arith, issue_packets (retransmission server) f, issue_packets (gap server) f)

handshake-SameStore : (p : Packet) (f : Flow) → SameStore f (handshake p f)
unfolding handshake issue
handshake-SameStore p f = ground arith

handshake_packets : (p : Packet) (f : Flow) → (handshake p f).packet_count ≡ f.packet_count + 1
unfolding handshake issue
handshake_packets p f = ground arith

-- All bytes of the exchanges.
unfoldable pub exchange_bytes : List (Direction × List ℕ) → ℕ
exchange_bytes [] = 0
exchange_bytes (x ∷ xs) = length x.1 + exchange_bytes xs

add_exchange_bytes :
    (d : Direction) (payload : List ℕ) (xs : List (Direction × List ℕ))
    → exchange_bytes (add_exchange d payload xs) ≡ exchange_bytes xs + length payload
unfolding exchange_bytes add_exchange
add_exchange_bytes d payload [] = omega arith
add_exchange_bytes d payload (x ∷ []) = ground (arith, length-append x.1 payload)
add_exchange_bytes d payload (x ∷ y ∷ ys) = omega (arith, add_exchange_bytes d payload (y ∷ ys))

-- A flow within the limits, whose stored bytes are those of its exchanges and were all counted.
pub record Within (lim : Limits) (f : Flow) : Type 0 where
  pub bound : f.stored_payload_bytes ≤ lim.bytes_per_session
  pub kept : exchange_bytes f.exchanges ≡ f.stored_payload_bytes
  pub counted : f.stored_payload_bytes ≤ f.client_payload_bytes + f.server_payload_bytes

-- A packet's effect on its flow and on the total of stored bytes.
pub record Step (lim : Limits) (f : Flow) (stored : ℕ) (next : Flow × ℕ) : Type 0 where
  pub within : Within lim next.0
  pub total : next.1 + f.stored_payload_bytes ≡ stored + next.0.stored_payload_bytes
  pub bound : next.1 ≤ lim.total_bytes

SameStore-Within : (lim : Limits) (f f' : Flow) → SameStore f f' → Within lim f → Within lim f'
SameStore-Within lim f f' s w = record {
  bound = rw (s.stored) (w.bound);
  kept = rw (s.stored, s.exchanges) (w.kept);
  counted = rw (s.stored, s.clients, s.servers) (w.counted);
}

store_payload-Step :
    (lim : Limits) (d : Direction) (payload : List ℕ) (stored : ℕ) (f : Flow)
    → f.stored_payload_bytes ≤ lim.bytes_per_session
    → exchange_bytes f.exchanges ≡ f.stored_payload_bytes
    → f.stored_payload_bytes + length payload ≤ f.client_payload_bytes + f.server_payload_bytes
    → stored ≤ lim.total_bytes
    → Step lim f stored (store_payload lim d payload stored f)
unfolding store_payload issue
store_payload-Step lim d payload stored f bound kept counted total =
    ground (arith, add_exchange_bytes d payload f.exchanges)

-- the counted bytes, which are not stored yet
record Counted (d : Direction) (n : ℕ) (f g : Flow) : Type 0 where
  stored : g.stored_payload_bytes ≡ f.stored_payload_bytes
  exchanges : g.exchanges ≡ f.exchanges
  bytes :
      g.client_payload_bytes + g.server_payload_bytes
      ≡ f.client_payload_bytes + f.server_payload_bytes + n

count_bytes-Counted : (d : Direction) (n : ℕ) (f : Flow) → Counted d n f (count_bytes d n f)
unfolding count_bytes
count_bytes-Counted client n f = record { stored = refl; exchanges = refl; bytes = omega arith }
count_bytes-Counted server n f = record { stored = refl; exchanges = refl; bytes = omega arith }

Counted-SameStore :
    (d : Direction) (n : ℕ) (f g h : Flow) → Counted d n f g → SameStore g h → Counted d n f h
Counted-SameStore d n f g h c s = record {
  stored = s.stored ∙ c.stored;
  exchanges = s.exchanges ∙ c.exchanges;
  bytes = rw (s.clients, s.servers) (c.bytes);
}

Counted-Step :
    (lim : Limits) (d : Direction) (payload : List ℕ) (stored : ℕ) (f g : Flow)
    → Counted d (length payload) f g
    → Within lim f
    → stored ≤ lim.total_bytes
    → Step lim f stored (store_payload lim d payload stored g)
Counted-Step lim d payload stored f g c w total =
    let next =
      store_payload-Step lim d payload stored g (rw c.stored (w.bound))
        (rw (c.stored, c.exchanges) (w.kept)) (omega arith) total in
    record { within = next.within; total = omega arith; bound = next.bound }

take_payload-Step :
    (lim : Limits) (d : Direction) (seq : ℕ) (payload : List ℕ) (stored : ℕ) (f : Flow)
    → Within lim f
    → stored ≤ lim.total_bytes
    → Step lim f stored (take_payload lim d seq payload stored f)
unfolding take_payload
take_payload-Step lim d seq [] stored f w total = record {
  within = w;
  total = omega arith;
  bound = total;
}
take_payload-Step lim d seq (b ∷ bs) stored f w total =
    let n = length (b ∷ bs) in
    let counted = count_bytes d n f in
    Counted-Step lim d (b ∷ bs) stored f
      (check_sequence d (expected_sequence d counted) seq n counted)
      (Counted-SameStore d n f counted
        (check_sequence d (expected_sequence d counted) seq n counted) (count_bytes-Counted d n f)
        (check_sequence-SameStore d (expected_sequence d counted) seq n counted))
      w total

pub advance-Step :
    (lim : Limits) (p : Packet) (stored : ℕ) (f : Flow)
    → Within lim f
    → stored ≤ lim.total_bytes
    → Step lim f stored (advance lim p stored f)
unfolding advance
advance-Step lim p stored f w total =
    let same = handshake-SameStore p f in
    let next =
      take_payload-Step lim (direction_of (from_client p f)) p.seq p.payload stored (handshake p f)
        (SameStore-Within lim f (handshake p f) same w) total in
    let same_stored : (handshake p f).stored_payload_bytes ≡ f.stored_payload_bytes = same.stored in
    record { within = next.within; total = omega arith; bound = next.bound }

-- A packet adds one to the packets of its flow.
store_packets :
    (lim : Limits) (d : Direction) (payload : List ℕ) (stored : ℕ) (f : Flow)
    → (store_payload lim d payload stored f).0.packet_count ≡ f.packet_count
unfolding store_payload issue
store_packets lim d payload stored f = ground arith

count_packets :
    (d : Direction) (n : ℕ) (f : Flow) → (count_bytes d n f).packet_count ≡ f.packet_count
unfolding count_bytes
count_packets client n f = refl
count_packets server n f = refl

take_packets :
    (lim : Limits) (d : Direction) (seq : ℕ) (payload : List ℕ) (stored : ℕ) (f : Flow)
    → (take_payload lim d seq payload stored f).0.packet_count ≡ f.packet_count
unfolding take_payload
take_packets lim d seq [] stored f = refl
take_packets lim d seq (b ∷ bs) stored f =
    let n = length (b ∷ bs) in
    let counted = count_bytes d n f in
    store_packets lim d (b ∷ bs) stored
      (check_sequence d (expected_sequence d counted) seq n counted)
    ∙ (check_sequence_packets d (expected_sequence d counted) seq n counted ∙ count_packets d n f)

pub advance_packets :
    (lim : Limits) (p : Packet) (stored : ℕ) (f : Flow)
    → (advance lim p stored f).0.packet_count ≡ f.packet_count + 1
unfolding advance
advance_packets lim p stored f =
    take_packets lim (direction_of (from_client p f)) p.seq p.payload stored (handshake p f)
    ∙ handshake_packets p f
