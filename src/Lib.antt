-- ===== src/Lib.antt =====
-- trex-cli: a control plane for Cisco TRex traffic tests. An agent keeps durable test jobs in
-- SQLite, validates them against a safety policy, leases the logical ports of a lab, runs traffic
-- through an engine, and measures devices by the methods of RFC 2544 and RFC 9004. The files
-- below model the parts of src/trex_cli that carry this logic.
-- - AddressPolicy: address_policy.py, the authorization of generated address ranges.
--   AddressPolicy/Cover proves the sweep over sorted intervals, AddressPolicy/Networks reads it
--   as a statement on networks.
-- - Rfc2544: rfc2544.py, the measurement algorithms. Rfc2544 holds the records and the rounding
--   of rates, Rfc2544/Search is `search_frame`, Rfc2544/FrameLoss is `measure_frame_loss` and
--   Rfc2544/BackToBack, with Rfc2544/BackToBack/Report for its result, is `measure_back_to_back`,
--   which raises StatisticsError for no repetitions. The trial functions, which the engine
--   supplies, are parameters that act on a world of the caller's; so is the callback
--   `on_observation`. A rate, a resolution and a duration are natural numbers of a fixed-point
--   unit, with exact arithmetic where the program has floats. A rate that falls below 0 ends each
--   loop as 0 does, so subtraction that stops at 0 serves. The loops on rates have a fuel of one
--   more than the ceiling and the search for a burst one more than the longest burst: each round
--   leaves a smaller rate or interval, and the theorems show that the fuel is enough. An
--   exception from a trial is not modelled, nor is a resolution or step of 0, at which the
--   program divides by zero.
-- - PortLeases: the table of port leases of storage.py and the calls on it (`acquire_ports`,
--   `release_ports`, `confirm_ports_available`), each one transaction under the store's lock.
--   Whether the job of an acquire is in the table `jobs`, to which a foreign key refers, is an
--   argument. PortLeases/Follows is about holders and generations, PortLeases/Exclusion about
--   what a granted request means, PortLeases/Consistency about the status column.
-- - Jobs: the data of jobs (models.py, the tables of storage.py). Jobs/Store has the calls of the
--   store (`create_job`, `get_snapshot`, `update_snapshot`, `request_cancel`), Jobs/Transition
--   has `_transition` of jobs.py and one attempt of it, and Jobs/System the agent's tasks as
--   transactions in any order, where a read and the write that depends on it are two
--   transactions. Jobs/Advance, Jobs/Agreement and Jobs/Effects are about one call,
--   Jobs/Soundness and Jobs/Lifecycle about runs, Jobs/Keys and Jobs/Idempotence about
--   idempotency keys, Jobs/Rows and Jobs/Written about what a transition leaves in the database,
--   Jobs/Writes, Jobs/Log and Jobs/Events about the event log, Jobs/Outcome about what
--   `_transition` returns. `_transition` has three attempts, which is the fuel of `transition`;
--   the functions `gap` are what other tasks do between its reads and its writes.
-- - Sessions: `_Flow` and `StatefulSessionAnalyzer.observe` of session_analysis.py on the packets
--   that dpkt has decoded. Sessions/Table has the payload's part and the dictionary of flows,
--   Sessions/Totals, Sessions/Sums and Sessions/Keys are lemmas, Sessions/Bounds and
--   Sessions/Captures about the limits and the counts. `finish` and the digests of sessions are
--   not modelled.
-- - Policy: `TestJobs._validate_policy` of jobs.py on the parts of the documents of models.py
--   that it reads, with `SafetyPolicy` of config.py and `mac_range_allowed`. Policy/Addresses,
--   Policy/Checks and Policy/Checks/Traffic are the code; Policy/Scope, Policy/Rates and
--   Policy/Compliance say what its tests mean, Policy/Accepted and Policy/Validation are about a
--   document that is accepted, Policy/Refusals about the errors. Rates and sizes are in
--   millionths, durations in milliseconds, with exact arithmetic.
-- - Storms: the generated packet storms. Storms/Mac has MAC addresses as text (dhcp_storm.py,
--   `_parse_mac` and `MacVariation` of models.py), Storms/Dhcp and Storms/Dns the messages of
--   dhcp_storm.py and dns_storm.py, Storms/Specs the validators of storms in models.py,
--   `_parse_duration`, and `arp_sender_ipv4_end` of arp_storm.py over `ipaddress`.
--   Storms/MacText, Storms/Pools, Storms/Discover, Storms/Names, Storms/Queries and
--   Storms/Senders are about them one by one, Storms/Prefixes and Storms/Scope about a storm
--   under the policy. Text is ASCII. The queries are read with fuel of 256 labels, more than fit
--   in a name. `arp_sender_mac_end` is not modelled: it leaves its digits to Python's `int`.
-- - Execution: `_execute` and `_execute_with_deadline` of jobs.py with `_phase`, `_cancelled`,
--   `_finish_cancel`, `_fail` and the table of execution markers of storage.py. Execution/Awaits
--   has the awaits, of the engine, of the database (PortLeases and Jobs) and of `_transition`
--   (Jobs/Transition), each of which other tasks and a cancellation may come between;
--   Execution/Body and Execution/Body/Phases are the code. Execution/Guard, Execution/Safety,
--   Execution/Outcome and Execution/Ending are lemmas for Execution/Preparing and
--   Execution/Release. The engine, what the other tasks do to the jobs, and the cancellations are
--   parameters without assumptions; the leases and the markers are changed by this job's calls
--   only, so an operator's confirmation of its ports, and a lease or a marker that another job
--   takes meanwhile, are not in the model; document, calibrations and artifacts are awaits with
--   any answer.
-- - Jobs/Observation: `events_after` of storage.py and `TestJobs.observe` of jobs.py, which
--   follows the events of a job; each turn reads two databases, since other tasks run between the
--   two awaits. Jobs/Following is about one turn, Jobs/Turns about the loop, and Jobs/Stream
--   about the loop beside the actions of other tasks.
-- Not modelled: the FastAPI, command line and MCP layers, SQL text and migrations, rendering of
-- reports, logging, and the TRex client, which are I/O or calls of libraries.
pub mod Prelude
pub mod AddressPolicy
pub mod Rfc2544
pub mod PortLeases
pub mod Jobs
pub mod Sessions
pub mod Policy
pub mod Storms
pub mod Execution
