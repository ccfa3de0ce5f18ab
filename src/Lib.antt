-- ===== src/Lib.antt =====
-- A verification library of iron-consensus: models of its protocol cores, of its write-ahead log
-- and the runtime over it, of its deduplication table and envelopes, and of its simulated network,
-- with the theorems that make them correct.
--
-- The program is a workspace of crates. Each protocol crate (crates/iron-raft, crates/iron-2pc,
-- crates/iron-3pc, crates/iron-multipaxos) is a deterministic state machine: a struct, and methods
-- that change it and return messages or actions, without I/O. crates/iron-core holds what all of
-- them use: the identifiers, the envelope that carries a message, its semantic fingerprint, and
-- the table that makes a message with a known fingerprint replay its outcome. crates/iron-wal
-- stores records in one file of checksummed frames, scans it on opening and repairs a torn tail.
-- crates/iron-testkit simulates time and the network for tests. crates/iron-protocol is the
-- interface of a protocol to crates/iron-runtime, which logs the record of each transition before
-- it executes its actions. crates/iron-grpc converts envelopes from and to protobuf. The binaries
-- connect these parts to tokio and tonic.
--
-- A method on `&mut self` is a function from the state to the state that it leaves and its result;
-- an error is a value of the model's own result type. u16, u32 and u64 values are natural numbers,
-- and the arithmetic that checks for overflow (`checked_add`) is written with the bound of its
-- type. A BTreeSet is a sorted list of keys and a BTreeMap a sorted list of pairs. Identifiers and
-- commands are lists of bytes.
--
-- Files:
-- - Prelude.antt and Prelude/: shared names, Boolean tests and checked additions, lists over the
--   native numbers, results.
-- - Order.antt: Rust's `Ord` as an interface with laws, the lexicographic order of byte strings.
-- - BTreeSet.antt, BTreeMap.antt and their folders: std's ordered collections as the program uses
--   them, and the overlap of majorities.
-- - Core/Id.antt, Core/Id/Text.antt: crates/iron-core/src/id.rs, the textual and numeric
--   identifiers (`parse_node_id` is `NodeId::parse`, `checked_successor` is
--   `Lsn::checked_successor`).
-- - Core/Limits.antt: crates/iron-core/src/limits.rs, the bounded integers of the configuration
--   (`new_bounded` is the `new` of `bounded_u32!`); Wal/Limits.antt has what their bound on
--   records gives the frame.
-- - Core/Config.antt, Core/Config/Dedup.antt: crates/iron-core/src/config.rs, the validation of
--   the deduplication settings (`DedupConfig::try_from`), with what it guarantees the table.
--   Core/Config/Node.antt and Core/Config/Node/: that of the WAL, transport and node settings
--   (`wal_try_from`, `transport_try_from`, `node_try_from`; `gather` is the loop of
--   `validate_members`), with what accepted settings satisfy (Accepted.antt) and that every
--   validation ends (Ends.antt, Total.antt).
-- - Core/Dedup.antt and Core/Dedup/: crates/iron-core/src/dedup.rs. `begin`, `complete`, `abort`
--   and `restore_completed` are the methods of `DedupTable`; `make_room` and `make_byte_room` are
--   the loops of `begin` and `complete`, `find_evictable` and `remove_queued` searches in its
--   queue. Valid.antt has the invariant, Outcomes.antt the ways a call can end, Calls.antt
--   histories of calls, Once.antt and Oldest.antt the theorems on outcomes and on eviction;
--   Loops.antt has the loops of the source as a relation without fuel, `EvictionLoop`.
-- - Core/Envelope.antt and Core/Envelope/: crates/iron-core/src/envelope.rs. `retry` and
--   `response_v1` are methods of `Envelope`; `semantic_fields` are the calls of `update_field` in
--   `semantic_fingerprint`; `parse_fingerprint` and `show_fingerprint` are the text of
--   `SemanticFingerprint`.
-- - Testkit.antt and Testkit/: crates/iron-testkit/src/clock.rs, driver.rs, fault.rs and
--   network.rs. Driver.antt has the clock and the event queue, Pops.antt histories of calls on it;
--   Network.antt the simulated network, whose `send` is split into `find_action`, `apply_action`
--   and `schedule_copies`.
-- - Raft.antt and Raft/: crates/iron-raft/src/lib.rs. `tick`, `propose` and `receive` are the
--   methods of `RaftNode`; `start_election`, `grants`, `count_vote`, `append_loop` and `place` are
--   parts of `tick`, `request_vote`, `vote` and `append`. Steps.antt has histories of calls,
--   Election.antt a cluster in which only votes must have been sent, Replication.antt one in which
--   entries must have been sent, too; the history of its leaderships (`led`) is there for the
--   proofs and changes no step.
-- - TwoPc.antt and TwoPc/: crates/iron-2pc/src/lib.rs, `Coordinator` and `Participant`, and a
--   cluster of them (Cluster.antt).
-- - ThreePc.antt and ThreePc/: crates/iron-3pc/src/lib.rs, likewise, without a cluster.
-- - MultiPaxos.antt and MultiPaxos/: crates/iron-multipaxos/src/lib.rs, `Node` and its methods.
-- - Wal/Types.antt, Wal/Format.antt: crates/iron-wal/src/error.rs, record.rs and format.rs, the
--   frame. Wal/Io.antt: the trait `WalIo` over a file whose calls may fail and whose failing
--   writes store a part. Wal/Reader.antt: reader.rs, `scan` and its loop in the parts
--   `scan_frame`, `scan_decoded`, `scan_payload`. Wal/Writer.antt: writer.rs, `FileWal::append`,
--   `flush`, `replay` and the part of `open` behind the lock. Each has a folder with the lemmas
--   and theorems about it.
-- - Protocol.antt: crates/iron-protocol and crates/iron-transport, the events, transitions,
--   actions, errors and traits.
-- - Runtime.antt and Runtime/: crates/iron-runtime/src/lib.rs. `recover`, `handle` and
--   `commit_transition` are the methods of `NodeRuntime`; `log_record` and `execute_all` are the
--   two halves of the last. Logged.antt puts the writer of Wal/Writer.antt behind it, Commit.antt
--   treats one event, Run.antt a history of them with a crash, Recover.antt the recovery.
-- - Grpc.antt and Grpc/: crates/iron-grpc/src/lib.rs. `from_core` and `into_core` are the
--   conversions of `WireEnvelopeV1`, `deliver` is that of `NodeTransportService`. Fields.antt has
--   the fields one by one, RoundTrip.antt the whole.
--
-- Messages between nodes travel in the clusters of TwoPc/Cluster.antt, Raft/Election.antt and
-- Raft/Replication.antt as sets of messages sent so far, from which a step delivers any at any
-- time: losses, repeats and reorderings are all there.
--
-- Bounds and fuel. `scan_loop` gets one round more than the file has bytes, and each round but the
-- last moves the offset by a frame, which is 40 bytes at least. `make_room` and `make_byte_room`
-- get as many rounds as the queue has entries, and each evicts one. `pop_loop` gets one round more
-- than the queue has events, and each takes one. The theorems on these loops give their results
-- outright, or say that the source's loop, without fuel, ends with them. usize has 64 bits, so the
-- conversions between lengths and u64 lose nothing.
--
-- The crc32c crate is a parameter: a function from bytes to numbers below 2^32. Nothing else is
-- assumed of it; that it tells a damaged frame from a whole one is not claimed. SHA-256 is a
-- parameter too, a function of the bytes it is fed, and no theorem assumes that it has no
-- collisions. So are the generator of identifiers and the parsers of UUIDs, socket addresses and
-- URLs.
--
-- Not modelled: UUIDs and serde in crates/iron-core, and the sorting of validation errors by their
-- texts; the seeded scenario and the file fixtures of crates/iron-testkit; creating, locking and
-- syncing the log's directory (operating-system calls); the byte encoding of protobuf (prost), the
-- gRPC server (tonic) and the binaries. The asynchronous calls of the runtime are taken one after
-- the other, as it awaits each before the next. For crates/iron-raft it is not treated what a
-- commit index says of the other logs, nor a restart; nor what a quorum's decisions in
-- crates/iron-multipaxos say across nodes.
pub mod Testkit
pub mod Prelude
pub mod Order
pub mod BTreeSet
pub mod Core
pub mod BTreeMap
pub mod TwoPc
pub mod Raft
pub mod ThreePc
pub mod MultiPaxos
pub mod Wal
pub mod Grpc
pub mod Protocol
pub mod Runtime
