-- ===== src/Lib.antt =====
-- Kore: a Redis-compatible server in Rust, with value types, consumer groups and distributed locks.
--
-- The library models the core data structures of the server, one directory for each source file.
--
-- RedisList models src/list_type.rs: the list value behind the LPUSH ... LPOS commands. The deque is
--   a list, each method of RedisList is a function of the same name, and an error is a value of
--   Outcome. A loop over a number of pops is a recursion on that number, the two scans of LREM and
--   the scan of LPOS are recursions on the number of elements that are left. Ends, Range, Removal and
--   Position hold what is proved of the operations.
-- Stream models src/stream_type.rs: Id the stream IDs and their texts, Index the BTreeMap by ID as a
--   list in order, State the log with XADD and the trims, Ranges XRANGE and XREVRANGE, Groups the
--   consumer groups with XDEL and XACK, Claim XCLAIM and XAUTOCLAIM, Reading XREADGROUP, Pending the
--   two forms of XPENDING, Snapshot the export and import of a stream, Accounting its histories. The
--   methods of RedisStream are functions from the stream to a result and a stream. Where a method
--   panics, on a range whose start is after its end, it has no result.
-- FairQueue models src/fair_queue.rs: the queues of clients that wait for a lock. Lines is about one
--   queue, Upkeep and Kept about the map of queues, Turn about who is served, Leave about who leaves, and Accounts about the
--   counters. The operations of FairQueue have the names of the methods; `remove` is remove_client
--   and `position` is position_of.
-- Deadlock models src/deadlock.rs: the wait-for graph of the same locks. Search is the depth-first
--   search, Merge the merge of the snapshot of another process, Victims the choice of a victim and its release,
--   Holders what the edges say of the holders.
-- Redlock models src/redlock/mod.rs over the trait of src/redlock/backend.rs: LockBackend is the
--   trait, and IsBackend in Quorum is what its documentation promises, for a value that an instance
--   holds under a key; Memory is an instance of both. Quorum is about one acquisition, Service is one
--   pass of the retry loop of lock_with_priority, which asks FairQueue for the turn of the client and
--   Deadlock for a cycle; a last pass that gets no lock goes on to what follows the loop. Attempts is
--   what is proved of a pass. Another client may act between two passes, so the theorems are about one
--   pass from any state. Within a pass the source calls the queue, the detector and the instances one
--   after another, each under its own lock; a pass is one step here, so that what another client does
--   between these calls is not seen. The floating-point product of the TTL and the drift factor is an
--   argument.
-- Resp models src/protocol/resp.rs: the values of the protocol and their writer, and in Parser the
--   parser over a buffer. A vector of values is Values, one of pairs is Pairs. A parser takes the bytes
--   that are left and returns a value and the rest, as the cursor does; every error of the source is a
--   ParseError, here parse_error. The amount of memory is an argument: making a vector for more
--   elements is no_memory, where the process ends. Exact says which bytes a frame is read from,
--   RoundTrip and Framing relate the writer and the parser, Buffer is about the buffer.
-- Cluster models src/cluster/state.rs: the topology that one node knows. The vectors over the slots and
--   the maps by slot are functions of the slot. Slots has the assignment of slots and the epochs,
--   Migration the transitions and redirections, Prepare the two-phase hand-over, Gossip the merge of
--   roles and of ownership, Failover the failure detection and the election, each with what is proved
--   of it in the modules below; KeySlot models src/cluster/crc16.rs, the slot of a key, which Migration
--   redirects. Histories is about sequences of operations, commands and messages alike. Replies are
--   values of Reply; an operation that changes the state although it fails returns both.
-- Base holds what these share: tests on numbers, lists, integers, byte strings as keys, association
--   lists for hash maps, and decimal texts.
--
-- Conventions. Numbers are natural numbers; an ID has 64-bit parts where IsWord is assumed, its
-- arithmetic saturates where the source saturates, and the sum of a queue time and a time to live
-- wraps around. Event counters and delivery counts are taken not to overflow. The clock is an
-- argument of each operation that reads it. A method that holds its locks throughout is one step, so
-- that a history of steps is any interleaving of calls. The order of an association list stands for
-- the unspecified order of a hash map. Texts are given by their bytes, and names of nodes with them. In
-- Cluster, check_prepare_valid, merge_role_map, merge_ownership_snapshot, escalate_fails,
-- note_unreachable, the election and the manual failover take their lock several times in the source;
-- they are one step here, so that what another thread does in between is not seen. So it is with
-- record_lock_wait of Deadlock, which takes waiting_for first, and then held_locks and wait_graph.
--
-- Fuel. The depth-first search runs on fuel, one more than the number of edges: it enters each client
-- at most once. The RESP parser runs on fuel for the depth of a value, one more than the length of the
-- buffer: each level takes a byte. The proofs show that neither fuel is used up.
--
-- Not modelled: the estimates of memory, the reports (XINFO, statistics texts), the export of the
-- wait-for graph, the two backends, background threads, nodes.conf and the sockets of the cluster, and
-- the rest of the server: keyspace, persistence, sentinel, search, scripting.
mod Base
pub mod RedisList
pub mod Stream
pub mod FairQueue
pub mod Deadlock
pub mod Redlock
pub mod Resp
pub mod Cluster
