-- ===== src/Lib.antt =====
-- DIYnamo is a replicated key-value store: nodes on a consistent hash ring, quorum writes and reads
-- through a coordinator, hints for replicas that fail, read repair, and reconciliation of nodes that
-- come back. This library models its core and proves what it promises.
--
-- Parts, and the source each is translated from:
--   Base         helpers: results with errors, byte strings, UTF-8, bags, association lists
--   Store        src/store: the local store (RocksdbStore), the hint store (Hints), the clock
--   Config       src/config/server.rs: settings, defaults, overrides
--   Cluster      src/cluster: member types (Types), gossiped metadata (Delegate), the gossip node
--                (Membership), the line of live members (Printer), the ring (Ring)
--   Api, Client  src/api/types.rs and src/client/http.rs: the requests and their answers
--   Server       src/server/mod.rs: fault flags, the internal handlers, and the public ones over
--                a coordinator (Public)
--   Coordinator  src/coordinator/mod.rs: put (Put) and get (Get); src/coordinator/handoff.rs: the
--                event loop (Handoff), delivery of hints and reconciliation below it
--   Network      the servers of a cluster behind their URLs, what a request does to them (Puts, Reads,
--                Strict), the runs of coordinators and hand-offs (Runs), and what deliveries, repairs and
--                reconciliations bring (Delivered, Healed, Returns)
--   Programs     src/bin: the commands of the interactive client (Cli), the start of the server
--                (Startup), the gossip program (Gossip)
--   Harness      src/test_support/mod.rs: the loops and retries of the test harness, its nodes
--                (Nodes), and how it spawns a cluster (Spawn)
--   Tests        runs at concrete inputs
-- The unit tests beside the ring, the hint store and the printer are modelled in their child modules
-- UnitTests.
--
-- State. A store is the value of its database; a method that writes returns the new value in a
-- `Result`. A handler takes a `Node` (two stores and the flags) and returns its answer with the
-- next one. A coordinator acts on a `World`: a network to send to, its own local store, and a clock.
-- `Network.world` is the one in which the network is the servers of a cluster, any message may be
-- lost on its way or on the way back, and every handler is that of Server.
-- Names are the source's, except where a word of the language is in the way (`data'`). Timestamps and
-- ports are natural numbers; the clock's truncation to 64 bits is written out. Text is its bytes.
--
-- Parallel tasks. The tasks that a coordinator spawns act one after another, in an order that a
-- parameter chooses; each is one message to another server or one access to a store, so that an
-- interleaving is such an order. A result is joined, in an order that a parameter chooses, or lost
-- to a panic. There a write of the local store is a read and a write in one step; Store.RocksdbStore.Races
-- has the two as steps of their own, between which other threads take theirs. A coordinator's or a
-- hand-off's run in Network goes from its start to its end; what may come between a write and a read
-- there is any order of single messages and store writes (Steps). A reconciliation that is aborted
-- goes on until it ends at some later time (Coordinator.Handoff.Running).
--
-- Parameters are what is not in the repository: the database (crate rocksdb) with the laws of an
-- ordered map, the encoding (bincode) with its round trip, the hash ring (hashring_coordinator)
-- with its documented promises, the HTTP libraries as a transport that routes the client's
-- requests, the gossip library (memberlist), the file system and the TOML parser. The random order in
-- which a hash map yields its keys goes into a ring with its `HashRing`, and what a running server
-- does to a store while the harness sleeps is an argument of the harness's recoveries. Two
-- kinds of definition run on fuel. The printing of a number: a port has five digits at most, and any
-- number fewer than its successor. The loops of the harness that wait for a deadline: one round for
-- each millisecond of the time that they may wait, and one more.
--
-- Not modelled: the parsing of arguments, the HTTP servers as processes, the integration tests, and the
-- evaluation scripts. A handler that panics gives the client no answer; here it gives an internal
-- error.
pub mod Base
pub mod Store
pub mod Config
pub mod Cluster
pub mod Api
pub mod Client
pub mod Server
pub mod Coordinator
pub mod Network
pub mod Programs
pub mod Harness
pub mod Tests
