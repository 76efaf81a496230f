-- ===== src/Lib.antt =====
-- Raftrust: the consensus core of a replicated key-value store, and models of its parts.
--
-- The program is a Rust workspace. crates/raft-consensus holds the Raft node (elections with a
-- pre-vote, log replication, membership changes by joint consensus, linearizable reads, leadership
-- transfer, snapshots), crates/raft-storage the write-ahead log and an LSM tree, crates/raft-mvcc
-- the versioned store over it, and crates/raft-server the services. A node locks its state for the
-- whole of each call, so a call is a function from the state and its arguments to the new state
-- and its answer, and an execution is a sequence of calls.
--
-- Files and code:
--
-- Message, Errors    crates/raft-consensus/src/message.rs, crates/raft-common/src/error.rs
-- State, State/      crates/raft-consensus/src/state.rs: terms, votes and roles, what leaders and
--                    candidates keep, and the state file
-- Election           crates/raft-consensus/src/election.rs: the voting rule
-- Log, Log/          crates/raft-consensus/src/log.rs: the log in memory, its WAL and entry coding
-- Membership,        crates/raft-consensus/src/membership.rs: configurations, quorums, changes
-- Membership/
-- ReadIndex,         crates/raft-consensus/src/read_index.rs: pending reads and their acknowledgements
-- ReadIndex/
-- Transfer, Snapshot the state of a transfer in crates/raft-consensus/src/leadership_transfer.rs and
--                    what the node uses of crates/raft-consensus/src/snapshot.rs
-- Node, Node/        crates/raft-consensus/src/node.rs: `Inner` is `RaftNodeInner`, and each method of
--                    `RaftNode` that changes it is a function of the same name: Node/Vote has the
--                    elections, Node/Append the follower's side of replication, Node/Lead the
--                    leader's, Node/Handover reads and transfers, Node/Install snapshots, Node/Config
--                    changes of the configuration. Node/Step has all calls and a restart as one step
--                    function and the runs made of them.
-- WalFile, WalFile/  crates/raft-storage/src/wal: records, reader and writer of the write-ahead log. Its
--                    writer is an instance of the log's interface `Wal`, and WalFile/Reopen reads the
--                    log back from the file.
-- Lease, Lease/      crates/raft-server/src/lease.rs: leases, their keys and their expiry. An `i64` is its
--                    pattern of 64 bits.
-- Storage, Storage/  the LSM tree: Storage/MemTable is crates/raft-storage/src/memtable/mod.rs, Storage/WalOp
--                    and Storage/Lsm are crates/raft-storage/src/lsm.rs, Storage/Manifest and
--                    Storage/Compaction the files of crates/raft-storage/src/compaction, and Storage/Sst the
--                    interface of the sorted files. Storage/Bloom, Storage/Block and Storage/Footer are parts
--                    of the files: crates/raft-storage/src/bloom.rs and sstable/block.rs and footer.rs.
-- Mvcc, Mvcc/        crates/raft-mvcc/src: Mvcc/Version is version.rs, Mvcc/Store mvcc.rs, Mvcc/Transaction
--                    transaction.rs, Mvcc/Collection gc.rs, Mvcc/Ttl ttl.rs, and Mvcc/Engine the trait of
--                    crates/raft-storage/src/engine.rs.
-- Prelude, Prelude/  shared names, operators, maps by identifier and bytes
-- Examples/          runs on concrete nodes, and each theorem with conditions applied to one
--
-- The model. Identifiers, terms and indices are natural numbers; where the code adds 1 to a `u64`,
-- the sum is taken modulo 2^64 (`wrap64`), and a theorem that needs it states a bound on the
-- numbers. `saturating_sub` is the subtraction of the naturals. A hash map or set by node is a
-- list of pairs or of identifiers; no theorem depends on its order. The clock is an argument, in
-- milliseconds. Bytes are natural numbers. The one file that the node rewrites, the state file, is
-- the value `StateFile`: what it holds, and whether its disk takes writes, drops them or cuts them
-- short. Loops are recursion on the list they run through; the loop of `take_committed_entries` runs
-- on fuel, the distance from the applied to the commit index, as it applies one index in each round.
-- The seconds that a lease has lived are taken to be fewer than 2^63, and the target of a level to
-- fit `usize`: the code's cast and product are not cut off.
--
-- Parameters. `Wal` is what the log writes to: to append a record and to sync, each of which may
-- fail; where a theorem has the condition that it does not, it says so. `SnapshotManager` stands
-- for the snapshot files and `Serde` for the JSON coding of configurations by the library
-- serde_json. The functions of std::io that the WAL uses are `Read` and `Write`, with what they
-- promise in `IsReader` and `IsWriter`, and the checksum of crc32fast is any function to 32 bits.
-- The sorted files and the manifest's file are `SstFiles`, with `IsSst` for what they promise, and
-- the engine under the store of versions is `Engine`, with `IsEngine`: a range is read in the order
-- of the keys, and a reversed one panics, as BTreeMap is documented to do. The locks of the LSM tree
-- and of the store are not modelled; each call runs by itself.
-- The loops of the WAL reader run on fuel; one round more than an eighth of the file is enough,
-- since each record takes eight bytes at least.
--
-- Not modelled: the network, the RPC services and their generated types, timers and randomised
-- timeouts, the assembly of sorted files from their blocks and their search, the files of snapshots,
-- the apply loop, watches, clients, metrics, and the chaos tests. Log messages are left out.
pub mod Prelude
pub mod Errors
pub mod Message
pub mod Log
pub mod State
pub mod Election
pub mod Membership
pub mod ReadIndex
pub mod Snapshot
pub mod Transfer
pub mod Node
pub mod WalFile
pub mod Lease
pub mod Storage
pub mod Mvcc
mod Examples
