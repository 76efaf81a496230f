-- ===== src/Storage.antt =====
-- crates/raft-storage/src less the write-ahead log: the LSM tree and its parts. Writes go to the log and
-- the memtable, full memtables to sorted files, and files to deeper levels.
pub mod MemTable
pub mod WalOp
pub mod Manifest
pub mod Sst
pub mod Compaction
pub mod Lsm
pub mod Bloom
pub mod Block
pub mod Footer
