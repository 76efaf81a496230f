-- ===== src/Snapshot.antt =====
-- crates/raft-consensus/src/snapshot.rs, as the Raft node uses it: the metadata of a snapshot and the
-- operations of `SnapshotManager` on a directory `S`.
use raftrust.Prelude.{ℕ, Option, List}
use raftrust.Errors.{Error, Result}

pub record SnapshotMetadata : Type 0 where
  pub last_included_index : ℕ
  pub last_included_term : ℕ
  pub checksum : ℕ
  pub size : ℕ

-- Each operation returns the directory that it leaves, on an error too.
pub record SnapshotManager (S : Type 0) : Type 0 where
  pub new : S → S × Option Error
  pub create_snapshot : S → ℕ → ℕ → List ℕ → S × Result SnapshotMetadata
  pub receive_snapshot : S → SnapshotMetadata → List ℕ → S × Option Error
