-- ===== src/Mvcc.antt =====
-- crates/raft-mvcc: the store of versions over a storage engine.
pub mod Version
pub mod Engine
pub mod Store
pub mod Transaction
pub mod Collection
pub mod Ttl
