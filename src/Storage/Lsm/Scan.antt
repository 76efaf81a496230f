-- ===== src/Storage/Lsm/Scan.antt =====
-- `scan` of crates/raft-storage/src/lsm.rs.
pub mod Order
pub mod Merged
pub mod Agreement
use raftrust.Prelude.{ℕ, Option, none, some, List, [], ◌∷◌, if◌then◌else◌}
use raftrust.Prelude.Keys.{Key}
use raftrust.Prelude.Tables.{Table, add_entry}
use raftrust.Errors.{Result, ok, err, panic, ◌>>=◌}
use raftrust.Storage.MemTable.{MemTable, Slot}
use raftrust.Storage.MemTable
use raftrust.Storage.Manifest.{SstEntry}
use raftrust.Storage.Sst.{SstFiles}
use raftrust.Storage.Lsm.{LsmTree, newer}

-- The deepest level first, and in a level the oldest first.
unfoldable pub insert_by_depth :
    {T : Type 0} → SstEntry × T → List (SstEntry × T) → List (SstEntry × T)
insert_by_depth a [] = a ∷ []
insert_by_depth a (b ∷ bs) =
    let rest = insert_by_depth a bs in if newer a.0 b.0 then b ∷ rest else a ∷ b ∷ bs

unfoldable pub oldest_first : {T : Type 0} → List (SstEntry × T) → List (SstEntry × T)
oldest_first [] = []
oldest_first (a ∷ rest) = insert_by_depth a (oldest_first rest)

-- Each entry overwrites what the map has.
unfoldable pub insert_all : Table Slot → Table Slot → Table Slot
insert_all merged [] = merged
insert_all merged ((k, v) ∷ es) = insert_all (add_entry k v merged) es

unfoldable pub merge_memtables : Key → Key → Table Slot → List MemTable → Result (Table Slot)
merge_memtables start end merged [] = ok merged
merge_memtables start end merged (m ∷ ms) =
    MemTable.scan m start end >>= λ es. merge_memtables start end (insert_all merged es) ms

-- The entries that are not tombstones.
unfoldable pub values : Table Slot → Table (List ℕ)
values [] = []
values ((k, none) ∷ m) = values m
values ((k, some v) ∷ m) = (k, v) ∷ values m

module _ {D T : Type 0} (files : SstFiles D T) where
  unfoldable pub merge_tables : Key → Key → Table Slot → List (SstEntry × T) → Result (Table Slot)
  merge_tables start end merged [] = ok merged
  merge_tables start end merged ((e, t) ∷ rest) =
      files.table_scan t start end >>= λ es. merge_tables start end (insert_all merged es) rest

  unfoldable pub scan : {W : Type 0} → LsmTree D W T → Key → Key → Result (Table (List ℕ))
  scan t start end = do
    tables ← merge_tables start end [] (oldest_first t.sstable_cache)
    waiting ← merge_memtables start end tables t.immutable_memtables
    active ← MemTable.scan t.active_memtable start end
    ok (values (insert_all waiting active))
