-- ===== src/Storage/Lsm.antt =====
-- `LsmTree` of crates/raft-storage/src/lsm.rs: writing, reading and flushing. The locks are not modelled:
-- each call runs by itself.
pub mod Write
pub mod View
pub mod Ages
pub mod Flush
pub mod Runs
pub mod Failed
pub mod Newest
pub mod Recovery
pub mod Scan
use raftrust.Prelude.{
  ℕ, ◌+◌, Bool, true, false, not, ◌&&◌, ◌||◌, Option, none, some, List, [], ◌∷◌, ◌++◌, leb, ltb,
  ◌==◌, if◌then◌else◌, arith,
}
use mathlib.Core.List.{reverse}
use raftrust.Prelude.Keys.{Key}
use raftrust.Prelude.Tables.{Table}
use raftrust.Errors.{Error, Result, ok, err, panic, ◌>>=◌}
use raftrust.Log.{Wal}
use raftrust.Storage.MemTable.{MemTable, Slot, new_memtable, is_full, is_empty}
use raftrust.Storage.MemTable
use raftrust.Storage.WalOp.{WalOp, put, delete}
use raftrust.Storage.WalOp
use raftrust.Storage.Manifest.{SstEntry, Manifest, next_sst_filename, add_sstable}
use raftrust.Storage.Sst.{SstInfo, SstFiles}
use raftrust.Storage.Compaction.{CompactionConfig, needs_compaction, compact, first_key, last_key}

pub record LsmConfig : Type 0 where
  pub memtable_size_limit : ℕ
  pub block_size : ℕ
  pub l0_compaction_trigger : ℕ
  pub level_size_ratio : ℕ

-- `D` is the data directory, `W` the write-ahead log and `T` an opened file.
pub record LsmTree (D W T : Type 0) : Type 0 where
  pub disk : D
  pub active_memtable : MemTable
  pub immutable_memtables : List MemTable
  pub manifest : Manifest
  pub wal : W
  pub sstable_cache : List (SstEntry × T)
  pub config : LsmConfig

unfoldable pub compaction_config : LsmConfig → CompactionConfig
compaction_config c = record {
  l0_compaction_trigger = c.l0_compaction_trigger;
  level_size_ratio = c.level_size_ratio;
  block_size = c.block_size;
}

-- By level, and in a level by identifier, the newest first.
unfoldable pub newer : SstEntry → SstEntry → Bool
newer a b = ltb a.level b.level || (a.level == b.level && ltb b.id a.id)

unfoldable pub insert_by_age :
    {T : Type 0} → SstEntry × T → List (SstEntry × T) → List (SstEntry × T)
insert_by_age a [] = a ∷ []
insert_by_age a (b ∷ bs) =
    let rest = insert_by_age a bs in if newer b.0 a.0 then b ∷ rest else a ∷ b ∷ bs

unfoldable pub newest_first : {T : Type 0} → List (SstEntry × T) → List (SstEntry × T)
newest_first [] = []
newest_first (a ∷ rest) = insert_by_age a (newest_first rest)

unfoldable pub find_memtables : Key → List MemTable → Option Slot
find_memtables key [] = none
find_memtables key (m ∷ ms) =
    let rest = find_memtables key ms in
    elim (MemTable.get m key) [ some slot ↦ some slot | none ↦ rest ]

unfoldable pub apply_op : MemTable → WalOp → MemTable
apply_op m (put key value) = MemTable.put m key value
apply_op m (delete key) = MemTable.delete m key

-- `none` is a key without a value, whether deleted or never written.
abbrev pub value_of : Option Slot → Slot
value_of none = none
value_of (some slot) = slot

module _ {D T : Type 0} (files : SstFiles D T) where
  unfoldable pub get_tables : Key → List (SstEntry × T) → Result (Option Slot)
  get_tables key [] = ok none
  get_tables key ((e, t) ∷ rest) =
      let others = get_tables key rest in
      files.table_get t key >>= λ found. elim found [ some slot ↦ ok (some slot) | none ↦ others ]

  unfoldable pub get : {W : Type 0} → LsmTree D W T → Key → Result Slot
  get t key = elim (MemTable.get t.active_memtable key) [
    | some slot ↦ ok slot
    | none ↦ elim (find_memtables key (reverse t.immutable_memtables)) [
      | some slot ↦ ok slot
      | none ↦ get_tables key (newest_first t.sstable_cache) >>= λ found. ok (value_of found)
    ]
  ]
