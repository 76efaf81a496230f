-- ===== src/Storage/Sst.antt =====
-- The sorted files as crates/raft-storage/src/lsm.rs and compaction/leveled.rs use them: the interface
-- of sstable/writer.rs and sstable/reader.rs, with the files of the data directory.
use raftrust.Prelude.{ℕ, Bool, ◌≡◌, ◌≢◌, Option, some}
use raftrust.Prelude.Keys.{Key}
use raftrust.Prelude.Tables.{Table, find, range, IsOrdered}
use raftrust.Errors.{Error, Result, ok}
use raftrust.Storage.MemTable.{Slot}
use raftrust.Storage.Manifest.{Manifest}

pub record SstInfo : Type 0 where
  pub entry_count : ℕ
  pub file_size : ℕ

-- `D` is the data directory and `T` an opened file. `create` is a writer that is given the entries and
-- finished; `get`, `iter` and `scan` are the reader's.
pub record SstFiles (D T : Type 0) : Type 0 where
  pub create : D → ℕ → ℕ → Table Slot → D × Result SstInfo
  pub open_table : D → ℕ → Result T
  pub file_exists : D → ℕ → Bool
  pub remove_file : D → ℕ → D
  pub table_get : T → Key → Result (Option Slot)
  pub table_iter : T → Result (Table Slot)
  pub table_scan : T → Key → Key → Result (Table Slot)
  pub save_manifest : D → Manifest → D × Option Error

-- What the files promise: `stored` is what a file has, `held` what an opened one reads.
pub record IsSst {D T : Type 0} (files : SstFiles D T) (stored : D → ℕ → Option (Table Slot))
    (held : T → Table Slot) : Type 0 where
  pub create_stores :
      (d : D) (id block_size : ℕ) (es : Table Slot) (info : SstInfo)
      → IsOrdered es
      → (files.create d id block_size es).1 ≡ ok info
      → stored (files.create d id block_size es).0 id ≡ some es
  pub create_keeps :
      (d : D) (id block_size : ℕ) (es : Table Slot) (j : ℕ)
      → j ≢ id
      → stored (files.create d id block_size es).0 j ≡ stored d j
  pub remove_keeps : (d : D) (id j : ℕ) → j ≢ id → stored (files.remove_file d id) j ≡ stored d j
  pub save_keeps :
      (d : D) (m : Manifest) (j : ℕ) → stored (files.save_manifest d m).0 j ≡ stored d j
  pub opens : (d : D) (id : ℕ) (t : T) → files.open_table d id ≡ ok t → stored d id ≡ some (held t)
  pub held_ordered : (t : T) → IsOrdered (held t)
  pub gets : (t : T) (key : Key) → files.table_get t key ≡ ok (find key (held t))
  pub iterates : (t : T) → files.table_iter t ≡ ok (held t)
  pub scans :
      (t : T) (start end : Key) → files.table_scan t start end ≡ ok (range start end (held t))
