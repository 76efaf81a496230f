-- ===== src/Storage/Lsm/Write.antt =====
-- `flush_memtable`, `maybe_compact`, `put`, `delete` and `open` of crates/raft-storage/src/lsm.rs.
use raftrust.Prelude.{ℕ, Option, none, some, List, [], ◌∷◌, ◌++◌, if◌then◌else◌}
use raftrust.Prelude.Keys.{Key}
use raftrust.Prelude.Tables.{Table}
use raftrust.Errors.{Result, ok, err, panic, ◌>>=◌}
use raftrust.Log.{Wal}
use raftrust.Storage.MemTable.{MemTable, Slot, new_memtable, is_full, is_empty}
use raftrust.Storage.WalOp.{WalOp, put, delete}
use raftrust.Storage.WalOp
use raftrust.Storage.Manifest.{SstEntry, Manifest, next_sst_filename, add_sstable}
use raftrust.Storage.Sst.{SstInfo, SstFiles}
use raftrust.Storage.Compaction.{needs_compaction, compact, first_key, last_key}
use raftrust.Storage.Lsm.{LsmConfig, LsmTree, compaction_config, apply_op}

-- The files of a manifest, level after level.
unfoldable pub all_entries : List (List SstEntry) → List SstEntry
all_entries [] = []
all_entries (l ∷ ls) = l ++ all_entries ls

module _ {D T : Type 0} (files : SstFiles D T) where
  -- The loop that opens the files that are there; an error ends it with the ones before.
  unfoldable pub load_tables :
      D → List (SstEntry × T) → List SstEntry → List (SstEntry × T) × Result (Unit {0})
  load_tables d acc [] = (acc, ok tt)
  load_tables d acc (e ∷ es) =
      let skipped = load_tables d acc es in
      if files.file_exists d e.id
      then elim (files.open_table d e.id) [
        | ok table ↦ load_tables d (acc ++ ((e, table) ∷ [])) es
        | err x ↦ (acc, err x)
        | panic ↦ (acc, panic)
      ]
      else skipped

  unfoldable pub rebuild_cache : {W : Type 0} → LsmTree D W T → LsmTree D W T × Result (Unit {0})
  rebuild_cache t =
      let loaded = load_tables t.disk [] (all_entries t.manifest.levels) in
      (record t { sstable_cache = loaded.0 }, loaded.1)

  -- After the compaction the manifest is saved and the cache built anew.
  unfoldable pub save_compacted : {W : Type 0} → LsmTree D W T → LsmTree D W T × Result (Unit {0})
  save_compacted t =
      let saved = files.save_manifest t.disk t.manifest in
      elim saved.1 [
        | some e ↦ (record t { disk = saved.0 }, err e)
        | none ↦ rebuild_cache (record t { disk = saved.0 })
      ]

  unfoldable pub maybe_compact : {W : Type 0} → LsmTree D W T → LsmTree D W T × Result (Unit {0})
  maybe_compact t = elim (needs_compaction (compaction_config t.config) t.manifest) [
    | none ↦ (t, ok tt)
    | some level ↦
        let r = compact files (compaction_config t.config) t.disk t.manifest level in
        let compacted = record t { disk = r.0; manifest = r.1 } in
        elim r.2 [
          | ok u ↦ save_compacted compacted
          | err e ↦ (compacted, err e)
          | panic ↦ (compacted, panic)
        ]
  ]

unfoldable pub table_entry : ℕ → Table Slot → SstInfo → SstEntry
table_entry id entries info = record {
  id = id;
  level = 0;
  min_key = first_key entries;
  max_key = last_key entries;
  entry_count = info.entry_count;
  file_size = info.file_size;
}

module _ {D T : Type 0} (files : SstFiles D T) where
  -- The entries of the active memtable as a file with the next identifier.
  unfoldable pub write_frozen : {W : Type 0} → LsmTree D W T → D × Result SstInfo
  write_frozen t =
      files.create t.disk t.manifest.next_sst_id t.config.block_size t.active_memtable.entries

  -- The active memtable becomes the last of the immutable ones, and the file is being written.
  unfoldable pub rotate : {W : Type 0} → LsmTree D W T → LsmTree D W T
  rotate t = record t {
    active_memtable = new_memtable t.config.memtable_size_limit;
    immutable_memtables = t.immutable_memtables ++ (t.active_memtable ∷ []);
    manifest = (next_sst_filename t.manifest).0;
    disk = (write_frozen t).0;
  }

module _ {D W T : Type 0} (files : SstFiles D T) (recreate : W → Result W) where
  -- The log is removed and opened anew.
  unfoldable pub reset_wal : LsmTree D W T → LsmTree D W T × Result (Unit {0})
  reset_wal t = elim (recreate t.wal) [
    | ok w ↦ (record t { wal = w }, ok tt)
    | err e ↦ (t, err e)
    | panic ↦ (t, panic)
  ]

  -- The new file is opened and cached, and the frozen memtable, the last of the immutable ones, goes.
  unfoldable pub cache_table :
      List MemTable → SstEntry → LsmTree D W T → LsmTree D W T × Result (Unit {0})
  cache_table others entry t = elim (files.open_table t.disk entry.id) [
    | err e ↦ (t, err e)
    | panic ↦ (t, panic)
    | ok table ↦ reset_wal (record t {
      sstable_cache = t.sstable_cache ++ ((entry, table) ∷ []);
      immutable_memtables = others;
    })
  ]

  -- The new file is entered in the manifest, which is saved.
  unfoldable pub register_table :
      List MemTable → SstEntry → LsmTree D W T → LsmTree D W T × Result (Unit {0})
  register_table others entry t =
      let manifest = add_sstable t.manifest entry in
      let saved = files.save_manifest t.disk manifest in
      elim saved.1 [
        | some e ↦ (record t { manifest = manifest; disk = saved.0 }, err e)
        | none ↦ cache_table others entry (record t { manifest = manifest; disk = saved.0 })
      ]

  unfoldable pub flush_memtable : LsmTree D W T → LsmTree D W T × Result (Unit {0})
  flush_memtable t =
      if is_empty t.active_memtable then (t, ok tt) else elim (write_frozen files t).1 [
        | err e ↦ (rotate files t, err e)
        | panic ↦ (rotate files t, panic)
        | ok info ↦
            register_table t.immutable_memtables
              (table_entry t.manifest.next_sst_id t.active_memtable.entries info) (rotate files t)
      ]

module _ {D W T : Type 0} ⦃wal : Wal W⦄ (files : SstFiles D T) (recreate : W → Result W) where
  -- Where the memtable is full, it is flushed and a compaction made that is due.
  unfoldable pub after_write : LsmTree D W T → LsmTree D W T × Result (Unit {0})
  after_write t =
      let flushed = flush_memtable files recreate t in
      if is_full t.active_memtable
      then elim flushed.1 [
        | ok u ↦ maybe_compact files flushed.0
        | err e ↦ (flushed.0, err e)
        | panic ↦ (flushed.0, panic)
      ]
      else (t, ok tt)

  -- `put` and `delete`: the operation goes to the log, which is synced, then to the memtable.
  unfoldable pub write_op : LsmTree D W T → WalOp → LsmTree D W T × Result (Unit {0})
  write_op t op =
      let appended = wal.append t.wal (WalOp.encode op) in
      let synced = wal.sync appended.0 in
      elim appended.1 [
        | some e ↦ (record t { wal = appended.0 }, err e)
        | none ↦ elim synced.1 [
          | some e ↦ (record t { wal = synced.0 }, err e)
          | none ↦
              after_write
                (record t { wal = synced.0; active_memtable = apply_op t.active_memtable op })
        ]
      ]

  unfoldable pub put_key : LsmTree D W T → Key → List ℕ → LsmTree D W T × Result (Unit {0})
  put_key t key value = write_op t (put key value)

  unfoldable pub delete_key : LsmTree D W T → Key → LsmTree D W T × Result (Unit {0})
  delete_key t key = write_op t (delete key)

-- The loop over the records of the log.
unfoldable pub replay_ops : MemTable → List (List ℕ) → Result MemTable
replay_ops m [] = ok m
replay_ops m (r ∷ rs) = WalOp.decode r >>= λ op. replay_ops (apply_op m op) rs

module _ {D W T : Type 0} (files : SstFiles D T) where
  -- `open`, from what `Manifest::load` gives, what the reader of the log gives where there is one, and
  -- the log opened for writing.
  unfoldable pub open_tree :
      D
      → LsmConfig
      → Result Manifest
      → Option (Result (List (List ℕ)))
      → Result W
      → Result (LsmTree D W T)
  open_tree d config loaded records writer = do
    manifest ← loaded
    ops ← elim records [ none ↦ ok [] | some read ↦ read ]
    memtable ← replay_ops (new_memtable config.memtable_size_limit) ops
    wal ← writer
    u ← (load_tables files d [] (all_entries manifest.levels)).1
    ok (record {
      disk = d;
      active_memtable = memtable;
      immutable_memtables = [];
      manifest = manifest;
      wal = wal;
      sstable_cache = (load_tables files d [] (all_entries manifest.levels)).0;
      config = config;
    })
