-- ===== src/Storage/Compaction.antt =====
-- crates/raft-storage/src/compaction/leveled.rs: merging the files of a level into the next one.
pub mod Merge
pub mod Overlap
pub mod Outcome
pub mod Due
use raftrust.Prelude.{
  zero, suc, ℕ, ◌+◌, ◌-◌, ◌*◌, ◌^◌, Bool, true, false, not, ◌&&◌, Option, none, some, List, [], ◌∷◌,
  ◌++◌, leb, ltb, if◌then◌else◌, is_some,
}
use raftrust.Prelude.Keys.{Key, key_eq, key_lt}
use raftrust.Prelude.Tables.{Table}
use raftrust.Errors.{Error, Result, ok, err, panic, ◌>>=◌}
use raftrust.Storage.MemTable.{Slot}
use raftrust.Storage.Manifest.{
  SstEntry, Manifest, next_sst_filename, add_sstable, remove_sstables, entries_at, level_count,
  num_levels,
}
use raftrust.Storage.Sst.{SstInfo, SstFiles}

pub record CompactionConfig : Type 0 where
  pub l0_compaction_trigger : ℕ
  pub level_size_ratio : ℕ
  pub block_size : ℕ

-- The loop over the levels from `level` on, `count` of them. The target is taken to fit `usize`.
full_level : CompactionConfig → Manifest → ℕ → ℕ → Option ℕ
full_level config m level zero = none
full_level config m level (suc count) =
    let rest = full_level config m (level + 1) count in
    if ltb (config.l0_compaction_trigger * config.level_size_ratio ^ level) (level_count m level)
    then some level
    else rest

unfoldable pub needs_compaction : CompactionConfig → Manifest → Option ℕ
unfolding full_level
needs_compaction config m =
    if leb config.l0_compaction_trigger (level_count m 0)
    then some 0
    else full_level config m 1 (num_levels m - 1 - 1)

-- The least and the greatest of the keys.
least : Key → List SstEntry → Key
least k [] = k
least k (e ∷ es) = least (if key_lt e.min_key k then e.min_key else k) es

greatest : Key → List SstEntry → Key
greatest k [] = k
greatest k (e ∷ es) = greatest (if key_lt e.max_key k then k else e.max_key) es

-- `e.min_key <= max_key && e.max_key >= min_key`
unfoldable pub overlapping : Key → Key → List SstEntry → List SstEntry
overlapping min_key max_key [] = []
overlapping min_key max_key (e ∷ es) =
    let rest = overlapping min_key max_key es in
    if not (key_lt max_key e.min_key) && not (key_lt e.max_key min_key) then e ∷ rest else rest

-- `sort_by` on the keys, which keeps the order of equal keys.
unfoldable pub insert_sorted : Key → Slot → Table Slot → Table Slot
insert_sorted k v [] = (k, v) ∷ []
insert_sorted k v ((j, w) ∷ m) =
    let rest = insert_sorted k v m in if key_lt j k then (j, w) ∷ rest else (k, v) ∷ (j, w) ∷ m

unfoldable pub sort_by_key : Table Slot → Table Slot
sort_by_key [] = []
sort_by_key ((k, v) ∷ m) = insert_sorted k v (sort_by_key m)

-- `dedup_by` on the keys: of neighbours with one key the first stays.
unfoldable pub dedup_from : Key → Slot → Table Slot → Table Slot
dedup_from k v [] = (k, v) ∷ []
dedup_from k v ((j, w) ∷ m) =
    let same = dedup_from k v m in
    let other = dedup_from j w m in if key_eq j k then same else (k, v) ∷ other

unfoldable pub dedup_by_key : Table Slot → Table Slot
dedup_by_key [] = []
dedup_by_key ((k, v) ∷ m) = dedup_from k v m

-- `filter(|e| e.value.is_some())`
unfoldable pub drop_tombstones : Table Slot → Table Slot
drop_tombstones [] = []
drop_tombstones ((k, v) ∷ m) =
    let rest = drop_tombstones m in if is_some v then (k, v) ∷ rest else rest

unfoldable pub ids_of : List SstEntry → List ℕ
ids_of [] = []
ids_of (e ∷ es) = e.id ∷ ids_of es

unfoldable pub first_key : Table Slot → Key
first_key [] = []
first_key ((k, v) ∷ m) = k

unfoldable pub last_key : Table Slot → Key
last_key [] = []
last_key ((k, v) ∷ []) = k
last_key ((k, v) ∷ e ∷ m) = last_key (e ∷ m)

-- The files of the next level that share keys with the range of the sources.
unfoldable pub overlapping_targets : Manifest → ℕ → List SstEntry
unfolding least greatest
overlapping_targets m level = elim (entries_at m level) [
  | [] ↦ []
  | e ∷ es ↦ overlapping (least e.min_key es) (greatest e.max_key es) (entries_at m (level + 1))
]

module _ {D T : Type 0} (files : SstFiles D T) where
  -- Opening each file and reading all its entries, one after the other.
  unfoldable pub read_tables : D → List SstEntry → Result (Table Slot)
  read_tables d [] = ok []
  read_tables d (e ∷ es) =
      let rest = read_tables d es in
      files.open_table d e.id >>= λ t.
      files.table_iter t >>= λ entries. rest >>= λ others. ok (entries ++ others)

  unfoldable pub remove_files : D → List SstEntry → D
  remove_files d [] = d
  remove_files d (e ∷ es) = remove_files (files.remove_file d e.id) es

  -- Writing the merged entries as the one new file of the target level.
  unfoldable pub write_merged :
      CompactionConfig
      → D
      → Manifest
      → ℕ
      → List SstEntry
      → Table Slot
      → D × Manifest × Result (Unit {0})
  write_merged config d m target_level olds filtered =
      let numbered = (next_sst_filename m).0 in
      let id = m.next_sst_id in
      let created = files.create d id config.block_size filtered in
      elim created.1 [
        | err e ↦ (created.0, numbered, err e)
        | panic ↦ (created.0, numbered, panic)
        | ok info ↦ (
          remove_files created.0 olds,
          add_sstable (remove_sstables numbered (ids_of olds)) (record {
            id = id;
            level = target_level;
            min_key = first_key filtered;
            max_key = last_key filtered;
            entry_count = info.entry_count;
            file_size = info.file_size;
          }),
          ok tt,
        )
      ]

  unfoldable pub write_filtered :
      CompactionConfig
      → D
      → Manifest
      → ℕ
      → List SstEntry
      → Table Slot
      → D × Manifest × Result (Unit {0})
  write_filtered config d m target_level olds [] =
      (d, remove_sstables (next_sst_filename m).0 (ids_of olds), ok tt)
  write_filtered config d m target_level olds (e ∷ es) =
      write_merged config d m target_level olds (e ∷ es)

  unfoldable pub compact_merged :
      CompactionConfig
      → D
      → Manifest
      → ℕ
      → List SstEntry
      → Table Slot
      → D × Manifest × Result (Unit {0})
  compact_merged config d m target_level olds [] = (d, remove_sstables m (ids_of olds), ok tt)
  compact_merged config d m target_level olds ((k, v) ∷ merged) =
      let is_deepest = leb (num_levels m - 1) target_level in
      let filtered : Table Slot =
        if is_deepest then drop_tombstones ((k, v) ∷ merged) else (k, v) ∷ merged in
      write_filtered config d m target_level olds filtered

  unfoldable pub merge_read :
      CompactionConfig
      → D
      → Manifest
      → ℕ
      → List SstEntry
      → Result (Table Slot)
      → D × Manifest × Result (Unit {0})
  merge_read config d m target_level olds (ok all_entries) =
      compact_merged config d m target_level olds (dedup_by_key (sort_by_key all_entries))
  merge_read config d m target_level olds (err e) = (d, m, err e)
  merge_read config d m target_level olds panic = (d, m, panic)

  -- With the files of the level and those of the next one that overlap.
  unfoldable pub compact_from :
      CompactionConfig
      → D
      → Manifest
      → ℕ
      → List SstEntry
      → List SstEntry
      → D × Manifest × Result (Unit {0})
  compact_from config d m level [] targets = (d, m, ok tt)
  compact_from config d m level (e ∷ es) targets =
      merge_read config d m (level + 1) (e ∷ (es ++ targets)) (read_tables d (e ∷ (es ++ targets)))

  unfoldable pub compact : CompactionConfig → D → Manifest → ℕ → D × Manifest × Result (Unit {0})
  compact config d m level =
      compact_from config d m level (entries_at m level) (overlapping_targets m level)
