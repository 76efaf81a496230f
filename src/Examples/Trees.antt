-- ===== src/Examples/Trees.antt =====
-- The theorems of the LSM tree at trees in memory.
use raftrust.Prelude.{length}
use raftrust.Storage.Lsm.Write.{all_entries}
use raftrust.Storage.Manifest.{remove_sstables}
use raftrust.Storage.Compaction.{drop_tombstones}
use raftrust.Prelude.Maps.{remove}
use raftrust.Storage.Compaction.{remove_files}
use raftrust.Storage.Compaction.{write_merged}
use raftrust.Storage.Compaction.{write_filtered}
use raftrust.Storage.Compaction.{compact_merged}
use raftrust.Storage.Compaction.{dedup_from}
use raftrust.Storage.Compaction.{dedup_by_key}
use raftrust.Storage.Compaction.{insert_sorted}
use raftrust.Storage.Compaction.{sort_by_key}
use raftrust.Storage.Compaction.{read_tables}
use raftrust.Storage.Compaction.{merge_read}
use raftrust.Storage.Compaction.{compact_from}
use raftrust.Storage.Compaction.{overlapping}
use raftrust.Storage.Compaction.{overlapping_targets}
use raftrust.Storage.Manifest.{entries_at}
use raftrust.Storage.Compaction.{ids_of}
use raftrust.Prelude.Maps.{insert, lookup, contains}
use raftrust.Storage.MemTable.{is_full}
use raftrust.Storage.Manifest.{next_sst_filename}
use raftrust.Storage.Manifest.{add_sstable}
use raftrust.Storage.Manifest.{push_at}
use raftrust.Storage.Lsm.Write.{maybe_compact}
use raftrust.Storage.Lsm.Write.{reset_wal}
use raftrust.Storage.Lsm.Write.{cache_table}
use raftrust.Storage.Lsm.{compaction_config}
use raftrust.Storage.Lsm.Write.{table_entry}
use raftrust.Prelude.Tables.{add_entry}
use raftrust.Storage.Manifest.{num_levels}
use raftrust.Storage.Lsm.Write.{register_table}
use raftrust.Storage.Lsm.{apply_op}
use raftrust.Storage.Manifest.{level_at}
use raftrust.Storage.Lsm.Write.{rotate}
use raftrust.Storage.Compaction.{needs_compaction}
use raftrust.Storage.Lsm.Write.{after_write, write_frozen}
use raftrust.Prelude.Tables.{in_range}
use raftrust.Storage.Manifest.{level_count}
use raftrust.Storage.Lsm.Write.{write_op}
use raftrust.Storage.Lsm.Runs.{apply_map}
use raftrust.Prelude.{if◌then◌else◌}
use raftrust.Prelude.Keys.{key_eq}
use raftrust.Storage.MemTable.{total_size}
use raftrust.Prelude.{ℕ, ◌≡◌, refl, false, none, some, List, [], ◌∷◌, ◌==◌, arith, inr}
use raftrust.Prelude.Keys.{Key, key_lt}
use raftrust.Prelude.Tables.{Table, IsOrdered, find}
use raftrust.Errors.{Result, ok, io}
use raftrust.Storage.MemTable.{MemTable, Slot, new_memtable}
use raftrust.Storage.MemTable
use raftrust.Storage.MemTable.Size.{IsSized, writes-IsSized}
use raftrust.Storage.WalOp.{WalOp, put, delete}
use raftrust.Storage.Block.{build, read_entries, read_entries-build}
use raftrust.Storage.Bloom.{BloomFilter, new_filter}
use raftrust.Storage.Bloom.Members.{insert_keys, AllFound, insert-may_contain}
use raftrust.Storage.Manifest.{retain_levels, retain_others, remove_sstables}
use raftrust.Storage.Manifest.{SstEntry, Manifest}
use raftrust.Storage.Sst.{SstFiles}
use raftrust.Storage.Compaction.{CompactionConfig, compact}
use raftrust.Storage.Compaction.Outcome.{compact_first, HasEntry}
use raftrust.Storage.Lsm.{LsmConfig, LsmTree, get}
use raftrust.Storage.Lsm.Write.{open_tree, flush_memtable}
use raftrust.Storage.Lsm.Flush.{IsCurrent}
use raftrust.Storage.Lsm.Runs.{write_ops, apply_maps, HasRoom, write_ops-get, logged}
use raftrust.Storage.Lsm.Failed.{failed_flush_reverts}
use raftrust.Storage.Lsm.Recovery.{records_of, open_tree-get}
use raftrust.Storage.Lsm.Newest.{AllOpen}
use raftrust.Storage.Lsm.Scan.{scan}
use raftrust.Storage.Lsm.Scan.Agreement.{scan-get}
use raftrust.Examples.Fixtures.{memory_wal}
use raftrust.Examples.Tables.{Disk, memory_files, memory_files-IsSst, in_file}

abbrev MemoryLog : Type 0
MemoryLog = List (List ℕ)

abbrev Tree : Type 0
Tree = LsmTree Disk MemoryLog (Table Slot)

abbrev sound : SstFiles Disk (Table Slot)
sound = memory_files (λ id. false)

-- The first file cannot be written.
abbrev flawed : SstFiles Disk (Table Slot)
flawed = memory_files (λ id. id == 0)

abbrev emptied : MemoryLog → Result MemoryLog
emptied w = ok []

abbrev config : LsmConfig
config = record {
  memtable_size_limit = 3;
  block_size = 16;
  l0_compaction_trigger = 4;
  level_size_ratio = 10;
}

abbrev tree_of : MemTable → Tree
tree_of m = record {
  disk = [];
  active_memtable = m;
  immutable_memtables = [];
  manifest = record { levels = [] ∷ [] ∷ []; next_sst_id = 0 };
  wal = [];
  sstable_cache = [];
  config = config;
}

abbrev empty_tree : Tree
empty_tree = tree_of (record { entries = []; size_bytes = 0; max_size = 3 })

abbrev k : Key
k = 97 ∷ []

-- The second write fills the memtable, which is flushed.
abbrev writes : List WalOp
writes = put k (1 ∷ []) ∷ put (98 ∷ []) (2 ∷ []) ∷ delete k ∷ []

empty_tree-IsCurrent : IsCurrent empty_tree
empty_tree-IsCurrent = record { ordered = tt; alone = refl; older = tt }

empty_tree-HasRoom : HasRoom empty_tree 3
unfolding level_count needs_compaction level_at num_levels compaction_config
empty_tree-HasRoom = record { level_zero = omega arith; none_due = refl; names = omega arith }

writes_done : (write_ops sound emptied empty_tree writes).1 ≡ ok tt
unfolding write_ops write_op after_write flush_memtable write_frozen rotate register_table
    table_entry cache_table reset_wal maybe_compact needs_compaction compaction_config level_count
    level_at num_levels push_at add_sstable next_sst_filename apply_op MemTable.put MemTable.delete
    total_size is_full MemTable.is_empty add_entry key_eq key_lt insert lookup new_memtable find
writes_done = refl

write_ops-get_example :
    get sound (write_ops sound emptied empty_tree writes).0 (98 ∷ []) ≡ ok (some (2 ∷ []))
unfolding apply_maps apply_map key_eq
write_ops-get_example =
    write_ops-get emptied (memory_files-IsSst (λ id. false)) empty_tree writes (98 ∷ [])
      empty_tree-IsCurrent empty_tree-HasRoom writes_done

-- A tree with one file and a memtable.
abbrev filed : Tree
filed = record empty_tree {
  active_memtable = record { entries = (k, none) ∷ []; size_bytes = 1; max_size = 3 };
  sstable_cache =
      (
        record {
          id = 0;
          level = 0;
          min_key = k;
          max_key = 98 ∷ [];
          entry_count = 2;
          file_size = 0;
        },
        (k, some (1 ∷ [])) ∷ (98 ∷ [], some (2 ∷ [])) ∷ [],
      )
      ∷ [];
}

scan-get_example :
    (r : Table (List ℕ)) × (scan sound filed k (99 ∷ []) ≡ ok r)
    × IsOrdered r
    × (ok (find (98 ∷ []) r)
        ≡ (if in_range k (99 ∷ []) (98 ∷ []) then get sound filed (98 ∷ []) else ok none))
unfolding key_lt
scan-get_example =
    scan-get (memory_files-IsSst (λ id. false)) filed k (99 ∷ []) (98 ∷ []) (tt, tt) refl (tt, tt)
      tt

-- A memtable with one key, which cannot be written.
abbrev held_back : Tree
held_back = tree_of (record { entries = (k, some (1 ∷ [])) ∷ []; size_bytes = 2; max_size = 3 })

failed_flush_reverts_example :
    let again = logged (flush_memtable flawed emptied held_back).0 [] (put k (5 ∷ [])) in
    (get flawed again k ≡ ok (some (5 ∷ [])))
    × (get flawed (flush_memtable flawed emptied again).0 k ≡ ok (some (1 ∷ [])))
unfolding find key_eq write_frozen flush_memtable rotate logged apply_op MemTable.put add_entry
    MemTable.is_empty register_table table_entry cache_table reset_wal insert lookup add_sstable
    next_sst_filename push_at new_memtable
failed_flush_reverts_example =
    failed_flush_reverts emptied (memory_files-IsSst (λ id. id == 0)) held_back io k (some (1 ∷ []))
      (5 ∷ []) [] refl refl refl refl

-- Two files of level 0, the second with the newer value of the key.
abbrev two_files : Disk
two_files = (0, (k, some (1 ∷ [])) ∷ []) ∷ (1, (k, some (2 ∷ [])) ∷ []) ∷ []

abbrev l0_entry : ℕ → SstEntry
l0_entry id = record {
  id = id;
  level = 0;
  min_key = k;
  max_key = k;
  entry_count = 1;
  file_size = 0;
}

abbrev two_listed : Manifest
two_listed = record { levels = (l0_entry 0 ∷ l0_entry 1 ∷ []) ∷ [] ∷ [] ∷ []; next_sst_id = 2 }

abbrev merging : CompactionConfig
merging = record { l0_compaction_trigger = 2; level_size_ratio = 10; block_size = 16 }

compact_first_example :
    HasEntry (in_file (compact sound merging two_files two_listed 0).0 2) k (some (1 ∷ []))
unfolding contains lookup ids_of entries_at level_at overlapping_targets overlapping num_levels
    compact compact_from merge_read read_tables sort_by_key insert_sorted dedup_by_key dedup_from
    compact_merged write_filtered write_merged remove_files insert remove key_lt key_eq find
    add_entry drop_tombstones next_sst_filename add_sstable remove_sstables retain_levels
    retain_others push_at
compact_first_example =
    compact_first (memory_files-IsSst (λ id. false)) merging two_files two_listed 0 k
      (some (1 ∷ [])) refl refl (inr refl) (λ e. cc) refl

writes-IsSized_example :
    IsSized (MemTable.put held_back.active_memtable k (5 ∷ []))
    × IsSized (MemTable.delete held_back.active_memtable k)
unfolding total_size
writes-IsSized_example =
    writes-IsSized held_back.active_memtable k (5 ∷ [])
      (record { ordered = (tt, tt); sized = refl })

-- Two files are listed, and the log has a write to another key.
two_open : AllOpen sound two_files (all_entries two_listed.levels)
unfolding all_entries lookup
two_open = ((refl, (k, some (1 ∷ [])) ∷ [], refl), ((refl, (k, some (2 ∷ [])) ∷ [], refl), tt))

open_tree-get_example :
    (t : Tree) × (open_tree sound two_files config
        (ok two_listed)
        (some (ok (records_of (put (98 ∷ []) (7 ∷ []) ∷ []))))
        (ok [])
      ≡ ok t)
    × (get sound t k ≡ ok (some (2 ∷ [])))
unfolding apply_maps apply_map key_eq all_entries lookup find add_entry
open_tree-get_example =
    open_tree-get (memory_files-IsSst (λ id. false)) two_files config two_listed
      (put (98 ∷ []) (7 ∷ []) ∷ []) [] k ((omega arith, omega arith), tt) two_open

-- A hash that counts the bytes.
abbrev sums : Key → ℕ × ℕ
sums key = (length key, 3)

insert-may_contain_example :
    (g : BloomFilter) × (insert_keys sums (new_filter 16 2) (k ∷ (98 ∷ 99 ∷ []) ∷ []) ≡ ok g)
    × AllFound sums g (k ∷ (98 ∷ 99 ∷ []) ∷ [])
insert-may_contain_example = insert-may_contain sums 16 2 (k ∷ (98 ∷ 99 ∷ []) ∷ []) (omega arith)

read_entries-build_example :
    read_entries (build ((k, some (1 ∷ [])) ∷ (98 ∷ [], none) ∷ []))
    ≡ ok ((k, some (1 ∷ [])) ∷ (98 ∷ [], none) ∷ [])
read_entries-build_example =
    read_entries-build ((k, some (1 ∷ [])) ∷ (98 ∷ [], none) ∷ [])
      ((omega arith, omega arith), (omega arith, tt)) (omega arith)
