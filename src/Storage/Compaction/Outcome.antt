-- ===== src/Storage/Compaction/Outcome.antt =====
-- What a compaction of crates/raft-storage/src/compaction/leveled.rs leaves in the new file.
use raftrust.Storage.Compaction.{compact_from}
use raftrust.Storage.Compaction.{write_filtered}
use raftrust.Prelude.{◌≢◌}
use raftrust.Prelude.{
  ℕ, ◌+◌, ◌-◌, ◌≡◌, ◌⊎◌, refl, sym, ap, ◌∙◌, true, false, Option, none, some, List, [], ◌∷◌, ◌++◌,
  leb, arith, inl, inr, Bool-cases, is_some,
}
use raftrust.Prelude.Maps.{contains}
use raftrust.Prelude.Keys.{Key}
use raftrust.Prelude.Tables.{Table, find, IsOrdered}
use raftrust.Errors.{ok_inj, Result-cases, >>=-Passed, ok}
use raftrust.Storage.MemTable.{or_else, Slot}
use raftrust.Storage.Manifest.{SstEntry, Manifest, entries_at, num_levels}
use raftrust.Storage.Sst.{SstFiles, IsSst}
use raftrust.Storage.Compaction.{
  CompactionConfig, compact, compact_merged, merge_read, write_merged, read_tables, remove_files,
  ids_of, dedup_by_key, sort_by_key, drop_tombstones,
}
use raftrust.Storage.Compaction.Overlap.{touching, overlapping_targets_lem}
use raftrust.Storage.Compaction.Merge.{merge_first, drop_tombstones_lem, live}

abbrev pub find_in : Key → Option (Table Slot) → Option Slot
find_in k none = none
find_in k (some t) = find k t

-- The first entry of the key in the files, one after the other.
abbrev pub first_stored :
    {D : Type 0} → (D → ℕ → Option (Table Slot)) → D → Key → List SstEntry → Option Slot
first_stored stored d k [] = none
first_stored stored d k (e ∷ es) = or_else (find_in k (stored d e.id)) (first_stored stored d k es)

find-append : (k : Key) (xs ys : Table Slot) → find k (xs ++ ys) ≡ or_else (find k xs) (find k ys)
unfolding find
find-append k [] ys = refl
find-append k ((j, v) ∷ xs) ys = ground (arith, find-append k xs ys)

-- A file has the entries `t`, in order, with this one for the key.
abbrev pub HasEntry : Option (Table Slot) → Key → Slot → Type 0
HasEntry file key slot = (t : Table Slot) × (file ≡ some t) × IsOrdered t × (find key t ≡ some slot)

live_kept :
    (slot : Slot) (o : Option Slot) → o ≡ some slot → is_some slot ≡ true → live o ≡ some slot
live_kept none o e h = cc
live_kept (some v) o e h = rw e refl

module _ {D T : Type 0} {files : SstFiles D T} {stored : D → ℕ → Option (Table Slot)}
    {held : T → Table Slot} (law : IsSst files stored held) where
  find-read_tables :
      (d : D) (es : List SstEntry) (all : Table Slot) (k : Key)
      → read_tables files d es ≡ ok all
      → find k all ≡ first_stored stored d k es
  unfolding read_tables find
  find-read_tables d [] all k h = ap (find k) (sym (ok_inj h))
  find-read_tables d (e ∷ es) all k h =
      let opened = >>=-Passed (files.open_table d e.id) _ h in
      let read = >>=-Passed (files.table_iter opened.0) _ opened.2 in
      let rest = >>=-Passed (read_tables files d es) _ read.2 in
      let same : held opened.0 ≡ read.0 = ok_inj (sym (law.iterates opened.0) ∙ read.1) in
      rw (sym (ok_inj rest.2)) (
        rw (law.opens d e.id opened.0 opened.1, same)
          (find-append k read.0 rest.0
            ∙ ap (or_else (find k read.0)) (find-read_tables d es rest.0 k rest.1)))

  remove_files_keep :
      (d : D) (es : List SstEntry) (j : ℕ)
      → contains j (ids_of es) ≡ false
      → stored (remove_files files d es) j ≡ stored d j
  unfolding remove_files contains ids_of
  remove_files_keep d [] j h = refl
  remove_files_keep d (e ∷ es) j h =
      remove_files_keep (files.remove_file d e.id) es j (ground arith)
      ∙ law.remove_keeps d e.id j (λ same. ground arith)

  -- Where the new file is kept at all, it has what was merged.
  write_merged_stores :
      (config : CompactionConfig) (d : D) (m : Manifest) (target : ℕ) (olds : List SstEntry)
      (es : Table Slot)
      → IsOrdered es
      → contains m.next_sst_id (ids_of olds) ≡ false
      → (write_merged files config d m target olds es).2 ≡ ok tt
      → stored (write_merged files config d m target olds es).0 m.next_sst_id ≡ some es
  unfolding write_merged
  write_merged_stores config d m target olds es o fresh h =
      elim (Result-cases (files.create d m.next_sst_id config.block_size es).1) [
        | inl (info, made) ↦
            rw (made, write_merged)
              (remove_files_keep (files.create d m.next_sst_id config.block_size es).0 olds
                  m.next_sst_id fresh
                ∙ law.create_stores d m.next_sst_id config.block_size es info o made)
        | inr (inl (e, failed)) ↦ ground arith
        | inr (inr panics) ↦ ground arith
      ]

  write_filtered_first :
      (config : CompactionConfig) (d : D) (m : Manifest) (target : ℕ) (olds : List SstEntry)
      (es : Table Slot) (key : Key) (slot : Slot)
      → IsOrdered es
      → contains m.next_sst_id (ids_of olds) ≡ false
      → find key es ≡ some slot
      → (write_filtered files config d m target olds es).2 ≡ ok tt
      → HasEntry (stored (write_filtered files config d m target olds es).0 m.next_sst_id) key slot
  unfolding write_filtered find
  write_filtered_first config d m target olds [] key slot o fresh found h = cc
  write_filtered_first config d m target olds (e ∷ es) key slot o fresh found h =
      (e ∷ es, write_merged_stores config d m target olds (e ∷ es) o fresh h, o, found)

  compact_merged_first :
      (config : CompactionConfig) (d : D) (m : Manifest) (target : ℕ) (olds : List SstEntry)
      (es : Table Slot) (key : Key) (slot : Slot)
      → IsOrdered es
      → contains m.next_sst_id (ids_of olds) ≡ false
      → find key es ≡ some slot
      → (leb (num_levels m - 1) target ≡ false) ⊎ (is_some slot ≡ true)
      → (compact_merged files config d m target olds es).2 ≡ ok tt
      → HasEntry (stored (compact_merged files config d m target olds es).0 m.next_sst_id) key slot
  unfolding compact_merged find
  compact_merged_first config d m target olds [] key slot o fresh found kept h = cc
  compact_merged_first config d m target olds ((k, v) ∷ es) key slot o fresh found kept h =
      elim (Bool-cases (leb (num_levels m - 1) target)) [
        | inl deepest ↦
            let dropped = drop_tombstones_lem ((k, v) ∷ es) key o in
            rw deepest (
              write_filtered_first config d m target olds (drop_tombstones ((k, v) ∷ es)) key slot
                dropped.0 fresh (dropped.1 ∙ live_kept slot _ found (ground arith))
                (rw deepest at h))
        | inr above ↦ rw above (
            write_filtered_first config d m target olds ((k, v) ∷ es) key slot o fresh found
              (rw above at h))
      ]

  merge_read_first :
      (config : CompactionConfig) (d : D) (m : Manifest) (target : ℕ) (olds : List SstEntry)
      (key : Key) (slot : Slot)
      → contains m.next_sst_id (ids_of olds) ≡ false
      → (merge_read files config d m target olds (read_tables files d olds)).2 ≡ ok tt
      → (leb (num_levels m - 1) target ≡ false) ⊎ (is_some slot ≡ true)
      → first_stored stored d key olds ≡ some slot
      → HasEntry
          (stored
            (merge_read files config d m target olds (read_tables files d olds)).0
            m.next_sst_id)
          key
          slot
  unfolding merge_read
  merge_read_first config d m target olds key slot fresh done kept first =
      elim (Result-cases (read_tables files d olds)) [
        | inl (all, read) ↦
            let merged = merge_first all key in
            rw read (
              compact_merged_first config d m target olds (dedup_by_key (sort_by_key all)) key slot
                merged.0 fresh (merged.1 ∙ (find-read_tables d olds all key read ∙ first)) kept
                (rw read at done))
        | inr (inl (e, failed)) ↦ ground arith
        | inr (inr panics) ↦ ground arith
      ]

  compact_from_first :
      (config : CompactionConfig) (d : D) (m : Manifest) (level : ℕ)
      (sources targets : List SstEntry) (key : Key) (slot : Slot)
      → contains m.next_sst_id (ids_of (sources ++ targets)) ≡ false
      → (compact_from files config d m level sources targets).2 ≡ ok tt
      → (leb (num_levels m - 1) (level + 1) ≡ false) ⊎ (is_some slot ≡ true)
      → sources ≢ []
      → first_stored stored d key (sources ++ targets) ≡ some slot
      → HasEntry
          (stored (compact_from files config d m level sources targets).0 m.next_sst_id)
          key
          slot
  unfolding compact_from
  compact_from_first config d m level [] targets key slot fresh done kept some_level first =
      absurd (some_level refl)
  compact_from_first config d m level (e ∷ es) targets key slot fresh done kept some_level first =
      merge_read_first config d m (level + 1) (e ∷ (es ++ targets)) key slot fresh done kept first

  -- The new file of a compaction that succeeds has, for each key with a value in the files merged, the
  -- first entry of the key: in the files of the level in the order in which they were added, then in
  -- those files of the next level that begin where some file of the level has not ended and end where
  -- some file of it has begun. A tombstone is treated alike unless the next level is the deepest. The
  -- level has files, the files keep what is written, and the new identifier is not one of those merged.
  pub compact_first :
      (config : CompactionConfig) (d : D) (m : Manifest) (level : ℕ) (key : Key) (slot : Slot)
      → let olds = entries_at m level ++ touching (entries_at m level) (entries_at m (level + 1)) in
        contains m.next_sst_id (ids_of olds) ≡ false
        → (compact files config d m level).2 ≡ ok tt
        → (leb (num_levels m - 1) (level + 1) ≡ false) ⊎ (is_some slot ≡ true)
        → entries_at m level ≢ []
        → first_stored stored d key olds ≡ some slot
        → HasEntry (stored (compact files config d m level).0 m.next_sst_id) key slot
  unfolding compact
  compact_first config d m level key slot fresh done kept some_level first =
      let targets = overlapping_targets_lem m level in
      rw targets (
        compact_from_first config d m level (entries_at m level)
          (touching (entries_at m level) (entries_at m (level + 1))) key slot fresh
          (rw targets at done) kept some_level first)
