-- ===== src/Storage/Lsm/Failed.antt =====
-- A flush of crates/raft-storage/src/lsm.rs that fails, and the flushes after it.
use raftrust.Prelude.{List-cases}
use raftrust.Prelude.Tables.{add_entry}
use raftrust.Storage.Lsm.{SstEntry}
use raftrust.Prelude.{ℕ, ◌≡◌, refl, ap, ◌∙◌, false, Option, some, List, [], arith, inl, inr}
use mathlib.Core.List.{reverse}
use raftrust.Prelude.Keys.{Key, key_eq_refl}
use raftrust.Prelude.Tables.{Table, find, IsOrdered}
use raftrust.Errors.{Error, Result, ok, err}
use raftrust.Storage.MemTable.{MemTable, Slot, or_else, is_empty, new_memtable}
use raftrust.Storage.MemTable
use raftrust.Storage.WalOp.{put}
use raftrust.Storage.Sst.{SstFiles, IsSst}
use raftrust.Storage.Lsm.{LsmTree, apply_op, get, find_memtables}
use raftrust.Storage.Lsm.Write.{flush_memtable, write_frozen, rotate}
use raftrust.Storage.Lsm.View.{visible, get-visible}
use raftrust.Storage.Lsm.Flush.{Flushed, flush-Flushed}
use raftrust.Storage.Lsm.Runs.{logged}

module _ {D W T : Type 0} {files : SstFiles D T} (recreate : W → Result W)
    {stored : D → ℕ → Option (Table Slot)} {held : T → Table Slot}
    (law : IsSst files stored held) where
  failed_rotates :
      (t : LsmTree D W T) (e : Error)
      → is_empty t.active_memtable ≡ false
      → (write_frozen files t).1 ≡ err e
      → flush_memtable files recreate t ≡ (rotate files t, err e)
  unfolding flush_memtable
  failed_rotates t e nonempty failed = rw (nonempty, failed) refl

  waiting_visible :
      (t t' : LsmTree D W T) (table : T) (entry : SstEntry) (key : Key) (slot : Slot)
      → find_memtables key (reverse t.immutable_memtables) ≡ some slot
      → Flushed held t t' table entry
      → visible held t' key ≡ slot
  unfolding visible find
  waiting_visible t t' table entry key slot waits f = rw (f.3, f.4, waits) refl

  rotated_waits :
      (t : LsmTree D W T) (key : Key) (slot : Slot)
      → t.immutable_memtables ≡ []
      → find key t.active_memtable.entries ≡ some slot
      → find_memtables key (reverse (rotate files t).immutable_memtables) ≡ some slot
  unfolding rotate find_memtables MemTable.get
  rotated_waits t key slot alone found = rw alone (ground (arith, found))

  found_nonempty :
      (m : MemTable) (key : Key) (slot : Slot) → find key m.entries ≡ some slot → is_empty m ≡ false
  unfolding is_empty find
  found_nonempty m key slot found = elim (List-cases m.entries) [
    | inl empty ↦ absurd (ground arith)
    | inr (e, es, same) ↦ rw same refl
  ]

  write_again :
      (t : LsmTree D W T) (key : Key) (value : List ℕ) (w : W)
      → let again = logged (rotate files t) w (put key value) in
        IsOrdered again.active_memtable.entries
        × (is_empty again.active_memtable ≡ false)
        × (visible held again key ≡ some value)
  unfolding logged rotate apply_op MemTable.put new_memtable add_entry is_empty visible find
  write_again t key value w = ((tt, tt), refl, rw (key_eq_refl key) refl)

  rotated_reverts :
      (t : LsmTree D W T) (key : Key) (slot : Slot) (value : List ℕ) (w : W)
      → t.immutable_memtables ≡ []
      → find key t.active_memtable.entries ≡ some slot
      → let again = logged (rotate files t) w (put key value) in
        (flush_memtable files recreate again).1 ≡ ok tt
        → (get files again key ≡ ok (some value))
          × (get files (flush_memtable files recreate again).0 key ≡ ok slot)
  unfolding logged
  rotated_reverts t key slot value w alone found h =
      let again = logged (rotate files t) w (put key value) in
      let (o, nonempty, seen) = write_again t key value w in
      let (table, entry, f) = flush-Flushed recreate law again o nonempty h in
      let after = (flush_memtable files recreate again).0 in
      (
        get-visible law again key ∙ ap ok seen,
        get-visible law after key
            ∙ ap ok (
                waiting_visible again after table entry key slot
                  (rotated_waits t key slot alone found) f),
      )

  -- After a flush that failed to write its file, a key of its memtable is written again and read as it
  -- was written; the next flush, which succeeds, takes the key back to the value of before the failure.
  pub failed_flush_reverts :
      (t : LsmTree D W T) (e : Error) (key : Key) (slot : Slot) (value : List ℕ) (w : W)
      → t.immutable_memtables ≡ []
      → find key t.active_memtable.entries ≡ some slot
      → (write_frozen files t).1 ≡ err e
      → let again = logged (flush_memtable files recreate t).0 w (put key value) in
        (flush_memtable files recreate again).1 ≡ ok tt
        → (get files again key ≡ ok (some value))
          × (get files (flush_memtable files recreate again).0 key ≡ ok slot)
  failed_flush_reverts t e key slot value w alone found failed h =
      let same = failed_rotates t e (found_nonempty t.active_memtable key slot found) failed in
      rw same (rotated_reverts t key slot value w alone found (rw same at h))
