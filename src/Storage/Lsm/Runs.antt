-- ===== src/Storage/Lsm/Runs.antt =====
-- `put` and `delete` of crates/raft-storage/src/lsm.rs, one after the other, as writes to a map.
use raftrust.Errors.{Result-cases}
use mathlib.Core.Path.{fun_ext}
use raftrust.Prelude.{
  ℕ, suc, ◌+◌, ◌<◌, ◌^◌, ◌≡◌, refl, ap, ◌∙◌, Option, none, some, List, [], ◌∷◌, length,
  if◌then◌else◌, arith, inl, inr, Bool-cases, Option-cases,
}
use raftrust.Prelude.Keys.{Key, key_eq}
use raftrust.Prelude.Tables.{Table, find-add_entry, add_entry-IsOrdered}
use raftrust.Errors.{Result, ok, err, panic}
use raftrust.Log.{Wal}
use raftrust.Storage.MemTable.{MemTable, Slot, or_else, is_empty, is_full}
use raftrust.Storage.MemTable
use raftrust.Storage.WalOp.{WalOp, put, delete}
use raftrust.Storage.WalOp
use raftrust.Storage.Manifest.{SstEntry, Manifest, add_sstable, next_sst_filename, level_count}
use raftrust.Storage.Sst.{SstFiles, IsSst}
use raftrust.Storage.Compaction.{needs_compaction}
use raftrust.Storage.Compaction.Due.{needs_compaction-add_sstable, level_count-add_sstable}
use raftrust.Storage.Lsm.{LsmTree, apply_op, get, compaction_config}
use raftrust.Storage.Lsm.Write.{write_op, after_write, flush_memtable, maybe_compact}
use raftrust.Storage.Lsm.View.{visible, get-visible}
use raftrust.Storage.Lsm.Flush.{IsCurrent, Flushed, flush_visible, flush-Flushed, flush_empty}

-- The map after a write: a key, its value and `none` for a deleted one.
unfoldable pub apply_map : (Key → Slot) → WalOp → Key → Slot
apply_map m (put key value) k = if key_eq k key then some value else m k
apply_map m (delete key) k = if key_eq k key then none else m k

unfoldable pub apply_maps : (Key → Slot) → List WalOp → Key → Slot
apply_maps m [] = m
apply_maps m (op ∷ ops) = apply_maps (apply_map m op) ops

module _ {D W T : Type 0} ⦃wal : Wal W⦄ (files : SstFiles D T) (recreate : W → Result W) where
  -- A sequence of writes that ends with the first that fails.
  unfoldable pub write_ops : LsmTree D W T → List WalOp → LsmTree D W T × Result (Unit {0})
  write_ops t [] = (t, ok tt)
  write_ops t (op ∷ ops) =
      let r = write_op files recreate t op in
      let rest = write_ops r.0 ops in elim r.1 [ ok u ↦ rest | err e ↦ r | panic ↦ r ]

-- With room for so many writes no compaction comes due, and the identifiers of the files do not wrap.
pub record HasRoom {D W T : Type 0} (t : LsmTree D W T) (writes : ℕ) : Type 0 where
  pub level_zero : level_count t.manifest 0 + writes < t.config.l0_compaction_trigger
  pub none_due : needs_compaction (compaction_config t.config) t.manifest ≡ none
  pub names : t.manifest.next_sst_id + writes < 2 ^ 64

-- The write is logged and in the memtable.
unfoldable pub logged : {D W T : Type 0} → LsmTree D W T → W → WalOp → LsmTree D W T
logged t w op = record t { wal = w; active_memtable = apply_op t.active_memtable op }

logged-IsCurrent :
    {D W T : Type 0} (t : LsmTree D W T) (w : W) (op : WalOp)
    → IsCurrent t
    → IsCurrent (logged t w op)
unfolding logged apply_op MemTable.put MemTable.delete
logged-IsCurrent t w (put key value) c = record {
  ordered = add_entry-IsOrdered key (some value) t.active_memtable.entries c.ordered;
  alone = c.alone;
  older = c.older;
}
logged-IsCurrent t w (delete key) c = record {
  ordered = add_entry-IsOrdered key none t.active_memtable.entries c.ordered;
  alone = c.alone;
  older = c.older;
}

pub visible-logged :
    {D W T : Type 0} (held : T → Table Slot) (t : LsmTree D W T) (w : W) (op : WalOp) (key : Key)
    → visible held (logged t w op) key ≡ apply_map (visible held t) op key
unfolding visible logged apply_op apply_map MemTable.put MemTable.delete
visible-logged held t w (put k value) key =
    ground (arith, find-add_entry k key (some value) t.active_memtable.entries)
visible-logged held t w (delete k) key =
    ground (arith, find-add_entry k key none t.active_memtable.entries)

pub apply_maps_same :
    (a b : Key → Slot) (ops : List WalOp) (key : Key)
    → ((k : Key) → a k ≡ b k)
    → apply_maps a ops key ≡ apply_maps b ops key
apply_maps_same a b ops key h = rw (fun_ext h) refl

next_small :
    (m : Manifest) (entry : SstEntry) (n : ℕ)
    → m.next_sst_id + (n + 1) < 2 ^ 64
    → (add_sstable (next_sst_filename m).0 entry).next_sst_id + n < 2 ^ 64
unfolding add_sstable next_sst_filename
next_small m entry n h = omega arith

Flushed-HasRoom :
    {D W T : Type 0} (held : T → Table Slot) (t t' : LsmTree D W T) (table : T) (entry : SstEntry)
    (n : ℕ)
    → HasRoom t (n + 1)
    → Flushed held t t' table entry
    → HasRoom t' n
unfolding compaction_config
Flushed-HasRoom held t t' table entry n room f = record {
  level_zero =
      rw (f.6, f.7) (omega (arith, level_count-add_sstable t.manifest entry f.2, room.level_zero));
  none_due =
      rw (f.6, f.7)
        (needs_compaction-add_sstable (compaction_config t.config) t.manifest entry f.2
          (omega (arith, room.level_zero)) room.none_due);
  names = rw f.6 (next_small t.manifest entry n room.names);
}

HasRoom-suc : {D W T : Type 0} (t : LsmTree D W T) (n : ℕ) → HasRoom t (suc n) → HasRoom t (n + 1)
HasRoom-suc t n room = record {
  level_zero = omega (arith, room.level_zero);
  none_due = room.none_due;
  names = omega (arith, room.names);
}

HasRoom-less : {D W T : Type 0} (t : LsmTree D W T) (n : ℕ) → HasRoom t (n + 1) → HasRoom t n
HasRoom-less t n room = record {
  level_zero = omega (arith, room.level_zero);
  none_due = room.none_due;
  names = omega (arith, room.names);
}

module _ {D W T : Type 0} ⦃wal : Wal W⦄ {files : SstFiles D T} (recreate : W → Result W)
    {stored : D → ℕ → Option (Table Slot)} {held : T → Table Slot}
    (law : IsSst files stored held) where
  flush-HasRoom :
      (t : LsmTree D W T) (n : ℕ)
      → IsCurrent t
      → HasRoom t (n + 1)
      → (flush_memtable files recreate t).1 ≡ ok tt
      → HasRoom (flush_memtable files recreate t).0 n
  flush-HasRoom t n c room h = elim (Bool-cases (is_empty t.active_memtable)) [
    | inl empty ↦ let same = flush_empty recreate law t empty in rw same (HasRoom-less t n room)
    | inr nonempty ↦
        let (table, entry, f) = flush-Flushed recreate law t c.ordered nonempty h in
        Flushed-HasRoom held t (flush_memtable files recreate t).0 table entry n room f
  ]

  -- What holds of the tree after a write or a flush, `t` being what it was.
  abbrev Kept : (t t' : LsmTree D W T) → ℕ → Type 0
  Kept t t' n =
      IsCurrent t' × HasRoom t' n × ((key : Key) → visible held t' key ≡ visible held t key)

  flush-Kept :
      (t : LsmTree D W T) (n : ℕ)
      → IsCurrent t
      → HasRoom t (n + 1)
      → (flush_memtable files recreate t).1 ≡ ok tt
      → Kept t (flush_memtable files recreate t).0 n
  flush-Kept t n c room h =
      let (current, same) = flush_visible recreate law t c (omega (arith, room.names)) h in
      (current, flush-HasRoom t n c room h, same)

  none_compacted : (t : LsmTree D W T) (n : ℕ) → HasRoom t n → maybe_compact files t ≡ (t, ok tt)
  unfolding maybe_compact
  none_compacted t n room = rw (room.none_due, maybe_compact) refl

  after_write-Kept :
      (t : LsmTree D W T) (n : ℕ)
      → IsCurrent t
      → HasRoom t (n + 1)
      → (after_write files recreate t).1 ≡ ok tt
      → Kept t (after_write files recreate t).0 n
  unfolding after_write
  after_write-Kept t n c room h = elim (Bool-cases (is_full t.active_memtable)) [
    | inl full ↦ elim (Result-cases (flush_memtable files recreate t).1) [
      | inl (u, flushed) ↦
          let kept = flush-Kept t n c room flushed in
          rw (full, flushed, none_compacted (flush_memtable files recreate t).0 n kept.1) kept
      | inr (inl (e, failed)) ↦ absurd (ground arith)
      | inr (inr panics) ↦ absurd (ground arith)
    ]
    | inr less ↦ rw less (c, HasRoom-less t n room, λ key. refl)
  ]

  logged-HasRoom :
      (t : LsmTree D W T) (w : W) (op : WalOp) (n : ℕ) → HasRoom t n → HasRoom (logged t w op) n
  unfolding logged
  logged-HasRoom t w op n room = record {
    level_zero = room.level_zero;
    none_due = room.none_due;
    names = room.names;
  }

  write_op-logged :
      (t : LsmTree D W T) (op : WalOp)
      → (write_op files recreate t op).1 ≡ ok tt
      → (w : W) × (write_op files recreate t op ≡ after_write files recreate (logged t w op))
  unfolding write_op logged
  write_op-logged t op h =
      let appended = wal.append t.wal (WalOp.encode op) in
      elim (Option-cases appended.1) [
        | inl added ↦ elim (Option-cases (wal.sync appended.0).1) [
          | inl synced ↦ ((wal.sync appended.0).0, rw (added, synced, write_op) refl)
          | inr (e, failed) ↦ absurd (ground arith)
        ]
        | inr (e, failed) ↦ absurd (ground arith)
      ]

  write_op_step :
      (t : LsmTree D W T) (op : WalOp) (n : ℕ)
      → IsCurrent t
      → HasRoom t (n + 1)
      → (write_op files recreate t op).1 ≡ ok tt
      → IsCurrent (write_op files recreate t op).0
        × HasRoom (write_op files recreate t op).0 n
        × ((key : Key)
            → visible held (write_op files recreate t op).0 key ≡ apply_map (visible held t) op key)
  write_op_step t op n c room h =
      let (w, same) = write_op-logged t op h in
      let (current, still, seen) =
        after_write-Kept (logged t w op) n (logged-IsCurrent t w op c)
          (logged-HasRoom t w op (n + 1) room) (rw same at h) in
      rw same (current, still, λ key. seen key ∙ visible-logged held t w op key)

  visible-write_ops :
      (t : LsmTree D W T) (ops : List WalOp) (key : Key)
      → IsCurrent t
      → HasRoom t (length ops)
      → (write_ops files recreate t ops).1 ≡ ok tt
      → visible held (write_ops files recreate t ops).0 key ≡ apply_maps (visible held t) ops key
  unfolding write_ops apply_maps
  visible-write_ops t [] key c room h = refl
  visible-write_ops t (op ∷ ops) key c room h =
      elim (Result-cases (write_op files recreate t op).1) [
        | inl (u, done) ↦
            let t1 = (write_op files recreate t op).0 in
            let (current, still, seen) =
              write_op_step t op (length ops) c (HasRoom-suc t (length ops) room) done in
            rw (done, write_ops)
              (visible-write_ops t1 ops key current still (rw (done, write_ops) at h)
                ∙ apply_maps_same (visible held t1) (apply_map (visible held t) op) ops key seen)
        | inr (inl (e, failed)) ↦ absurd (ground arith)
        | inr (inr panics) ↦ absurd (ground arith)
      ]

  -- Writes that all succeed, and reads after them, act as writes to and reads of a map from keys to
  -- values: `get` gives what the map has, across the flushes the writes make. The tree has no memtable
  -- waiting, no compaction comes due, and the files keep what is written.
  pub write_ops-get :
      (t : LsmTree D W T) (ops : List WalOp) (key : Key)
      → IsCurrent t
      → HasRoom t (length ops)
      → (write_ops files recreate t ops).1 ≡ ok tt
      → get files (write_ops files recreate t ops).0 key ≡ ok (apply_maps (visible held t) ops key)
  write_ops-get t ops key c room h =
      get-visible law (write_ops files recreate t ops).0 key
      ∙ ap ok (visible-write_ops t ops key c room h)
