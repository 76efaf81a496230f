-- ===== src/Storage/Lsm/Flush.antt =====
-- `flush_memtable` of crates/raft-storage/src/lsm.rs keeps what a reader sees.
use raftrust.Storage.Lsm.Ages.{AllOlder, newest_first-append, AllOlder-weaken, AllOlder-append}
use raftrust.Storage.Lsm.Write.{rotate}
use raftrust.Storage.Lsm.Write.{table_entry}
use raftrust.Storage.Lsm.Write.{write_frozen}
use raftrust.Prelude.{
  ℕ, ◌+◌, ◌<◌, ◌^◌, ◌≡◌, refl, sym, ap, ◌∙◌, true, false, Option, some, List, [], ◌∷◌, ◌++◌, arith,
  inl, inr, Bool-cases, Option-cases, wrap64,
}
use raftrust.Prelude.Keys.{Key}
use raftrust.Prelude.Tables.{Table, find, IsOrdered}
use raftrust.Errors.{Result, ok, Result-cases}
use raftrust.Storage.MemTable.{MemTable, Slot, new_memtable, is_empty}
use raftrust.Storage.Manifest.{SstEntry, Manifest, next_sst_filename, add_sstable}
use raftrust.Storage.Sst.{SstInfo, SstFiles, IsSst}
use raftrust.Storage.Lsm.{LsmTree, newest_first, insert_by_age, newer, value_of}
use raftrust.Storage.Lsm.Write.{flush_memtable, register_table, cache_table, reset_wal}
use raftrust.Storage.Lsm.View.{visible}

-- No memtable waits to be written, the entries of the active one are in order, and the next
-- identifier is above that of every file.
pub record IsCurrent {D W T : Type 0} (t : LsmTree D W T) : Type 0 where
  pub ordered : IsOrdered t.active_memtable.entries
  pub alone : t.immutable_memtables ≡ []
  pub older : AllOlder t.manifest.next_sst_id t.sstable_cache

module _ {D W T : Type 0} (files : SstFiles D T) (recreate : W → Result W) where
  reset_ok :
      (t : LsmTree D W T)
      → (reset_wal files recreate t).1 ≡ ok tt
      → (w : W) × ((reset_wal files recreate t).0 ≡ record t { wal = w })
  unfolding reset_wal
  reset_ok t h = elim (Result-cases (recreate t.wal)) [
    | inl (w, fresh) ↦ (w, rw (fresh, reset_wal) refl)
    | inr (inl (e, failed)) ↦ absurd (ground arith)
    | inr (inr panics) ↦ absurd (ground arith)
  ]

  cache_ok :
      (others : List MemTable) (entry : SstEntry) (t : LsmTree D W T)
      → (cache_table files recreate others entry t).1 ≡ ok tt
      → (table : T) × (w : W) × (files.open_table t.disk entry.id ≡ ok table)
        × ((cache_table files recreate others entry t).0 ≡ record t {
          sstable_cache = t.sstable_cache ++ ((entry, table) ∷ []);
          immutable_memtables = others;
          wal = w;
        })
  unfolding cache_table
  cache_ok others entry t h = elim (Result-cases (files.open_table t.disk entry.id)) [
    | inl (table, opened) ↦
        let r =
          reset_ok
            (record t {
              sstable_cache = t.sstable_cache ++ ((entry, table) ∷ []);
              immutable_memtables = others;
            })
            (rw (opened, cache_table) at h) in
        (table, r.0, opened, rw (opened, cache_table) r.1)
    | inr (inl (e, failed)) ↦ absurd (ground arith)
    | inr (inr panics) ↦ absurd (ground arith)
  ]

  register_ok :
      (others : List MemTable) (entry : SstEntry) (t : LsmTree D W T)
      → (register_table files recreate others entry t).1 ≡ ok tt
      → let saved = (files.save_manifest t.disk (add_sstable t.manifest entry)).0 in
        (table : T) × (w : W) × (files.open_table saved entry.id ≡ ok table)
        × ((register_table files recreate others entry t).0 ≡ record t {
          disk = saved;
          manifest = add_sstable t.manifest entry;
          sstable_cache = t.sstable_cache ++ ((entry, table) ∷ []);
          immutable_memtables = others;
          wal = w;
        })
  unfolding register_table
  register_ok others entry t h =
      elim (Option-cases (files.save_manifest t.disk (add_sstable t.manifest entry)).1) [
        | inl saved ↦
            let r =
              cache_ok others entry
                (record t {
                  disk = (files.save_manifest t.disk (add_sstable t.manifest entry)).0;
                  manifest = add_sstable t.manifest entry;
                })
                (rw (saved, register_table) at h) in
            (r.0, r.1, r.2, rw (saved, register_table) r.3)
        | inr (e, failed) ↦ absurd (ground arith)
      ]

-- What a flush has come to: a new file, the first that is read, with the entries of the memtable.
abbrev pub Flushed :
    {D W T : Type 0} → (T → Table Slot) → LsmTree D W T → LsmTree D W T → T → SstEntry → Type 0
Flushed held t t' table entry =
    (held table ≡ t.active_memtable.entries)
    × (entry.id ≡ t.manifest.next_sst_id)
    × (entry.level ≡ 0)
    × (t'.active_memtable.entries ≡ [])
    × (t'.immutable_memtables ≡ t.immutable_memtables)
    × (t'.sstable_cache ≡ t.sstable_cache ++ ((entry, table) ∷ []))
    × (t'.manifest ≡ add_sstable (next_sst_filename t.manifest).0 entry)
    × (t'.config ≡ t.config)

module _ {D W T : Type 0} {files : SstFiles D T} (recreate : W → Result W)
    {stored : D → ℕ → Option (Table Slot)} {held : T → Table Slot}
    (law : IsSst files stored held) where
  some_inj : {A : Type 0} {a b : A} → some a ≡ some b → a ≡ b
  some_inj h = cc

  -- The opened file has what was written.
  held_written :
      (t : LsmTree D W T) (info : SstInfo) (m : Manifest) (table : T)
      → IsOrdered t.active_memtable.entries
      → (write_frozen files t).1 ≡ ok info
      → files.open_table (files.save_manifest (rotate files t).disk m).0 t.manifest.next_sst_id
        ≡ ok table
      → held table ≡ t.active_memtable.entries
  unfolding write_frozen rotate
  held_written t info m table o made opened = some_inj (
      sym (
        law.opens (files.save_manifest (rotate files t).disk m).0 t.manifest.next_sst_id table
          opened)
      ∙ (law.save_keeps (rotate files t).disk m t.manifest.next_sst_id
          ∙ law.create_stores t.disk t.manifest.next_sst_id t.config.block_size
              t.active_memtable.entries info o made))

  register-Flushed :
      (t : LsmTree D W T) (info : SstInfo)
      → IsOrdered t.active_memtable.entries
      → (write_frozen files t).1 ≡ ok info
      → let entry = table_entry t.manifest.next_sst_id t.active_memtable.entries info in
        let r = register_table files recreate t.immutable_memtables entry (rotate files t) in
        r.1 ≡ ok tt → (table : T) × Flushed held t r.0 table entry
  unfolding rotate table_entry add_sstable next_sst_filename new_memtable
  register-Flushed t info o made h =
      let entry = table_entry t.manifest.next_sst_id t.active_memtable.entries info in
      let r = register_ok files recreate t.immutable_memtables entry (rotate files t) h in
      (
        r.0,
        (
          held_written t info (add_sstable (rotate files t).manifest entry) r.0 o made r.2,
          refl,
          refl,
          ap (λ (x : LsmTree D W T). x.active_memtable.entries) r.3,
          ap (λ (x : LsmTree D W T). x.immutable_memtables) r.3,
          ap (λ (x : LsmTree D W T). x.sstable_cache) r.3,
          ap (λ (x : LsmTree D W T). x.manifest) r.3,
          ap (λ (x : LsmTree D W T). x.config) r.3,
        ),
      )

  flush-register :
      (t : LsmTree D W T) (info : SstInfo)
      → is_empty t.active_memtable ≡ false
      → (write_frozen files t).1 ≡ ok info
      → flush_memtable files recreate t
        ≡ register_table files recreate t.immutable_memtables
            (table_entry t.manifest.next_sst_id t.active_memtable.entries info)
            (rotate files t)
  unfolding flush_memtable
  flush-register t info nonempty made = rw (nonempty, made) refl

  flush_written :
      (t : LsmTree D W T)
      → is_empty t.active_memtable ≡ false
      → (flush_memtable files recreate t).1 ≡ ok tt
      → (info : SstInfo) × ((write_frozen files t).1 ≡ ok info)
  unfolding flush_memtable
  flush_written t nonempty h = elim (Result-cases (write_frozen files t).1) [
    | inl written ↦ written
    | inr (inl (e, failed)) ↦ absurd (ground arith)
    | inr (inr panics) ↦ absurd (ground arith)
  ]

  -- A flush that succeeds makes a new file.
  pub flush-Flushed :
      (t : LsmTree D W T)
      → IsOrdered t.active_memtable.entries
      → is_empty t.active_memtable ≡ false
      → (flush_memtable files recreate t).1 ≡ ok tt
      → (table : T) × (entry : SstEntry) × Flushed held t
          (flush_memtable files recreate t).0
          table
          entry
  flush-Flushed t o nonempty h =
      let (info, made) = flush_written t nonempty h in
      let same = flush-register t info nonempty made in
      rw same (
        let r = register-Flushed t info o made (rw same at h) in
        (r.0, table_entry t.manifest.next_sst_id t.active_memtable.entries info, r.1))

  Flushed-visible :
      (t t' : LsmTree D W T) (table : T) (entry : SstEntry) (key : Key)
      → IsCurrent t
      → Flushed held t t' table entry
      → visible held t' key ≡ visible held t key
  unfolding visible find raftrust.Storage.Lsm.find_memtables
  Flushed-visible t t' table entry key c f =
      let front = newest_first-append t.sstable_cache entry table f.2 (rw f.1 c.older) in
      rw (f.3, f.4, f.5, c.alone, front, f.0) refl

  Flushed-IsCurrent :
      (t t' : LsmTree D W T) (table : T) (entry : SstEntry)
      → IsCurrent t
      → t.manifest.next_sst_id + 1 < 2 ^ 64
      → Flushed held t t' table entry
      → IsCurrent t'
  unfolding add_sstable next_sst_filename
  Flushed-IsCurrent t t' table entry c bound f =
      let id = t.manifest.next_sst_id in
      record {
        ordered = rw f.3 tt;
        alone = f.4 ∙ c.alone;
        older =
            rw (f.5, f.6)
              (AllOlder-append (wrap64 (id + 1)) t.sstable_cache entry table
                (AllOlder-weaken id (wrap64 (id + 1)) t.sstable_cache (omega arith) c.older)
                (omega (arith, f.1)));
      }

  pub flush_empty :
      (t : LsmTree D W T)
      → is_empty t.active_memtable ≡ true
      → flush_memtable files recreate t ≡ (t, ok tt)
  unfolding flush_memtable
  flush_empty t empty = rw empty refl

  -- A flush that succeeds keeps what a reader sees, and leaves no memtable behind.
  pub flush_visible :
      (t : LsmTree D W T)
      → IsCurrent t
      → t.manifest.next_sst_id + 1 < 2 ^ 64
      → (flush_memtable files recreate t).1 ≡ ok tt
      → IsCurrent (flush_memtable files recreate t).0
        × ((key : Key) → visible held (flush_memtable files recreate t).0 key ≡ visible held t key)
  flush_visible t c bound h = elim (Bool-cases (is_empty t.active_memtable)) [
    | inl empty ↦ let same = flush_empty t empty in rw same (c, λ key. refl)
    | inr nonempty ↦
        let (table, entry, f) = flush-Flushed t c.ordered nonempty h in
        (
          Flushed-IsCurrent t (flush_memtable files recreate t).0 table entry c bound f,
          λ key. Flushed-visible t (flush_memtable files recreate t).0 table entry key c f,
        )
  ]
