-- ===== src/Storage/Lsm/View.antt =====
-- What a reader sees of the LSM tree of crates/raft-storage/src/lsm.rs.
use raftrust.Prelude.{ℕ, ◌≡◌, refl, Option, none, List, [], ◌∷◌, arith}
use mathlib.Core.List.{reverse}
use raftrust.Prelude.Keys.{Key}
use raftrust.Prelude.Tables.{Table, find}
use raftrust.Errors.{ok}
use raftrust.Storage.MemTable.{MemTable, Slot, or_else}
use raftrust.Storage.MemTable
use raftrust.Storage.Manifest.{SstEntry}
use raftrust.Storage.Sst.{SstFiles, IsSst}
use raftrust.Storage.Lsm.{LsmTree, get, get_tables, find_memtables, newest_first, value_of}

-- The first entry of the key in the opened files, one after the other.
abbrev pub first_held : {T : Type 0} → (T → Table Slot) → Key → List (SstEntry × T) → Option Slot
first_held held key [] = none
first_held held key ((e, t) ∷ rest) = or_else (find key (held t)) (first_held held key rest)

-- The value of the key: its newest entry in the memtables and then the files, if that has one.
unfoldable pub visible : {D W T : Type 0} → (T → Table Slot) → LsmTree D W T → Key → Slot
visible held t key = value_of (
    or_else (find key t.active_memtable.entries) (
      or_else (find_memtables key (reverse t.immutable_memtables))
        (first_held held key (newest_first t.sstable_cache))))

module _ {D T : Type 0} {files : SstFiles D T} {stored : D → ℕ → Option (Table Slot)}
    {held : T → Table Slot} (law : IsSst files stored held) where
  get_tables-first_held :
      (key : Key) (tables : List (SstEntry × T))
      → get_tables files key tables ≡ ok (first_held held key tables)
  unfolding get_tables
  get_tables-first_held key [] = refl
  get_tables-first_held key ((e, t) ∷ rest) =
      ground (arith, law.gets t key, get_tables-first_held key rest)

  -- `get` returns what is visible.
  pub get-visible :
      {W : Type 0} (t : LsmTree D W T) (key : Key) → get files t key ≡ ok (visible held t key)
  unfolding get visible MemTable.get
  get-visible t key = ground (arith, get_tables-first_held key (newest_first t.sstable_cache))
