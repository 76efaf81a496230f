-- ===== src/Storage/MemTable.antt =====
-- crates/raft-storage/src/memtable/mod.rs: the table in memory that takes the writes.
pub mod Size
use raftrust.Prelude.{false}
use raftrust.Prelude.{true}
use raftrust.Prelude.{
  ℕ, ◌+◌, ◌-◌, Bool, Option, none, some, List, [], ◌∷◌, length, leb, if◌then◌else◌,
}
use raftrust.Prelude.Keys.{Key, key_lt}
use raftrust.Errors.{Result, ok, panic}
use raftrust.Prelude.Tables.{Table, find, add_entry, range}

-- A value, or `none` for a key that was deleted (a tombstone).
abbrev pub Slot : Type 0
Slot = Option (List ℕ)

-- The first of two that is there.
abbrev pub or_else : Option Slot → Option Slot → Option Slot
or_else none b = b
or_else (some a) b = some a

pub record MemTable : Type 0 where
  pub entries : Table Slot
  pub size_bytes : ℕ
  pub max_size : ℕ

unfoldable pub new_memtable : ℕ → MemTable
new_memtable max_size = record { entries = []; size_bytes = 0; max_size = max_size }

-- `none` if the key was never written.
unfoldable pub get : MemTable → Key → Option Slot
get m key = find key m.entries

abbrev pub slot_size : Slot → ℕ
slot_size none = 0
slot_size (some v) = length v

-- The sum over all entries of the lengths of key and value.
unfoldable pub total_size : Table Slot → ℕ
total_size [] = 0
total_size ((k, v) ∷ m) = length k + slot_size v + total_size m

unfoldable pub recalculate_size : MemTable → MemTable
recalculate_size m = record m { size_bytes = total_size m.entries }

-- The size that `put` keeps up is overwritten by the recalculation at its end.
unfoldable pub put : MemTable → Key → List ℕ → MemTable
unfolding recalculate_size
put m key value = recalculate_size (record m { entries = add_entry key (some value) m.entries })

unfoldable pub delete : MemTable → Key → MemTable
delete m key = record m {
  entries = add_entry key none m.entries;
  size_bytes = elim (find key m.entries) [
    | some old ↦ m.size_bytes - slot_size old
    | none ↦ m.size_bytes + length key
  ];
}

-- `BTreeMap::range` is documented to panic where the start is beyond the end.
unfoldable pub scan : MemTable → Key → Key → Result (Table Slot)
scan m start end = if key_lt end start then panic else ok (range start end m.entries)

unfoldable pub is_full : MemTable → Bool
is_full m = leb m.max_size m.size_bytes

unfoldable pub count : MemTable → ℕ
count m = length m.entries

unfoldable pub is_empty : MemTable → Bool
is_empty m = elim m.entries [ [] ↦ true | e ∷ es ↦ false ]
