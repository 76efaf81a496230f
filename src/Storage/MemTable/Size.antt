-- ===== src/Storage/MemTable/Size.antt =====
-- The size that crates/raft-storage/src/memtable/mod.rs keeps, and the order of its entries.
use raftrust.Prelude.Tables.{find-Before, Before-weaken, find-Before}
use raftrust.Prelude.{
  ℕ, ◌+◌, ◌≡◌, refl, ap, Option, none, some, List, [], ◌∷◌, length, arith, inl, inr, Bool-cases,
}
use raftrust.Prelude.Keys.{Key, key_eq, key_eq_same, key_lt}
use raftrust.Prelude.Tables.{Table, find, add_entry, IsOrdered, add_entry-IsOrdered}
use raftrust.Storage.MemTable.{MemTable, Slot, slot_size, total_size, put, delete}

-- The entries are in order, each key once, and the size kept is the size of the entries.
pub record IsSized (m : MemTable) : Type 0 where
  pub ordered : IsOrdered m.entries
  pub sized : m.size_bytes ≡ total_size m.entries

abbrev old_size : Option Slot → Key → ℕ
old_size none k = 0
old_size (some old) k = length k + slot_size old

-- What a write does to the size of the entries: the key's old entry goes, the new one comes.
total_size-add_entry :
    (k : Key) (v : Slot) (m : Table Slot)
    → IsOrdered m
    → total_size (add_entry k v m) + old_size (find k m) k ≡ total_size m + length k + slot_size v
unfolding total_size add_entry find
total_size-add_entry k v [] o = omega arith
total_size-add_entry k v ((j, w) ∷ m) o = elim (Bool-cases (key_eq k j)) [
  | inl same ↦ rw same (omega (arith, ap (λ (x : Key). length x) (key_eq_same k j same)))
  | inr other ↦ elim (Bool-cases (key_lt k j)) [
    | inl lt ↦ rw (other, lt, find-Before k m (Before-weaken k j m lt o.0)) (omega arith)
    | inr ge ↦ rw (other, ge) (omega (arith, total_size-add_entry k v m o.1))
  ]
]

-- Writing and deleting keep the entries in order and the size exact.
pub writes-IsSized :
    (m : MemTable) (key : Key) (value : List ℕ)
    → IsSized m
    → IsSized (put m key value) × IsSized (delete m key)
unfolding put delete
writes-IsSized m key value s = (
  record { ordered = add_entry-IsOrdered key (some value) m.entries s.ordered; sized = refl },
  record {
    ordered = add_entry-IsOrdered key none m.entries s.ordered;
    sized = ground (arith, total_size-add_entry key none m.entries s.ordered);
  },
)
