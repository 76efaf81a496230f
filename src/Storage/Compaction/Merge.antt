-- ===== src/Storage/Compaction/Merge.antt =====
-- What the merge of crates/raft-storage/src/compaction/leveled.rs keeps of its input: each key once, in
-- order, with the first entry of the key in the input.
use raftrust.Prelude.{◌∙◌}
use raftrust.Prelude.{
  ◌≡◌, refl, true, false, Option, none, some, [], ◌∷◌, if◌then◌else◌, arith, inl, inr, Bool-cases,
}
use raftrust.Prelude.Keys.{
  Key, key_eq, key_lt, key_eq_same, key_eq_comm, key_lt_total, key_lt-not_eq, not_lt_trans,
  lt_le_trans, key_lt_asymm,
}
use raftrust.Prelude.Tables.{Table, find, Before, IsOrdered, find-Before}
use raftrust.Storage.MemTable.{Slot}
use raftrust.Storage.Compaction.{
  insert_sorted, sort_by_key, dedup_from, dedup_by_key, drop_tombstones,
}

find-insert_sorted :
    (i k : Key) (v : Slot) (m : Table Slot)
    → find i (insert_sorted k v m) ≡ (if key_eq i k then some v else find i m)
unfolding find insert_sorted
find-insert_sorted i k v [] = refl
find-insert_sorted i k v ((j, w) ∷ m) = elim (Bool-cases (key_lt j k)) [
  | inl lt ↦ elim (Bool-cases (key_eq i k)) [
    | inl same ↦ rw lt (
        ground (
          arith,
          find-insert_sorted i k v m,
          key_eq_same i k same,
          key_eq_comm j k,
          key_lt-not_eq j k lt,
        ))
    | inr other ↦ ground (arith, find-insert_sorted i k v m)
  ]
  | inr ge ↦ rw ge refl
]

find-sort_by_key : (i : Key) (m : Table Slot) → find i (sort_by_key m) ≡ find i m
unfolding find sort_by_key
find-sort_by_key i [] = refl
find-sort_by_key i ((k, v) ∷ m) =
    ground (arith, find-insert_sorted i k v (sort_by_key m), find-sort_by_key i m)

find-dedup_from :
    (i k : Key) (v : Slot) (m : Table Slot)
    → find i (dedup_from k v m) ≡ (if key_eq i k then some v else find i m)
unfolding find dedup_from
find-dedup_from i k v [] = refl
find-dedup_from i k v ((j, w) ∷ m) = elim (Bool-cases (key_eq j k)) [
  | inl same ↦ rw (same, key_eq_same j k same) (ground (arith, find-dedup_from i k v m))
  | inr other ↦ rw other (ground (arith, find-dedup_from i j w m))
]

-- No entry comes before the key.
abbrev NotAfter : Key → Table Slot → Type 0
NotAfter k [] = Unit
NotAfter k ((j, w) ∷ m) = (key_lt j k ≡ false) × NotAfter k m

abbrev IsSortedTable : Table Slot → Type 0
IsSortedTable [] = Unit
IsSortedTable ((k, v) ∷ m) = NotAfter k m × IsSortedTable m

NotAfter-insert_sorted :
    (i k : Key) (v : Slot) (m : Table Slot)
    → key_lt k i ≡ false
    → NotAfter i m
    → NotAfter i (insert_sorted k v m)
unfolding insert_sorted
NotAfter-insert_sorted i k v [] h n = (h, n)
NotAfter-insert_sorted i k v ((j, w) ∷ m) h n = ground (arith, NotAfter-insert_sorted i k v m h n.1)

NotAfter-weaken : (i k : Key) (m : Table Slot) → key_lt k i ≡ false → NotAfter k m → NotAfter i m
NotAfter-weaken i k [] h n = n
NotAfter-weaken i k ((j, w) ∷ m) h n = (not_lt_trans i k j h n.0, NotAfter-weaken i k m h n.1)

insert_sorted-IsSortedTable :
    (k : Key) (v : Slot) (m : Table Slot) → IsSortedTable m → IsSortedTable (insert_sorted k v m)
unfolding insert_sorted
insert_sorted-IsSortedTable k v [] s = (s, s)
insert_sorted-IsSortedTable k v ((j, w) ∷ m) s = elim (Bool-cases (key_lt j k)) [
  | inl lt ↦ rw lt (
    NotAfter-insert_sorted j k v m (key_lt_asymm j k lt) s.0,
    insert_sorted-IsSortedTable k v m s.1,
  )
  | inr ge ↦ rw ge ((ge, NotAfter-weaken k j m ge s.0), s)
]

sort_by_key-IsSortedTable : (m : Table Slot) → IsSortedTable (sort_by_key m)
unfolding sort_by_key
sort_by_key-IsSortedTable [] = tt
sort_by_key-IsSortedTable ((k, v) ∷ m) =
    insert_sorted-IsSortedTable k v (sort_by_key m) (sort_by_key-IsSortedTable m)

Before-dedup_from :
    (i k : Key) (v : Slot) (m : Table Slot)
    → key_lt i k ≡ true
    → NotAfter k m
    → IsSortedTable m
    → Before i (dedup_from k v m)
unfolding dedup_from
Before-dedup_from i k v [] h n s = (h, tt)
Before-dedup_from i k v ((j, w) ∷ m) h n s = elim (Bool-cases (key_eq j k)) [
  | inl same ↦ rw same (Before-dedup_from i k v m h n.1 s.1)
  | inr other ↦ rw other (h, Before-dedup_from i j w m (lt_le_trans i k j h n.0) s.0 s.1)
]

dedup_from-IsOrdered :
    (k : Key) (v : Slot) (m : Table Slot)
    → NotAfter k m
    → IsSortedTable m
    → IsOrdered (dedup_from k v m)
unfolding dedup_from
dedup_from-IsOrdered k v [] n s = (tt, tt)
dedup_from-IsOrdered k v ((j, w) ∷ m) n s = elim (Bool-cases (key_eq j k)) [
  | inl same ↦ rw same (dedup_from-IsOrdered k v m n.1 s.1)
  | inr other ↦ rw other (
    Before-dedup_from k j w m (key_lt_total j k n.0 other) s.0 s.1,
    dedup_from-IsOrdered j w m s.0 s.1,
  )
]

find-dedup_by_key : (i : Key) (m : Table Slot) → find i (dedup_by_key m) ≡ find i m
unfolding dedup_by_key find
find-dedup_by_key i [] = refl
find-dedup_by_key i ((k, v) ∷ m) = find-dedup_from i k v m

dedup_by_key-IsOrdered : (m : Table Slot) → IsSortedTable m → IsOrdered (dedup_by_key m)
unfolding dedup_by_key
dedup_by_key-IsOrdered [] s = s
dedup_by_key-IsOrdered ((k, v) ∷ m) s = dedup_from-IsOrdered k v m s.0 s.1

-- Merging gives each key once, in order, with its first entry in the input.
pub merge_first :
    (m : Table Slot) (i : Key)
    → IsOrdered (dedup_by_key (sort_by_key m)) × (find i (dedup_by_key (sort_by_key m)) ≡ find i m)
merge_first m i = (
  dedup_by_key-IsOrdered (sort_by_key m) (sort_by_key-IsSortedTable m),
  find-dedup_by_key i (sort_by_key m) ∙ find-sort_by_key i m,
)

-- A tombstone is no longer found, and every other entry is.
abbrev pub live : Option Slot → Option Slot
live none = none
live (some none) = none
live (some (some v)) = some (some v)

Before-drop_tombstones : (i : Key) (m : Table Slot) → Before i m → Before i (drop_tombstones m)
unfolding drop_tombstones
Before-drop_tombstones i [] b = b
Before-drop_tombstones i ((j, w) ∷ m) b = ground (arith, Before-drop_tombstones i m b.1)

pub drop_tombstones_lem :
    (m : Table Slot) (i : Key)
    → IsOrdered m
    → IsOrdered (drop_tombstones m) × (find i (drop_tombstones m) ≡ live (find i m))
unfolding drop_tombstones find
drop_tombstones_lem [] i o = (o, refl)
drop_tombstones_lem ((k, none) ∷ m) i o =
    let rest = drop_tombstones_lem m i o.1 in
    (rest.0, ground (arith, rest.1, find-Before k m o.0, key_eq_same i k))
drop_tombstones_lem ((k, some v) ∷ m) i o =
    let rest = drop_tombstones_lem m i o.1 in
    ((Before-drop_tombstones k m o.0, rest.0), ground (arith, rest.1))
