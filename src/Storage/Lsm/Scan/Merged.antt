-- ===== src/Storage/Lsm/Scan/Merged.antt =====
-- The map that `scan` of crates/raft-storage/src/lsm.rs merges.
use raftrust.Prelude.{
  ◌≡◌, refl, ◌∙◌, Bool, true, false, Option, none, some, List, [], ◌∷◌, ◌++◌, if◌then◌else◌, arith,
  inl, inr, Bool-cases,
}
use raftrust.Prelude.Keys.{Key, key_lt, key_eq, key_eq_same}
use raftrust.Prelude.Tables.{
  Table, find, add_entry, range, IsOrdered, Before, find-Before, find-add_entry,
  add_entry-IsOrdered,
}
use raftrust.Errors.{ok}
use raftrust.Storage.MemTable.{MemTable, Slot, or_else}
use raftrust.Storage.MemTable
use raftrust.Storage.Lsm.{find_memtables, value_of}
use raftrust.Storage.Lsm.Scan.{insert_all, merge_memtables, values}

pub or_else_assoc : (a b c : Option Slot) → or_else (or_else a b) c ≡ or_else a (or_else b c)
or_else_assoc none b c = refl
or_else_assoc (some x) b c = refl

pub find-insert_all :
    (merged es : Table Slot) (k : Key)
    → IsOrdered es
    → find k (insert_all merged es) ≡ or_else (find k es) (find k merged)
unfolding insert_all find
find-insert_all merged [] k o = refl
find-insert_all merged ((j, v) ∷ es) k o =
    find-insert_all (add_entry j v merged) es k o.1 ∙ elim (Bool-cases (key_eq k j)) [
      | inl same ↦
          rw (find-add_entry j k v merged, same, key_eq_same k j same, find-Before j es o.0) refl
      | inr other ↦ rw (find-add_entry j k v merged, other) refl
    ]

pub insert_all-IsOrdered :
    (merged es : Table Slot) → IsOrdered merged → IsOrdered (insert_all merged es)
unfolding insert_all
insert_all-IsOrdered merged [] o = o
insert_all-IsOrdered merged ((j, v) ∷ es) o =
    insert_all-IsOrdered (add_entry j v merged) es (add_entry-IsOrdered j v merged o)

-- An entry where the key is in range.
abbrev pub within : Bool → Option Slot → Option Slot
within b o = if b then o else none

pub within-or_else :
    (b : Bool) (x y : Option Slot) → or_else (within b x) (within b y) ≡ within b (or_else x y)
within-or_else true x y = refl
within-or_else false x y = refl

pub within_none : (b : Bool) → within b none ≡ none
within_none true = refl
within_none false = refl

pub within-value_of :
    (b : Bool) (o : Option Slot) → value_of (within b o) ≡ (if b then value_of o else none)
within-value_of true o = refl
within-value_of false o = refl

layered :
    (b : Bool) (active waiting filed : Option Slot)
    → value_of
        (or_else (within b active) (or_else (within b waiting) (or_else (within b filed) none)))
      ≡ (if b then value_of (or_else active (or_else waiting filed)) else none)
layered false active waiting filed = refl
layered true (some x) waiting filed = refl
layered true none (some x) filed = refl
layered true none none (some x) = refl
layered true none none none = refl

-- The active memtable over the ones waiting over the files.
pub layers :
    (b : Bool) (active waiting filed : Option Slot) {all waited base : Option Slot}
    → base ≡ or_else (within b filed) none
    → waited ≡ or_else (within b waiting) base
    → all ≡ or_else (within b active) waited
    → value_of all ≡ (if b then value_of (or_else active (or_else waiting filed)) else none)
layers b active waiting filed f w a = rw (a, w, f) (layered b active waiting filed)

-- The merge of the memtables where the range is not empty by its bounds.
abbrev pub merge_ranges : Key → Key → Table Slot → List MemTable → Table Slot
merge_ranges start end merged [] = merged
merge_ranges start end merged (m ∷ ms) =
    merge_ranges start end (insert_all merged (range start end m.entries)) ms

pub merge_memtables-ok :
    (start end : Key) (merged : Table Slot) (ms : List MemTable)
    → key_lt end start ≡ false
    → merge_memtables start end merged ms ≡ ok (merge_ranges start end merged ms)
unfolding merge_memtables MemTable.scan
merge_memtables-ok start end merged [] h = refl
merge_memtables-ok start end merged (m ∷ ms) h =
    rw h (merge_memtables-ok start end (insert_all merged (range start end m.entries)) ms h)

pub merge_ranges-IsOrdered :
    (start end : Key) (merged : Table Slot) (ms : List MemTable)
    → IsOrdered merged
    → IsOrdered (merge_ranges start end merged ms)
merge_ranges-IsOrdered start end merged [] o = o
merge_ranges-IsOrdered start end merged (m ∷ ms) o =
    merge_ranges-IsOrdered start end (insert_all merged (range start end m.entries)) ms
      (insert_all-IsOrdered merged (range start end m.entries) o)

Before-values : (j : Key) (m : Table Slot) → Before j m → Before j (values m)
unfolding values
Before-values j [] b = tt
Before-values j ((i, none) ∷ m) b = Before-values j m b.1
Before-values j ((i, some v) ∷ m) b = (b.0, Before-values j m b.1)

pub values-IsOrdered : (m : Table Slot) → IsOrdered m → IsOrdered (values m)
unfolding values
values-IsOrdered [] o = tt
values-IsOrdered ((j, none) ∷ m) o = values-IsOrdered m o.1
values-IsOrdered ((j, some v) ∷ m) o = (Before-values j m o.0, values-IsOrdered m o.1)

pub find-values : (k : Key) (m : Table Slot) → IsOrdered m → find k (values m) ≡ value_of (find k m)
unfolding values find
find-values k [] o = refl
find-values k ((j, none) ∷ m) o = elim (Bool-cases (key_eq k j)) [
  | inl same ↦
      rw same (rw (key_eq_same k j same) (find-Before j (values m) (Before-values j m o.0)))
  | inr other ↦ rw other (find-values k m o.1)
]
find-values k ((j, some v) ∷ m) o = ground (arith, find-values k m o.1)

pub find_memtables-append :
    (k : Key) (ms : List MemTable) (m : MemTable)
    → find_memtables k (ms ++ (m ∷ [])) ≡ or_else (find_memtables k ms) (find k m.entries)
unfolding find_memtables MemTable.get
find_memtables-append k [] m = ground arith
find_memtables-append k (a ∷ ms) m = ground (arith, find_memtables-append k ms m)
