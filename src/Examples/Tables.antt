-- ===== src/Examples/Tables.antt =====
-- Sorted files and a storage engine in memory, for the tests.
use raftrust.Prelude.{
  ℕ, ◌≡◌, refl, ap, ◌∙◌, Bool, Option, none, some, List, [], ◌∷◌, length, if◌then◌else◌, arith,
  is_some,
}
use raftrust.Prelude.Keys.{Key, key_lt}
use raftrust.Prelude.Maps.{IdMap, lookup, insert, remove, lookup-insert, lookup-remove}
use raftrust.Prelude.Tables.{
  Table, find, range, add_entry, remove_entry, Before, IsOrdered, add_entry-IsOrdered,
  add_entry-Before,
}
use raftrust.Errors.{ok, err, panic, io}
use raftrust.Storage.MemTable.{Slot}
use raftrust.Storage.Sst.{SstFiles, IsSst}
use raftrust.Mvcc.Engine.{Engine, IsEngine}

module _ {V : Type 0} where
  -- The entries in order.
  abbrev pub normal : Table V → Table V
  normal [] = []
  normal ((k, v) ∷ m) = add_entry k v (normal m)

  normal-IsOrdered : (m : Table V) → IsOrdered (normal m)
  normal-IsOrdered [] = tt
  normal-IsOrdered ((k, v) ∷ m) = add_entry-IsOrdered k v (normal m) (normal-IsOrdered m)

  normal_same : (m : Table V) → IsOrdered m → normal m ≡ m
  normal_same [] o = refl
  normal_same ((k, v) ∷ m) o = ap (add_entry k v) (normal_same m o.1) ∙ add_entry-Before k v m o.0

  Before-remove_entry : (i k : Key) (m : Table V) → Before i m → Before i (remove_entry k m)
  unfolding remove_entry
  Before-remove_entry i k [] b = b
  Before-remove_entry i k ((j, w) ∷ m) b = ground (arith, Before-remove_entry i k m b.1)

  remove_entry-IsOrdered : (k : Key) (m : Table V) → IsOrdered m → IsOrdered (remove_entry k m)
  unfolding remove_entry
  remove_entry-IsOrdered k [] o = o
  remove_entry-IsOrdered k ((j, w) ∷ m) o =
      ground (arith, Before-remove_entry j k m o.0, remove_entry-IsOrdered k m o.1)

-- The data directory: the entries by identifier.
abbrev pub Disk : Type 0
Disk = IdMap (Table Slot)

-- Files of which those with a broken identifier cannot be written.
abbrev pub memory_files : (ℕ → Bool) → SstFiles Disk (Table Slot)
memory_files broken = record {
  create = λ d id block_size es.
      if broken id
      then (d, err io)
      else (insert id es d, ok (record { entry_count = length es; file_size = 0 }));
  open_table = λ d id. elim (lookup id d) [ none ↦ err io | some t ↦ ok t ];
  file_exists = λ d id. is_some (lookup id d);
  remove_file = λ d id. remove id d;
  table_get = λ t key. ok (find key (normal t));
  table_iter = λ t. ok (normal t);
  table_scan = λ t start end. ok (range start end (normal t));
  save_manifest = λ d m. (d, none);
}

abbrev pub in_file : Disk → ℕ → Option (Table Slot)
in_file d id = elim (lookup id d) [ none ↦ none | some t ↦ some (normal t) ]

pub memory_files-IsSst : (broken : ℕ → Bool) → IsSst (memory_files broken) in_file normal
memory_files-IsSst broken = record {
  create_stores =
      λ d id block_size es info o done. ground (arith, lookup-insert id id es d, normal_same es o);
  create_keeps = λ d id block_size es j other. ground (arith, lookup-insert id j es d);
  remove_keeps = λ d id j other. ground (arith, lookup-remove id j d);
  save_keeps = λ d m j. refl;
  opens = λ d id t opened. ground arith;
  held_ordered = λ t. normal-IsOrdered t;
  gets = λ t key. refl;
  iterates = λ t. refl;
  scans = λ t start end. refl;
}

abbrev pub memory_engine : Engine (Table (List ℕ))
memory_engine = record {
  get = λ e key. ok (find key (normal e));
  put = λ e key value. ((key, value) ∷ e, ok tt);
  delete = λ e key. (remove_entry key (normal e), ok tt);
  scan = λ e start end. if key_lt end start then panic else ok (range start end (normal e));
}

pub memory_engine-IsEngine : IsEngine memory_engine normal
memory_engine-IsEngine = record {
  ordered = normal-IsOrdered;
  scans = λ e start end h. rw h refl;
  reversed = λ e start end h. rw h refl;
  puts = λ e key value done. refl;
  deletes = λ e key done.
      normal_same (remove_entry key (normal e))
        (remove_entry-IsOrdered key (normal e) (normal-IsOrdered e));
}
