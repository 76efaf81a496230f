-- ===== src/Storage/Lsm/Scan/Agreement.antt =====
-- `scan` and `get` of crates/raft-storage/src/lsm.rs read the same.
use raftrust.Storage.Lsm.Scan.Merged.{
  or_else_assoc, find-insert_all, insert_all-IsOrdered, within, within-or_else, within_none, layers,
  merge_ranges, merge_memtables-ok, merge_ranges-IsOrdered, values-IsOrdered, find-values,
  find_memtables-append,
}
use raftrust.Prelude.{
  ℕ, ◌≡◌, refl, sym, ap, ◌∙◌, Bool, true, false, Option, none, List, [], ◌∷◌, ◌++◌, if◌then◌else◌,
  arith,
}
use mathlib.Core.List.{reverse, reverse-cons}
use raftrust.Prelude.Keys.{Key, key_lt}
use raftrust.Prelude.Tables.{Table, find, range, in_range, IsOrdered, find-range, range-IsOrdered}
use raftrust.Errors.{ok}
use raftrust.Storage.MemTable.{MemTable, Slot, or_else}
use raftrust.Storage.MemTable
use raftrust.Storage.Manifest.{SstEntry}
use raftrust.Storage.Sst.{SstFiles, IsSst}
use raftrust.Storage.Lsm.{LsmTree, find_memtables, get}
use raftrust.Storage.Lsm.View.{visible, first_held, get-visible}
use raftrust.Storage.Lsm.Scan.{oldest_first, insert_all, values, merge_tables, scan}
use raftrust.Storage.Lsm.Scan.Order.{AllApart, newest_first-reverse}

abbrev pub AllOrdered : List MemTable → Type 0
AllOrdered [] = Unit
AllOrdered (m ∷ ms) = IsOrdered m.entries × AllOrdered ms

module _ (start end k : Key) where
  -- What inserting the entries in range of a table does to the key.
  find-insert_range :
      (merged es : Table Slot)
      → IsOrdered es
      → find k (insert_all merged (range start end es))
        ≡ or_else (within (in_range start end k) (find k es)) (find k merged)
  find-insert_range merged es o =
      find-insert_all merged (range start end es) k (range-IsOrdered start end es o)
      ∙ ap (λ x. or_else x (find k merged)) (find-range start end k es)

  -- A later source goes before the ones merged so far.
  later_first :
      (x y z : Option Slot)
      → let b = in_range start end k in
        or_else (within b x) (or_else (within b y) z) ≡ or_else (within b (or_else x y)) z
  later_first x y z =
      let b = in_range start end k in
      sym (or_else_assoc (within b x) (within b y) z) ∙ ap (λ o. or_else o z) (within-or_else b x y)

  find-merge_ranges :
      (merged : Table Slot) (ms : List MemTable)
      → AllOrdered ms
      → find k (merge_ranges start end merged ms)
        ≡ or_else (within (in_range start end k) (find_memtables k (reverse ms))) (find k merged)
  unfolding find_memtables
  find-merge_ranges merged [] o = rw (within_none (in_range start end k)) refl
  find-merge_ranges merged (m ∷ ms) o =
      let b = in_range start end k in
      rw (reverse-cons m ms, find_memtables-append k (reverse ms) m)
        (find-merge_ranges (insert_all merged (range start end m.entries)) ms o.1
          ∙ (ap (or_else (within b (find_memtables k (reverse ms))))
                (find-insert_range merged m.entries o.0)
              ∙ later_first (find_memtables k (reverse ms)) (find k m.entries) (find k merged)))

  module _ {D T : Type 0} {files : SstFiles D T} {stored : D → ℕ → Option (Table Slot)}
      {held : T → Table Slot} (law : IsSst files stored held) where
    first_held-append :
        (ts : List (SstEntry × T)) (e : SstEntry) (t : T)
        → first_held held k (ts ++ ((e, t) ∷ [])) ≡ or_else (first_held held k ts) (find k (held t))
    first_held-append [] e t = ground arith
    first_held-append ((a, s) ∷ ts) e t = ground (arith, first_held-append ts e t)

    -- What merging the files comes to.
    abbrev Merged : Table Slot → List (SstEntry × T) → Table Slot → Type 0
    Merged merged ts r =
        (merge_tables files start end merged ts ≡ ok r)
        × IsOrdered r
        × (find k r
            ≡ or_else (within (in_range start end k) (first_held held k (reverse ts)))
                (find k merged))

    merge_tables-Merged :
        (merged : Table Slot) (ts : List (SstEntry × T))
        → IsOrdered merged
        → (r : Table Slot) × Merged merged ts r
    unfolding merge_tables
    merge_tables-Merged merged [] o =
        (merged, (refl, o, rw (within_none (in_range start end k)) refl))
    merge_tables-Merged merged ((e, t) ∷ ts) o =
        let b = in_range start end k in
        let es = range start end (held t) in
        let (r, (done, ordered, found)) =
          merge_tables-Merged (insert_all merged es) ts (insert_all-IsOrdered merged es o) in
        (
          r,
          (
            rw (law.scans t start end) done,
            ordered,
            rw (reverse-cons (e, t) ts, first_held-append (reverse ts) e t)
                (found
                  ∙ (ap (or_else (within b (first_held held k (reverse ts))))
                        (find-insert_range merged (held t) (law.held_ordered t))
                      ∙ later_first (first_held held k (reverse ts)) (find k (held t))
                          (find k merged))),
          ),
        )

    scan_visible :
        {W : Type 0} (t : LsmTree D W T)
        → AllApart t.sstable_cache
        → key_lt end start ≡ false
        → IsOrdered t.active_memtable.entries
        → AllOrdered t.immutable_memtables
        → (r : Table (List ℕ)) × (scan files t start end ≡ ok r)
          × IsOrdered r
          × (find k r ≡ (if in_range start end k then visible held t k else none))
    unfolding scan visible MemTable.scan find
    scan_visible t apart bounds active waiting = rw (newest_first-reverse t.sstable_cache apart) (
        let (base, (done, ordered, found)) =
          merge_tables-Merged [] (oldest_first t.sstable_cache) tt in
        let waited = merge_ranges start end base t.immutable_memtables in
        let all = insert_all waited (range start end t.active_memtable.entries) in
        let all_ordered : IsOrdered all =
          insert_all-IsOrdered waited (range start end t.active_memtable.entries)
            (merge_ranges-IsOrdered start end base t.immutable_memtables ordered) in
        (
          values all,
          rw (done, merge_memtables-ok start end base t.immutable_memtables bounds, bounds) refl,
          values-IsOrdered all all_ordered,
          find-values k all all_ordered
              ∙ layers (in_range start end k) (find k t.active_memtable.entries)
                  (find_memtables k (reverse t.immutable_memtables))
                  (first_held held k (reverse (oldest_first t.sstable_cache))) found
                  (find-merge_ranges base t.immutable_memtables waiting)
                  (find-insert_range waited t.active_memtable.entries active),
        ))

ok_if : (b : Bool) (v : Slot) → ok (if b then v else none) ≡ (if b then ok v else ok none)
ok_if true v = refl
ok_if false v = refl

-- A scan of a range gives the keys of the range that have a value, in order, with the values that `get`
-- gives for them, and no other keys. The start is not beyond the end, no two files share level and
-- identifier, the memtables' entries are in order, and the files are read as they were written.
pub scan-get :
    {D W T : Type 0} {files : SstFiles D T} {stored : D → ℕ → Option (Table Slot)}
    {held : T → Table Slot} (law : IsSst files stored held) (t : LsmTree D W T)
    (start end key : Key)
    → AllApart t.sstable_cache
    → key_lt end start ≡ false
    → IsOrdered t.active_memtable.entries
    → AllOrdered t.immutable_memtables
    → (r : Table (List ℕ)) × (scan files t start end ≡ ok r)
      × IsOrdered r
      × (ok (find key r) ≡ (if in_range start end key then get files t key else ok none))
scan-get {held = held} law t start end key apart bounds active waiting =
    let (r, done, ordered, found) = scan_visible start end key law t apart bounds active waiting in
    (
      r,
      done,
      ordered,
      rw (get-visible law t key, found) (ok_if (in_range start end key) (visible held t key)),
    )
