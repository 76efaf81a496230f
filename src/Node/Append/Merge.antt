-- ===== src/Node/Append/Merge.antt =====
-- The loop over the entries of an AppendEntries request in crates/raft-consensus/src/node.rs: what the log
-- holds behind it.
use raftrust.Log.Extend.{NeverFails, append_ok, append-IsContiguous, append-snapshot, get-append}
use raftrust.Prelude.{
  ℕ, zero, suc, ◌+◌, ◌-◌, ◌≤◌, ◌≡◌, refl, sym, ◌∙◌, ◌⊎◌, inl, inr, some, List, [], ◌∷◌, ◌++◌,
  get_elem?, ◌==◌, arith, Bool-cases, Option-cases, ==_iff,
}
use mathlib.Core.List.{append-nil, append_assoc}
use raftrust.Message.{LogEntry}
use raftrust.Log.{Wal, RaftLog, get, last_index, truncate_after, append}
use raftrust.Log.Index.{IsRun, IsContiguous, get_elem?-IsRun, IsRun-shift}
use raftrust.Log.Cut.{
  get-beyond, get-truncate_after, truncate_after-IsContiguous, last_index-truncate_after,
  last_index-eq, last_lt_of_absent, le_last_of_present, truncate_after-snapshot,
}
use raftrust.Node.Append.{merge_entry, merge_entries, append_missing, store_entries}

module _ {W : Type 0} where
  -- The log has an entry at the index of `e`, with the term of `e`.
  abbrev pub Holds : RaftLog W → LogEntry → Type 0
  Holds log e = (x : LogEntry) × (get log e.index ≡ some x) × (x.term ≡ e.term)

  -- `log'` has the entry as it was sent, or the entry of the same index and term that `log` had there.
  abbrev pub IsPlaced : RaftLog W → LogEntry → RaftLog W → Type 0
  IsPlaced log e log' =
      (get log' e.index ≡ some e)
      ⊎ ((x : LogEntry) × (get log e.index ≡ some x)
          × (x.term ≡ e.term)
          × (get log' e.index ≡ some x))

  pub IsPlaced-Holds : (log log' : RaftLog W) (e : LogEntry) → IsPlaced log e log' → Holds log' e
  IsPlaced-Holds log log' e (inl sent) = (e, sent, refl)
  IsPlaced-Holds log log' e (inr (x, before, same, after)) = (x, after, same)

  -- The entries have the terms of the log's at the indices up to `commit`.
  abbrev pub AgreesUpTo : RaftLog W → ℕ → List LogEntry → Type 0
  AgreesUpTo log commit entries =
      (j : ℕ) (e x : LogEntry)
      → get_elem? entries j ≡ some e
      → get log e.index ≡ some x
      → e.index ≤ commit
      → x.term ≡ e.term

  -- What storing `entries`, which follow the index `base`, makes of a log.
  pub record IsStored (log : RaftLog W) (base : ℕ) (entries : List LogEntry) (log' : RaftLog W)
      : Type 0 where
    pub contiguous : IsContiguous log'
    pub snapshot : log'.snapshot_index ≡ log.snapshot_index
    pub kept : (k : ℕ) → k ≤ base → get log' k ≡ get log k
    pub placed : (j : ℕ) (e : LogEntry) → get_elem? entries j ≡ some e → IsPlaced log e log'

  -- Behind the end of the log every entry is new.
  merge_entries-beyond :
      (log : RaftLog W) (base : ℕ) (new_entries entries : List LogEntry)
      → IsContiguous log
      → last_index log ≤ base
      → IsRun base entries
      → merge_entries (log, new_entries) entries ≡ (log, new_entries ++ entries)
  unfolding merge_entries
  merge_entries-beyond log base new_entries [] c h r = rw append-nil
  merge_entries-beyond log base new_entries (e ∷ es) c h r =
      rw (get-beyond log e.index c (omega arith), merge_entry)
        (merge_entries-beyond log (base + 1) (new_entries ++ (e ∷ [])) es c (omega arith) r.1
          ∙ rw append_assoc)

module _ {W : Type 0} ⦃wal : Wal W⦄ (reliable : NeverFails wal) where
  append-IsStored :
      (log : RaftLog W) (entries : List LogEntry)
      → IsContiguous log
      → IsRun (last_index log) entries
      → IsStored log (last_index log) entries (append log entries).0
  append-IsStored log entries c r = record {
    contiguous = append-IsContiguous log entries c r;
    snapshot = (append-snapshot log entries).0;
    kept = λ k h.
        ground
          (arith, get-append log entries k (append_ok reliable log entries), last_index-eq log c);
    placed = λ j e h. inl (
        ground (
          arith,
          get_elem?-IsRun (last_index log) j entries {e = e} r h,
          get-append log entries e.index (append_ok reliable log entries),
          last_index-eq log c,
        ));
  }

  -- The first new entry, and with it all that follow, goes behind a log that ends at `base`.
  pub merge_new :
      (log : RaftLog W) (base : ℕ) (e : LogEntry) (es : List LogEntry)
      → IsContiguous log
      → IsRun base (e ∷ es)
      → last_index log ≡ base
      → IsStored log base (e ∷ es) (append_missing (merge_entries (log, e ∷ []) es))
  unfolding append_missing
  merge_new log base e es c r h =
      rw (merge_entries-beyond log (base + 1) (e ∷ []) es c (omega arith) r.1)
        (rw h at (append-IsStored log (e ∷ es) c (IsRun-shift (e ∷ es) (sym h) r)))

  IsStored-cons :
      (log log' : RaftLog W) (base : ℕ) (e x : LogEntry) (es : List LogEntry)
      → e.index ≡ base + 1
      → get log e.index ≡ some x
      → x.term ≡ e.term
      → IsStored log (base + 1) es log'
      → IsStored log base (e ∷ es) log'
  IsStored-cons log log' base e x es i found same s = record {
    contiguous = s.contiguous;
    snapshot = s.snapshot;
    kept = λ k h. s.kept k (omega arith);
    placed = placed_at;
  }
    where
      first : IsPlaced log e log'
      first = inr (x, found, same, s.kept e.index (omega arith) ∙ found)

      placed_at : (j : ℕ) (y : LogEntry) → get_elem? (e ∷ es) j ≡ some y → IsPlaced log y log'
      placed_at zero y h = let same_entry : e ≡ y = cc in rw same_entry at first
      placed_at (suc j) y h = s.placed j y h

  IsStored-cut :
      (log log' : RaftLog W) (base : ℕ) (entries : List LogEntry)
      → IsStored (truncate_after log base) base entries log'
      → (truncate_after log base).snapshot_index ≡ log.snapshot_index
      → IsStored log base entries log'
  IsStored-cut log log' base entries s p = record {
    contiguous = s.contiguous;
    snapshot = s.snapshot ∙ p;
    kept = λ k h. ground (arith, s.kept k h, get-truncate_after log base k);
    placed = λ j e h. uncut e (s.placed j e h);
  }
    where
      uncut : (e : LogEntry) → IsPlaced (truncate_after log base) e log' → IsPlaced log e log'
      uncut e (inl sent) = inl sent
      uncut e (inr (x, before, same, after)) =
          inr (x, ground (arith, get-truncate_after log base e.index), same, after)

  pub merge_cut :
      (log : RaftLog W) (base : ℕ) (e : LogEntry) (es : List LogEntry)
      → IsContiguous log
      → IsRun base (e ∷ es)
      → log.snapshot_index ≤ base
      → base ≤ last_index log
      → IsStored log base
          (e ∷ es)
          (append_missing (merge_entries (truncate_after log base, e ∷ []) es))
  merge_cut log base e es c r lo hi =
      IsStored-cut log _ base (e ∷ es)
        (merge_new (truncate_after log base) base e es (truncate_after-IsContiguous log base c) r
          (last_index-truncate_after log base c lo hi))
        (truncate_after-snapshot log base)

  merge_entries-IsStored :
      (log : RaftLog W) (base : ℕ) (entries : List LogEntry)
      → IsContiguous log
      → IsRun base entries
      → log.snapshot_index ≤ base
      → base ≤ last_index log
      → IsStored log base entries (append_missing (merge_entries (log, []) entries))
  unfolding merge_entries append_missing
  merge_entries-IsStored log base [] c r lo hi = record {
    contiguous = c;
    snapshot = refl;
    kept = λ k h. refl;
    placed = λ j e h. cc;
  }
  merge_entries-IsStored log base (e ∷ es) c r lo hi = elim (Option-cases (get log e.index)) [
    | inl absent ↦
        rw (absent, merge_entry)
          (merge_new log base e es c r
            (omega (arith, last_lt_of_absent log e.index c (omega arith) absent)))
    | inr (x, found) ↦ elim (Bool-cases (x.term == e.term)) [
      | inl same ↦
          rw (found, merge_entry)
            (rw same (
              IsStored-cons log _ base e x es r.0 found ((==_iff x.term e.term).0 same) (
                merge_entries-IsStored log (base + 1) es c r.1 (omega arith)
                  (omega (arith, le_last_of_present log e.index x c found)))))
      | inr differs ↦
          rw (found, merge_entry) (rw differs (rw index_before (merge_cut log base e es c r lo hi)))
    ]
  ]
    where
      index_before : e.index - 1 ≡ base
      index_before = omega arith

  -- Entries that follow an index of the log are stored: each is read back as it was sent, or the log
  -- had its index and term and keeps that entry; the log up to that index is as it was, and the log
  -- stays contiguous.
  pub store_entries-IsStored :
      (log : RaftLog W) (base : ℕ) (entries : List LogEntry)
      → IsContiguous log
      → IsRun base entries
      → log.snapshot_index ≤ base
      → base ≤ last_index log
      → IsStored log base entries (store_entries log entries)
  unfolding store_entries
  store_entries-IsStored log base entries c r lo hi =
      merge_entries-IsStored log base entries c r lo hi
