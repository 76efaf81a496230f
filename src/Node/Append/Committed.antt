-- ===== src/Node/Append/Committed.antt =====
-- Storing entries keeps what is committed, in crates/raft-consensus/src/node.rs.
use raftrust.Log.Extend.{NeverFails}
use raftrust.Prelude.{
  ℕ, suc, ◌+◌, ◌-◌, ◌≤◌, ◌≡◌, refl, inl, inr, List, [], ◌∷◌, ◌==◌, arith, Bool-cases, Option-cases,
}
use raftrust.Message.{LogEntry}
use raftrust.Log.{Wal, RaftLog, get, last_index}
use raftrust.Log.Index.{IsRun, IsContiguous}
use raftrust.Log.Cut.{last_lt_of_absent, le_last_of_present}
use raftrust.Node.Append.{merge_entry, merge_entries, append_missing, store_entries}
use raftrust.Node.Append.Merge.{AgreesUpTo, merge_new, merge_cut}

module _ {W : Type 0} ⦃wal : Wal W⦄ (reliable : NeverFails wal) where
  merge_entries-committed :
      (log : RaftLog W) (base commit : ℕ) (entries : List LogEntry)
      → IsContiguous log
      → IsRun base entries
      → log.snapshot_index ≤ base
      → base ≤ last_index log
      → commit ≤ last_index log
      → AgreesUpTo log commit entries
      → (k : ℕ) → k ≤ commit
      → get (append_missing (merge_entries (log, []) entries)) k ≡ get log k
  unfolding merge_entries append_missing
  merge_entries-committed log base commit [] c r lo hi within a k h = refl
  merge_entries-committed log base commit (e ∷ es) c r lo hi within a k h =
      elim (Option-cases (get log e.index)) [
        | inl absent ↦
            let ends = last_lt_of_absent log e.index c (omega arith) absent in
            rw (absent, merge_entry)
              ((merge_new reliable log base e es c r (omega arith)).kept k (omega arith))
        | inr (x, found) ↦ elim (Bool-cases (x.term == e.term)) [
          | inl same ↦
              rw (found, merge_entry)
                (rw same (
                  merge_entries-committed log (base + 1) commit es c r.1 (omega arith)
                    (omega (arith, le_last_of_present log e.index x c found)) within
                    (λ j. a (suc j)) k h))
          | inr differs ↦
              rw (found, merge_entry)
                (rw differs (
                  rw index_before (
                    (merge_cut reliable log base e es c r lo hi).kept k
                      (ground (arith, a 0 e x refl found)))))
        ]
      ]
    where
      index_before : e.index - 1 ≡ base
      index_before = omega arith

  -- Storing entries that agree with the log up to `commit` changes nothing up to `commit`.
  pub store_entries-committed :
      (log : RaftLog W) (base commit : ℕ) (entries : List LogEntry)
      → IsContiguous log
      → IsRun base entries
      → log.snapshot_index ≤ base
      → base ≤ last_index log
      → commit ≤ last_index log
      → AgreesUpTo log commit entries
      → (k : ℕ) → k ≤ commit
      → get (store_entries log entries) k ≡ get log k
  unfolding store_entries
  store_entries-committed = merge_entries-committed
