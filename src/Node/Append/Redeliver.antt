-- ===== src/Node/Append/Redeliver.antt =====
-- Entries that reach a log which holds them, or one that is empty, in crates/raft-consensus/src/node.rs.
use raftrust.Prelude.{ℕ, suc, ◌≡◌, refl, ◌∙◌, some, List, [], ◌∷◌, ◌++◌, get_elem?, ==_iff}
use mathlib.Core.List.{append-nil, append_assoc}
use raftrust.Message.{LogEntry}
use raftrust.Log.{Wal, RaftLog, append}
use raftrust.Log.Cut.{get-empty}
use raftrust.Node.Append.{merge_entry, merge_entries, append_missing, store_entries}
use raftrust.Node.Append.Merge.{Holds}

module _ {W : Type 0} ⦃wal : Wal W⦄ where
  -- Entries that the log holds already change nothing, also where the log goes on behind them.
  pub store_entries-held :
      (log : RaftLog W) (entries : List LogEntry)
      → ((j : ℕ) (e : LogEntry) → get_elem? entries j ≡ some e → Holds log e)
      → store_entries log entries ≡ log
  unfolding store_entries merge_entries append_missing
  store_entries-held log [] h = refl
  store_entries-held log (e ∷ es) h =
      let (x, found, same) = h 0 e refl in
      rw (found, merge_entry)
        (rw ((==_iff x.term e.term).1 same) (store_entries-held log es (λ j y g. h (suc j) y g)))

module _ {W : Type 0} where
  merge_entries-empty :
      (log : RaftLog W) (new_entries entries : List LogEntry)
      → log.entries ≡ []
      → merge_entries (log, new_entries) entries ≡ (log, new_entries ++ entries)
  unfolding merge_entries
  merge_entries-empty log new_entries [] h = rw append-nil
  merge_entries-empty log new_entries (e ∷ es) h =
      rw (get-empty log e.index h, merge_entry)
        (merge_entries-empty log (new_entries ++ (e ∷ [])) es h ∙ rw append_assoc)

module _ {W : Type 0} ⦃wal : Wal W⦄ where
  -- A log with no entries takes all entries as they come, whatever their indices.
  pub store_entries-empty :
      (log : RaftLog W) (e : LogEntry) (es : List LogEntry)
      → log.entries ≡ []
      → store_entries log (e ∷ es) ≡ (append log (e ∷ es)).0
  unfolding store_entries append_missing
  store_entries-empty log e es h = rw (merge_entries-empty log [] (e ∷ es) h)
