-- ===== src/Log/Extend.antt =====
-- `append` and `entries_from` of crates/raft-consensus/src/log.rs.
use raftrust.Prelude.{
  ℕ, ◌+◌, ◌-◌, ◌<◌, ◌≡◌, ◌≢◌, ◌⊎◌, false, none, List, [], ◌∷◌, ◌++◌, length, get_elem?, drop, leb,
  if◌then◌else◌, arith, Bool-cases, inl, inr,
}
use raftrust.Message.{LogEntry}
use raftrust.Log.Codec.{encode_entry}
use raftrust.Log.Cut.{last_index-eq}
use raftrust.Log.{entries_from, write_entries, Wal, RaftLog, get, last_index, append}
use raftrust.Log.Index.{
  IsRun, IsContiguous, get_elem?-none, get_elem?-drop, get_elem?-append, IsRun-append, IsRun-drop,
  IsRun-shift,
}

module _ {W : Type 0} ⦃wal : Wal W⦄ where
  -- What `append` does to the entries: all of them or, on an error, none.
  pub append_cases :
      (log : RaftLog W) (es : List LogEntry)
      → ((append log es).1 ≡ none) × ((append log es).0.entries ≡ log.entries ++ es)
        ⊎ ((append log es).1 ≢ none) × ((append log es).0.entries ≡ log.entries)
  unfolding append
  append_cases log es = ground arith

  pub append-snapshot :
      (log : RaftLog W) (es : List LogEntry)
      → ((append log es).0.snapshot_index ≡ log.snapshot_index)
        × ((append log es).0.snapshot_term ≡ log.snapshot_term)
  unfolding append
  append-snapshot log es = ground arith

  pub append-IsContiguous :
      (log : RaftLog W) (es : List LogEntry)
      → IsContiguous log
      → IsRun (last_index log) es
      → IsContiguous (append log es).0
  append-IsContiguous log es c r = elim (append_cases log es) [
    | inl h ↦ record {
      run =
          rw (h.1, (append-snapshot log es).0)
            (IsRun-append log.snapshot_index log.entries es c.run
              (IsRun-shift es (last_index-eq log c) r));
    }
    | inr h ↦ record { run = rw (h.1, (append-snapshot log es).0) c.run }
  ]

  -- After an append that succeeded, the old entries are where they were and the new ones follow.
  pub get-append :
      (log : RaftLog W) (es : List LogEntry) (i : ℕ)
      → (append log es).1 ≡ none
      → get (append log es).0 i ≡ (
          if leb i (log.snapshot_index + length log.entries)
          then get log i
          else get_elem? es (i - (log.snapshot_index + length log.entries) - 1))
  unfolding get
  get-append log es i h = ground (
    arith,
    append_cases log es,
    append-snapshot log es,
    get_elem?-append (i - log.snapshot_index - 1) log.entries es,
  )

pub record NeverFails {W : Type 0} (wal : Wal W) : Type 0 where
  pub append_ok : (w : W) (bytes : List ℕ) → (wal.append w bytes).1 ≡ none
  pub sync_ok : (w : W) → (wal.sync w).1 ≡ none

module _ {W : Type 0} ⦃wal : Wal W⦄ (reliable : NeverFails wal) where
  pub write_entries_ok : (es : List LogEntry) (w : W) → (write_entries es w).1 ≡ none
  unfolding write_entries
  write_entries_ok [] w = reliable.sync_ok w
  write_entries_ok (e ∷ es) w =
      rw (reliable.append_ok w (encode_entry e), write_entries)
        (write_entries_ok es (wal.append w (encode_entry e)).0)

  pub append_ok : (log : RaftLog W) (es : List LogEntry) → (append log es).1 ≡ none
  unfolding append
  append_ok log es = rw (write_entries_ok es log.wal, append)

module _ {W : Type 0} where
  -- Above the snapshot, `entries_from` returns the entries that follow the index before.
  pub entries_from-IsRun :
      (log : RaftLog W) (start : ℕ)
      → IsContiguous log
      → log.snapshot_index < start
      → IsRun (start - 1) (entries_from log start)
  unfolding entries_from
  entries_from-IsRun log start c h =
      elim (Bool-cases (leb (length log.entries) (start - log.snapshot_index - 1))) [
        | inl past ↦ rw (start_above log start h, past) tt
        | inr _within ↦
            rw (start_above log start h, _within)
              (IsRun-shift (drop (start - log.snapshot_index - 1) log.entries) (omega arith)
                (IsRun-drop log.snapshot_index (start - log.snapshot_index - 1) log.entries c.run))
      ]
    where
      start_above :
          (log : RaftLog W) (start : ℕ)
          → log.snapshot_index < start
          → leb start log.snapshot_index ≡ false
      start_above log start h = ground arith

  -- Its elements are the log's, by index.
  pub get_elem?-entries_from :
      (log : RaftLog W) (start j : ℕ)
      → log.snapshot_index < start
      → get_elem? (entries_from log start) j ≡ get log (start + j)
  unfolding entries_from get
  get_elem?-entries_from log start j h = ground (
    arith,
    get_elem?-drop (start - log.snapshot_index - 1) j log.entries,
    get_elem?-none (start + j - log.snapshot_index - 1) log.entries,
  )
