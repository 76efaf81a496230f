-- ===== src/Log.antt =====
-- crates/raft-consensus/src/log.rs: the Raft log. Indices start at 1; index 0 is a sentinel of term 0.
-- The WAL behind it is the interface `Wal`, which `Wal.Writer` fills.
pub mod Codec
pub mod Index
pub mod Cut
pub mod Extend
use raftrust.Prelude.{
  ℕ, zero, suc, ◌+◌, ◌-◌, ◌≤◌, Bool, true, false, ◌||◌, Option, none, some, List, [], ◌∷◌, ◌++◌,
  length, get_elem?, take, drop, leb, ltb, ◌==◌, if◌then◌else◌, ◌≡◌,
}
use raftrust.Errors.{Error, Result, ok, ◌>>=◌}
use raftrust.Message.{LogEntry}
use Codec.{encode_entry, decode_entry}

-- The operations of a write-ahead log that the Raft log calls, each with its error if it fails.
pub record Wal (W : Type 0) : Type 0 where
  pub append : W → List ℕ → W × Option Error
  pub sync : W → W × Option Error

pub record RaftLog (W : Type 0) : Type 0 where
  pub entries : List LogEntry
  pub wal : W
  pub snapshot_index : ℕ
  pub snapshot_term : ℕ

abbrev pub last? : List LogEntry → Option LogEntry
last? [] = none
last? (e ∷ []) = some e
last? (e ∷ f ∷ es) = last? (f ∷ es)

module _ {W : Type 0} where
  -- `index - snapshot_index - 1` cannot underflow behind the guard.
  unfoldable pub get : RaftLog W → ℕ → Option LogEntry
  get log index =
      if index == 0 || leb index log.snapshot_index
      then none
      else get_elem? log.entries (index - log.snapshot_index - 1)

  unfoldable pub last_index : RaftLog W → ℕ
  last_index log = elim (last? log.entries) [ none ↦ log.snapshot_index | some e ↦ e.index ]

  unfoldable pub last_term : RaftLog W → ℕ
  last_term log = elim (last? log.entries) [ none ↦ log.snapshot_term | some e ↦ e.term ]

  unfoldable pub term_at : RaftLog W → ℕ → Option ℕ
  term_at log index =
      if index == 0
      then some 0
      else if index == log.snapshot_index
      then some log.snapshot_term
      else elim (get log index) [ none ↦ none | some e ↦ some e.term ]

  -- `self.term_at(index) == Some(term)`
  unfoldable pub match_term : RaftLog W → ℕ → ℕ → Bool
  match_term log index term = elim (term_at log index) [ none ↦ false | some t ↦ t == term ]

  unfoldable pub entries_from : RaftLog W → ℕ → List LogEntry
  entries_from log start_index =
      if leb start_index log.snapshot_index
      then log.entries
      else (let vec_idx = start_index - log.snapshot_index - 1 in
          if leb (length log.entries) vec_idx then [] else drop vec_idx log.entries)

  unfoldable pub truncate_after : RaftLog W → ℕ → RaftLog W
  truncate_after log index =
      if leb index log.snapshot_index
      then record log { entries = [] }
      else record log { entries = take (index - log.snapshot_index) log.entries }

  unfoldable pub len : RaftLog W → ℕ
  len log = length log.entries

  unfoldable pub is_empty : RaftLog W → Bool
  is_empty log = length log.entries == 0

  unfoldable pub compact : RaftLog W → ℕ → ℕ → RaftLog W
  compact log snapshot_index snapshot_term =
      if leb snapshot_index log.snapshot_index
      then log
      else (let discard = snapshot_index - log.snapshot_index in
          record log {
            entries = if leb (length log.entries) discard then [] else drop discard log.entries;
            snapshot_index = snapshot_index;
            snapshot_term = snapshot_term;
          })

-- `RaftLog::append`: the loop over the entries, then `sync`. An error leaves the WAL as the failed
-- call left it, and the entries in memory as they were.
module _ {W : Type 0} ⦃wal : Wal W⦄ where
  unfoldable pub write_entries : List LogEntry → W → W × Option Error
  write_entries [] w = wal.sync w
  write_entries (e ∷ es) w =
      let rest = write_entries es (wal.append w (encode_entry e)).0 in
      elim (wal.append w (encode_entry e)).1 [
        | none ↦ rest
        | some x ↦ ((wal.append w (encode_entry e)).0, some x)
      ]

  unfoldable pub append : RaftLog W → List LogEntry → RaftLog W × Option Error
  unfolding write_entries
  append log entries = elim (write_entries entries log.wal).1 [
    | none ↦ (
      record log { entries = log.entries ++ entries; wal = (write_entries entries log.wal).0 },
      none,
    )
    | some x ↦ (record log { wal = (write_entries entries log.wal).0 }, some x)
  ]

-- The loop of `open` over the records of the WAL; the first entry that fails to decode ends it.
unfoldable pub replay : List (List ℕ) → Result (List LogEntry)
replay [] = ok []
replay (r ∷ rs) = let rest = replay rs in decode_entry r >>= λ e. rest >>= λ es. ok (e ∷ es)

-- What `WalReader` reads where the file exists.
unfoldable pub file_records : Option (Result (List (List ℕ))) → Result (List (List ℕ))
file_records none = ok []
file_records (some records) = records

-- `RaftLog::open`: `file` is what `WalReader` reads where the file exists, and `writer` what
-- `WalWriter::open` returns.
unfoldable pub open_log :
    {W : Type 0} → Option (Result (List (List ℕ))) → Result W → Result (RaftLog W)
unfolding replay file_records
open_log file writer = do
  records ← file_records file
  entries ← replay records
  wal ← writer
  ok (record { entries = entries; wal = wal; snapshot_index = 0; snapshot_term = 0 })
