-- ===== src/WalFile/Reader.antt =====
-- crates/raft-storage/src/wal/reader.rs: reading all records of the file. The loops run on fuel, one
-- more than the number of records the file can hold.
use raftrust.Prelude.{ℕ, zero, suc, Option, none, some, List, [], ◌∷◌}
use raftrust.Errors.{Error, Result, ok, err, panic, corruption}
use raftrust.WalFile.Record.{Read, WalRecord, decode}

-- The answer with the record that was read before it.
unfoldable pub push :
    WalRecord → Option (Result (List WalRecord)) → Option (Result (List WalRecord))
push record_read none = none
push record_read (some (ok records)) = some (ok (record_read ∷ records))
push record_read (some (err e)) = some (err e)
push record_read (some panic) = some panic

-- `read_all` stops at a corruption, and fails on other errors.
unfoldable pub stop_at_corruption : Error → Result (List WalRecord)
stop_at_corruption corruption = ok []
stop_at_corruption e = err e

-- One round of the loop: what ends it, or the rest after a record.
unfoldable pub next_record :
    (Error → Result (List WalRecord))
    → Result (Option WalRecord)
    → Option (Result (List WalRecord))
    → Option (Result (List WalRecord))
unfolding push
next_record on_error (ok (some record_read)) rest = push record_read rest
next_record on_error (ok none) rest = some (ok [])
next_record on_error (err e) rest = some (on_error e)
next_record on_error panic rest = some panic

module _ (crc32 : List ℕ → ℕ) {R : Type 0} ⦃read : Read R⦄ where
  unfoldable pub read_all : ℕ → R → Option (Result (List WalRecord))
  unfolding next_record stop_at_corruption
  read_all zero r = none
  read_all (suc fuel) r =
      next_record stop_at_corruption (decode crc32 r).1 (read_all fuel (decode crc32 r).0)

  unfoldable pub read_all_strict : ℕ → R → Option (Result (List WalRecord))
  unfolding next_record
  read_all_strict zero r = none
  read_all_strict (suc fuel) r =
      next_record (λ e. err e) (decode crc32 r).1 (read_all_strict fuel (decode crc32 r).0)
