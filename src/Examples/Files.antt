-- ===== src/Examples/Files.antt =====
-- The write-ahead log on files that are lists of bytes, with a sum for the checksum.
use raftrust.Prelude.{
  ℕ, List, [], ◌∷◌, ◌++◌, some, none, refl, take, drop, length, replicate, length-replicate, leb,
  arith, ◌≡◌, ◌+◌, ◌%◌, ◌^◌, if◌then◌else◌,
}
use raftrust.Prelude.Bytes.{to_le_bytes}
use raftrust.Message.{LogEntry}
use raftrust.Log.Codec.{encode_entry}
use raftrust.WalFile.Reopen.{AllEncodable}
use raftrust.Errors.{ok}
use raftrust.WalFile.Record.{Read, Write, WalRecord, filled, unexpected_eof}
use raftrust.WalFile.Reader.{read_all}
use raftrust.WalFile.Framing.{IsReader, IsCrc, record_bytes}
use raftrust.WalFile.Writer.{WalWriter, file_wal}
use raftrust.WalFile.Recovery.{all_bytes, read_all-torn, read_all_too_long}
use raftrust.WalFile.Reopen.{IsWriter, open_log-append, records_of, payloads}
use raftrust.Log.{RaftLog, append, open_log}
use raftrust.Examples.Fixtures.{entry}

abbrev sum : List ℕ → ℕ
sum [] = 0
sum (b ∷ bs) = b + sum bs

abbrev crc : List ℕ → ℕ
crc bytes = sum bytes % 2 ^ 32

crc-IsCrc : IsCrc crc
crc-IsCrc bytes = omega arith

instance abbrev bytes_read : Read (List ℕ)
bytes_read = record {
  read_exact =
      λ r n. if leb n (length r) then (drop n r, filled (take n r)) else ([], unexpected_eof);
}

abbrev held : List ℕ → List ℕ
held r = r

bytes_read-IsReader : IsReader bytes_read held
bytes_read-IsReader = record {
  enough = λ r n h. ground arith;
  advances = λ r n h. ground arith;
  short = λ r n h. ground arith;
}

instance abbrev bytes_write : Write (List ℕ)
bytes_write = record {
  write_all = λ f bytes. (f ++ bytes, none);
  flush = λ f. (f, none);
  sync_all = λ f. (f, none);
}

bytes_write-IsWriter : IsWriter bytes_write held
bytes_write-IsWriter = record {
  write_ok = λ f bytes. refl;
  extends = λ f bytes. refl;
  flush_ok = λ f. refl;
  flush_keeps = λ f. refl;
  sync_ok = λ f. refl;
  sync_keeps = λ f. refl;
}

abbrev first : WalRecord
first = record { payload = 1 ∷ 2 ∷ [] }

abbrev second : WalRecord
second = record { payload = 7 ∷ 8 ∷ 9 ∷ [] }

abbrev torn_file : ℕ → List ℕ
torn_file k = all_bytes crc (first ∷ []) ++ take k (record_bytes crc second)

read_all-torn_example : read_all crc 2 (torn_file 5) ≡ some (ok (first ∷ []))
read_all-torn_example =
    read_all-torn crc crc-IsCrc bytes_read-IsReader (first ∷ []) second 5 2 (torn_file 5)
      (omega arith, tt) (omega arith) (omega arith) refl (omega arith)

zeros : ℕ → List ℕ
zeros n = replicate n 0

length-zeros : (n : ℕ) → length (zeros n) ≡ n
unfolding zeros
length-zeros n = length-replicate n 0

-- A record one byte above the limit.
abbrev big : WalRecord
big = record { payload = zeros 67108865 }

abbrev big_file : List ℕ
big_file = all_bytes crc (first ∷ []) ++ (record_bytes crc big ++ record_bytes crc second)

read_all_too_long_example : read_all crc 2 big_file ≡ some (ok (first ∷ []))
read_all_too_long_example =
    read_all_too_long crc crc-IsCrc bytes_read-IsReader (first ∷ []) big (record_bytes crc second) 2
      big_file (omega arith, tt) (omega (arith, length-zeros 67108865))
      (omega (arith, length-zeros 67108865)) refl (omega arith)

abbrev opened : WalWriter (List ℕ)
opened = record { writer = []; path = "raft_log.wal"; bytes_written = 0 }

abbrev empty_log : RaftLog (WalWriter (List ℕ))
empty_log = record { entries = []; wal = opened; snapshot_index = 0; snapshot_term = 0 }

abbrev two : List LogEntry
two = entry 1 1 ∷ entry 2 1 ∷ []

abbrev stored : RaftLog (WalWriter (List ℕ))
stored = (append ⦃wal = file_wal crc⦄ empty_log two).0

two-AllEncodable : AllEncodable two
unfolding encode_entry to_le_bytes
two-AllEncodable = ((omega arith, omega arith), ((omega arith, omega arith), tt))

open_log-append_example :
    (stored.entries ≡ two)
    × (held stored.wal.writer ≡ all_bytes crc (records_of stored.entries))
    × (ws : List WalRecord) × (read_all crc 3 stored.wal.writer ≡ some (ok ws))
    × (open_log (some (ok (payloads ws))) (ok opened)
        ≡ ok (record { entries = two; wal = opened; snapshot_index = 0; snapshot_term = 0 }))
open_log-append_example =
    open_log-append crc crc-IsCrc bytes_write-IsWriter bytes_read-IsReader empty_log two
      stored.wal.writer opened 3 refl two-AllEncodable refl (omega arith)
