-- ===== src/WalFile/Writer.antt =====
-- crates/raft-storage/src/wal/writer.rs: the writer, as the log's WAL.
use raftrust.Prelude.{ℕ, ◌+◌, Option, none, some, List, wrap64}
use Prim.Native.String.{String}
use raftrust.Errors.{Error, Result, ok, err, panic}
use raftrust.Log.{Wal}
use raftrust.WalFile.Record.{Write, encode}

pub record WalWriter (F : Type 0) : Type 0 where
  pub writer : F
  pub path : String
  pub bytes_written : ℕ

-- `WalWriter::open`, from the opened file and its length.
unfoldable pub open_writer : {F : Type 0} → Result (F × ℕ) → String → Result (WalWriter F)
open_writer (ok (f, size)) path = ok (record { writer = f; path = path; bytes_written = size })
open_writer (err e) path = err e
open_writer panic path = panic

unfoldable pub count_bytes : {F : Type 0} → WalWriter F → F × Result ℕ → WalWriter F × Option Error
count_bytes w (f, ok written) =
    (record w { writer = f; bytes_written = wrap64 (w.bytes_written + written) }, none)
count_bytes w (f, err e) = (record w { writer = f }, some e)
count_bytes w (f, panic) = (record w { writer = f }, none)

module _ {F : Type 0} ⦃write : Write F⦄ where
  -- `sync`: flush the buffer, then sync the file.
  unfoldable pub sync_writer : WalWriter F → WalWriter F × Option Error
  sync_writer w =
      let flushed = write.flush w.writer in
      let synced = write.sync_all flushed.0 in
      elim flushed.1 [
        | some e ↦ (record w { writer = flushed.0 }, some e)
        | none ↦ (record w { writer = synced.0 }, synced.1)
      ]

module _ (crc32 : List ℕ → ℕ) {F : Type 0} ⦃write : Write F⦄ where
  unfoldable pub append_record : WalWriter F → List ℕ → WalWriter F × Option Error
  unfolding count_bytes
  append_record w bytes = count_bytes w (encode crc32 w.writer (record { payload = bytes }))

  -- The writer as what the Raft log writes to.
  instance abbrev pub file_wal : Wal (WalWriter F)
  file_wal = record { append = append_record; sync = sync_writer }
