-- ===== src/WalFile/Reopen.antt =====
-- From the Raft log to its file and back: `append` of crates/raft-consensus/src/log.rs over the
-- writer of crates/raft-storage/src/wal/writer.rs, then `open` over the reader.
use raftrust.Prelude.{Option}
use raftrust.Log.{file_records}
use raftrust.Prelude.{◌%◌}
use raftrust.WalFile.Record.{compute_crc}
use raftrust.Prelude.Bytes.{to_le_bytes}
use raftrust.Prelude.{
  ℕ, List, [], ◌∷◌, ◌++◌, some, none, length, arith, ◌∙◌, ◌≡◌, ◌≤◌, ◌<◌, ◌^◌, refl, ap, sym,
}
use mathlib.Core.List.{append_assoc, append-nil}
use raftrust.Errors.{Error, ok}
use raftrust.Message.{LogEntry}
use raftrust.Log.{RaftLog, append, write_entries, replay, open_log}
use raftrust.Log.Codec.{encode_entry, IsEncodable, decode_entry-encode_entry}
use raftrust.Log.Extend.{write_entries_ok, NeverFails}
use raftrust.WalFile.Record.{Read, Write, WalRecord, encode, max_length}
use raftrust.WalFile.Reader.{read_all}
use raftrust.WalFile.Writer.{WalWriter, append_record, sync_writer, file_wal, count_bytes}
use raftrust.WalFile.Framing.{IsReader, IsCrc, record_bytes}
use raftrust.WalFile.Recovery.{all_bytes, AllFit, read_all-torn}

-- What std::io::Write promises of a file that has taken the bytes `written` and has no errors.
pub record IsWriter {F : Type 0} (write : Write F) (written : F → List ℕ) : Type 0 where
  pub write_ok : (f : F) (bytes : List ℕ) → (write.write_all f bytes).1 ≡ none
  pub extends : (f : F) (bytes : List ℕ) → written (write.write_all f bytes).0 ≡ written f ++ bytes
  pub flush_ok : (f : F) → (write.flush f).1 ≡ none
  pub flush_keeps : (f : F) → written (write.flush f).0 ≡ written f
  pub sync_ok : (f : F) → (write.sync_all f).1 ≡ none
  pub sync_keeps : (f : F) → written (write.sync_all f).0 ≡ written f

-- The WAL records of log entries.
abbrev pub records_of : List LogEntry → List WalRecord
records_of [] = []
records_of (e ∷ es) = record { payload = encode_entry e } ∷ records_of es

-- Every entry fits the codec, and its record the reader's limit.
abbrev pub AllEncodable : List LogEntry → Type 0
AllEncodable [] = Unit
AllEncodable (e ∷ es) = (IsEncodable e × (length (encode_entry e) ≤ max_length)) × AllEncodable es

module _ (crc32 : List ℕ → ℕ) {F : Type 0} ⦃write : Write F⦄ {written : F → List ℕ}
    (law : IsWriter write written) where
  -- Appending puts the record behind what the file has.
  append_record-written :
      (w : WalWriter F) (bytes : List ℕ)
      → ((append_record crc32 w bytes).1 ≡ none)
        × (written (append_record crc32 w bytes).0.writer
            ≡ written w.writer ++ record_bytes crc32 (record { payload = bytes }))
  unfolding append_record count_bytes encode
  append_record-written w bytes =
      (ground (arith, crc_ok, len_ok, body_ok), ground (arith, crc_ok, len_ok, body_ok, body))
    where
      crc : List ℕ
      crc = to_le_bytes 4 (compute_crc crc32 bytes)

      len : List ℕ
      len = to_le_bytes 4 (length bytes % 2 ^ 32)

      crc_ok : (write.write_all w.writer crc).1 ≡ none
      crc_ok = law.write_ok w.writer crc

      len_ok : (write.write_all (write.write_all w.writer crc).0 len).1 ≡ none
      len_ok = law.write_ok (write.write_all w.writer crc).0 len

      body_ok :
          (write.write_all (write.write_all (write.write_all w.writer crc).0 len).0 bytes).1 ≡ none
      body_ok = law.write_ok (write.write_all (write.write_all w.writer crc).0 len).0 bytes

      body :
          written (write.write_all (write.write_all (write.write_all w.writer crc).0 len).0 bytes).0
          ≡ written w.writer ++ ((crc ++ len) ++ bytes)
      body =
          law.extends (write.write_all (write.write_all w.writer crc).0 len).0 bytes
          ∙ (ap (λ (l : List ℕ). l ++ bytes)
                (law.extends (write.write_all w.writer crc).0 len
                  ∙ (ap (λ (l : List ℕ). l ++ len) (law.extends w.writer crc)
                      ∙ append_assoc (written w.writer) crc len))
              ∙ append_assoc (written w.writer) (crc ++ len) bytes)

  sync_writer-written :
      (w : WalWriter F)
      → ((sync_writer w).1 ≡ none) × (written (sync_writer w).0.writer ≡ written w.writer)
  unfolding sync_writer
  sync_writer-written w =
      let f = (write.flush w.writer).0 in
      (
        ground (arith, law.flush_ok w.writer, law.sync_ok f),
        ground (
          arith,
          law.flush_ok w.writer,
          law.sync_ok f,
          law.sync_keeps f,
          law.flush_keeps w.writer,
        ),
      )

  -- A file without errors makes a WAL that never fails.
  pub file_wal-NeverFails : NeverFails {W = WalWriter F} (file_wal crc32)
  file_wal-NeverFails = record {
    append_ok = λ w bytes. (append_record-written w bytes).0;
    sync_ok = λ w. (sync_writer-written w).0;
  }

  write_entries-written :
      (es : List LogEntry) (w : WalWriter F)
      → written (write_entries ⦃wal = file_wal crc32⦄ es w).0.writer
        ≡ written w.writer ++ all_bytes crc32 (records_of es)
  unfolding write_entries
  write_entries-written [] w = (sync_writer-written w).1 ∙ sym (append-nil (written w.writer))
  write_entries-written (e ∷ es) w =
      let w' = (append_record crc32 w (encode_entry e)).0 in
      rw ((append_record-written w (encode_entry e)).0, write_entries)
        (write_entries-written es w'
          ∙ (ap (λ (l : List ℕ). l ++ all_bytes crc32 (records_of es))
                (append_record-written w (encode_entry e)).1
              ∙ append_assoc (written w.writer)
                  (record_bytes crc32 (record { payload = encode_entry e }))
                  (all_bytes crc32 (records_of es))))

records_of-append :
    (es₁ es₂ : List LogEntry) → records_of (es₁ ++ es₂) ≡ records_of es₁ ++ records_of es₂
records_of-append [] es₂ = refl
records_of-append (e ∷ es₁) es₂ =
    ap (λ ws. record { payload = encode_entry e } ∷ ws) (records_of-append es₁ es₂)

all_bytes-append :
    (crc32 : List ℕ → ℕ) (ws₁ ws₂ : List WalRecord)
    → all_bytes crc32 (ws₁ ++ ws₂) ≡ all_bytes crc32 ws₁ ++ all_bytes crc32 ws₂
all_bytes-append crc32 [] ws₂ = refl
all_bytes-append crc32 (w ∷ ws₁) ws₂ =
    ap (λ l. record_bytes crc32 w ++ l) (all_bytes-append crc32 ws₁ ws₂)
    ∙ sym (append_assoc (record_bytes crc32 w) (all_bytes crc32 ws₁) (all_bytes crc32 ws₂))

records_of-AllFit : (es : List LogEntry) → AllEncodable es → AllFit (records_of es)
records_of-AllFit [] h = h
records_of-AllFit (e ∷ es) h = (h.0.1, records_of-AllFit es h.1)

-- The data of the records, as `open` takes them from the reader.
abbrev pub payloads : List WalRecord → List (List ℕ)
payloads [] = []
payloads (w ∷ ws) = w.payload ∷ payloads ws

replay-records_of :
    (es : List LogEntry) → AllEncodable es → replay (payloads (records_of es)) ≡ ok es
unfolding replay
replay-records_of [] h = refl
replay-records_of (e ∷ es) h = rw (decode_entry-encode_entry e h.0.0, replay-records_of es h.1) refl

module _ (crc32 : List ℕ → ℕ) (is_crc : IsCrc crc32) {F : Type 0} ⦃write : Write F⦄
    {written : F → List ℕ} (writes : IsWriter write written) {R : Type 0} ⦃read : Read R⦄
    {content : R → List ℕ} (reads : IsReader read content) where
  -- Durability of the log. Where the file holds the entries of the log, and more are appended, the
  -- append succeeds, the file holds them all, and a reader of the file, with fuel for one round more
  -- than there are entries, gives records from which `open` builds a log of exactly these entries.
  -- The entries fit the codec and the reader's limit, and the files have no errors.
  pub open_log-append :
      (log : RaftLog (WalWriter F)) (es : List LogEntry) (r : R) (writer : WalWriter F) (fuel : ℕ)
      → written log.wal.writer ≡ all_bytes crc32 (records_of log.entries)
      → AllEncodable (log.entries ++ es)
      → content r ≡ written (append ⦃wal = file_wal crc32⦄ log es).0.wal.writer
      → length (records_of (log.entries ++ es)) < fuel
      → let log' = (append ⦃wal = file_wal crc32⦄ log es).0 in
        (log'.entries ≡ log.entries ++ es)
        × (written log'.wal.writer ≡ all_bytes crc32 (records_of log'.entries))
        × (ws : List WalRecord) × (read_all crc32 fuel r ≡ some (ok ws))
        × (open_log (some (ok (payloads ws))) (ok writer)
            ≡ ok (record {
              entries = log.entries ++ es;
              wal = writer;
              snapshot_index = 0;
              snapshot_term = 0;
            }))
  unfolding open_log file_records append
  open_log-append log es r writer fuel h fit same b = (
    grown,
    on_file ∙ ap (λ (l : List LogEntry). all_bytes crc32 (records_of l)) (sym grown),
    records_of (log.entries ++ es),
    read_all-torn crc32 is_crc reads (records_of (log.entries ++ es)) (record { payload = [] }) 0
        fuel r (records_of-AllFit (log.entries ++ es) fit) (omega arith) (omega arith)
        (same ∙ (on_file ∙ sym (append-nil (all_bytes crc32 (records_of (log.entries ++ es)))))) b,
    rw (replay-records_of (log.entries ++ es) fit) refl,
  )
    where
      stored : append ⦃wal = file_wal crc32⦄ log es ≡ (
        record log {
          entries = log.entries ++ es;
          wal = (write_entries ⦃wal = file_wal crc32⦄ es log.wal).0;
        },
        none,
      )
      stored =
          rw
            (
              write_entries_ok ⦃wal = file_wal crc32⦄ (file_wal-NeverFails crc32 writes) es log.wal,
              append,
            )
            refl

      grown : (append ⦃wal = file_wal crc32⦄ log es).0.entries ≡ log.entries ++ es
      grown = ap (λ (x : RaftLog (WalWriter F) × Option Error). x.0.entries) stored

      on_file :
          written (append ⦃wal = file_wal crc32⦄ log es).0.wal.writer
          ≡ all_bytes crc32 (records_of (log.entries ++ es))
      on_file =
          ap (λ (x : RaftLog (WalWriter F) × Option Error). written x.0.wal.writer) stored
          ∙ (write_entries-written crc32 writes es log.wal
              ∙ (ap (λ l. l ++ all_bytes crc32 (records_of es)) h
                  ∙ (sym (all_bytes-append crc32 (records_of log.entries) (records_of es))
                      ∙ ap (λ ws. all_bytes crc32 ws) (sym (records_of-append log.entries es)))))
