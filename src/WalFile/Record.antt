-- ===== src/WalFile/Record.antt =====
-- crates/raft-storage/src/wal/record.rs: one record, `[crc32][length][data]`.
use raftrust.Prelude.{◌+◌}
use raftrust.Prelude.{◌^◌}
use raftrust.Prelude.{if◌then◌else◌, ◌%◌}
use raftrust.Prelude.{ℕ, Option, none, some, List, ◌++◌, not, ltb, ◌==◌, length, take, drop}
use raftrust.Prelude.Bytes.{to_le_bytes, from_le_bytes}
use raftrust.Errors.{Error, Result, ok, err, io, corruption}

-- What `read_exact` of std::io::Read returns.
pub data ReadExact : Type 0 where
  filled : List ℕ → ReadExact
  unexpected_eof failed : ReadExact

pub record Read (R : Type 0) : Type 0 where
  pub read_exact : R → ℕ → R × ReadExact

-- `write_all` and `flush` of std::io::Write, and `sync_all` of the file beneath.
pub record Write (F : Type 0) : Type 0 where
  pub write_all : F → List ℕ → F × Option Error
  pub flush : F → F × Option Error
  pub sync_all : F → F × Option Error

pub record WalRecord : Type 0 where
  pub payload : List ℕ

abbrev pub header_size : ℕ
header_size = 8

-- 64 * 1024 * 1024
abbrev pub max_length : ℕ
max_length = 67108864

module _ (crc32 : List ℕ → ℕ) where
  unfoldable pub compute_crc : List ℕ → ℕ
  compute_crc bytes = crc32 (to_le_bytes 4 (length bytes % 2 ^ 32) ++ bytes)

  -- `WalRecord::encode`: three writes; the first error ends it.
  unfoldable pub encode : {F : Type 0} ⦃write : Write F⦄ → F → WalRecord → F × Result ℕ
  encode {F} ⦃write⦄ f r =
      let crc = write.write_all f (to_le_bytes 4 (compute_crc r.payload)) in
      let len = write.write_all crc.0 (to_le_bytes 4 (length r.payload % 2 ^ 32)) in
      let body = write.write_all len.0 r.payload in
      elim crc.1 [
        | some e ↦ (crc.0, err e)
        | none ↦ elim len.1 [
          | some e ↦ (len.0, err e)
          | none ↦ elim body.1 [
            | some e ↦ (body.0, err e)
            | none ↦ (body.0, ok (header_size + length r.payload))
          ]
        ]
      ]

  unfoldable pub check_crc : ℕ → List ℕ → Result (Option WalRecord)
  check_crc stored_crc bytes =
      if not (stored_crc == compute_crc bytes)
      then err corruption
      else ok (some (record { payload = bytes }))

  unfoldable pub decode_data :
      {R : Type 0} ⦃read : Read R⦄ → R → ℕ → ℕ → R × Result (Option WalRecord)
  decode_data {R} ⦃read⦄ r stored_crc len =
      let body = read.read_exact r len in
      if ltb max_length len then (r, err corruption) else elim body.1 [
        | filled bytes ↦ (body.0, check_crc stored_crc bytes)
        | unexpected_eof ↦ (body.0, err corruption)
        | failed ↦ (body.0, err io)
      ]

  -- `WalRecord::decode`
  unfoldable pub decode : {R : Type 0} ⦃read : Read R⦄ → R → R × Result (Option WalRecord)
  decode {R} ⦃read⦄ r =
      let header = read.read_exact r header_size in
      elim header.1 [
        | filled bytes ↦
            decode_data header.0 (from_le_bytes (take 4 bytes))
              (from_le_bytes (take 4 (drop 4 bytes)))
        | unexpected_eof ↦ (header.0, ok none)
        | failed ↦ (header.0, err io)
      ]
