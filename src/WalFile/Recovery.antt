-- ===== src/WalFile/Recovery.antt =====
-- Reading a file back with `read_all` of crates/raft-storage/src/wal/reader.rs, after a crash in the
-- middle of a write.
use raftrust.Errors.{corruption}
use raftrust.Errors.{err}
use raftrust.Prelude.Bytes.{from_le_bytes}
use raftrust.Prelude.{
  Option, none, refl, inl, inr, Bool-cases, is_some, true, drop, length-drop, ltb, ◌*◌,
  if◌then◌else◌, true,
}
use raftrust.Prelude.{is_some, ltb}
use raftrust.Prelude.{if◌then◌else◌, ◌*◌}
use raftrust.WalFile.Record.{decode_data}
use raftrust.Prelude.{
  ℕ, zero, suc, List, [], ◌∷◌, ◌++◌, some, take, length, arith, ◌∙◌, ◌≡◌, ◌≤◌, ◌<◌, ◌+◌, ◌^◌,
}
use mathlib.Core.List.{append_assoc}
use raftrust.Errors.{Error, Result, ok, err, panic, corruption}
use raftrust.WalFile.Record.{Read, WalRecord, decode, max_length}
use raftrust.WalFile.Reader.{read_all, read_all_strict, next_record, push, stop_at_corruption}
use raftrust.WalFile.Framing.{
  IsReader, IsCrc, record_bytes, header_bytes, decode-record, decode_torn, decode_too_long,
}

-- The bytes of records in a row.
abbrev pub all_bytes : (List ℕ → ℕ) → List WalRecord → List ℕ
all_bytes crc32 [] = []
all_bytes crc32 (w ∷ ws) = record_bytes crc32 w ++ all_bytes crc32 ws

-- Every record is within the reader's limit.
abbrev pub AllFit : List WalRecord → Type 0
AllFit [] = Unit
AllFit (w ∷ ws) = (length w.payload ≤ max_length) × AllFit ws

push-is_some :
    (w : WalRecord) (rest : Option (Result (List WalRecord)))
    → is_some rest ≡ true
    → is_some (push w rest) ≡ true
unfolding push
push-is_some w none h = h
push-is_some w (some (ok ws)) h = refl
push-is_some w (some (err e)) h = refl
push-is_some w (some panic) h = refl

next_record-is_some :
    (on_error : Error → Result (List WalRecord)) (x : Result (Option WalRecord))
    (rest : Option (Result (List WalRecord)))
    → ((w : WalRecord) → x ≡ ok (some w) → is_some rest ≡ true)
    → is_some (next_record on_error x rest) ≡ true
unfolding next_record
next_record-is_some on_error (ok (some w)) rest h = push-is_some w rest (h w refl)
next_record-is_some on_error (ok none) rest h = refl
next_record-is_some on_error (err e) rest h = refl
next_record-is_some on_error panic rest h = refl

module _ (crc32 : List ℕ → ℕ) (is_crc : IsCrc crc32) {R : Type 0} ⦃read : Read R⦄
    {content : R → List ℕ} (law : IsReader read content) where
  -- Crash recovery. From a file of whole records and a part of one more, as a crash leaves it,
  -- `read_all` returns the whole records. Each record is within the limit of 64 MiB, the cut one
  -- has a length below 2^32, the source has no errors, and the loop may go round once more than
  -- there are records.
  pub read_all-torn :
      (ws : List WalRecord) (w : WalRecord) (k fuel : ℕ) (r : R)
      → AllFit ws
      → length w.payload < 2 ^ 32
      → k < 8 + length w.payload
      → content r ≡ all_bytes crc32 ws ++ take k (record_bytes crc32 w)
      → length ws < fuel
      → read_all crc32 fuel r ≡ some (ok ws)
  unfolding read_all next_record stop_at_corruption push
  read_all-torn [] w k zero r f l c h b = absurd (omega arith)
  read_all-torn [] w k (suc fuel) r f l c h b =
      ground (arith, decode_torn crc32 is_crc law r w k l c h)
  read_all-torn (v ∷ ws) w k zero r f l c h b = absurd (omega arith)
  read_all-torn (v ∷ ws) w k (suc fuel) r f l c h b =
      let front =
        decode-record crc32 is_crc law r v (all_bytes crc32 ws ++ take k (record_bytes crc32 w)) f.0
          (h
            ∙ append_assoc (record_bytes crc32 v) (all_bytes crc32 ws)
                (take k (record_bytes crc32 w))) in
      ground
        (arith, front.0, read_all-torn ws w k fuel (decode crc32 r).0 f.1 l c front.1 (omega arith))

  -- The strict reader, on a file of whole records and a part of one more, returns the whole records
  -- too where the cut is within a header, and refuses the file where it is within the data. The limits
  -- on lengths are those of `read_all`, the source has no errors, and the loop may go round once more
  -- than there are records.
  pub read_all_strict-torn :
      (ws : List WalRecord) (w : WalRecord) (k fuel : ℕ) (r : R)
      → AllFit ws
      → length w.payload < 2 ^ 32
      → k < 8 + length w.payload
      → content r ≡ all_bytes crc32 ws ++ take k (record_bytes crc32 w)
      → length ws < fuel
      → read_all_strict crc32 fuel r ≡ some (if ltb k 8 then ok ws else err corruption)
  unfolding read_all_strict next_record push
  read_all_strict-torn [] w k zero r f l c h b = absurd (omega arith)
  read_all_strict-torn [] w k (suc fuel) r f l c h b =
      ground (arith, decode_torn crc32 is_crc law r w k l c h)
  read_all_strict-torn (v ∷ ws) w k zero r f l c h b = absurd (omega arith)
  read_all_strict-torn (v ∷ ws) w k (suc fuel) r f l c h b =
      let front =
        decode-record crc32 is_crc law r v (all_bytes crc32 ws ++ take k (record_bytes crc32 w)) f.0
          (h
            ∙ append_assoc (record_bytes crc32 v) (all_bytes crc32 ws)
                (take k (record_bytes crc32 w))) in
      ground (
        arith,
        front.0,
        read_all_strict-torn ws w k fuel (decode crc32 r).0 f.1 l c front.1 (omega arith),
      )

  -- A record above the limit of 64 MiB hides itself and every record behind
  -- it: `read_all` returns the records before it. Those are within the limit, its length is below
  -- 2^32, the source has no errors, and the loop may go round once more than there are records
  -- before it.
  pub read_all_too_long :
      (ws : List WalRecord) (w : WalRecord) (rest : List ℕ) (fuel : ℕ) (r : R)
      → AllFit ws
      → max_length < length w.payload
      → length w.payload < 2 ^ 32
      → content r ≡ all_bytes crc32 ws ++ (record_bytes crc32 w ++ rest)
      → length ws < fuel
      → read_all crc32 fuel r ≡ some (ok ws)
  unfolding read_all next_record stop_at_corruption push
  read_all_too_long [] w rest zero r f m l h b = absurd (omega arith)
  read_all_too_long [] w rest (suc fuel) r f m l h b = ground (
    arith,
    decode_too_long crc32 is_crc law r w (w.payload ++ rest) m l
        (h ∙ append_assoc (header_bytes crc32 w) w.payload rest),
  )
  read_all_too_long (v ∷ ws) w rest zero r f m l h b = absurd (omega arith)
  read_all_too_long (v ∷ ws) w rest (suc fuel) r f m l h b =
      let front =
        decode-record crc32 is_crc law r v (all_bytes crc32 ws ++ (record_bytes crc32 w ++ rest))
          f.0
          (h
            ∙ append_assoc (record_bytes crc32 v) (all_bytes crc32 ws)
                (record_bytes crc32 w ++ rest)) in
      ground (
        arith,
        front.0,
        read_all_too_long ws w rest fuel (decode crc32 r).0 f.1 m l front.1 (omega arith),
      )

  decode_data_shrinks :
      (r : R) (stored_crc len : ℕ) (w : WalRecord)
      → (decode_data crc32 r stored_crc len).1 ≡ ok (some w)
      → length (content (decode_data crc32 r stored_crc len).0) ≤ length (content r)
  unfolding decode_data
  decode_data_shrinks r stored_crc len w h = elim (Bool-cases (ltb (length (content r)) len)) [
    | inl lt ↦ ground (arith, law.short r len (ground arith))
    | inr ge ↦
        let far : len ≤ length (content r) = ground arith in
        ground (arith, law.enough r len far, law.advances r len far, length-drop len (content r))
  ]

  -- A record that is read takes at least its header from the source.
  decode_shrinks :
      (r : R) (w : WalRecord)
      → (decode crc32 r).1 ≡ ok (some w)
      → length (content (decode crc32 r).0) + 8 ≤ length (content r)
  unfolding decode
  decode_shrinks r w h = elim (Bool-cases (ltb (length (content r)) 8)) [
    | inl lt ↦ ground (arith, law.short r 8 (ground arith))
    | inr ge ↦
        let far : 8 ≤ length (content r) = ground arith in
        let stored_crc = from_le_bytes (take 4 (take 8 (content r))) in
        let len = from_le_bytes (take 4 (drop 4 (take 8 (content r)))) in
        ground (
          arith,
          law.enough r 8 far,
          law.advances r 8 far,
          length-drop 8 (content r),
          decode_data_shrinks (read.read_exact r 8).0 stored_crc len w,
        )
  ]

  -- The loop of `read_all` ends on any source without errors: with fuel for more than an eighth of its
  -- bytes, it returns.
  pub read_all_returns :
      (fuel : ℕ) (r : R) → length (content r) < 8 * fuel → is_some (read_all crc32 fuel r) ≡ true
  unfolding read_all
  read_all_returns zero r b = absurd (omega arith)
  read_all_returns (suc fuel) r b =
      next_record-is_some stop_at_corruption (decode crc32 r).1
        (read_all crc32 fuel (decode crc32 r).0)
        (λ w h. read_all_returns fuel (decode crc32 r).0 (omega (arith, decode_shrinks r w h)))
