-- ===== src/WalFile/Framing.antt =====
-- What one record is in the file, and what `decode` of crates/raft-storage/src/wal/record.rs makes of
-- a whole record, a cut one and one that is too long.
use raftrust.Prelude.{refl, [], ◌∷◌, ◌-◌, zero, suc, inl, inr, Bool-cases, Bool-cases}
use raftrust.Prelude.{none}
use raftrust.Prelude.{ltb}
use mathlib.Core.List.{◌∷◌}
use raftrust.Prelude.{if◌then◌else◌}
use raftrust.Prelude.{◌+◌, ◌-◌}
use raftrust.Prelude.{◌∙◌}
use raftrust.Prelude.Bytes.{take-length}
use raftrust.Prelude.{ap, some}
use raftrust.Prelude.{sym, ◌^◌}
use raftrust.Prelude.{◌%◌, ◌<◌, ◌≡◌, ◌≤◌}
use raftrust.Prelude.{ℕ, List, ◌++◌, length, take, drop, length-append, length-take, arith}
use raftrust.Prelude.Bytes.{
  take-length, take-length_append, drop-length_append, to_le_bytes, from_le_bytes,
  length-to_le_bytes, from_le_bytes-to_le_bytes,
}
use mathlib.Core.List.{append_assoc}
use raftrust.Errors.{ok, err, corruption}
use raftrust.WalFile.Record.{
  Read, WalRecord, compute_crc, decode, decode_data, check_crc, filled, unexpected_eof, max_length,
}

-- What std::io::Read promises of `read_exact` on a source that holds the bytes `content` and has no
-- errors.
pub record IsReader {R : Type 0} (read : Read R) (content : R → List ℕ) : Type 0 where
  pub enough :
      (r : R) (n : ℕ)
      → n ≤ length (content r)
      → (read.read_exact r n).1 ≡ filled (take n (content r))
  pub advances :
      (r : R) (n : ℕ)
      → n ≤ length (content r)
      → content (read.read_exact r n).0 ≡ drop n (content r)
  pub short : (r : R) (n : ℕ) → length (content r) < n → (read.read_exact r n).1 ≡ unexpected_eof

-- A checksum is a `u32`.
abbrev pub IsCrc : (List ℕ → ℕ) → Type 0
IsCrc crc32 = (bytes : List ℕ) → crc32 bytes < 2 ^ 32

abbrev pub header_bytes : (List ℕ → ℕ) → WalRecord → List ℕ
header_bytes crc32 w =
    to_le_bytes 4 (compute_crc crc32 w.payload) ++ to_le_bytes 4 (length w.payload % 2 ^ 32)

-- The bytes of a record in the file.
abbrev pub record_bytes : (List ℕ → ℕ) → WalRecord → List ℕ
record_bytes crc32 w = header_bytes crc32 w ++ w.payload

pub length-header_bytes : (crc32 : List ℕ → ℕ) (w : WalRecord) → length (header_bytes crc32 w) ≡ 8
length-header_bytes crc32 w = omega (
  arith,
  length-append (to_le_bytes 4 (compute_crc crc32 w.payload))
      (to_le_bytes 4 (length w.payload % 2 ^ 32)),
  length-to_le_bytes 4 (compute_crc crc32 w.payload),
  length-to_le_bytes 4 (length w.payload % 2 ^ 32),
)

take_prefix : {A : Type 0} (n : ℕ) (xs ys : List A) → length xs ≡ n → take n (xs ++ ys) ≡ xs
take_prefix n xs ys h = rw (sym h) (take-length_append xs ys)

drop_prefix : {A : Type 0} (n : ℕ) (xs ys : List A) → length xs ≡ n → drop n (xs ++ ys) ≡ ys
drop_prefix n xs ys h = rw (sym h) (drop-length_append xs ys)

take_all : {A : Type 0} (n : ℕ) (xs : List A) → length xs ≡ n → take n xs ≡ xs
take_all n xs h = rw (sym h) (take-length xs)

take-append_le :
    {A : Type 0} (n : ℕ) (xs ys : List A)
    → length xs ≤ n
    → take n (xs ++ ys) ≡ xs ++ take (n - length xs) ys
take-append_le n [] ys h = rw (zero_off n) refl
  where
    zero_off : (n : ℕ) → n - 0 ≡ n
    zero_off n = omega arith
take-append_le zero (x ∷ xs) ys h = absurd (omega arith)
take-append_le (suc n) (x ∷ xs) ys h = ground (arith, take-append_le n xs ys (omega arith))

module _ (crc32 : List ℕ → ℕ) (is_crc : IsCrc crc32) {R : Type 0} ⦃read : Read R⦄
    {content : R → List ℕ} (law : IsReader read content) where
  stored_crc :
      (w : WalRecord) → from_le_bytes (take 4 (header_bytes crc32 w)) ≡ compute_crc crc32 w.payload
  unfolding compute_crc
  stored_crc w =
      ap from_le_bytes
        (take_prefix 4 (to_le_bytes 4 (compute_crc crc32 w.payload)) _ (length-to_le_bytes 4 _))
      ∙ from_le_bytes-to_le_bytes 4 (compute_crc crc32 w.payload) (is_crc _)

  stored_length :
      (w : WalRecord)
      → length w.payload < 2 ^ 32
      → from_le_bytes (take 4 (drop 4 (header_bytes crc32 w))) ≡ length w.payload
  stored_length w fits =
      ap (λ (l : List ℕ). from_le_bytes (take 4 l))
        (drop_prefix 4 (to_le_bytes 4 (compute_crc crc32 w.payload))
          (to_le_bytes 4 (length w.payload % 2 ^ 32)) (length-to_le_bytes 4 _))
      ∙ (ap from_le_bytes
            (take_all 4 (to_le_bytes 4 (length w.payload % 2 ^ 32)) (length-to_le_bytes 4 _))
          ∙ (from_le_bytes-to_le_bytes 4 (length w.payload % 2 ^ 32) (omega arith) ∙ omega arith))

  read_header :
      (r : R) (w : WalRecord) (rest : List ℕ)
      → content r ≡ header_bytes crc32 w ++ rest
      → ((read.read_exact r 8).1 ≡ filled (header_bytes crc32 w))
        × (content (read.read_exact r 8).0 ≡ rest)
  read_header r w rest h = (
    law.enough r 8 long
        ∙ ap (λ (l : List ℕ). filled l)
            (ap (take 8) h
              ∙ take_prefix 8 (header_bytes crc32 w) rest (length-header_bytes crc32 w)),
    law.advances r 8 long
        ∙ (ap (drop 8) h ∙ drop_prefix 8 (header_bytes crc32 w) rest (length-header_bytes crc32 w)),
  )
    where
      long : 8 ≤ length (content r)
      long = omega (
        arith,
        ap (λ (l : List ℕ). length l) h,
        length-append (header_bytes crc32 w) rest,
        length-header_bytes crc32 w,
      )

  -- With a header of a record in front, decoding goes on to the data.
  pub decode-header :
      (r : R) (w : WalRecord) (rest : List ℕ)
      → length w.payload < 2 ^ 32
      → content r ≡ header_bytes crc32 w ++ rest
      → decode crc32 r
        ≡ decode_data crc32 (read.read_exact r 8).0 (compute_crc crc32 w.payload) (length w.payload)
  unfolding decode compute_crc
  decode-header r w rest fits h =
      ground (arith, (read_header r w rest h).0, stored_crc w, stored_length w fits)

  -- A whole record is read, and the source is behind it.
  pub decode-record :
      (r : R) (w : WalRecord) (rest : List ℕ)
      → length w.payload ≤ max_length
      → content r ≡ record_bytes crc32 w ++ rest
      → ((decode crc32 r).1 ≡ ok (some w)) × (content (decode crc32 r).0 ≡ rest)
  unfolding decode_data check_crc
  decode-record r w rest fits h = (ground (arith, header, whole), ground (arith, header, after))
    where
      after_header : content (read.read_exact r 8).0 ≡ w.payload ++ rest
      after_header =
          (read_header r w (w.payload ++ rest)
            (h ∙ append_assoc (header_bytes crc32 w) w.payload rest)).1

      long : length w.payload ≤ length (content (read.read_exact r 8).0)
      long = omega (arith, ap (λ (l : List ℕ). length l) after_header, length-append w.payload rest)

      header :
          decode crc32 r
          ≡ decode_data crc32
              (read.read_exact r 8).0
              (compute_crc crc32 w.payload)
              (length w.payload)
      header =
          decode-header r w (w.payload ++ rest) (omega arith)
            (h ∙ append_assoc (header_bytes crc32 w) w.payload rest)

      whole : (read.read_exact (read.read_exact r 8).0 (length w.payload)).1 ≡ filled w.payload
      whole =
          law.enough (read.read_exact r 8).0 (length w.payload) long
          ∙ ap (λ (l : List ℕ). filled l)
              (ap (take (length w.payload)) after_header ∙ take-length_append w.payload rest)

      after : content (read.read_exact (read.read_exact r 8).0 (length w.payload)).0 ≡ rest
      after =
          law.advances (read.read_exact r 8).0 (length w.payload) long
          ∙ (ap (drop (length w.payload)) after_header ∙ drop-length_append w.payload rest)

  -- A record longer than the reader's limit is refused, whatever follows it.
  pub decode_too_long :
      (r : R) (w : WalRecord) (rest : List ℕ)
      → max_length < length w.payload
      → length w.payload < 2 ^ 32
      → content r ≡ header_bytes crc32 w ++ rest
      → (decode crc32 r).1 ≡ err corruption
  unfolding decode_data
  decode_too_long r w rest long fits h = ground (arith, decode-header r w rest fits h)

  -- A record that the file ends within is the end of the file if its header is cut, and a corruption
  -- if its data are.
  pub decode_torn :
      (r : R) (w : WalRecord) (k : ℕ)
      → length w.payload < 2 ^ 32
      → k < 8 + length w.payload
      → content r ≡ take k (record_bytes crc32 w)
      → (decode crc32 r).1 ≡ (if ltb k 8 then ok none else err corruption)
  unfolding decode decode_data
  decode_torn r w k fits cut h = elim (Bool-cases (ltb k 8)) [
    | inl lt ↦ rw lt (ground (arith, law.short r 8 (ground (arith, held))))
    | inr ge ↦ rw ge (
        let far : 8 ≤ k = ground arith in
        let part = take (k - 8) w.payload in
        let split : content r ≡ header_bytes crc32 w ++ part = h ∙ cut_data far in
        ground (
          arith,
          decode-header r w part fits split,
          law.short (read.read_exact r 8).0 (length w.payload) (
              omega (
                arith,
                ap (λ (l : List ℕ). length l) (read_header r w part split).1,
                length-take (k - 8) w.payload,
              )),
        ))
  ]
    where
      held : length (content r) ≤ k
      held = omega (arith, ap (λ (l : List ℕ). length l) h, length-take k (record_bytes crc32 w))

      cut_data :
          8 ≤ k → take k (record_bytes crc32 w) ≡ header_bytes crc32 w ++ take (k - 8) w.payload
      cut_data le =
          take-append_le k (header_bytes crc32 w) w.payload
            (omega (arith, length-header_bytes crc32 w))
          ∙ rw (length-header_bytes crc32 w) refl
