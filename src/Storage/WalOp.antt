-- ===== src/Storage/WalOp.antt =====
-- `WalOp` of crates/raft-storage/src/lsm.rs: a write as the data of a WAL record.
use mathlib.Core.List.{append-nil}
use raftrust.Prelude.{
  sym, ◌∙◌, length-append, ℕ, ◌+◌, ◌%◌, ◌^◌, ◌<◌, ◌≡◌, refl, ap, List, [], ◌∷◌, ◌++◌, length, take,
  drop, ltb, ◌==◌, if◌then◌else◌, arith,
}
use raftrust.Prelude.Bytes.{
  to_le_bytes, from_le_bytes, from_le_bytes-to_le_bytes, take-length_append, drop-length_append,
}
use raftrust.Prelude.Keys.{Key}
use raftrust.Errors.{Result, ok, err, panic, corruption, ◌>>=◌}

pub data WalOp : Type 0 where
  put : Key → List ℕ → WalOp
  delete : Key → WalOp

unfoldable pub encode : WalOp → List ℕ
encode (put key value) =
    1
    ∷ (to_le_bytes 4 (length key % 2 ^ 32)
        ++ (key ++ (to_le_bytes 4 (length value % 2 ^ 32) ++ value)))
encode (delete key) = 2 ∷ (to_le_bytes 4 (length key % 2 ^ 32) ++ key)

-- A length of four bytes and as many bytes after it, with what follows; out of bounds it panics.
unfoldable pub read_chunk : List ℕ → Result (List ℕ × List ℕ)
read_chunk bytes =
    let len = from_le_bytes (take 4 bytes) in
    if ltb (length bytes) (4 + len)
    then panic
    else ok (take len (drop 4 bytes), drop len (drop 4 bytes))

decode_put : List ℕ → Result WalOp
decode_put bytes = do key ← read_chunk bytes; value ← read_chunk key.1; ok (put key.0 value.0)

decode_delete : List ℕ → Result WalOp
decode_delete bytes = do key ← read_chunk bytes; ok (delete key.0)

unfoldable pub decode : List ℕ → Result WalOp
unfolding decode_put decode_delete
decode [] = err corruption
decode (tag ∷ bytes) =
    if tag == 1 then decode_put bytes else if tag == 2 then decode_delete bytes else err corruption

pub chunk_back :
    (chunk rest : List ℕ)
    → length chunk < 2 ^ 32
    → read_chunk (to_le_bytes 4 (length chunk % 2 ^ 32) ++ (chunk ++ rest)) ≡ ok (chunk, rest)
unfolding read_chunk to_le_bytes
chunk_back chunk rest h = ground (
  arith,
  from_le_bytes-to_le_bytes 4 (length chunk % 2 ^ 32) (omega arith),
  length-append chunk rest,
  take-length_append chunk rest,
  drop-length_append chunk rest,
)

last_chunk :
    (chunk : List ℕ)
    → length chunk < 2 ^ 32
    → read_chunk (to_le_bytes 4 (length chunk % 2 ^ 32) ++ chunk) ≡ ok (chunk, [])
last_chunk chunk h =
    ap (λ (l : List ℕ). read_chunk (to_le_bytes 4 (length chunk % 2 ^ 32) ++ l))
      (sym (append-nil chunk))
    ∙ chunk_back chunk [] h

abbrev pub IsWalOp : WalOp → Type 0
IsWalOp (put key value) = (length key < 2 ^ 32) × (length value < 2 ^ 32)
IsWalOp (delete key) = length key < 2 ^ 32

-- Decoding takes back what encoding wrote, where key and value are shorter than 2^32 bytes.
pub decode-encode : (op : WalOp) → IsWalOp op → decode (encode op) ≡ ok op
unfolding encode decode decode_put decode_delete
decode-encode (put key value) h =
    rw (chunk_back key _ h.0, ◌>>=◌) (rw (last_chunk value h.1, ◌>>=◌) refl)
decode-encode (delete key) h = rw (last_chunk key h, ◌>>=◌) refl
