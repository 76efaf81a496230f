-- ===== src/Mvcc/Version/Order.antt =====
-- The order of the keys of crates/raft-mvcc/src/version.rs.
use raftrust.Prelude.{ℕ, ◌-◌, ◌≡◌, ◌∙◌, ◌++◌, length, length-append, ltb, ◌==◌, IsU64, arith}
use raftrust.Prelude.Bytes.{
  to_be_bytes, from_be_bytes, from_be_bytes-to_be_bytes, length-to_be_bytes, take-length_append,
  drop-length_append,
}
use raftrust.Prelude.Keys.{
  Key, key_lt, key_eq, key_lt-append_same, key_eq-append_same, key_lt-to_be_bytes,
  key_eq-to_be_bytes,
}
use raftrust.Errors.{ok}
use raftrust.Mvcc.Version.{encode_key, decode_key, inverted}

decode_key_split :
    (key suffix : Key)
    → length suffix ≡ 8
    → decode_key (key ++ suffix) ≡ ok (key, inverted (from_be_bytes suffix))
unfolding decode_key
decode_key_split key suffix h =
    let split : length (key ++ suffix) - 8 ≡ length key = omega (arith, length-append key suffix) in
    rw split (
      rw (take-length_append key suffix, drop-length_append key suffix)
        (ground (arith, length-append key suffix)))

-- Decoding takes a stored key apart.
pub decode_key-encode_key :
    (key : Key) (revision : ℕ)
    → IsU64 revision
    → decode_key (encode_key key revision) ≡ ok (key, revision)
unfolding encode_key
decode_key-encode_key key revision h =
    decode_key_split key (to_be_bytes 8 (inverted revision))
      (length-to_be_bytes 8 (inverted revision))
    ∙ ground (arith, from_be_bytes-to_be_bytes 8 (inverted revision) (omega arith))

-- Of two versions of a key the newer comes first.
pub key_lt-encode_key :
    (key : Key) (r s : ℕ)
    → IsU64 r
    → IsU64 s
    → key_lt (encode_key key r) (encode_key key s) ≡ ltb s r
unfolding encode_key
key_lt-encode_key key r s hr hs =
    key_lt-append_same key (to_be_bytes 8 (inverted r)) (to_be_bytes 8 (inverted s))
    ∙ (key_lt-to_be_bytes 8 (inverted r) (inverted s) (omega arith) (omega arith) ∙ ground arith)

pub key_eq-encode_key :
    (key : Key) (r s : ℕ)
    → IsU64 r
    → IsU64 s
    → key_eq (encode_key key r) (encode_key key s) ≡ (r == s)
unfolding encode_key
key_eq-encode_key key r s hr hs =
    key_eq-append_same key (to_be_bytes 8 (inverted r)) (to_be_bytes 8 (inverted s))
    ∙ (key_eq-to_be_bytes 8 (inverted r) (inverted s) (omega arith) (omega arith) ∙ ground arith)
