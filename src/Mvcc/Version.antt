-- ===== src/Mvcc/Version.antt =====
-- crates/raft-mvcc/src/version.rs: keys with a revision, and the values stored under them.
pub mod Order
pub mod Ranges
use raftrust.Prelude.Bytes.{from_le_bytes-to_le_bytes}
use raftrust.Prelude.{
  ℕ, ◌+◌, ◌-◌, ◌<◌, ◌%◌, ◌^◌, ◌≡◌, refl, sym, ap, ◌∙◌, Bool, true, false, Option, none, some, List,
  [], ◌∷◌, ◌++◌, length, take, drop, ltb, ◌==◌, if◌then◌else◌, IsU64, arith,
}
use mathlib.Core.List.{reverse, append_assoc}
use raftrust.Prelude.Bytes.{to_be_bytes, from_be_bytes, to_le_bytes, from_le_bytes}
use raftrust.Prelude.Keys.{Key}
use raftrust.Errors.{Result, ok, err, panic, ◌>>=◌}
use raftrust.Storage.MemTable.{Slot}
use raftrust.Storage.WalOp.{read_chunk, chunk_back}
use raftrust.Lease.{I64}

-- `!revision` of a `u64`.
abbrev pub inverted : ℕ → ℕ
inverted revision = 2 ^ 64 - 1 - revision

unfoldable pub encode_key : Key → ℕ → Key
encode_key user_key revision = user_key ++ to_be_bytes 8 (inverted revision)

-- A key shorter than the suffix panics.
unfoldable pub decode_key : Key → Result (Key × ℕ)
decode_key encoded =
    let split = length encoded - 8 in
    if ltb (length encoded) 8
    then panic
    else ok (take split encoded, inverted (from_be_bytes (drop split encoded)))

unfoldable pub encode_key_prefix_start : Key → Key
encode_key_prefix_start user_key = encode_key user_key (2 ^ 64 - 1)

-- The loop of `increment_bytes` over the bytes from the last on, with whether it went through all.
unfoldable pub carry_bytes : List ℕ → List ℕ × Bool
carry_bytes [] = ([], true)
carry_bytes (b ∷ bs) =
    let rest = carry_bytes bs in if ltb b 255 then ((b + 1) ∷ bs, false) else (0 ∷ rest.0, rest.1)

unfoldable pub increment_bytes : List ℕ → List ℕ
increment_bytes bytes =
    let carried = carry_bytes (reverse bytes) in
    if carried.1 then 1 ∷ reverse carried.0 else reverse carried.0

abbrev pub zero_suffix : List ℕ
zero_suffix = 0 ∷ 0 ∷ 0 ∷ 0 ∷ 0 ∷ 0 ∷ 0 ∷ 0 ∷ []

unfoldable pub encode_key_prefix_end : Key → Key
encode_key_prefix_end user_key = increment_bytes user_key ++ zero_suffix

-- `value` is `none` for a delete marker.
pub record VersionedValue : Type 0 where
  pub value : Slot
  pub create_revision : ℕ
  pub mod_revision : ℕ
  pub lease_id : I64
  pub ttl_seconds : I64

abbrev encode_value : Slot → List ℕ
encode_value (some v) = 1 ∷ (to_le_bytes 4 (length v % 2 ^ 32) ++ v)
encode_value none = 2 ∷ []

unfoldable pub encode : VersionedValue → List ℕ
encode vv =
    encode_value vv.value
    ++ (to_le_bytes 8 vv.create_revision
        ++ (to_le_bytes 8 vv.mod_revision
            ++ (to_le_bytes 8 vv.lease_id ++ to_le_bytes 8 vv.ttl_seconds)))

-- The four words after the value.
decode_words : Slot → List ℕ → Result VersionedValue
decode_words value bytes =
    if ltb (length bytes) 32
    then panic
    else ok (record {
      value = value;
      create_revision = from_le_bytes (take 8 bytes);
      mod_revision = from_le_bytes (take 8 (drop 8 bytes));
      lease_id = from_le_bytes (take 8 (drop 16 bytes));
      ttl_seconds = from_le_bytes (take 8 (drop 24 bytes));
    })

-- Out of bounds it panics.
unfoldable pub decode : List ℕ → Result VersionedValue
unfolding decode_words
decode [] = panic
decode (tag ∷ bytes) =
    if tag == 1
    then (read_chunk bytes >>= λ chunk. decode_words (some chunk.0) chunk.1)
    else decode_words none bytes

abbrev IsSmall : Slot → Type 0
IsSmall none = Unit
IsSmall (some v) = length v < 2 ^ 32

-- The words of a value fit their widths.
abbrev pub IsValue : VersionedValue → Type 0
IsValue vv =
    IsSmall vv.value
    × IsU64 vv.create_revision
    × IsU64 vv.mod_revision
    × IsU64 vv.lease_id
    × IsU64 vv.ttl_seconds

word_back : (n : ℕ) → IsU64 n → from_le_bytes (to_le_bytes 8 n) ≡ n
word_back n h = from_le_bytes-to_le_bytes 8 n (omega arith)

words_back :
    (value : Slot) (a b c d : ℕ)
    → IsU64 a
    → IsU64 b
    → IsU64 c
    → IsU64 d
    → decode_words value
        (to_le_bytes 8 a ++ (to_le_bytes 8 b ++ (to_le_bytes 8 c ++ to_le_bytes 8 d)))
      ≡ ok (record {
        value = value;
        create_revision = a;
        mod_revision = b;
        lease_id = c;
        ttl_seconds = d;
      })
unfolding decode_words to_le_bytes
words_back value a b c d ha hb hc hd =
    rw (word_back a ha, word_back b hb, word_back c hc, word_back d hd) refl

decode_encoded :
    (value : Slot) (words : List ℕ)
    → IsSmall value
    → decode (encode_value value ++ words) ≡ decode_words value words
unfolding decode
decode_encoded none words h = refl
decode_encoded (some v) words h =
    let word = to_le_bytes 4 (length v % 2 ^ 32) in
    rw (append_assoc word v words, chunk_back v words h, ◌>>=◌) refl

-- Decoding takes back a value that was encoded, where the value is shorter than 2^32 bytes.
pub decode-encode : (vv : VersionedValue) → IsValue vv → decode (encode vv) ≡ ok vv
unfolding encode
decode-encode vv h =
    decode_encoded vv.value _ h.0
    ∙ words_back vv.value vv.create_revision vv.mod_revision vv.lease_id vv.ttl_seconds h.1 h.2 h.3
        h.4
