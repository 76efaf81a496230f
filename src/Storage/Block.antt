-- ===== src/Storage/Block.antt =====
-- crates/raft-storage/src/sstable/block.rs: the coding of a block of entries.
use raftrust.Prelude.{
  ℕ, zero, suc, ◌-◌, ◌%◌, ◌^◌, ◌<◌, ◌≡◌, refl, ap, ◌∙◌, false, none, some, List, [], ◌∷◌, ◌++◌,
  length, length-append, take, drop, ltb, ◌==◌, if◌then◌else◌, arith,
}
use mathlib.Core.List.{append_assoc}
use raftrust.Prelude.Bytes.{
  to_le_bytes, from_le_bytes, length-to_le_bytes, from_le_bytes-to_le_bytes, take-length_append,
  drop-length_append,
}
use raftrust.Prelude.Keys.{Key}
use raftrust.Prelude.Tables.{Table}
use raftrust.Errors.{Result, ok, err, corruption, ◌>>=◌}
use raftrust.Storage.MemTable.{Slot}

abbrev tombstone_marker : ℕ
tombstone_marker = 2 ^ 32 - 1

abbrev value_length : Slot → ℕ
value_length none = tombstone_marker
value_length (some v) = length v % 2 ^ 32

abbrev value_bytes : Slot → List ℕ
value_bytes none = []
value_bytes (some v) = v

abbrev encode_entry : Key → Slot → List ℕ
encode_entry k v =
    to_le_bytes 4 (length k % 2 ^ 32) ++ (to_le_bytes 4 (value_length v) ++ (k ++ value_bytes v))

unfoldable pub encode_entries : Table Slot → List ℕ
encode_entries [] = []
encode_entries ((k, v) ∷ es) = encode_entry k v ++ encode_entries es

unfoldable pub build : Table Slot → List ℕ
build es = encode_entries es ++ to_le_bytes 4 (length es % 2 ^ 32)

-- The value after a key, with what follows.
unfoldable pub read_value : ℕ → Key → List ℕ → Result ((Key × Slot) × List ℕ)
read_value val_len key rest =
    if val_len == tombstone_marker
    then ok ((key, none), rest)
    else if ltb (length rest) val_len
    then err corruption
    else ok ((key, some (take val_len rest)), drop val_len rest)

-- One entry of the payload, with what follows.
unfoldable pub read_entry : List ℕ → Result ((Key × Slot) × List ℕ)
read_entry bytes =
    let key_len = from_le_bytes (take 4 bytes) in
    let val_len = from_le_bytes (take 4 (drop 4 bytes)) in
    let rest = drop 8 bytes in
    if ltb (length bytes) 8
    then err corruption
    else if ltb (length rest) key_len
    then err corruption
    else read_value val_len (take key_len rest) (drop key_len rest)

unfoldable pub read_from : ℕ → List ℕ → Result (Table Slot)
read_from zero bytes = ok []
read_from (suc count) bytes = do
  entry ← read_entry bytes
  rest ← read_from count entry.1
  ok (entry.0 ∷ rest)

unfoldable pub read_entries : List ℕ → Result (Table Slot)
read_entries block =
    let payload_end = length block - 4 in
    if ltb (length block) 4
    then err corruption
    else read_from (from_le_bytes (drop payload_end block)) (take payload_end block)

-- Keys and values are shorter than the lengths that are stored.
abbrev pub IsEntry : Key → Slot → Type 0
IsEntry k none = length k < 2 ^ 32
IsEntry k (some v) = (length k < 2 ^ 32) × (length v < 2 ^ 32 - 1)

abbrev pub AllEntries : Table Slot → Type 0
AllEntries [] = Unit
AllEntries ((k, v) ∷ es) = IsEntry k v × AllEntries es

read_value-value_bytes :
    (k : Key) (v : Slot) (rest : List ℕ)
    → IsEntry k v
    → read_value (value_length v) k (value_bytes v ++ rest) ≡ ok ((k, v), rest)
unfolding read_value
read_value-value_bytes k none rest h = refl
read_value-value_bytes k (some v) rest h =
    ground (arith, length-append v rest, take-length_append v rest, drop-length_append v rest)

not_short : (n : ℕ) → ltb (suc (suc (suc (suc (suc (suc (suc (suc n)))))))) 8 ≡ false
not_short n = ground arith

no_less : (k rest : List ℕ) → ltb (length (k ++ rest)) (length k) ≡ false
no_less k rest = ground (arith, length-append k rest)

trailer_long :
    (payload count : List ℕ) → length count ≡ 4 → ltb (length (payload ++ count)) 4 ≡ false
trailer_long payload count h = ground (arith, length-append payload count)

entry_append :
    (a b c d rest : List ℕ) → (a ++ (b ++ (c ++ d))) ++ rest ≡ a ++ (b ++ (c ++ (d ++ rest)))
entry_append a b c d rest =
    rw (append_assoc a (b ++ (c ++ d)) rest, append_assoc b (c ++ d) rest, append_assoc c d rest)
      refl

entry_bounds : (k : Key) (v : Slot) → IsEntry k v → (length k < 2 ^ 32) × (value_length v < 2 ^ 32)
entry_bounds k none h = (h, omega arith)
entry_bounds k (some v) h = (h.0, omega (arith, h.1))

-- The head of an entry: two lengths of four bytes and what follows.
headed :
    (m n : ℕ) (rest : List ℕ)
    → m < 2 ^ 32
    → n < 2 ^ 32
    → read_entry (to_le_bytes 4 m ++ (to_le_bytes 4 n ++ rest))
      ≡ (if ltb (length rest) m then err corruption else read_value n (take m rest) (drop m rest))
unfolding read_entry to_le_bytes
headed m n rest hm hn =
    rw (from_le_bytes-to_le_bytes 4 m (omega arith), from_le_bytes-to_le_bytes 4 n (omega arith))
      (rw (not_short (length rest)) refl)

read_entry-encode_entry :
    (k : Key) (v : Slot) (rest : List ℕ)
    → IsEntry k v
    → read_entry (encode_entry k v ++ rest) ≡ ok ((k, v), rest)
read_entry-encode_entry k v rest h =
    let bounds = entry_bounds k v h in
    let after = value_bytes v ++ rest in
    let whole : length k % 2 ^ 32 ≡ length k = omega (arith, bounds.0) in
    ap read_entry (
      entry_append (to_le_bytes 4 (length k % 2 ^ 32)) (to_le_bytes 4 (value_length v)) k
        (value_bytes v) rest)
    ∙ (headed (length k % 2 ^ 32) (value_length v) (k ++ after) (omega arith) bounds.1
        ∙ rw whole (
            rw (no_less k after, take-length_append k after, drop-length_append k after)
              (read_value-value_bytes k v rest h)))

read_from-encode_entries :
    (es : Table Slot) → AllEntries es → read_from (length es) (encode_entries es) ≡ ok es
unfolding read_from encode_entries
read_from-encode_entries [] h = refl
read_from-encode_entries ((k, v) ∷ es) h =
    rw (read_entry-encode_entry k v (encode_entries es) h.0, ◌>>=◌)
      (rw (read_from-encode_entries es h.1, ◌>>=◌) refl)

-- Reading a block gives the entries back from which it was built, tombstones included, where there
-- are fewer than 2^32 of them, each key is shorter than 2^32 bytes, and each value is shorter than
-- 2^32 - 1 bytes, the length that stands for a tombstone.
pub read_entries-build :
    (es : Table Slot) → AllEntries es → length es < 2 ^ 32 → read_entries (build es) ≡ ok es
unfolding read_entries build
read_entries-build es h few =
    let payload = encode_entries es in
    let count = to_le_bytes 4 (length es % 2 ^ 32) in
    let split : length (payload ++ count) - 4 ≡ length payload =
      omega (arith, length-append payload count, length-to_le_bytes 4 (length es % 2 ^ 32)) in
    let whole : length es % 2 ^ 32 ≡ length es = omega (arith, few) in
    rw (split, take-length_append payload count, drop-length_append payload count)
      (rw
        (
          trailer_long payload count (length-to_le_bytes 4 (length es % 2 ^ 32)),
          from_le_bytes-to_le_bytes 4 (length es % 2 ^ 32) (omega arith),
          whole,
        )
        (read_from-encode_entries es h))
