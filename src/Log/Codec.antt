-- ===== src/Log/Codec.antt =====
-- `encode_entry` and `decode_entry` of crates/raft-consensus/src/log.rs: a log entry as the data of
-- a WAL record.
use raftrust.Prelude.{
  ℕ, ◌+◌, ◌%◌, ◌^◌, ◌<◌, ◌≡◌, refl, Option, none, some, List, ◌∷◌, ◌++◌, length, take, drop, get_or,
  ltb, ◌==◌, if◌then◌else◌, IsU64, arith,
}
use raftrust.Prelude.Bytes.{take-length, to_le_bytes, from_le_bytes, from_le_bytes-to_le_bytes}
use raftrust.Errors.{Result, ok, err, panic, corruption}
use raftrust.Message.{LogEntry, EntryType, normal, config_change, noop}

type_byte : EntryType → ℕ
type_byte normal = 0
type_byte config_change = 1
type_byte noop = 2

entry_type_of : ℕ → Option EntryType
entry_type_of b =
    if b == 0
    then some normal
    else if b == 1
    then some config_change
    else if b == 2
    then some noop
    else none

entry_type_of-type_byte : (t : EntryType) → entry_type_of (type_byte t) ≡ some t
unfolding entry_type_of type_byte
entry_type_of-type_byte normal = refl
entry_type_of-type_byte config_change = refl
entry_type_of-type_byte noop = refl

unfoldable pub encode_entry : LogEntry → List ℕ
unfolding type_byte
encode_entry entry =
    to_le_bytes 8 entry.index
    ++ (to_le_bytes 8 entry.term
        ++ (type_byte entry.entry_type
            ∷ (to_le_bytes 4 (length entry.payload % 2 ^ 32) ++ entry.payload)))

-- `data[21..21 + data_len]` panics where the data are shorter.
decode_payload : List ℕ → ℕ → ℕ → EntryType → ℕ → Result LogEntry
decode_payload bytes index term entry_type data_len =
    if ltb (length bytes) (21 + data_len)
    then panic
    else ok (record {
      index = index;
      term = term;
      payload = take data_len (drop 21 bytes);
      entry_type = entry_type;
    })

unfoldable pub decode_entry : List ℕ → Result LogEntry
unfolding entry_type_of decode_payload
decode_entry bytes =
    if ltb (length bytes) 21 then err corruption else elim (entry_type_of (get_or bytes 16 0)) [
      | none ↦ err corruption
      | some entry_type ↦
          decode_payload bytes (from_le_bytes (take 8 bytes))
            (from_le_bytes (take 8 (drop 8 bytes))) entry_type
            (from_le_bytes (take 4 (drop 17 bytes)))
    ]

-- What fits the fixed widths of the format.
pub record IsEncodable (e : LogEntry) : Type 0 where
  pub index_fits : IsU64 e.index
  pub term_fits : IsU64 e.term
  pub length_fits : length e.payload < 2 ^ 32

-- Decoding takes back what encoding wrote, for entries that fit the format.
pub decode_entry-encode_entry :
    (e : LogEntry) → IsEncodable e → decode_entry (encode_entry e) ≡ ok e
unfolding encode_entry decode_entry to_le_bytes
decode_entry-encode_entry e v = ground (
  arith,
  take-length e.payload,
  entry_type_of-type_byte e.entry_type,
  from_le_bytes-to_le_bytes 8 e.index v.index_fits,
  from_le_bytes-to_le_bytes 8 e.term v.term_fits,
  from_le_bytes-to_le_bytes 4 (length e.payload % 2 ^ 32) (omega arith),
)
