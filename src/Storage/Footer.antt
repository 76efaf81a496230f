-- ===== src/Storage/Footer.antt =====
-- crates/raft-storage/src/sstable/footer.rs: the footer of a sorted file.
use raftrust.Prelude.{
  ℕ, ◌^◌, ◌<◌, ◌≡◌, refl, List, ◌++◌, take, drop, ◌==◌, if◌then◌else◌, IsU64, arith,
}
use raftrust.Prelude.Bytes.{to_le_bytes, from_le_bytes, from_le_bytes-to_le_bytes}
use raftrust.Errors.{Result, ok, err, corruption}

-- 0x5354_424C
abbrev pub magic : ℕ
magic = 1398030924

pub record Footer : Type 0 where
  pub index_offset : ℕ
  pub index_size : ℕ
  pub bloom_offset : ℕ
  pub bloom_size : ℕ
  pub bloom_num_hashes : ℕ

unfoldable pub encode : Footer → List ℕ
encode f =
    to_le_bytes 8 f.index_offset
    ++ (to_le_bytes 8 f.index_size
        ++ (to_le_bytes 8 f.bloom_offset
            ++ (to_le_bytes 8 f.bloom_size
                ++ (to_le_bytes 4 f.bloom_num_hashes ++ to_le_bytes 4 magic))))

-- The argument has forty bytes.
unfoldable pub decode : List ℕ → Result Footer
decode buf =
    if from_le_bytes (take 4 (drop 36 buf)) == magic
    then ok (record {
      index_offset = from_le_bytes (take 8 buf);
      index_size = from_le_bytes (take 8 (drop 8 buf));
      bloom_offset = from_le_bytes (take 8 (drop 16 buf));
      bloom_size = from_le_bytes (take 8 (drop 24 buf));
      bloom_num_hashes = from_le_bytes (take 4 (drop 32 buf));
    })
    else err corruption

abbrev pub IsFooter : Footer → Type 0
IsFooter f =
    IsU64 f.index_offset
    × IsU64 f.index_size
    × IsU64 f.bloom_offset
    × IsU64 f.bloom_size
    × (f.bloom_num_hashes < 2 ^ 32)

-- Decoding takes back an encoded footer.
pub decode-encode : (f : Footer) → IsFooter f → decode (encode f) ≡ ok f
unfolding decode encode to_le_bytes
decode-encode f h =
    rw
      (
        from_le_bytes-to_le_bytes 8 f.index_offset (omega (arith, h.0)),
        from_le_bytes-to_le_bytes 8 f.index_size (omega (arith, h.1)),
        from_le_bytes-to_le_bytes 8 f.bloom_offset (omega (arith, h.2)),
        from_le_bytes-to_le_bytes 8 f.bloom_size (omega (arith, h.3)),
        from_le_bytes-to_le_bytes 4 f.bloom_num_hashes (omega (arith, h.4)),
        from_le_bytes-to_le_bytes 4 magic (omega arith),
      )
      refl
