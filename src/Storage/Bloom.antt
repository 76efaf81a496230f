-- ===== src/Storage/Bloom.antt =====
-- crates/raft-storage/src/bloom.rs: the bloom filter of a sorted file. `new` computes its sizes in floating
-- point, and they are arguments here; the two hashes of a key are any function.
pub mod Members
use raftrust.Prelude.{
  ℕ, zero, suc, ◌+◌, ◌*◌, ◌%◌, Bool, true, false, Option, none, some, List, [], ◌∷◌, length,
  replicate, get_elem?, set, ltb, ◌==◌, if◌then◌else◌, wrap64,
}
use raftrust.Prelude.Keys.{Key}
use raftrust.Errors.{Result, ok, err, panic, ◌>>=◌}

pub record BloomFilter : Type 0 where
  pub bits : List Bool
  pub num_hashes : ℕ
  pub num_bits : ℕ

unfoldable pub new_filter : ℕ → ℕ → BloomFilter
new_filter num_bits num_hashes = record {
  bits = replicate num_bits false;
  num_hashes = num_hashes;
  num_bits = num_bits;
}

-- The remainder by no bits panics.
unfoldable pub get_index : ℕ → ℕ × ℕ → ℕ → Result ℕ
get_index num_bits hashes i =
    if num_bits == 0 then panic else ok (wrap64 (hashes.0 + wrap64 (i * hashes.1)) % num_bits)

-- The loop of `insert` from the hash `i` on, for `count` hashes.
unfoldable pub set_bits : ℕ × ℕ → ℕ → ℕ → BloomFilter → Result BloomFilter
set_bits hashes i zero f = ok f
set_bits hashes i (suc count) f = do
  idx ← get_index f.num_bits hashes i
  g ← if ltb idx (length f.bits) then ok (record f { bits = set f.bits idx true }) else panic
  set_bits hashes (i + 1) count g

-- The loop of `may_contain`.
unfoldable pub test_bits : ℕ × ℕ → ℕ → ℕ → BloomFilter → Result Bool
test_bits hashes i zero f = ok true
test_bits hashes i (suc count) f =
    let rest = test_bits hashes (i + 1) count f in
    get_index f.num_bits hashes i >>= λ idx. elim (get_elem? f.bits idx) [
      | none ↦ panic
      | some bit ↦ if bit then rest else ok false
    ]

module _ (hash_pair : Key → ℕ × ℕ) where
  unfoldable pub insert : BloomFilter → Key → Result BloomFilter
  insert f key = set_bits (hash_pair key) 0 f.num_hashes f

  unfoldable pub may_contain : BloomFilter → Key → Result Bool
  may_contain f key = test_bits (hash_pair key) 0 f.num_hashes f
