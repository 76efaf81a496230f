-- ===== src/Mvcc/Store/Strays.antt =====
-- Keys for which crates/raft-mvcc/src/mvcc.rs reads the wrong range of entries.
use raftrust.Prelude.{ℕ, ◌≡◌, refl, true, false, List, [], ◌∷◌, ◌++◌, ltb, arith}
use mathlib.Core.List.{reverse, reverse-cons}
use raftrust.Prelude.Keys.{Key, key_lt}
use raftrust.Prelude.Tables.{Table}
use raftrust.Errors.{panic}
use raftrust.Lease.{I64}
use raftrust.Mvcc.Version.{
  encode_key, encode_key_prefix_start, encode_key_prefix_end, increment_bytes, carry_bytes,
}
use raftrust.Mvcc.Engine.{Engine, IsEngine}
use raftrust.Mvcc.Store.{
  MvccStore, get_at_revision, put_with_options, delete, next_revision, get_latest_version_info,
}

carry_last : (xs : List ℕ) (b : ℕ) → (carry_bytes (xs ++ (b ∷ []))).1 ≡ true → ltb b 255 ≡ false
unfolding carry_bytes
carry_last [] b h = ground arith
carry_last (x ∷ xs) b h = ground (arith, carry_last xs b)

-- The range of a key of bytes 0xFF ends before it starts.
full_reversed :
    (b : ℕ) (bs : Key)
    → (carry_bytes (reverse (b ∷ bs))).1 ≡ true
    → key_lt (encode_key_prefix_end (b ∷ bs)) (encode_key_prefix_start (b ∷ bs)) ≡ true
unfolding encode_key_prefix_end encode_key_prefix_start encode_key increment_bytes key_lt
full_reversed b bs h =
    let high : ltb b 255 ≡ false = carry_last (reverse bs) b (rw (reverse-cons b bs) at h) in
    rw h (ground arith)

module _ {E : Type 0} {engine : Engine E} {view : E → Table (List ℕ)}
    (law : IsEngine engine view) where
  latest_panics :
      (s : MvccStore E) (b : ℕ) (bs : Key)
      → (carry_bytes (reverse (b ∷ bs))).1 ≡ true
      → get_latest_version_info engine s (b ∷ bs) ≡ panic
  unfolding get_latest_version_info
  latest_panics s b bs full = rw (law.reversed s.engine _ _ (full_reversed b bs full)) refl

  get_panics :
      (s : MvccStore E) (b : ℕ) (bs : Key) (revision : ℕ)
      → (carry_bytes (reverse (b ∷ bs))).1 ≡ true
      → get_at_revision engine s (b ∷ bs) revision ≡ panic
  unfolding get_at_revision
  get_panics s b bs revision full = rw (law.reversed s.engine _ _ (full_reversed b bs full)) refl

  -- Reading, putting or deleting a key that has bytes and none below 255 panics; a put has then already
  -- taken its revision.
  pub full_key_panics :
      (s : MvccStore E) (b : ℕ) (bs : Key) (revision : ℕ) (value : List ℕ)
      (lease_id ttl_seconds : I64)
      → let key = b ∷ bs in
        (carry_bytes (reverse key)).1 ≡ true
        → (get_at_revision engine s key revision ≡ panic)
          × (put_with_options engine s key value lease_id ttl_seconds
              ≡ ((next_revision s).0, panic))
          × (delete engine s key ≡ (s, panic))
  unfolding put_with_options delete next_revision
  full_key_panics s b bs revision value lease_id ttl_seconds full = (
    get_panics s b bs revision full,
    rw (latest_panics (next_revision s).0 b bs full, put_with_options) refl,
    rw (latest_panics s b bs full, delete) refl,
  )
