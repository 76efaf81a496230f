-- ===== src/Mvcc/Version/Ranges.antt =====
-- The range of a key in crates/raft-mvcc/src/version.rs.
use raftrust.Prelude.{
  ℕ, zero, suc, ◌+◌, ◌≤◌, ◌≡◌, refl, ◌∙◌, true, false, List, [], ◌∷◌, ◌++◌, length, ltb, arith, inl,
  inr, Bool-cases,
}
use mathlib.Core.List.{reverse, reverse-cons, reverse-reverse, append_assoc}
use raftrust.Prelude.Bytes.{to_be_bytes, to_le_bytes}
use raftrust.Prelude.Keys.{Key, key_lt, key_lt-append_same}
use raftrust.Prelude.Tables.{in_range}
use raftrust.Mvcc.Version.{
  encode_key, encode_key_prefix_start, encode_key_prefix_end, increment_bytes, carry_bytes,
  zero_suffix,
}

abbrev zeros : ℕ → List ℕ
zeros zero = []
zeros (suc n) = 0 ∷ zeros n

not_below_zeros : (n : ℕ) (y : Key) → n ≤ length y → key_lt y (zeros n) ≡ false
unfolding key_lt
not_below_zeros zero [] h = refl
not_below_zeros zero (b ∷ y) h = refl
not_below_zeros (suc n) [] h = absurd (omega arith)
not_below_zeros (suc n) (b ∷ y) h = ground (arith, not_below_zeros n y)

reverse_append : (b : ℕ) (bs y : Key) → reverse (b ∷ bs) ++ y ≡ reverse bs ++ (b ∷ y)
reverse_append b bs y = rw (reverse-cons b bs) (append_assoc (reverse bs) (b ∷ []) y)

carry_above :
    (bs y z : Key)
    → (carry_bytes bs).1 ≡ false
    → key_lt (reverse bs ++ y) (reverse (carry_bytes bs).0 ++ z) ≡ true
unfolding carry_bytes key_lt
carry_above [] y z h = absurd (ground arith)
carry_above (b ∷ bs) y z h = elim (Bool-cases (ltb b 255)) [
  | inl small ↦
      rw (small, reverse_append b bs y, reverse_append (b + 1) bs z)
        (key_lt-append_same (reverse bs) (b ∷ y) ((b + 1) ∷ z) ∙ ground arith)
  | inr full ↦
      rw (full, reverse_append b bs y, reverse_append 0 (carry_bytes bs).0 z)
        (carry_above bs (b ∷ y) (0 ∷ z) (rw (full, carry_bytes) at h))
]

-- Whatever goes on from the key with eight bytes or more is in its range, where some byte of the key
-- is below 255.
pub in_range-own :
    (key y : Key)
    → (carry_bytes (reverse key)).1 ≡ false
    → 8 ≤ length y
    → in_range (encode_key_prefix_start key) (encode_key_prefix_end key) (key ++ y) ≡ true
unfolding in_range encode_key_prefix_start encode_key encode_key_prefix_end increment_bytes
    to_be_bytes to_le_bytes
in_range-own key y h long =
    rw (key_lt-append_same key y (zeros 8), not_below_zeros 8 y long, h)
      (rw (reverse-reverse key) at (carry_above (reverse key) y zero_suffix h))
