-- ===== src/Mvcc/Store/Longer.antt =====
-- Longer keys in the range of a key of crates/raft-mvcc/src/mvcc.rs.
use raftrust.Prelude.Keys.{key_eq_comm}
use raftrust.Prelude.{
  ℕ, ◌+◌, ◌-◌, ◌*◌, ◌/◌, ◌%◌, ◌<◌, ◌≤◌, ◌^◌, ◌≡◌, refl, sym, ap, ◌∙◌, true, false, Option, none,
  some, List, [], ◌∷◌, ◌++◌, IsU64, wrap64, length, length-append, arith, inl, inr, Bool-cases,
}
use mathlib.Core.List.{reverse, append_assoc}
use raftrust.Prelude.Bytes.{to_be_bytes, to_le_bytes, length-to_be_bytes}
use raftrust.Prelude.Keys.{Key, key_lt, key_lt-append_same, key_lt_asymm, key_lt-not_eq}
use raftrust.Prelude.Tables.{Table, range, in_range, add_entry}
use raftrust.Errors.{ok_inj, ok, panic}
use raftrust.Lease.{I64}
use raftrust.Mvcc.Version.{
  VersionedValue, IsValue, encode_key, encode, decode-encode, encode_key_prefix_start,
  encode_key_prefix_end, carry_bytes, inverted,
}
use raftrust.Mvcc.Version.Order.{decode_key-encode_key}
use raftrust.Mvcc.Version.Ranges.{in_range-own}
use raftrust.Mvcc.Engine.{Engine, IsEngine}
use raftrust.Mvcc.Store.{
  MvccStore, key_value, first_at, get, get_at_revision, put_versioned, put_with_options,
  next_revision, created_at, get_latest_version_info, latest_of,
}
use raftrust.Mvcc.Store.Snapshot.{put-Written, new_version}
use raftrust.Mvcc.Store.Latest.{range_right}

top_of :
    (v : ℕ)
    → v < 2 ^ 64
    → 255 * 2 ^ 56 ≤ v
    → v / 256 / 256 / 256 / 256 / 256 / 256 / 256 % 256 ≡ 255
top_of v h k = omega arith

-- The first byte of the suffix is 255.
top_byte :
    (x : ℕ) (rest : Key) (n : ℕ)
    → x < 255
    → n < 2 ^ 56
    → key_lt (x ∷ rest) (to_be_bytes 8 (inverted n)) ≡ true
unfolding to_be_bytes to_le_bytes key_lt
top_byte x rest n hx hn = rw (top_of (inverted n) (omega arith) (omega arith)) (ground arith)

-- A version of a longer key comes before those of the key, where the next byte is below 255 and the
-- revision below 2^56.
longer_first :
    (key : Key) (x : ℕ) (xs : Key) (m n : ℕ)
    → x < 255
    → n < 2 ^ 56
    → key_lt (encode_key (key ++ (x ∷ xs)) m) (encode_key key n) ≡ true
unfolding encode_key
longer_first key x xs m n hx hn =
    rw (append_assoc key (x ∷ xs) (to_be_bytes 8 (inverted m)))
      (key_lt-append_same key _ _ ∙ top_byte x _ n hx hn)

panic_not_ok : {A : Type 0} {a : A} → panic ≡ ok a → ⊥
panic_not_ok h = cc

longer_inside :
    (key : Key) (x : ℕ) (xs : Key) (m : ℕ)
    → (carry_bytes (reverse key)).1 ≡ false
    → in_range
        (encode_key_prefix_start key)
        (encode_key_prefix_end key)
        (encode_key (key ++ (x ∷ xs)) m)
      ≡ true
unfolding encode_key
longer_inside key x xs m below = rw (append_assoc key (x ∷ xs) (to_be_bytes 8 (inverted m))) (
    in_range-own key ((x ∷ xs) ++ to_be_bytes 8 (inverted m)) below (
      omega (
        arith,
        length-append (x ∷ xs) (to_be_bytes 8 (inverted m)),
        length-to_be_bytes 8 (inverted m),
      )))

-- The version of a key that had none.
abbrev first_version : {E : Type 0} → MvccStore E → List ℕ → I64 → I64 → VersionedValue
first_version s value lease_id ttl_seconds = record {
  value = some value;
  create_revision = s.current_revision + 1;
  mod_revision = s.current_revision + 1;
  lease_id = lease_id;
  ttl_seconds = ttl_seconds;
}

next_small :
    {E : Type 0} (t s : MvccStore E)
    → t.current_revision ≡ s.current_revision + 1
    → s.current_revision + 2 < 2 ^ 56
    → (next_revision t).1 < 2 ^ 56
unfolding next_revision
next_small t s at bound = omega arith

first_at_any :
    (key k : Key) (n : ℕ) (vv : VersionedValue) (es : Table (List ℕ))
    → IsU64 n
    → IsValue vv
    → first_at key (2 ^ 64 - 1) ((encode_key k n, encode vv) ∷ es) ≡ ok (key_value key vv)
unfolding first_at
first_at_any key k n vv es u value =
    rw (decode_key-encode_key k n u, decode-encode vv value) (ground arith)

module _ {E : Type 0} {engine : Engine E} {view : E → Table (List ℕ)}
    (law : IsEngine engine view) where
  put_view :
      (s : MvccStore E) (key : Key) (value : List ℕ) (lease_id ttl_seconds : I64) (n : ℕ)
      → (put_with_options engine s key value lease_id ttl_seconds).1 ≡ ok n
      → (info : Option (ℕ × VersionedValue)) × (get_latest_version_info engine
            (next_revision s).0
            key
          ≡ ok info)
        × (view (put_with_options engine s key value lease_id ttl_seconds).0.engine
            ≡ add_entry
                (encode_key key (next_revision s).1)
                (encode (new_version engine s key value lease_id ttl_seconds info))
                (view s.engine))
        × ((put_with_options engine s key value lease_id ttl_seconds).0.current_revision
            ≡ (next_revision s).1)
  unfolding next_revision put_versioned
  put_view s key value lease_id ttl_seconds n done =
      let (info, read, same, w) = put-Written engine s key value lease_id ttl_seconds n done in
      (
        info,
        read,
        ap (λ (t : MvccStore E). view t.engine) w.0 ∙ law.puts s.engine _ _ w.1,
        ap (λ (t : MvccStore E). t.current_revision) w.0,
      )

  empty_latest :
      (s : MvccStore E) (key : Key) (info : Option (ℕ × VersionedValue))
      → view s.engine ≡ []
      → get_latest_version_info engine s key ≡ ok info
      → none ≡ info
  unfolding get_latest_version_info latest_of range
  empty_latest s key info empty read =
      let start = encode_key_prefix_start key in
      let end = encode_key_prefix_end key in
      elim (Bool-cases (key_lt end start)) [
        | inl back ↦ absurd (panic_not_ok (rw (law.reversed s.engine start end back) at read))
        | inr right ↦ ok_inj (rw (law.scans s.engine start end right, empty) at read)
      ]

  -- Of the versions of a key and a longer one, the longer key's is read.
  longer_get :
      (s : MvccStore E) (key : Key) (x : ℕ) (xs : Key) (m n : ℕ) (vv : VersionedValue)
      (raw : List ℕ)
      → (carry_bytes (reverse key)).1 ≡ false
      → x < 255
      → IsU64 m
      → n < 2 ^ 56
      → IsValue vv
      → view s.engine
        ≡ add_entry (encode_key key n) raw ((encode_key (key ++ (x ∷ xs)) m, encode vv) ∷ [])
      → get engine s key ≡ ok (key_value key vv)
  unfolding get get_at_revision add_entry range
  longer_get s key x xs m n vv raw below hx hm hn value holds =
      let start = encode_key_prefix_start key in
      let end = encode_key_prefix_end key in
      let longer = encode_key (key ++ (x ∷ xs)) m in
      let inside = longer_inside key x xs m below in
      let first = longer_first key x xs m n hx hn in
      rw
        (
          law.scans s.engine start end (range_right start end longer inside),
          holds,
          key_eq_comm (encode_key key n) longer ∙ key_lt-not_eq longer (encode_key key n) first,
          key_lt_asymm longer (encode_key key n) first,
          inside,
        )
        (first_at_any key (key ++ (x ∷ xs)) m vv _ hm value)

  -- The store after the first put into an empty one.
  only_view :
      (s : MvccStore E) (key : Key) (value : List ℕ) (lease_id ttl_seconds : I64) (n : ℕ)
      → view s.engine ≡ []
      → s.current_revision + 1 < 2 ^ 64
      → (put_with_options engine s key value lease_id ttl_seconds).1 ≡ ok n
      → (view (put_with_options engine s key value lease_id ttl_seconds).0.engine
          ≡ (
            encode_key key (s.current_revision + 1),
            encode (first_version s value lease_id ttl_seconds),
          )
            ∷ [])
        × ((put_with_options engine s key value lease_id ttl_seconds).0.current_revision
            ≡ s.current_revision + 1)
  unfolding next_revision created_at add_entry
  only_view s key value lease_id ttl_seconds n empty bound done =
      let (info, read, held, at) = put_view s key value lease_id ttl_seconds n done in
      let small : wrap64 (s.current_revision + 1) ≡ s.current_revision + 1 = omega arith in
      let new = empty_latest (next_revision s).0 key info empty read in
      (rw (held, empty, sym new, small) refl, at ∙ small)

  -- In an empty store, after a put of a longer key and one of the key, `get` of the key gives the longer
  -- key's value and revision. The byte after the key is below 255, some byte of the key is too, the
  -- revisions are below 2^56, and the longer key's put is well coded.
  pub get_longer :
      (s : MvccStore E) (key : Key) (x : ℕ) (xs : Key) (value other : List ℕ)
      (lease_id ttl_seconds : I64) (m n : ℕ)
      → let longer = key ++ (x ∷ xs) in
        let before = (put_with_options engine s longer other lease_id ttl_seconds).0 in
        (carry_bytes (reverse key)).1 ≡ false
        → x < 255
        → s.current_revision + 2 < 2 ^ 56
        → length other < 2 ^ 32
        → IsU64 lease_id
        → IsU64 ttl_seconds
        → view s.engine ≡ []
        → (put_with_options engine s longer other lease_id ttl_seconds).1 ≡ ok m
        → (put_with_options engine before key value 0 0).1 ≡ ok n
        → get engine (put_with_options engine before key value 0 0).0 key
          ≡ ok (
              some (record {
                key = key;
                value = other;
                create_revision = s.current_revision + 1;
                mod_revision = s.current_revision + 1;
                lease_id = lease_id;
              }))
  unfolding key_value next_revision created_at
  get_longer s key x xs value other lease_id ttl_seconds m n below hx bound short lease ttl empty
        first second =
      let longer = key ++ (x ∷ xs) in
      let (held, at) = only_view s longer other lease_id ttl_seconds m empty (omega arith) first in
      let before = (put_with_options engine s longer other lease_id ttl_seconds).0 in
      let (later, again, both, next) = put_view before key value 0 0 n second in
      let after = (put_with_options engine before key value 0 0).0 in
      longer_get after key x xs (s.current_revision + 1) (next_revision before).1
        (first_version s other lease_id ttl_seconds) _ below hx (omega arith)
        (next_small before s at bound) (short, omega arith, omega arith, lease, ttl)
        (both ∙ ap (add_entry _ _) held)
