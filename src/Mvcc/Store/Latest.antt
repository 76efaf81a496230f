-- ===== src/Mvcc/Store/Latest.antt =====
-- What `get` of crates/raft-mvcc/src/mvcc.rs gives after `put_with_options`.
use raftrust.Mvcc.Store.{is_some}
use raftrust.Errors.{ok_inj}
use raftrust.Prelude.Keys.{key_lt_trans}
use raftrust.Mvcc.Store.{latest_of}
use raftrust.Prelude.{
  ℕ, ◌+◌, ◌-◌, ◌<◌, ◌≤◌, ◌^◌, ◌≡◌, refl, sym, ap, ◌∙◌, true, false, Option, none, some,
  Option-cases, List, [], ◌∷◌, IsU64, wrap64, length, arith, inl, inr, Bool-cases,
}
use mathlib.Core.List.{reverse}
use raftrust.Prelude.Bytes.{to_be_bytes, length-to_be_bytes}
use raftrust.Prelude.Keys.{Key, key_eq, key_lt, key_eq_same}
use raftrust.Prelude.Tables.{
  add_entry-Before, Table, range, in_range, add_entry, Before, IsOrdered, Before-weaken,
  Before-range,
}
use raftrust.Errors.{Result, ok}
use raftrust.Lease.{I64}
use raftrust.Mvcc.Version.{
  VersionedValue, IsValue, encode_key, encode, decode-encode, encode_key_prefix_start,
  encode_key_prefix_end, carry_bytes, inverted,
}
use raftrust.Mvcc.Version.Order.{decode_key-encode_key, key_lt-encode_key}
use raftrust.Mvcc.Version.Ranges.{in_range-own}
use raftrust.Mvcc.Engine.{Engine, IsEngine}
use raftrust.Mvcc.Store.{
  MvccStore, KeyValue, key_value, first_at, get, get_at_revision, put_versioned, put_with_options,
  next_revision, created_at, get_latest_version_info,
}
use raftrust.Mvcc.Store.Snapshot.{put-Written, new_version}

module _ {V : Type 0} where
  range_cons :
      (start end k : Key) (v : V) (m : Table V)
      → in_range start end k ≡ true
      → range start end ((k, v) ∷ m) ≡ (k, v) ∷ range start end m
  unfolding range
  range_cons start end k v m h = rw h refl

  range-add_entry :
      (start end k : Key) (v : V) (m : Table V)
      → IsOrdered m
      → in_range start end k ≡ true
      → range start end (add_entry k v m) ≡ add_entry k v (range start end m)
  unfolding add_entry range
  range-add_entry start end k v [] o h = rw h refl
  range-add_entry start end k v ((j, w) ∷ m) o h = elim (Bool-cases (key_eq k j)) [
    | inl same ↦
        let inside : in_range start end j ≡ true = rw (key_eq_same k j same) at h in
        rw (inside, same, h) refl
    | inr other ↦ elim (Bool-cases (key_lt k j)) [
      | inl lt ↦
          rw (other, lt)
            (range_cons start end k v ((j, w) ∷ m) h
              ∙ sym (
                  add_entry-Before k v (range start end ((j, w) ∷ m))
                    (Before-range start end k ((j, w) ∷ m) (lt, Before-weaken k j m lt o.0))))
      | inr ge ↦ elim (Bool-cases (in_range start end j)) [
        | inl inside ↦
            rw (other, ge, inside)
              (rw (other, ge) (ap (λ r. (j, w) ∷ r) (range-add_entry start end k v m o.1 h)))
        | inr out ↦ rw (other, ge, out) (range-add_entry start end k v m o.1 h)
      ]
    ]
  ]

-- The entries are versions of the key up to the revision, well coded.
abbrev pub AllOwn : Key → ℕ → Table (List ℕ) → Type 0
AllOwn key current [] = Unit
AllOwn key current ((j, raw) ∷ es) =
    ((r : ℕ) × (vv : VersionedValue) × (j ≡ encode_key key r)
      × (r ≤ current)
      × (raw ≡ encode vv)
      × IsValue vv)
    × AllOwn key current es

-- No other key has a version in the range of the key.
abbrev pub IsAlone : Key → ℕ → Table (List ℕ) → Type 0
IsAlone key current m =
    AllOwn key current (range (encode_key_prefix_start key) (encode_key_prefix_end key) m)

AllOwn-Before :
    (key : Key) (current n : ℕ) (es : Table (List ℕ))
    → current < n
    → IsU64 n
    → AllOwn key current es
    → Before (encode_key key n) es
AllOwn-Before key current n [] h u own = tt
AllOwn-Before key current n ((j, raw) ∷ es) h u own =
    let (r, vv, same, small, coded, value) = own.0 in
    (
      rw same (key_lt-encode_key key n r u (omega arith) ∙ ground arith),
      AllOwn-Before key current n es h u own.1,
    )

pub encode_key-in_range :
    (key : Key) (n : ℕ)
    → (carry_bytes (reverse key)).1 ≡ false
    → in_range (encode_key_prefix_start key) (encode_key_prefix_end key) (encode_key key n) ≡ true
unfolding encode_key
encode_key-in_range key n h =
    in_range-own key (to_be_bytes 8 (inverted n)) h
      (omega (arith, length-to_be_bytes 8 (inverted n)))

pub first_at-encode_key :
    (key : Key) (n : ℕ) (vv : VersionedValue) (es : Table (List ℕ))
    → IsU64 n
    → IsValue vv
    → first_at key (2 ^ 64 - 1) ((encode_key key n, encode vv) ∷ es) ≡ ok (key_value key vv)
unfolding first_at
first_at-encode_key key n vv es u value =
    rw (decode_key-encode_key key n u, decode-encode vv value) (ground arith)

pub range_right : (lo hi k : Key) → in_range lo hi k ≡ true → key_lt hi lo ≡ false
unfolding in_range
range_right lo hi k h = ground (arith, key_lt_trans k hi lo)

latest_small :
    (key : Key) (current n : ℕ) (es : Table (List ℕ)) (info : Option (ℕ × VersionedValue))
    → IsU64 n
    → current < n
    → AllOwn key current es
    → latest_of es ≡ ok info
    → IsU64 (created_at n info)
unfolding latest_of created_at
latest_small key current n [] info u h own read = rw (sym (ok_inj read)) u
latest_small key current n ((j, raw) ∷ es) info u h own read =
    let (r, vv, same, small, coded, value) = own.0 in
    let found : ok (some (r, vv)) ≡ ok info =
      rw (same, coded, decode_key-encode_key key r (omega arith), decode-encode vv value, latest_of)
        at read in
    rw (sym (ok_inj found)) (elim (Bool-cases (is_some vv.value)) [
      | inl live ↦ rw live value.1
      | inr deleted ↦ rw deleted u
    ])

-- The creation revision of what was there before, and the new revision if nothing was.
abbrev pub created_before : ℕ → Option KeyValue → ℕ
created_before n none = n
created_before n (some kv) = kv.create_revision

created_at-first_at :
    (key : Key) (current n : ℕ) (es : Table (List ℕ)) (info : Option (ℕ × VersionedValue))
    → current < 2 ^ 64 - 1
    → AllOwn key current es
    → latest_of es ≡ ok info
    → (old : Option KeyValue) × (first_at key (2 ^ 64 - 1) es ≡ ok old)
      × (created_at n info ≡ created_before n old)
unfolding latest_of created_at first_at key_value
created_at-first_at key current n [] info h own read = (none, refl, rw (sym (ok_inj read)) refl)
created_at-first_at key current n ((j, raw) ∷ es) info h own read =
    let (r, vv, same, small, coded, value) = own.0 in
    let found : ok (some (r, vv)) ≡ ok info =
      rw (same, coded, decode_key-encode_key key r (omega arith), decode-encode vv value, latest_of)
        at read in
    (
      key_value key vv,
      rw (same, coded, decode_key-encode_key key r (omega arith), decode-encode vv value)
          (ground arith),
      rw (sym (ok_inj found)) (elim (Option-cases vv.value) [
        | inl deleted ↦ rw deleted refl
        | inr (v, live) ↦ rw live refl
      ]),
    )

-- What is read back with the creation revision `created`.
abbrev read_back : Key → List ℕ → I64 → ℕ → ℕ → Result (Option KeyValue)
read_back key value lease_id n created = ok (
    some (record {
      key = key;
      value = value;
      create_revision = created;
      mod_revision = n;
      lease_id = lease_id;
    }))

module _ {E : Type 0} {engine : Engine E} {view : E → Table (List ℕ)}
    (law : IsEngine engine view) where
  written_get :
      (s : MvccStore E) (key : Key) (vv : VersionedValue) (current n : ℕ)
      → (carry_bytes (reverse key)).1 ≡ false
      → IsAlone key current (view s.engine)
      → current < n
      → IsU64 n
      → IsValue vv
      → (put_versioned engine s key vv n).1 ≡ ok tt
      → get engine (put_versioned engine s key vv n).0 key ≡ ok (key_value key vv)
  unfolding get get_at_revision put_versioned
  written_get s key vv current n below alone h u value done =
      let new = encode_key key n in
      let start = encode_key_prefix_start key in
      let end = encode_key_prefix_end key in
      let inside = encode_key-in_range key n below in
      rw
        (
          law.scans (engine.put s.engine new (encode vv)).0 start end
              (range_right start end new inside),
          law.puts s.engine new (encode vv) done,
          range-add_entry start end new (encode vv) (view s.engine) (law.ordered s.engine) inside,
          add_entry-Before new (encode vv) (range start end (view s.engine))
              (AllOwn-Before key current n (range start end (view s.engine)) h u alone),
        )
        (first_at-encode_key key n vv (range start end (view s.engine)) u value)

  latest_info :
      (s : MvccStore E) (key : Key) (info : Option (ℕ × VersionedValue))
      → (carry_bytes (reverse key)).1 ≡ false
      → get_latest_version_info engine s key ≡ ok info
      → latest_of (range (encode_key_prefix_start key) (encode_key_prefix_end key) (view s.engine))
        ≡ ok info
  unfolding get_latest_version_info
  latest_info s key info below read =
      let start = encode_key_prefix_start key in
      let end = encode_key_prefix_end key in
      rw (law.scans s.engine start end (range_right start end _ (encode_key-in_range key 0 below)))
        at read

  read_before :
      (s : MvccStore E) (key : Key) (n : ℕ) (info : Option (ℕ × VersionedValue))
      → (carry_bytes (reverse key)).1 ≡ false
      → IsAlone key s.current_revision (view s.engine)
      → s.current_revision < 2 ^ 64 - 1
      → get_latest_version_info engine s key ≡ ok info
      → (old : Option KeyValue) × (get engine s key ≡ ok old)
        × (created_at n info ≡ created_before n old)
  unfolding get get_at_revision
  read_before s key n info below alone bound read =
      let start = encode_key_prefix_start key in
      let end = encode_key_prefix_end key in
      rw (law.scans s.engine start end (range_right start end _ (encode_key-in_range key 0 below)))
        (created_at-first_at key s.current_revision n (range start end (view s.engine)) info bound
          alone (latest_info s key info below read))

  -- A put that succeeds takes the next revision, and `get` then gives its value and lease with that
  -- revision. The creation revision is the one that `get` gave for the key before the put, or the new
  -- revision if `get` gave nothing. Some byte of the key is below 255, no other key has versions in the
  -- range of the key, the next revision fits `u64`, the value is shorter than 2^32 bytes, and lease
  -- and lifetime fit 64 bits.
  pub put-get :
      (s : MvccStore E) (key : Key) (value : List ℕ) (lease_id ttl_seconds : I64) (n : ℕ)
      → (carry_bytes (reverse key)).1 ≡ false
      → IsAlone key s.current_revision (view s.engine)
      → s.current_revision + 1 < 2 ^ 64
      → length value < 2 ^ 32
      → IsU64 lease_id
      → IsU64 ttl_seconds
      → (put_with_options engine s key value lease_id ttl_seconds).1 ≡ ok n
      → (old : Option KeyValue) × (get engine s key ≡ ok old)
        × (n ≡ s.current_revision + 1)
        × (get engine (put_with_options engine s key value lease_id ttl_seconds).0 key
            ≡ ok (
                some (record {
                  key = key;
                  value = value;
                  create_revision = created_before n old;
                  mod_revision = n;
                  lease_id = lease_id;
                })))
  unfolding next_revision get_latest_version_info key_value
  put-get s key value lease_id ttl_seconds n below alone bound short lease ttl done =
      let (info, read, same, w) = put-Written engine s key value lease_id ttl_seconds n done in
      let vv = new_version engine s key value lease_id ttl_seconds info in
      let next = wrap64 (s.current_revision + 1) in
      let bounds : (s.current_revision < next) × IsU64 next = (omega arith, omega arith) in
      let small =
        latest_small key s.current_revision next _ info bounds.1 bounds.0 alone
          (latest_info s key info below read) in
      let (old, before, created) = read_before s key next info below alone (omega arith) read in
      let got : get engine (put_with_options engine s key value lease_id ttl_seconds).0 key
          ≡ read_back key value lease_id n (created_at next info) =
        rw (w.0, same)
          (written_get (next_revision s).0 key vv s.current_revision next below alone bounds.0
            bounds.1 (short, small, bounds.1, lease, ttl) w.1) in
      (
        old,
        before,
        omega (arith, same),
        got ∙ ap (read_back key value lease_id n) (created ∙ rw same refl),
      )
