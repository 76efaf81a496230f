-- ===== src/Mvcc/Store.antt =====
-- crates/raft-mvcc/src/mvcc.rs: reads and writes of versions. The writes are serialised by their lock.
pub mod Snapshot
pub mod Latest
pub mod Strays
pub mod Longer
use raftrust.Prelude.{
  ℕ, ◌+◌, ◌-◌, ◌^◌, Bool, true, false, not, ◌&&◌, ◌||◌, Option, none, some, List, [], ◌∷◌, ltb,
  if◌then◌else◌, wrap64, is_some,
}
use raftrust.Prelude.Keys.{Key, key_eq, key_lt}
use raftrust.Prelude.Tables.{Table}
use raftrust.Errors.{Error, Result, ok, err, panic, ◌>>=◌}
use raftrust.Storage.MemTable.{Slot}
use raftrust.Lease.{I64}
use raftrust.Mvcc.Version.{
  VersionedValue, encode_key, decode_key, encode_key_prefix_start, encode_key_prefix_end, encode,
  decode,
}
use raftrust.Mvcc.Engine.{Engine}

pub record KeyValue : Type 0 where
  pub key : Key
  pub value : List ℕ
  pub create_revision : ℕ
  pub mod_revision : ℕ
  pub lease_id : I64

pub record MvccStore (E : Type 0) : Type 0 where
  pub engine : E
  pub current_revision : ℕ

unfoldable pub new_store : {E : Type 0} → E → MvccStore E
new_store e = record { engine = e; current_revision = 0 }

unfoldable pub set_revision : {E : Type 0} → MvccStore E → ℕ → MvccStore E
set_revision s revision = record s { current_revision = revision }

unfoldable pub next_revision : {E : Type 0} → MvccStore E → MvccStore E × ℕ
next_revision s = (
  record s { current_revision = wrap64 (s.current_revision + 1) },
  wrap64 (s.current_revision + 1),
)

-- A version of the key as it is returned, `none` for a delete marker.
unfoldable pub key_value : Key → VersionedValue → Option KeyValue
key_value key vv = elim vv.value [
  | none ↦ none
  | some value ↦ some (record {
    key = key;
    value = value;
    create_revision = vv.create_revision;
    mod_revision = vv.mod_revision;
    lease_id = vv.lease_id;
  })
]

-- The loop of `get_at_revision`: the first entry that is not newer than the revision.
unfoldable pub first_at : Key → ℕ → Table (List ℕ) → Result (Option KeyValue)
first_at key revision [] = ok none
first_at key revision ((internal_key, raw) ∷ entries) =
    let rest = first_at key revision entries in
    decode_key internal_key >>= λ d.
    if ltb revision d.1 then rest else (decode raw >>= λ vv. ok (key_value key vv))

-- A version is listed where its key is in `[start, end)`.
abbrev pub keep_within : Key → Key → Option KeyValue → List KeyValue → List KeyValue
keep_within start end none rest = rest
keep_within start end (some kv) rest =
    if not (key_lt kv.key start) && key_lt kv.key end then kv ∷ rest else rest

-- The loop of `scan_at_revision`, with the last key of which a version was found.
unfoldable pub scan_from : Key → Key → ℕ → Option Key → Table (List ℕ) → Result (List KeyValue)
scan_from start end revision last [] = ok []
scan_from start end revision last ((internal_key, raw) ∷ entries) =
    let skipped = scan_from start end revision last entries in
    decode_key internal_key >>= λ d.
    if elim last [ none ↦ false | some k ↦ key_eq k d.0 ] || ltb revision d.1
    then skipped
    else (decode raw >>= λ vv. scan_from start end revision (some d.0) entries >>= λ rest.
        ok (keep_within start end (key_value d.0 vv) rest))

-- The revision at which the key was created, if it has a value, and the new one if not.
unfoldable pub created_at : ℕ → Option (ℕ × VersionedValue) → ℕ
created_at revision none = revision
created_at revision (some info) = if is_some info.1.value then info.1.create_revision else revision

-- The first entry of `get_latest_version_info`.
unfoldable pub latest_of : Table (List ℕ) → Result (Option (ℕ × VersionedValue))
latest_of [] = ok none
latest_of ((internal_key, raw) ∷ entries) = do
  d ← decode_key internal_key
  vv ← decode raw
  ok (some (d.1, vv))

module _ {E : Type 0} (engine : Engine E) where
  unfoldable pub get_at_revision : MvccStore E → Key → ℕ → Result (Option KeyValue)
  get_at_revision s key revision =
      engine.scan s.engine (encode_key_prefix_start key) (encode_key_prefix_end key) >>= λ entries.
      first_at key revision entries

  unfoldable pub get : MvccStore E → Key → Result (Option KeyValue)
  get s key = get_at_revision s key (2 ^ 64 - 1)

  unfoldable pub get_latest_version_info : MvccStore E → Key → Result (Option (ℕ × VersionedValue))
  get_latest_version_info s key =
      engine.scan s.engine (encode_key_prefix_start key) (encode_key_prefix_end key) >>= λ entries.
      latest_of entries

  unfoldable pub scan_at_revision : MvccStore E → Key → Key → ℕ → Result (List KeyValue)
  scan_at_revision s start end revision =
      engine.scan s.engine (encode_key_prefix_start start) (encode_key_prefix_end end)
      >>= λ entries. scan_from start end revision none entries

  unfoldable pub scan : MvccStore E → Key → Key → Result (List KeyValue)
  scan s start end = scan_at_revision s start end (2 ^ 64 - 1)

  unfoldable pub put_versioned :
      MvccStore E → Key → VersionedValue → ℕ → MvccStore E × Result (Unit {0})
  put_versioned s key vv revision =
      let r = engine.put s.engine (encode_key key revision) (encode vv) in
      (record s { engine = r.0 }, r.1)

  unfoldable pub put_with_options : MvccStore E → Key → List ℕ → I64 → I64 → MvccStore E × Result ℕ
  put_with_options s key value lease_id ttl_seconds =
      let next = next_revision s in
      let revision = next.1 in
      elim (get_latest_version_info next.0 key) [
        | err e ↦ (next.0, err e)
        | panic ↦ (next.0, panic)
        | ok info ↦
            let r =
              put_versioned next.0 key
                (record {
                  value = some value;
                  create_revision = created_at revision info;
                  mod_revision = revision;
                  lease_id = lease_id;
                  ttl_seconds = ttl_seconds;
                })
                revision in
            (r.0, r.1 >>= λ u. ok revision)
      ]

  unfoldable pub put : MvccStore E → Key → List ℕ → MvccStore E × Result ℕ
  put s key value = put_with_options s key value 0 0

  unfoldable pub delete : MvccStore E → Key → MvccStore E × Result (ℕ × Bool)
  delete s key = elim (get_latest_version_info s key) [
    | err e ↦ (s, err e)
    | panic ↦ (s, panic)
    | ok info ↦
        let next = next_revision s in
        let r =
          put_versioned next.0 key
            (record {
              value = none;
              create_revision = 0;
              mod_revision = next.1;
              lease_id = 0;
              ttl_seconds = 0;
            })
            next.1 in
        (r.0, r.1 >>= λ u. ok (next.1, elim info [ none ↦ false | some i ↦ is_some i.1.value ]))
  ]
