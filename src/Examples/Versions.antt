-- ===== src/Examples/Versions.antt =====
-- The theorems of the store of versions at stores in memory.
use raftrust.Mvcc.Transaction.{commit_version}
use raftrust.Mvcc.Transaction.{apply_writes}
use raftrust.Mvcc.Transaction.{commit_writes}
use raftrust.Mvcc.Collection.{old_versions}
use raftrust.Mvcc.Transaction.{validate}
use raftrust.Mvcc.Collection.{delete_all}
use raftrust.Prelude.{ℕ, ◌≡◌, refl, Bool, Option, none, some, List, [], ◌∷◌, ◌++◌, ◌+◌, arith}
use raftrust.Prelude.Keys.{Key, key_eq, key_lt}
use raftrust.Prelude.Tables.{Table, add_entry, range, in_range}
use raftrust.Prelude.Bytes.{to_le_bytes, from_le_bytes, to_be_bytes, from_be_bytes}
use raftrust.Errors.{ok, err, panic, transaction_conflict}
use raftrust.Mvcc.Version.{
  VersionedValue, encode_key, encode, decode, decode_key, encode_key_prefix_start,
  encode_key_prefix_end, increment_bytes, carry_bytes,
}
use raftrust.Mvcc.Store.{
  MvccStore, KeyValue, put_with_options, delete, get, get_at_revision, next_revision,
  get_latest_version_info, created_at,
}
use raftrust.Mvcc.Store
use raftrust.Storage.WalOp.{read_chunk}
use raftrust.Mvcc.Store.Snapshot.{SameAt, writes-SameAt}
use raftrust.Mvcc.Store.Latest.{put-get, created_before}
use raftrust.Mvcc.Store.Strays.{full_key_panics}
use raftrust.Mvcc.Store.Longer.{get_longer}
use raftrust.Mvcc.Transaction.{Transaction, commit}
use raftrust.Mvcc.Transaction.Commit.{AllCurrent, commit_checked, commit_conflict}
use raftrust.Mvcc.Collection.{collect}
use raftrust.Mvcc.Collection.Loss.{collect_loses, versions}
use raftrust.Examples.Tables.{memory_engine, memory_engine-IsEngine}

abbrev Memory : Type 0
Memory = Table (List ℕ)

abbrev a : Key
a = 97 ∷ []

abbrev store_of : Memory → ℕ → MvccStore Memory
store_of e revision = record { engine = e; current_revision = revision }

abbrev empty : MvccStore Memory
empty = store_of [] 0

writes-SameAt_example :
    ((n : ℕ)
      → (put_with_options memory_engine empty a (1 ∷ []) 0 0).1 ≡ ok n
      → SameAt memory_engine-IsEngine
          (put_with_options memory_engine empty a (1 ∷ []) 0 0).0
          empty
          0)
    × ((n : ℕ) (existed : Bool)
        → (delete memory_engine empty a).1 ≡ ok (n, existed)
        → SameAt memory_engine-IsEngine (delete memory_engine empty a).0 empty 0)
writes-SameAt_example =
    writes-SameAt memory_engine-IsEngine empty a (1 ∷ []) 0 0 0 (omega arith) (omega arith)

put-get_example :
    (old : Option KeyValue) × (get memory_engine empty a ≡ ok old)
    × (1 ≡ empty.current_revision + 1)
    × (get memory_engine (put_with_options memory_engine empty a (1 ∷ []) 0 0).0 a
        ≡ ok (
            some (record {
              key = a;
              value = 1 ∷ [];
              create_revision = created_before 1 old;
              mod_revision = 1;
              lease_id = 0;
            })))
unfolding carry_bytes range in_range key_lt encode_key_prefix_start encode_key_prefix_end encode_key
    increment_bytes to_be_bytes to_le_bytes put_with_options get_latest_version_info next_revision
    Store.put_versioned Store.latest_of
put-get_example =
    put-get memory_engine-IsEngine empty a (1 ∷ []) 0 0 1 refl tt (omega arith) (omega arith)
      (omega arith) (omega arith) refl

full_key_panics_example :
    (get_at_revision memory_engine empty (255 ∷ []) 0 ≡ panic)
    × (put_with_options memory_engine empty (255 ∷ []) (1 ∷ []) 0 0
        ≡ ((next_revision empty).0, panic))
    × (delete memory_engine empty (255 ∷ []) ≡ (empty, panic))
unfolding carry_bytes
full_key_panics_example = full_key_panics memory_engine-IsEngine empty 255 [] 0 (1 ∷ []) 0 0 refl

-- A version of the key at a revision.
abbrev version : ℕ → List ℕ → VersionedValue
version revision value = record {
  value = some value;
  create_revision = 1;
  mod_revision = revision;
  lease_id = 0;
  ttl_seconds = 0;
}

get_longer_example :
    get memory_engine
      (put_with_options memory_engine
        (put_with_options memory_engine empty (a ++ (98 ∷ [])) (7 ∷ []) 0 0).0
        a
        (1 ∷ [])
        0
        0).0
      a
    ≡ ok (
        some
          (record { key = a; value = 7 ∷ []; create_revision = 1; mod_revision = 1; lease_id = 0 }))
unfolding carry_bytes range in_range key_lt key_eq add_entry encode_key_prefix_start
    encode_key_prefix_end encode_key increment_bytes to_be_bytes to_le_bytes from_be_bytes
    from_le_bytes put_with_options get_latest_version_info next_revision Store.put_versioned
    Store.latest_of created_at encode decode decode_key read_chunk
get_longer_example =
    get_longer memory_engine-IsEngine empty a 98 [] (1 ∷ []) (7 ∷ []) 0 0 1 2 refl (omega arith)
      (omega arith) (omega arith) (omega arith) (omega arith) refl refl refl

-- A store with one version.
abbrev stored : MvccStore Memory
stored = store_of ((encode_key a 1, encode (version 1 (1 ∷ []))) ∷ []) 1

abbrev writing : ℕ → Transaction
writing revision = record {
  start_revision = revision;
  read_set = (a, revision) ∷ [];
  write_set = (a, some (2 ∷ [])) ∷ [];
}

abbrev read_back : KeyValue
read_back = record { key = a; value = 1 ∷ []; create_revision = 1; mod_revision = 1; lease_id = 0 }

stored_get : get memory_engine stored a ≡ ok (some read_back)
unfolding get get_at_revision Store.first_at Store.key_value range in_range key_lt key_eq add_entry
    encode_key_prefix_start encode_key_prefix_end encode_key increment_bytes carry_bytes to_be_bytes
    to_le_bytes from_be_bytes from_le_bytes encode decode decode_key read_chunk
stored_get = refl

commit_conflict_example :
    commit memory_engine stored (writing 0) ≡ (stored, err transaction_conflict)
commit_conflict_example =
    commit_conflict memory_engine stored (writing 0) [] [] a 0 (some read_back) (λ e. cc) refl tt
      stored_get (λ e. cc)

writing_done : (commit memory_engine stored (writing 1)).1 ≡ ok 2
unfolding commit validate commit_writes apply_writes commit_version next_revision
    Store.put_versioned get get_at_revision Store.first_at Store.key_value range in_range key_lt
    key_eq add_entry encode_key_prefix_start encode_key_prefix_end encode_key increment_bytes
    carry_bytes to_be_bytes to_le_bytes from_be_bytes from_le_bytes encode decode decode_key
    read_chunk
writing_done = refl

commit_checked_example :
    AllCurrent memory_engine stored ((a, 1) ∷ [])
    × (2 ≡ stored.current_revision + 1)
    × SameAt memory_engine-IsEngine (commit memory_engine stored (writing 1)).0 stored 1
commit_checked_example =
    commit_checked memory_engine-IsEngine stored (writing 1) 2 1 (λ e. cc) (omega arith)
      (omega arith) writing_done

-- A store with two versions of the key.
abbrev twice : MvccStore Memory
twice = store_of (versions a 1 5 (encode (version 1 (1 ∷ []))) (encode (version 5 (2 ∷ [])))) 5

collect_loses_example :
    (get_at_revision memory_engine twice a 4 ≡ ok (some read_back))
    × (get_at_revision memory_engine
          (record twice { engine = (collect memory_engine twice.engine 3).0 })
          a
          4
        ≡ ok none)
unfolding carry_bytes Store.key_value collect delete_all old_versions range in_range key_lt key_eq
    add_entry encode_key to_be_bytes to_le_bytes from_be_bytes from_le_bytes decode_key
collect_loses_example =
    collect_loses memory_engine-IsEngine twice 97 [] 1 5 3 4 1 (version 1 (1 ∷ []))
      (encode (version 5 (2 ∷ []))) refl (omega arith) (omega arith) (omega arith) (omega arith)
      (omega arith) (omega arith) (omega arith, omega arith, omega arith, omega arith, omega arith)
      refl refl
