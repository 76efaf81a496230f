-- ===== src/Mvcc/Ttl.antt =====
-- crates/raft-mvcc/src/ttl.rs: the sweep of keys whose time to live is over.
use raftrust.Prelude.{
  ℕ, ◌+◌, Bool, false, not, ◌&&◌, Option, none, some, List, [], ◌∷◌, ltb, leb, length, is_some,
  wrap64, if◌then◌else◌,
}
use raftrust.Prelude.Keys.{Key, key_eq}
use raftrust.Prelude.Tables.{Table}
use raftrust.Errors.{Result, ok, err, panic, ◌>>=◌}
use raftrust.Lease.{I64, order_of, is_negative}
use raftrust.Mvcc.Version.{VersionedValue, decode_key, decode}
use raftrust.Mvcc.Engine.{Engine}
use raftrust.Mvcc.Store.{MvccStore, delete}
use raftrust.Mvcc.Collection.{first_key, last_key}

-- The modification revision stands for the time of the write.
unfoldable pub has_expired : VersionedValue → I64 → Bool
has_expired vv now_secs =
    is_some vv.value
    && ((not (is_negative vv.ttl_seconds) && ltb 0 vv.ttl_seconds)
        && leb (order_of (wrap64 (vv.mod_revision + vv.ttl_seconds))) (order_of now_secs))

-- The loop over the entries, with the key of the one before: only the first version of a key counts.
unfoldable pub expired_from : I64 → Option Key → Table (List ℕ) → Result (List Key)
expired_from now_secs last [] = ok []
expired_from now_secs last ((internal_key, raw) ∷ entries) =
    let skipped = expired_from now_secs last entries in
    decode_key internal_key >>= λ d.
    if elim last [ none ↦ false | some k ↦ key_eq k d.0 ]
    then skipped
    else (decode raw >>= λ vv. expired_from now_secs (some d.0) entries >>= λ others.
        ok (if has_expired vv now_secs then d.0 ∷ others else others))

module _ {E : Type 0} (engine : Engine E) where
  unfoldable pub delete_keys : MvccStore E → List Key → MvccStore E × Result (Unit {0})
  delete_keys s [] = (s, ok tt)
  delete_keys s (key ∷ keys) =
      let r = delete engine s key in
      let others = delete_keys r.0 keys in
      elim r.1 [ ok u ↦ others | err e ↦ (r.0, err e) | panic ↦ (r.0, panic) ]

  unfoldable pub sweep_expired : MvccStore E → I64 → MvccStore E × Result ℕ
  sweep_expired s now_secs =
      elim (engine.scan s.engine first_key last_key >>= λ all. expired_from now_secs none all) [
        | err e ↦ (s, err e)
        | panic ↦ (s, panic)
        | ok keys ↦ let r = delete_keys s keys in (r.0, r.1 >>= λ u. ok (length keys))
      ]
