-- ===== src/Mvcc/Collection.antt =====
-- crates/raft-mvcc/src/gc.rs: the collection of old versions.
pub mod Loss
use raftrust.Prelude.{
  ℕ, zero, suc, Bool, true, false, ◌&&◌, Option, none, some, List, [], ◌∷◌, ltb, length,
  if◌then◌else◌,
}
use raftrust.Prelude.Keys.{Key, key_eq}
use raftrust.Prelude.Tables.{Table}
use raftrust.Errors.{Result, ok, err, panic, ◌>>=◌}
use raftrust.Mvcc.Version.{decode_key}
use raftrust.Mvcc.Engine.{Engine}

abbrev repeat : ℕ → ℕ → List ℕ
repeat b zero = []
repeat b (suc n) = b ∷ repeat b n

-- The bounds of the scan over all keys.
abbrev pub first_key : Key
first_key = 0 ∷ []

abbrev pub last_key : Key
last_key = repeat 255 32

-- The loop over the entries, with the key of the one before and whether its newest version was seen.
unfoldable pub old_versions : ℕ → Option Key → Bool → Table (List ℕ) → Result (List Key)
old_versions min_revision last seen_latest [] = ok []
old_versions min_revision last seen_latest ((internal_key, raw) ∷ entries) =
    decode_key internal_key >>= λ d.
    let seen = elim last [ none ↦ false | some k ↦ key_eq k d.0 ] && seen_latest in
    old_versions min_revision (some d.0) true entries >>= λ others.
    ok (if seen && ltb d.1 min_revision then internal_key ∷ others else others)

module _ {E : Type 0} (engine : Engine E) where
  unfoldable pub delete_all : E → List Key → E × Result (Unit {0})
  delete_all e [] = (e, ok tt)
  delete_all e (key ∷ keys) =
      let r = engine.delete e key in
      let others = delete_all r.0 keys in
      elim r.1 [ ok u ↦ others | err x ↦ (r.0, err x) | panic ↦ (r.0, panic) ]

  unfoldable pub collect : E → ℕ → E × Result ℕ
  collect e min_revision =
      elim (engine.scan e first_key last_key >>= λ all. old_versions min_revision none false all) [
        | err x ↦ (e, err x)
        | panic ↦ (e, panic)
        | ok to_delete ↦ let r = delete_all e to_delete in (r.0, r.1 >>= λ u. ok (length to_delete))
      ]
