-- ===== src/Mvcc/Transaction.antt =====
-- crates/raft-mvcc/src/transaction.rs: transactions checked at their commit.
pub mod Commit
use raftrust.Prelude.{
  ℕ, Bool, true, false, Option, none, some, List, [], ◌∷◌, ◌++◌, ◌==◌, if◌then◌else◌, is_some,
}
use mathlib.Core.List.{reverse}
use raftrust.Prelude.Keys.{Key}
use raftrust.Prelude.Tables.{find}
use raftrust.Errors.{Error, transaction_conflict, Result, ok, err, panic, ◌>>=◌}
use raftrust.Storage.MemTable.{Slot}
use raftrust.Mvcc.Version.{VersionedValue}
use raftrust.Mvcc.Engine.{Engine}
use raftrust.Mvcc.Store.{MvccStore, KeyValue, get_at_revision, next_revision, put_versioned}
use raftrust.Mvcc.Store

pub record Transaction : Type 0 where
  pub start_revision : ℕ
  pub read_set : List (Key × ℕ)
  pub write_set : List (Key × Slot)

unfoldable pub begin : {E : Type 0} → MvccStore E → Transaction
begin s = record { start_revision = s.current_revision; read_set = []; write_set = [] }

-- The modification revision of what was read, 0 where there is nothing.
abbrev pub revision_of : Option KeyValue → ℕ
revision_of none = 0
revision_of (some kv) = kv.mod_revision

abbrev pub slot_of : Option KeyValue → Slot
slot_of none = none
slot_of (some kv) = some kv.value

-- A value is buffered for a put and `none` for a delete.
unfoldable pub buffer : Transaction → Key → Slot → Transaction
buffer t key slot = record t { write_set = t.write_set ++ ((key, slot) ∷ []) }

-- The version that a buffered write makes, from what `get` gives for its key.
unfoldable pub commit_version : ℕ → Slot → Option KeyValue → VersionedValue
commit_version revision slot current = record {
  value = slot;
  create_revision =
      if is_some slot then elim current [ none ↦ revision | some kv ↦ kv.create_revision ] else 0;
  mod_revision = revision;
  lease_id = 0;
  ttl_seconds = 0;
}

module _ {E : Type 0} (engine : Engine E) where
  -- The newest buffered write of the key, or the store at the start revision.
  unfoldable pub get : MvccStore E → Transaction → Key → Transaction × Result Slot
  get s t key = elim (find key (reverse t.write_set)) [
    | some slot ↦ (t, ok slot)
    | none ↦ elim (get_at_revision engine s key t.start_revision) [
      | err e ↦ (t, err e)
      | panic ↦ (t, panic)
      | ok found ↦ (
        record t { read_set = t.read_set ++ ((key, revision_of found) ∷ []) },
        ok (slot_of found),
      )
    ]
  ]

  -- The validation: each key that was read is still at its revision.
  unfoldable pub validate : MvccStore E → List (Key × ℕ) → Result (Unit {0})
  validate s [] = ok tt
  validate s ((key, read_revision) ∷ rest) =
      let others = validate s rest in
      Store.get engine s key >>= λ current.
      if revision_of current == read_revision then others else err transaction_conflict

  -- `get` is called for a put only.
  read_created : MvccStore E → Key → Slot → Result (Option KeyValue)
  read_created s key none = ok none
  read_created s key (some value) = Store.get engine s key

  unfoldable pub apply_writes :
      MvccStore E → ℕ → List (Key × Slot) → MvccStore E × Result (Unit {0})
  unfolding read_created
  apply_writes s revision [] = (s, ok tt)
  apply_writes s revision ((key, slot) ∷ rest) = elim (read_created s key slot) [
    | err e ↦ (s, err e)
    | panic ↦ (s, panic)
    | ok current ↦
        let r = put_versioned engine s key (commit_version revision slot current) revision in
        let others = apply_writes r.0 revision rest in
        elim r.1 [ ok u ↦ others | err e ↦ (r.0, err e) | panic ↦ (r.0, panic) ]
  ]

  -- The commit of a transaction with writes, after its validation.
  unfoldable pub commit_writes : MvccStore E → Transaction → MvccStore E × Result ℕ
  commit_writes s t =
      let next = next_revision s in
      let r = apply_writes next.0 next.1 t.write_set in (r.0, r.1 >>= λ u. ok next.1)

  unfoldable pub commit : MvccStore E → Transaction → MvccStore E × Result ℕ
  commit s t = elim t.write_set [
    | [] ↦ (s, ok t.start_revision)
    | write ∷ writes ↦ elim (validate s t.read_set) [
      | ok u ↦ commit_writes s t
      | err e ↦ (s, err e)
      | panic ↦ (s, panic)
    ]
  ]
