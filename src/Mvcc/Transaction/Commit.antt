-- ===== src/Mvcc/Transaction/Commit.antt =====
-- What a commit of crates/raft-mvcc/src/transaction.rs checks and keeps.
use raftrust.Errors.{ok_inj}
use raftrust.Prelude.{List-cases}
use raftrust.Prelude.{
  ℕ, ◌+◌, ◌<◌, ◌≤◌, ◌^◌, ◌≡◌, ◌≢◌, refl, ◌∙◌, Option, List, [], ◌∷◌, ◌++◌, IsU64, arith, inl, inr,
}
use raftrust.Prelude.Keys.{Key}
use raftrust.Prelude.Tables.{Table}
use raftrust.Errors.{transaction_conflict, Result-cases, ok, err, panic, >>=-Passed}
use raftrust.Storage.MemTable.{Slot}
use raftrust.Mvcc.Version.{VersionedValue}
use raftrust.Mvcc.Engine.{Engine, IsEngine}
use raftrust.Mvcc.Store.{MvccStore, KeyValue, next_revision, put_versioned}
use raftrust.Mvcc.Store
use raftrust.Mvcc.Store.Snapshot.{SameAt, put_versioned-SameAt}
use raftrust.Mvcc.Transaction.{
  Transaction, revision_of, validate, apply_writes, commit, commit_writes, commit_version,
  read_created,
}

module _ {E : Type 0} (engine : Engine E) where
  -- Each key reads at its revision.
  abbrev pub AllCurrent : MvccStore E → List (Key × ℕ) → Type 0
  AllCurrent s [] = Unit
  AllCurrent s ((key, r) ∷ rest) =
      ((current : Option KeyValue) × (Store.get engine s key ≡ ok current)
        × (revision_of current ≡ r))
      × AllCurrent s rest

  validate-AllCurrent :
      (s : MvccStore E) (reads : List (Key × ℕ))
      → validate engine s reads ≡ ok tt
      → AllCurrent s reads
  unfolding validate
  validate-AllCurrent s [] h = tt
  validate-AllCurrent s ((key, r) ∷ rest) h =
      let (current, read, checked) = >>=-Passed (Store.get engine s key) _ h in
      (
        (current, read, ground (arith, checked)),
        validate-AllCurrent s rest (ground (arith, checked)),
      )

  validate_conflict :
      (s : MvccStore E) (before after : List (Key × ℕ)) (key : Key) (r : ℕ)
      (current : Option KeyValue)
      → AllCurrent s before
      → Store.get engine s key ≡ ok current
      → revision_of current ≢ r
      → validate engine s (before ++ ((key, r) ∷ after)) ≡ err transaction_conflict
  unfolding validate
  validate_conflict s [] after key r current all read changed = rw read (ground arith)
  validate_conflict s ((k, q) ∷ before) after key r current all read changed =
      let (found, got, same) = all.0 in
      rw got
        (ground (arith, same, validate_conflict s before after key r current all.1 read changed))

  commit_checks :
      (s : MvccStore E) (t : Transaction)
      → t.write_set ≢ []
      → commit engine s t ≡ elim (validate engine s t.read_set) [
        | ok u ↦ commit_writes engine s t
        | err e ↦ (s, err e)
        | panic ↦ (s, panic)
      ]
  unfolding commit
  commit_checks s t writes = elim (List-cases t.write_set) [
    | inl empty ↦ absurd (writes empty)
    | inr (w, ws, same) ↦ simp (same, commit) refl
  ]

  -- Where a key of the read set has changed since, and the keys read before it have not, a commit with
  -- writes is refused as a conflict and leaves the store as it is.
  pub commit_conflict :
      (s : MvccStore E) (t : Transaction) (before after : List (Key × ℕ)) (key : Key) (r : ℕ)
      (current : Option KeyValue)
      → t.write_set ≢ []
      → t.read_set ≡ before ++ ((key, r) ∷ after)
      → AllCurrent s before
      → Store.get engine s key ≡ ok current
      → revision_of current ≢ r
      → commit engine s t ≡ (s, err transaction_conflict)
  commit_conflict s t before after key r current writes reads all read changed =
      commit_checks s t writes
      ∙ rw (reads, validate_conflict s before after key r current all read changed) refl

  read_slot-eq :
      (s : MvccStore E) (revision : ℕ) (key : Key) (slot : Slot) (rest : List (Key × Slot))
      → (apply_writes engine s revision ((key, slot) ∷ rest)).1 ≡ ok tt
      → (vv : VersionedValue) × ((put_versioned engine s key vv revision).1 ≡ ok tt)
        × (apply_writes engine s revision ((key, slot) ∷ rest)
            ≡ apply_writes engine (put_versioned engine s key vv revision).0 revision rest)
  unfolding apply_writes
  read_slot-eq s revision key slot rest h = elim (Result-cases (read_created engine s key slot)) [
    | inl (current, read) ↦
        let vv = commit_version revision slot current in
        elim (Result-cases (put_versioned engine s key vv revision).1) [
          | inl (u, put) ↦ (vv, put, rw (read, put, apply_writes) refl)
          | inr (inl (e, failed)) ↦ absurd (ground arith)
          | inr (inr panics) ↦ absurd (ground arith)
        ]
    | inr (inl (e, failed)) ↦ absurd (ground arith)
    | inr (inr panics) ↦ absurd (ground arith)
  ]

module _ {E : Type 0} {engine : Engine E} {view : E → Table (List ℕ)}
    (law : IsEngine engine view) where
  apply_writes-SameAt :
      (s : MvccStore E) (revision r : ℕ) (writes : List (Key × Slot))
      → IsU64 revision
      → r < revision
      → (apply_writes engine s revision writes).1 ≡ ok tt
      → SameAt law (apply_writes engine s revision writes).0 s r
  unfolding apply_writes
  apply_writes-SameAt s revision r [] u h done = (λ key. refl, λ start end. refl)
  apply_writes-SameAt s revision r ((key, slot) ∷ rest) u h done =
      let (vv, put, same) = read_slot-eq engine s revision key slot rest done in
      let one = put_versioned-SameAt law s key vv revision r u h put in
      let others =
        apply_writes-SameAt (put_versioned engine s key vv revision).0 revision r rest u h
          (rw same at done) in
      rw same (λ k. others.0 k ∙ one.0 k, λ start end. others.1 start end ∙ one.1 start end)

  commit_writes_checked :
      (s : MvccStore E) (t : Transaction) (n r : ℕ)
      → s.current_revision + 1 < 2 ^ 64
      → r ≤ s.current_revision
      → (commit_writes engine s t).1 ≡ ok n
      → (n ≡ s.current_revision + 1) × SameAt law (commit_writes engine s t).0 s r
  unfolding commit_writes next_revision Store.get_at_revision Store.scan_at_revision
  commit_writes_checked s t n r bound earlier done =
      let next = next_revision s in
      let (u, applied, same) =
        >>=-Passed (apply_writes engine next.0 next.1 t.write_set).1 (λ u. ok next.1) done in
      (
        omega (arith, ok_inj same),
        apply_writes-SameAt next.0 next.1 r t.write_set (omega arith) (omega arith) applied,
      )

  -- A commit with writes that succeeds has found every key of its read set unchanged, takes the next
  -- revision, and changes no read at a revision before it.
  pub commit_checked :
      (s : MvccStore E) (t : Transaction) (n r : ℕ)
      → t.write_set ≢ []
      → s.current_revision + 1 < 2 ^ 64
      → r ≤ s.current_revision
      → (commit engine s t).1 ≡ ok n
      → AllCurrent engine s t.read_set
        × (n ≡ s.current_revision + 1)
        × SameAt law (commit engine s t).0 s r
  commit_checked s t n r writes bound earlier done =
      elim (Result-cases (validate engine s t.read_set)) [
        | inl (u, valid) ↦
            let same = commit_checks engine s t writes ∙ rw valid refl in
            let (taken, kept) = commit_writes_checked s t n r bound earlier (rw same at done) in
            (validate-AllCurrent engine s t.read_set valid, taken, rw same kept)
        | inr (inl (e, failed)) ↦ absurd (ground (arith, commit_checks engine s t writes))
        | inr (inr panics) ↦ absurd (ground (arith, commit_checks engine s t writes))
      ]
