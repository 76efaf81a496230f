-- ===== src/Mvcc/Store/Snapshot.antt =====
-- Reads of crates/raft-mvcc/src/mvcc.rs at an earlier revision.
use raftrust.Prelude.{
  ℕ, ◌+◌, ◌<◌, ◌≤◌, ◌^◌, ◌≡◌, refl, sym, ◌∙◌, Bool, Option, none, some, List, [], ◌∷◌, IsU64, arith,
  inl, inr, Bool-cases,
}
use mathlib.Core.Path.{fun_ext}
use raftrust.Prelude.Keys.{Key, key_eq, key_lt, key_eq_same}
use raftrust.Prelude.Tables.{Table, range, in_range, add_entry}
use raftrust.Errors.{Result, Result-cases, ok, ◌>>=◌, >>=-Passed}
use raftrust.Lease.{I64}
use raftrust.Mvcc.Version.{VersionedValue, encode_key, encode}
use raftrust.Mvcc.Version.Order.{decode_key-encode_key}
use raftrust.Mvcc.Engine.{Engine, IsEngine}
use raftrust.Mvcc.Store.{
  MvccStore, KeyValue, first_at, scan_from, get_at_revision, scan_at_revision, put_versioned,
  put_with_options, delete, next_revision, created_at, get_latest_version_info,
}

-- A version newer than the revision is skipped.
first_at_skip :
    (key : Key) (r : ℕ) (k : Key) (n : ℕ) (raw : List ℕ) (es : Table (List ℕ))
    → IsU64 n
    → r < n
    → first_at key r ((encode_key k n, raw) ∷ es) ≡ first_at key r es
unfolding first_at
first_at_skip key r k n raw es u h = rw (decode_key-encode_key k n u) (ground arith)

scan_from_skip :
    (start end : Key) (r : ℕ) (last : Option Key) (k : Key) (n : ℕ) (raw : List ℕ)
    (es : Table (List ℕ))
    → IsU64 n
    → r < n
    → scan_from start end r last ((encode_key k n, raw) ∷ es) ≡ scan_from start end r last es
unfolding scan_from
scan_from_skip start end r last k n raw es u h = rw (decode_key-encode_key k n u) (ground arith)

-- What a loop over entries comes to does not change with an entry that it skips wherever it stands.
module _ {A S : Type 0} (loop : S → Table (List ℕ) → Result A) (lo hi : Key) (new : Key) where
  abbrev Skips : Type 0
  Skips = (s : S) (raw : List ℕ) (es : Table (List ℕ)) → loop s ((new, raw) ∷ es) ≡ loop s es

  -- The loop reads the rest only through what it comes to.
  abbrev Steps : Type 0
  Steps =
      (e : Key × List ℕ) (a b : Table (List ℕ))
      → ((s : S) → loop s a ≡ loop s b)
      → (s : S) → loop s (e ∷ a) ≡ loop s (e ∷ b)

  skip_range :
      (raw : List ℕ) (m : Table (List ℕ))
      → Skips
      → (s : S) → loop s (range lo hi ((new, raw) ∷ m)) ≡ loop s (range lo hi m)
  unfolding range
  skip_range raw m skips s = elim (Bool-cases (in_range lo hi new)) [
    | inl inside ↦ rw inside (skips s raw (range lo hi m))
    | inr out ↦ rw out refl
  ]

  step_range :
      (j : Key) (w : List ℕ) (a b : Table (List ℕ))
      → Steps
      → ((s : S) → loop s (range lo hi a) ≡ loop s (range lo hi b))
      → (s : S) → loop s (range lo hi ((j, w) ∷ a)) ≡ loop s (range lo hi ((j, w) ∷ b))
  unfolding range
  step_range j w a b steps h s = elim (Bool-cases (in_range lo hi j)) [
    | inl inside ↦ rw inside (steps (j, w) (range lo hi a) (range lo hi b) h s)
    | inr out ↦ rw out (h s)
  ]

  loop-add_entry :
      (raw : List ℕ) (m : Table (List ℕ))
      → Skips
      → Steps
      → (s : S) → loop s (range lo hi (add_entry new raw m)) ≡ loop s (range lo hi m)
  unfolding add_entry
  loop-add_entry raw [] skips steps s = skip_range raw [] skips s
  loop-add_entry raw ((j, w) ∷ m) skips steps s = elim (Bool-cases (key_eq new j)) [
    | inl same ↦
        rw (same, sym (key_eq_same new j same))
          (skip_range raw m skips s ∙ sym (skip_range w m skips s))
    | inr other ↦ elim (Bool-cases (key_lt new j)) [
      | inl lt ↦ rw (other, lt) (skip_range raw ((j, w) ∷ m) skips s)
      | inr ge ↦
          rw (other, ge)
            (step_range j w (add_entry new raw m) m steps (loop-add_entry raw m skips steps) s)
    ]
  ]

-- The loop of a read, as one over entries.
abbrev read_loop : Key → ℕ → Unit {0} → Table (List ℕ) → Result (Option KeyValue)
read_loop key r u es = first_at key r es

first_at_steps : (key : Key) (r : ℕ) (new : Key) → Steps (read_loop key r) [] [] new
unfolding first_at
first_at_steps key r new (j, w) a b h s = rw (h s) refl

scan_from_steps : (start end : Key) (r : ℕ) (new : Key) → Steps (scan_from start end r) [] [] new
unfolding scan_from
scan_from_steps start end r new (j, w) a b h s = rw (fun_ext h) refl

-- What a put that succeeds has done.
module _ {E : Type 0} (engine : Engine E) (s : MvccStore E) (k : Key) where
  abbrev pub new_version : List ℕ → I64 → I64 → Option (ℕ × VersionedValue) → VersionedValue
  new_version value lease_id ttl_seconds info = record {
    value = some value;
    create_revision = created_at (next_revision s).1 info;
    mod_revision = (next_revision s).1;
    lease_id = lease_id;
    ttl_seconds = ttl_seconds;
  }

  abbrev Written : MvccStore E → VersionedValue → Type 0
  Written t vv =
      let written = put_versioned engine (next_revision s).0 k vv (next_revision s).1 in
      (t ≡ written.0) × (written.1 ≡ ok tt)

  pub put-Written :
      (value : List ℕ) (lease_id ttl_seconds : I64) (n : ℕ)
      → (put_with_options engine s k value lease_id ttl_seconds).1 ≡ ok n
      → (info : Option (ℕ × VersionedValue)) × (get_latest_version_info engine (next_revision s).0 k
          ≡ ok info)
        × (n ≡ (next_revision s).1)
        × Written
            (put_with_options engine s k value lease_id ttl_seconds).0
            (new_version value lease_id ttl_seconds info)
  unfolding put_with_options
  put-Written value lease_id ttl_seconds n done =
      elim (Result-cases (get_latest_version_info engine (next_revision s).0 k)) [
        | inl (info, read) ↦
            let vv = new_version value lease_id ttl_seconds info in
            let written = put_versioned engine (next_revision s).0 k vv (next_revision s).1 in
            let r =
              >>=-Passed written.1 (λ u. ok (next_revision s).1)
                (rw (read, put_with_options) at done) in
            (info, read, ground (arith, r.2), (rw (read, put_with_options) refl, r.1))
        | inr (inl (e, failed)) ↦ absurd (ground arith)
        | inr (inr panics) ↦ absurd (ground arith)
      ]

  delete-Written :
      (n : ℕ) (existed : Bool)
      → (delete engine s k).1 ≡ ok (n, existed)
      → (vv : VersionedValue) × Written (delete engine s k).0 vv
  unfolding delete
  delete-Written n existed done = elim (Result-cases (get_latest_version_info engine s k)) [
    | inl (info, read) ↦
        let r = >>=-Passed _ _ (rw (read, delete) at done) in (_, (rw (read, delete) refl, r.1))
    | inr (inl (e, failed)) ↦ absurd (ground arith)
    | inr (inr panics) ↦ absurd (ground arith)
  ]

module _ {E : Type 0} {engine : Engine E} {view : E → Table (List ℕ)}
    (law : IsEngine engine view) where
  -- A loop over a scan, before and after a version is put that it skips.
  scanned_same :
      {A : Type 0} (e : E) (lo hi new : Key) (raw : List ℕ) (loop : Table (List ℕ) → Result A)
      → (engine.put e new raw).1 ≡ ok tt
      → loop (range lo hi (add_entry new raw (view e))) ≡ loop (range lo hi (view e))
      → (engine.scan (engine.put e new raw).0 lo hi >>= loop) ≡ (engine.scan e lo hi >>= loop)
  scanned_same e lo hi new raw loop done same = elim (Bool-cases (key_lt hi lo)) [
    | inl back ↦
        rw (law.reversed (engine.put e new raw).0 lo hi back, law.reversed e lo hi back) refl
    | inr right ↦
        rw
          (
            law.scans (engine.put e new raw).0 lo hi right,
            law.scans e lo hi right,
            law.puts e new raw done,
          )
          same
  ]

  -- The reads at a revision of two stores are the same.
  abbrev pub SameAt : MvccStore E → MvccStore E → ℕ → Type 0
  SameAt s t r =
      ((key : Key) → get_at_revision engine s key r ≡ get_at_revision engine t key r)
      × ((start end : Key)
          → scan_at_revision engine s start end r ≡ scan_at_revision engine t start end r)

  pub put_versioned-SameAt :
      (s : MvccStore E) (k : Key) (vv : VersionedValue) (n r : ℕ)
      → IsU64 n
      → r < n
      → (put_versioned engine s k vv n).1 ≡ ok tt
      → SameAt (put_versioned engine s k vv n).0 s r
  unfolding put_versioned get_at_revision scan_at_revision
  put_versioned-SameAt s k vv n r u h done =
      let new = encode_key k n in
      (
        λ key. scanned_same s.engine _ _ new (encode vv) (first_at key r) done (
            loop-add_entry (read_loop key r) _ _ new (encode vv) (view s.engine)
              (λ x raw es. first_at_skip key r k n raw es u h) (first_at_steps key r new) tt),
        λ start end. scanned_same s.engine _ _ new (encode vv) (scan_from start end r none) done (
            loop-add_entry (scan_from start end r) _ _ new (encode vv) (view s.engine)
              (λ last raw es. scan_from_skip start end r last k n raw es u h)
              (scan_from_steps start end r new) none),
      )

  Written-SameAt :
      (s t : MvccStore E) (k : Key) (vv : VersionedValue) (r : ℕ)
      → r ≤ s.current_revision
      → s.current_revision + 1 < 2 ^ 64
      → Written engine s k t vv
      → SameAt t s r
  unfolding next_revision get_at_revision scan_at_revision
  Written-SameAt s t k vv r h bound w = rw w.0 (
      put_versioned-SameAt (next_revision s).0 k vv (next_revision s).1 r (omega arith)
        (omega arith) w.1)

  -- A put or a delete that succeeds changes no read at a revision up to the one before it, of any key or
  -- range, though ranges take in versions of other keys.
  pub writes-SameAt :
      (s : MvccStore E) (k : Key) (value : List ℕ) (lease_id ttl_seconds : I64) (r : ℕ)
      → r ≤ s.current_revision
      → s.current_revision + 1 < 2 ^ 64
      → ((n : ℕ)
          → (put_with_options engine s k value lease_id ttl_seconds).1 ≡ ok n
          → SameAt (put_with_options engine s k value lease_id ttl_seconds).0 s r)
        × ((n : ℕ) (existed : Bool)
            → (delete engine s k).1 ≡ ok (n, existed)
            → SameAt (delete engine s k).0 s r)
  writes-SameAt s k value lease_id ttl_seconds r h bound = (
    λ n done.
        let (info, read, same, w) = put-Written engine s k value lease_id ttl_seconds n done in
        Written-SameAt s (put_with_options engine s k value lease_id ttl_seconds).0 k _ r h bound w,
    λ n existed done.
        let (vv, w) = delete-Written engine s k n existed done in
        Written-SameAt s (delete engine s k).0 k vv r h bound w,
  )
