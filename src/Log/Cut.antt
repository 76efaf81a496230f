-- ===== src/Log/Cut.antt =====
-- Reading the log of crates/raft-consensus/src/log.rs, and what `truncate_after` and `compact` leave of it.
use raftrust.Prelude.{
  ℕ, ◌+◌, ◌-◌, ◌≤◌, ◌<◌, ◌≡◌, ◌≢◌, ◌↔◌, true, none, some, [], length, drop, leb, if◌then◌else◌,
  arith, Bool-cases, inl, inr, length-take,
}
use raftrust.Message.{LogEntry}
use raftrust.Log.{RaftLog, get, last_index, truncate_after, compact, term_at, match_term}
use raftrust.Log.Index.{
  IsContiguous, get_elem?-IsRun, get_elem?-some, get_elem?-none, get_elem?-take, get_elem?-drop,
  IsRun-take, IsRun-drop, IsRun-shift, last-IsRun,
}

module _ {W : Type 0} where
  -- The last index is the snapshot's index plus the number of entries.
  pub last_index-eq :
      (log : RaftLog W)
      → IsContiguous log
      → last_index log ≡ log.snapshot_index + length log.entries
  unfolding last_index
  last_index-eq log c = last-IsRun log.snapshot_index log.entries c.run

  -- The entry read at an index carries that index.
  pub get-index :
      (log : RaftLog W) (i : ℕ) {e : LogEntry} → IsContiguous log → get log i ≡ some e → e.index ≡ i
  unfolding get
  get-index log i {e} c h = ground (
    arith,
    get_elem?-IsRun log.snapshot_index (i - log.snapshot_index - 1) log.entries {e = e} c.run,
  )

  -- In a contiguous log reading succeeds exactly above the snapshot and up to the last index.
  pub get_range :
      (log : RaftLog W) (i : ℕ)
      → IsContiguous log
      → (get log i ≢ none) ↔ ((log.snapshot_index < i) × (i ≤ last_index log))
  unfolding get
  get_range log i c = (
    λ h.
        ground
          (arith, last_index-eq log c, get_elem?-none (i - log.snapshot_index - 1) log.entries),
    λ h.
        ground
          (arith, last_index-eq log c, get_elem?-some (i - log.snapshot_index - 1) log.entries),
  )

  pub truncate_after-IsContiguous :
      (log : RaftLog W) (k : ℕ) → IsContiguous log → IsContiguous (truncate_after log k)
  unfolding truncate_after
  truncate_after-IsContiguous log k c = elim (Bool-cases (leb k log.snapshot_index)) [
    | inl h ↦ rw h (record { run = tt })
    | inr h ↦
        rw h (record {
          run = IsRun-take log.snapshot_index (k - log.snapshot_index) log.entries c.run;
        })
  ]

  -- Truncation keeps the entries up to the index, and no other.
  pub get-truncate_after :
      (log : RaftLog W) (k i : ℕ)
      → get (truncate_after log k) i ≡ (if leb i k then get log i else none)
  unfolding get truncate_after
  get-truncate_after log k i =
      ground
        (arith, get_elem?-take (k - log.snapshot_index) (i - log.snapshot_index - 1) log.entries)

  pub compact-IsContiguous :
      (log : RaftLog W) (i t : ℕ) → IsContiguous log → IsContiguous (compact log i t)
  unfolding compact
  compact-IsContiguous log i t c = elim (Bool-cases (leb i log.snapshot_index)) [
    | inl h ↦ rw h c
    | inr h ↦ elim (Bool-cases (leb (length log.entries) (i - log.snapshot_index))) [
      | inl g ↦ rw (h, g) (record { run = tt })
      | inr g ↦
          rw (h, g)
            (record {
              run =
                  IsRun-shift (drop (i - log.snapshot_index) log.entries) (ground arith)
                    (IsRun-drop log.snapshot_index (i - log.snapshot_index) log.entries c.run);
            })
    ]
  ]

  -- Compaction forgets the entries up to the index, and no other.
  pub get-compact :
      (log : RaftLog W) (k t i : ℕ)
      → get (compact log k t) i ≡ (if leb i k then none else get log i)
  unfolding get compact
  get-compact log k t i = ground (
    arith,
    get_elem?-drop (k - log.snapshot_index) (i - k - 1) log.entries,
    get_elem?-none (i - log.snapshot_index - 1) log.entries,
  )

  pub get-beyond :
      (log : RaftLog W) (i : ℕ) → IsContiguous log → last_index log < i → get log i ≡ none
  unfolding get
  get-beyond log i c h =
      ground (arith, last_index-eq log c, get_elem?-none (i - log.snapshot_index - 1) log.entries)

  pub get-empty : (log : RaftLog W) (i : ℕ) → log.entries ≡ [] → get log i ≡ none
  unfolding get
  get-empty log i h = ground (arith, get_elem?-none (i - log.snapshot_index - 1) log.entries)

  pub get-within :
      (log : RaftLog W) (i : ℕ)
      → IsContiguous log
      → log.snapshot_index < i
      → i ≤ last_index log
      → (e : LogEntry) × (get log i ≡ some e)
  unfolding get
  get-within log i c h k =
      let found =
        get_elem?-some (i - log.snapshot_index - 1) log.entries
          (omega (arith, last_index-eq log c)) in
      (found.0, ground (arith, found.1))

  pub last_lt_of_absent :
      (log : RaftLog W) (i : ℕ)
      → IsContiguous log
      → log.snapshot_index < i
      → get log i ≡ none
      → last_index log < i
  unfolding get
  last_lt_of_absent log i c h e =
      ground (arith, last_index-eq log c, get_elem?-some (i - log.snapshot_index - 1) log.entries)

  pub le_last_of_present :
      (log : RaftLog W) (i : ℕ) (e : LogEntry)
      → IsContiguous log
      → get log i ≡ some e
      → i ≤ last_index log
  unfolding get
  le_last_of_present log i e c h =
      ground (arith, last_index-eq log c, get_elem?-none (i - log.snapshot_index - 1) log.entries)

  pub truncate_after-snapshot :
      (log : RaftLog W) (k : ℕ) → (truncate_after log k).snapshot_index ≡ log.snapshot_index
  unfolding truncate_after
  truncate_after-snapshot log k = ground arith

  -- A match at an index above 0 lies at the snapshot or in the log.
  pub match_term_bounds :
      (log : RaftLog W) (i t : ℕ)
      → IsContiguous log
      → 0 < i
      → match_term log i t ≡ true
      → (log.snapshot_index ≤ i) × (i ≤ last_index log)
  unfolding match_term term_at get
  match_term_bounds log i t c h m =
      ground (arith, last_index-eq log c, get_elem?-none (i - log.snapshot_index - 1) log.entries)

  -- A log that keeps what another holds at an index reaches that index too.
  pub reaches_of_kept :
      (log log' : RaftLog W) (i : ℕ)
      → IsContiguous log
      → IsContiguous log'
      → log'.snapshot_index ≡ log.snapshot_index
      → i ≤ last_index log
      → get log' i ≡ get log i
      → i ≤ last_index log'
  unfolding get
  reaches_of_kept log log' i c c' p h e = ground (
    arith,
    last_index-eq log c,
    last_index-eq log' c',
    get_elem?-some (i - log.snapshot_index - 1) log.entries,
    get_elem?-none (i - log'.snapshot_index - 1) log'.entries,
  )

  -- The last index after a cut at an index inside the log.
  pub last_index-truncate_after :
      (log : RaftLog W) (k : ℕ)
      → IsContiguous log
      → log.snapshot_index ≤ k
      → k ≤ last_index log
      → last_index (truncate_after log k) ≡ k
  unfolding truncate_after
  last_index-truncate_after log k c lo hi = ground (
    arith,
    last_index-eq log c,
    last_index-eq (truncate_after log k) (truncate_after-IsContiguous log k c),
    length-take (k - log.snapshot_index) log.entries,
  )

-- Every write to the WAL succeeds.
