-- ===== src/Node/Lead/Requests.antt =====
-- The AppendEntries requests of the leader in crates/raft-consensus/src/node.rs, and what they do at the
-- follower that they reach.
use raftrust.Log.Extend.{
  NeverFails, get-append, append_ok, entries_from-IsRun, get_elem?-entries_from,
}
use raftrust.Node.Append.Redeliver.{store_entries-empty}
use raftrust.Prelude.{
  ℕ, ◌+◌, ◌-◌, ◌≤◌, ◌<◌, ◌≡◌, ◌≢◌, refl, ◌∙◌, true, some, List, [], ◌∷◌, arith, some_or, get_elem?,
}
use raftrust.Prelude.Maps.{lookup}
use raftrust.Message.{LogEntry}
use raftrust.Log.{Wal, get, entries_from}
use raftrust.Log.Index.{IsRun, IsContiguous}
use raftrust.State.{LeaderState}
use raftrust.Node.{NodeConfig, Inner}
use raftrust.Node.Append.{handle_append_entries}
use raftrust.Node.Append.Merge.{IsPlaced}
use raftrust.Node.Append.Accept.{handle_append_entries-IsStored, handle_append_entries-sentinel}
use raftrust.Node.Lead.{append_request}

-- The next index for a peer, as the leader reads it.
abbrev pub next_for : LeaderState → ℕ → ℕ
next_for ls peer = some_or 1 (lookup peer ls.next_index)

IsRun-first :
    (base : ℕ) (e : LogEntry) (es : List LogEntry) → IsRun base (e ∷ es) → e.index ≡ base + 1
IsRun-first base e es r = r.0

module _ {W : Type 0} where
  -- The request to a peer whose next index lies above the leader's snapshot: in the leader's term,
  -- with the entries that follow `prev_log_index`, which are the leader's.
  pub append_request-IsRun :
      (config : NodeConfig) (n : Inner W) (ls : LeaderState) (peer : ℕ)
      → IsContiguous n.log
      → n.log.snapshot_index < next_for ls peer
      → let r = append_request config n ls peer in
        (r.term ≡ n.state.persistent.current_term)
        × (r.leader_id ≡ config.id)
        × (r.prev_log_index + 1 ≡ next_for ls peer)
        × IsRun r.prev_log_index r.entries
        × ((j : ℕ) → get_elem? r.entries j ≡ get n.log (next_for ls peer + j))
  unfolding append_request
  append_request-IsRun config n ls peer c h = (
    refl,
    refl,
    omega arith,
    entries_from-IsRun n.log (next_for ls peer) c h,
    λ j. get_elem?-entries_from n.log (next_for ls peer) j h,
  )

  request_at_sentinel :
      (config : NodeConfig) (l : Inner W) (ls : LeaderState) (peer : ℕ) (e : LogEntry)
      (es : List LogEntry)
      → l.log.entries ≡ e ∷ es
      → 0 < l.log.snapshot_index
      → next_for ls peer ≡ 1
      → ((append_request config l ls peer).prev_log_index ≡ 0)
        × ((append_request config l ls peer).entries ≡ e ∷ es)
        × ((append_request config l ls peer).term ≡ l.state.persistent.current_term)
  unfolding append_request entries_from
  request_at_sentinel config l ls peer e es le cut next =
      (omega arith, rw next (ground arith), refl)

module _ {W : Type 0} ⦃wal : Wal W⦄ (reliable : NeverFails wal) where
  -- Replication from end to end. A follower that answers the leader's request with success has every
  -- entry of the leader's log from the next index on, whole as the leader has it, unless it had an
  -- entry of that index and term before, which it keeps. The next index lies above the leader's
  -- snapshot, both logs are contiguous, the follower has no snapshot where the request starts at the
  -- sentinel, and its writes to the WAL succeed.
  pub append_request_replicates :
      (config : NodeConfig) (l f : Inner W) (ls : LeaderState) (peer now i : ℕ) (e : LogEntry)
      → IsContiguous l.log
      → IsContiguous f.log
      → l.log.snapshot_index < next_for ls peer
      → (next_for ls peer ≡ 1 → f.log.snapshot_index ≡ 0)
      → (handle_append_entries f (append_request config l ls peer) now).1.success ≡ true
      → next_for ls peer ≤ i
      → get l.log i ≡ some e
      → IsPlaced f.log e (handle_append_entries f (append_request config l ls peer) now).0.log
  append_request_replicates config l f ls peer now i e cl cf h z ok le found =
      let (_, _, p, run, at) = append_request-IsRun config l ls peer cl h in
      let r = append_request config l ls peer in
      let stored =
        handle_append_entries-IsStored reliable f r now cf run (λ q. z (omega arith)) ok in
      let same : next_for ls peer + (i - next_for ls peer) ≡ i = omega arith in
      stored.0.placed (i - next_for ls peer) e (at (i - next_for ls peer) ∙ rw same found)

  -- A leader whose log was cut by a snapshot and whose next index for a peer is 1 sends the entries
  -- behind its snapshot with the sentinel before them. A peer with an empty log reports success and
  -- then reads the first of them, whose index is not 1, at index 1. The leader's log is contiguous, its
  -- term is not below the peer's, and the peer's writes to the WAL succeed.
  pub append_request_gap :
      (config : NodeConfig) (l f : Inner W) (ls : LeaderState) (peer now : ℕ) (e : LogEntry)
      (es : List LogEntry)
      → IsContiguous l.log
      → l.log.entries ≡ e ∷ es
      → 0 < l.log.snapshot_index
      → next_for ls peer ≡ 1
      → f.log.entries ≡ []
      → f.log.snapshot_index ≡ 0
      → f.state.persistent.current_term ≤ l.state.persistent.current_term
      → let answer = handle_append_entries f (append_request config l ls peer) now in
        (answer.1.success ≡ true)
        × (get answer.0.log 1 ≡ some e)
        × (e.index ≡ l.log.snapshot_index + 1)
        × (e.index ≢ 1)
  append_request_gap config l f ls peer now e es cl le cut next fe fs term =
      let r = append_request config l ls peer in
      let sent = request_at_sentinel config l ls peer e es le cut next in
      let answer = handle_append_entries-sentinel f r now (rw sent.2 term) sent.0 in
      let at = get-append f.log (e ∷ es) 1 (append_ok reliable f.log (e ∷ es)) in
      let first = IsRun-first l.log.snapshot_index e es (rw le at cl.run) in
      (
        answer.0,
        rw (answer.1, sent.1)
            (rw (store_entries-empty f.log e es fe) (at ∙ ground (arith, fe, fs))),
        first,
        omega arith,
      )
