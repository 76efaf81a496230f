-- ===== src/Node/Append/Accept.antt =====
-- `handle_append_entries` of crates/raft-consensus/src/node.rs on each of its branches.
use raftrust.Log.Extend.{NeverFails}
use raftrust.Node.Append.Redeliver.{store_entries-held}
use raftrust.Node.Append.Committed.{store_entries-committed}
use raftrust.Prelude.{
  ℕ, zero, suc, ◌≤◌, ◌<◌, ◌≡◌, refl, sym, ◌∙◌, ◌⊎◌, inl, inr, true, false, some, arith, min,
  get_elem?,
}
use mathlib.Core.Bool.{false≢true}
use raftrust.Message.{AppendRequest, LogEntry}
use raftrust.Log.{Wal, RaftLog, get, last_index, match_term}
use raftrust.Log.Index.{IsRun, IsContiguous}
use raftrust.Log.Cut.{match_term_bounds, reaches_of_kept}
use raftrust.State.{follower}
use raftrust.Node.{Inner, step_down_inner}
use raftrust.Node.Append.{handle_append_entries, store_entries}
use raftrust.Node.Append.Merge.{IsStored, IsPlaced-Holds, store_entries-IsStored, AgreesUpTo}

module _ {W : Type 0} ⦃wal : Wal W⦄ where
  -- A request of an older term changes nothing, and is answered with the current term and failure.
  pub handle_append_entries-stale :
      (n : Inner W) (r : AppendRequest) (now : ℕ)
      → r.term < n.state.persistent.current_term
      → handle_append_entries n r now
        ≡ (n, record { term = n.state.persistent.current_term; success = false; match_index = 0 })
  unfolding handle_append_entries
  handle_append_entries-stale n r now h = ground arith

  -- A request of a term that is not older makes the node a follower of the sender in that term.
  pub handle_append_entries-follows :
      (n : Inner W) (r : AppendRequest) (now : ℕ)
      → n.state.persistent.current_term ≤ r.term
      → let n' = (handle_append_entries n r now).0 in
        (n'.state.persistent.current_term ≡ r.term)
        × (n'.state.role ≡ follower)
        × (n'.state.leader_id ≡ some r.leader_id)
        × (n'.last_heartbeat ≡ now)
        × ((handle_append_entries n r now).1.term ≡ r.term)
  unfolding handle_append_entries step_down_inner
  handle_append_entries-follows n r now h = ground arith

  -- What the handler does to the log and the commit index when it reports success, and otherwise.
  pub handle_append_entries-log :
      (n : Inner W) (r : AppendRequest) (now : ℕ)
      → let n' = (handle_append_entries n r now).0 in
        (((handle_append_entries n r now).1.success ≡ true)
          × (n'.log ≡ store_entries n.log r.entries)
          × ((r.prev_log_index ≡ 0) ⊎ (match_term n.log r.prev_log_index r.prev_log_term ≡ true))
          × ((handle_append_entries n r now).1.match_index ≡ last_index n'.log))
        ⊎ (((handle_append_entries n r now).1.success ≡ false) × (n'.log ≡ n.log))
  unfolding handle_append_entries step_down_inner
  handle_append_entries-log n r now = ground arith

  -- The commit index stays, or moves to the smaller of the leader's and the last index.
  pub handle_append_entries-commit :
      (n : Inner W) (r : AppendRequest) (now : ℕ)
      → let n' = (handle_append_entries n r now).0 in
        (n'.state.commit_index ≡ n.state.commit_index)
        ⊎ ((n.state.commit_index < r.leader_commit)
            × (n'.state.commit_index ≡ min r.leader_commit (last_index n'.log)))
  unfolding handle_append_entries step_down_inner
  handle_append_entries-commit n r now = ground arith

  -- A request at the sentinel, of a term that is not older, stores its entries.
  pub handle_append_entries-sentinel :
      (n : Inner W) (r : AppendRequest) (now : ℕ)
      → n.state.persistent.current_term ≤ r.term
      → r.prev_log_index ≡ 0
      → ((handle_append_entries n r now).1.success ≡ true)
        × ((handle_append_entries n r now).0.log ≡ store_entries n.log r.entries)
  unfolding handle_append_entries step_down_inner
  handle_append_entries-sentinel n r now h z = ground arith

  -- A request can match only at the snapshot or behind it.
  prev_bounds :
      (log : RaftLog W) (i t : ℕ)
      → IsContiguous log
      → (i ≡ 0) ⊎ (match_term log i t ≡ true)
      → (i ≡ 0 → log.snapshot_index ≡ 0)
      → (log.snapshot_index ≤ i) × (i ≤ last_index log)
  prev_bounds log zero t c m z = (omega (arith, z refl), omega arith)
  prev_bounds log (suc i) t c (inl e) z = absurd (omega arith)
  prev_bounds log (suc i) t c (inr m) z = match_term_bounds log (suc i) t c (omega arith) m

  -- Where the handler keeps the log up to the commit index, the commit index does not fall.
  commit_grows :
      (n : Inner W) (r : AppendRequest) (now : ℕ)
      → IsContiguous n.log
      → n.state.commit_index ≤ last_index n.log
      → IsContiguous (handle_append_entries n r now).0.log
      → (handle_append_entries n r now).0.log.snapshot_index ≡ n.log.snapshot_index
      → ((k : ℕ)
          → k ≤ n.state.commit_index
          → get (handle_append_entries n r now).0.log k ≡ get n.log k)
      → ((k : ℕ)
          → k ≤ n.state.commit_index
          → get (handle_append_entries n r now).0.log k ≡ get n.log k)
        × (n.state.commit_index ≤ (handle_append_entries n r now).0.state.commit_index)
        × ((handle_append_entries n r now).0.state.commit_index
            ≤ last_index (handle_append_entries n r now).0.log)
  commit_grows n r now c within c' p kept =
      let reached =
        reaches_of_kept n.log (handle_append_entries n r now).0.log n.state.commit_index c c' p
          within (kept n.state.commit_index (omega arith)) in
      (
        kept,
        omega (arith, handle_append_entries-commit n r now),
        omega (arith, handle_append_entries-commit n r now),
      )

module _ {W : Type 0} ⦃wal : Wal W⦄ (reliable : NeverFails wal) where
  -- Log matching. A request whose entries follow `prev_log_index`, answered with success: each of its
  -- entries is then in the log at its index, whole as it was sent, unless the log had an entry of that
  -- index and term before, which it keeps; the log up to `prev_log_index` is as it was, it has no gap,
  -- and the reported match index is its last index. The log had no gap before, the writes to the WAL
  -- succeed, and a request that starts at the sentinel reaches no log that was cut by a snapshot.
  pub handle_append_entries-IsStored :
      (n : Inner W) (r : AppendRequest) (now : ℕ)
      → IsContiguous n.log
      → IsRun r.prev_log_index r.entries
      → (r.prev_log_index ≡ 0 → n.log.snapshot_index ≡ 0)
      → (handle_append_entries n r now).1.success ≡ true
      → IsStored n.log r.prev_log_index r.entries (handle_append_entries n r now).0.log
        × ((handle_append_entries n r now).1.match_index
            ≡ last_index (handle_append_entries n r now).0.log)
  handle_append_entries-IsStored n r now c run z ok = elim (handle_append_entries-log n r now) [
    | inl (_, stored, m, i) ↦
        let b = prev_bounds n.log r.prev_log_index r.prev_log_term c m z in
        (
          rw stored
              (store_entries-IsStored reliable n.log r.prev_log_index r.entries c run b.0 b.1),
          i,
        )
    | inr (failed, _) ↦ absurd (false≢true (sym failed ∙ ok))
  ]

  -- The same request, answered with success and delivered again to the node that it was stored at,
  -- changes no entry. The log is contiguous, the entries follow `prev_log_index`, the writes to the
  -- WAL succeed, and a request that starts at the sentinel reaches no log cut by a snapshot.
  pub handle_append_entries_again :
      (n : Inner W) (r : AppendRequest) (now later : ℕ)
      → IsContiguous n.log
      → IsRun r.prev_log_index r.entries
      → (r.prev_log_index ≡ 0 → n.log.snapshot_index ≡ 0)
      → (handle_append_entries n r now).1.success ≡ true
      → (handle_append_entries (handle_append_entries n r now).0 r later).0.log
        ≡ (handle_append_entries n r now).0.log
  handle_append_entries_again n r now later c run z ok =
      let n' = (handle_append_entries n r now).0 in
      let placed = (handle_append_entries-IsStored n r now c run z ok).0.placed in
      let held = λ (j : ℕ) (e : LogEntry) (h : get_elem? r.entries j ≡ some e).
        IsPlaced-Holds n.log n'.log e (placed j e h) in
      elim (handle_append_entries-log n' r later) [
        | inl (_, stored, _, _) ↦ stored ∙ store_entries-held n'.log r.entries held
        | inr (_, same) ↦ same
      ]

  -- Committed entries stay: where the request's entries have the terms of the log's up to the commit
  -- index, no entry up to the commit index changes, and the commit index does not fall. The log is
  -- contiguous and reaches the commit index, the entries follow `prev_log_index`, the writes to the
  -- WAL succeed, and a request that starts at the sentinel reaches no log cut by a snapshot.
  pub handle_append_entries-committed :
      (n : Inner W) (r : AppendRequest) (now : ℕ)
      → IsContiguous n.log
      → IsRun r.prev_log_index r.entries
      → (r.prev_log_index ≡ 0 → n.log.snapshot_index ≡ 0)
      → n.state.commit_index ≤ last_index n.log
      → AgreesUpTo n.log n.state.commit_index r.entries
      → ((k : ℕ)
          → k ≤ n.state.commit_index
          → get (handle_append_entries n r now).0.log k ≡ get n.log k)
        × (n.state.commit_index ≤ (handle_append_entries n r now).0.state.commit_index)
        × ((handle_append_entries n r now).0.state.commit_index
            ≤ last_index (handle_append_entries n r now).0.log)
  handle_append_entries-committed n r now c run z within a =
      elim (handle_append_entries-log n r now) [
        | inl (_, stored, m, _) ↦
            let b = prev_bounds n.log r.prev_log_index r.prev_log_term c m z in
            let s =
              store_entries-IsStored reliable n.log r.prev_log_index r.entries c run b.0 b.1 in
            let kept =
              store_entries-committed reliable n.log r.prev_log_index n.state.commit_index r.entries
                c run b.0 b.1 within a in
            commit_grows n r now c within (rw stored s.contiguous) (rw stored s.snapshot)
              (rw stored kept)
        | inr (_, same) ↦
            commit_grows n r now c within (rw same c) (rw same refl) (rw same (λ k h. refl))
      ]
