-- ===== src/Node/Durable.antt =====
-- The term and the vote of a node in crates/raft-consensus/src/node.rs, in memory and in raft_state.json.
use raftrust.Prelude.{
  ℕ, ◌+◌, ◌≤◌, ◌<◌, ◌^◌, ◌≡◌, refl, true, Bool, some, arith, List, [], zero, suc,
}
use raftrust.Message.{
  LogEntry, VoteRequest, VoteResponse, AppendRequest, AppendResponse, TimeoutNow,
}
use raftrust.Log.{Wal, RaftLog}
use raftrust.State.{load, save}
use raftrust.Node.{Inner, NodeConfig, step_down_inner, become_leader_inner, new_node}
use raftrust.Election.{should_grant_vote}
use raftrust.Node.Vote.{start_election, handle_vote_request, handle_vote_response}
use raftrust.Node.Append.{handle_append_entries}
use raftrust.Prelude.{◌-◌}
use raftrust.Membership.{Serde, ConfigChange}
use raftrust.Snapshot.{SnapshotManager, SnapshotMetadata}
use raftrust.Node.Handover.{
  transfer_leadership, check_transfer_progress, check_transfer_timeout, handle_timeout_now,
  request_read_index,
}
use raftrust.Node.Install.{trigger_snapshot, handle_install_snapshot}
use raftrust.Node.Config.{propose_config_change, apply_config_change}
use raftrust.Node.Lead.{
  take_loop, take_next, try_advance_commit, handle_append_response, take_committed_entries, propose,
}

module _ {W : Type 0} where
  -- The state file takes writes and holds the term and the vote.
  pub record IsDurable (n : Inner W) : Type 0 where
    pub saved : load n.state_file ≡ n.state.persistent
    pub writes : n.state_file.writable ≡ true

  -- The term does not fall, within a term a vote stays as it is, and both are on disk.
  pub record Advances (a b : Inner W) : Type 0 where
    pub durable : IsDurable b
    pub term_le : a.state.persistent.current_term ≤ b.state.persistent.current_term
    pub vote_kept :
        (v : ℕ)
        → a.state.persistent.current_term ≡ b.state.persistent.current_term
        → a.state.persistent.voted_for ≡ some v
        → b.state.persistent.voted_for ≡ some v

  -- An operation that leaves the term, the vote and the state file alone.
  pub Advances-same :
      (a b : Inner W)
      → IsDurable a
      → b.state.persistent ≡ a.state.persistent
      → b.state_file ≡ a.state_file
      → Advances a b
  Advances-same a b d p f = ground arith

  pub Advances-trans : (a b c : Inner W) → Advances a b → Advances b c → Advances a c
  Advances-trans a b c p q = record {
    durable = q.durable;
    term_le = omega arith;
    vote_kept = λ v e h. ground (arith, p.vote_kept v, q.vote_kept v);
  }

  pub step_down_inner-Advances :
      (n : Inner W) (term : ℕ)
      → IsDurable n
      → n.state.persistent.current_term < term
      → Advances n (step_down_inner n term)
  unfolding step_down_inner load save
  step_down_inner-Advances n term d h = ground arith

  pub start_election-Advances :
      (config : NodeConfig) (n : Inner W)
      → IsDurable n
      → n.state.persistent.current_term + 1 < 2 ^ 64
      → Advances n (start_election config n).0
  unfolding start_election load save
  start_election-Advances config n d h = ground arith

  pub handle_vote_request-Advances :
      (n : Inner W) (r : VoteRequest) → IsDurable n → Advances n (handle_vote_request n r).0
  unfolding handle_vote_request step_down_inner load save should_grant_vote
  handle_vote_request-Advances n r d = ground arith

module _ {W : Type 0} ⦃wal : Wal W⦄ where
  pub handle_vote_response-Advances :
      (config : NodeConfig) (n : Inner W) (from : ℕ) (r : VoteResponse) (was_pre_vote : Bool)
      → IsDurable n
      → Advances n (handle_vote_response config n from r was_pre_vote).0
  unfolding handle_vote_response become_leader_inner step_down_inner load save
  handle_vote_response-Advances config n from r was_pre_vote d = ground arith

  pub handle_append_entries-Advances :
      (n : Inner W) (r : AppendRequest) (now : ℕ)
      → IsDurable n
      → Advances n (handle_append_entries n r now).0
  unfolding handle_append_entries step_down_inner load save
  handle_append_entries-Advances n r now d = ground arith

  pub propose-Advances :
      (config : NodeConfig) (n : Inner W) (p : List ℕ)
      → IsDurable n
      → Advances n (propose config n p).0
  unfolding propose
  propose-Advances config n p d = ground arith

module _ {W : Type 0} where
  pub try_advance_commit-state :
      (n : Inner W)
      → ((try_advance_commit n).state.persistent ≡ n.state.persistent)
        × ((try_advance_commit n).state_file ≡ n.state_file)
  unfolding try_advance_commit
  try_advance_commit-state n = ground arith

  pub handle_append_response-Advances :
      (n : Inner W) (from : ℕ) (r : AppendResponse)
      → IsDurable n
      → Advances n (handle_append_response n from r)
  unfolding handle_append_response try_advance_commit step_down_inner load save
  handle_append_response-Advances n from r d = ground arith

  take_loop-state :
      (fuel : ℕ) (s : Inner W × List LogEntry)
      → ((take_loop fuel s).0.state.persistent ≡ s.0.state.persistent)
        × ((take_loop fuel s).0.state_file ≡ s.0.state_file)
  unfolding take_loop take_next
  take_loop-state zero s = (refl, refl)
  take_loop-state (suc fuel) (n, es) = ground (arith, take_loop-state fuel (take_next (n, es)))

  pub take_committed_entries-Advances :
      (n : Inner W) → IsDurable n → Advances n (take_committed_entries n).0
  unfolding take_committed_entries
  take_committed_entries-Advances n d =
      ground (arith, take_loop-state (n.state.commit_index - n.state.last_applied) (n, []))

  pub transfer-Advances :
      (config : NodeConfig) (n : Inner W) (target now : ℕ)
      → IsDurable n
      → Advances n (transfer_leadership config n target now).0
  unfolding transfer_leadership
  transfer-Advances config n target now d = ground arith

  pub progress-Advances : (n : Inner W) → IsDurable n → Advances n (check_transfer_progress n).0
  unfolding check_transfer_progress
  progress-Advances n d = ground arith

  pub timeout-Advances :
      (n : Inner W) (ms now : ℕ) → IsDurable n → Advances n (check_transfer_timeout n ms now).0
  unfolding check_transfer_timeout
  timeout-Advances n ms now d = ground arith

  pub timeout_now-Advances :
      (config : NodeConfig) (n : Inner W) (msg : TimeoutNow)
      → IsDurable n
      → n.state.persistent.current_term + 1 < 2 ^ 64
      → Advances n (handle_timeout_now config n msg).0
  unfolding handle_timeout_now
  timeout_now-Advances config n msg d h = ground (arith, start_election-Advances config n d h)

  pub read_request-Advances :
      (config : NodeConfig) (n : Inner W) → IsDurable n → Advances n (request_read_index config n).0
  unfolding request_read_index
  read_request-Advances config n d = ground arith

  pub restart-Advances :
      (config : NodeConfig) (n : Inner W) (log : RaftLog W) (now : ℕ)
      → IsDurable n
      → Advances n (new_node config n.state_file log now)
  unfolding new_node
  restart-Advances config n log now d = ground arith

module _ {W S : Type 0} ⦃mgr : SnapshotManager S⦄ where
  pub trigger_snapshot-Advances :
      (s : S) (n : Inner W) (p : List ℕ) → IsDurable n → Advances n (trigger_snapshot s n p).1
  unfolding trigger_snapshot
  trigger_snapshot-Advances s n p d = ground arith

  pub install_snapshot-Advances :
      (s : S) (n : Inner W) (term id : ℕ) (m : SnapshotMetadata) (p : List ℕ)
      → IsDurable n
      → Advances n (handle_install_snapshot s n term id m p).1
  unfolding handle_install_snapshot step_down_inner load save
  install_snapshot-Advances s n term id m p d = ground arith

module _ {W : Type 0} ⦃wal : Wal W⦄ (serde : Serde) where
  pub propose_config_change-Advances :
      (config : NodeConfig) (n : Inner W) (c : ConfigChange)
      → IsDurable n
      → Advances n (propose_config_change serde config n c).0
  unfolding propose_config_change
  propose_config_change-Advances config n c d = ground arith

  pub apply_config_change-Advances :
      (config : NodeConfig) (n : Inner W) (p : List ℕ)
      → IsDurable n
      → Advances n (apply_config_change serde config n p).0
  unfolding apply_config_change
  apply_config_change-Advances config n p d = ground arith
