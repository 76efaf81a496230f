-- ===== src/Node/Step.antt =====
-- A Raft node as a whole: every call of crates/raft-consensus/src/node.rs that changes its state, and a
-- restart from the disk, as one step.
use raftrust.Prelude.{ℕ, ◌+◌, ◌<◌, ◌^◌, Bool, List}
use raftrust.Message.{VoteRequest, VoteResponse, AppendRequest, AppendResponse, TimeoutNow}
use raftrust.Log.{Wal, RaftLog}
use raftrust.Membership.{ConfigChange, Serde}
use raftrust.Snapshot.{SnapshotMetadata, SnapshotManager}
use raftrust.Node.{NodeConfig, Inner, new_node}
use raftrust.Node.Vote
use raftrust.Node.Append
use raftrust.Node.Lead
use raftrust.Node.Handover
use raftrust.Node.Install
use raftrust.Node.Config

-- The calls, with the clock and the snapshot directory as they are at the call.
pub data Event (W S : Type 0) : Type 0 where
  start_pre_vote start_election : Event W S
  vote_request : VoteRequest → Event W S
  vote_response : ℕ → VoteResponse → Bool → Event W S
  append_entries : AppendRequest → ℕ → Event W S
  append_response : ℕ → AppendResponse → Event W S
  propose : List ℕ → Event W S
  take_committed : Event W S
  read_request : Event W S
  read_ack take_read : ℕ → Event W S
  transfer : ℕ → ℕ → Event W S
  transfer_progress : Event W S
  transfer_timeout : ℕ → ℕ → Event W S
  timeout_now : TimeoutNow → Event W S
  snapshot : S → List ℕ → Event W S
  install : S → ℕ → ℕ → SnapshotMetadata → List ℕ → Event W S
  propose_change : ConfigChange → Event W S
  apply_change : List ℕ → Event W S
  restart : RaftLog W → ℕ → Event W S

module _ {W : Type 0} (S : Type 0) ⦃wal : Wal W⦄ ⦃mgr : SnapshotManager S⦄ (serde : Serde)
    (config : NodeConfig) where
  unfoldable pub step : Inner W → Event W S → Inner W
  step n start_pre_vote = (Vote.start_pre_vote config n).0
  step n start_election = (Vote.start_election config n).0
  step n (vote_request r) = (Vote.handle_vote_request n r).0
  step n (vote_response from r was_pre_vote) =
      (Vote.handle_vote_response config n from r was_pre_vote).0
  step n (append_entries r now) = (Append.handle_append_entries n r now).0
  step n (append_response from r) = Lead.handle_append_response n from r
  step n (propose payload) = (Lead.propose config n payload).0
  step n take_committed = (Lead.take_committed_entries n).0
  step n read_request = (Handover.request_read_index config n).0
  step n (read_ack from) = (Handover.read_index_ack n from).0
  step n (take_read id) = (Handover.take_read_index n id).0
  step n (transfer target now) = (Handover.transfer_leadership config n target now).0
  step n transfer_progress = (Handover.check_transfer_progress n).0
  step n (transfer_timeout timeout_ms now) = (Handover.check_transfer_timeout n timeout_ms now).0
  step n (timeout_now msg) = (Handover.handle_timeout_now config n msg).0
  step n (snapshot s snapshot_data) = (Install.trigger_snapshot s n snapshot_data).1
  step n (install s term leader_id m snapshot_data) =
      (Install.handle_install_snapshot s n term leader_id m snapshot_data).1
  step n (propose_change change) = (Config.propose_config_change serde config n change).0
  step n (apply_change payload) = (Config.apply_config_change serde config n payload).0
  step n (restart log now) = new_node config n.state_file log now

  -- Runs of the node in which the term stays clear of the end of `u64`.
  pub data Run (a : Inner W) : Inner W → Type 0 where
    here : Run a a
    next :
        {b : Inner W}
        → Run a b
        → b.state.persistent.current_term + 1 < 2 ^ 64
        → (e : Event W S) → Run a (step b e)
