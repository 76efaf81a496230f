-- ===== src/Node.antt =====
-- crates/raft-consensus/src/node.rs: the Raft node. An operation takes the state behind the mutex to the
-- state it leaves and its result. Log output is left out.
pub mod Vote
pub mod Append
pub mod Lead
pub mod Handover
pub mod Install
pub mod Config
pub mod Step
pub mod Durable
pub mod OneVote
use raftrust.Prelude.{ℕ, ◌+◌, Bool, true, false, Option, none, some, List, [], ◌∷◌, length, wrap64}
use raftrust.Prelude.Maps.{insert}
use raftrust.Message.{LogEntry, noop}
use raftrust.Log.{Wal, RaftLog, append, last_index}
use raftrust.State.{
  Role, follower, leader, PersistentState, StateFile, save, load, RaftState, LeaderState,
  new_leader, ElectionState,
}
use raftrust.Membership.{MembershipState, new_membership, abort_change}
use raftrust.ReadIndex.{ReadIndexState, new_read_index, clear}
use raftrust.Transfer.{TransferState}
use Prim.Native.String.{String}

-- crates/raft-consensus/src/tick.rs; durations in milliseconds.
pub record TickConfig : Type 0 where
  pub election_timeout_min : ℕ
  pub election_timeout_max : ℕ
  pub heartbeat_interval : ℕ

pub record NodeConfig : Type 0 where
  pub id : ℕ
  pub peers : List ℕ
  pub data_dir : String
  pub tick_config : TickConfig

-- `RaftNodeInner`, and the file raft_state.json beside it.
pub record Inner (W : Type 0) : Type 0 where
  pub state : RaftState
  pub log : RaftLog W
  pub leader_state : Option LeaderState
  pub election_state : Option ElectionState
  pub read_index_state : ReadIndexState
  pub transfer_state : Option TransferState
  pub membership : MembershipState
  pub last_heartbeat : ℕ
  pub state_file : StateFile

unfoldable pub cluster_size : NodeConfig → ℕ
cluster_size config = length config.peers + 1

module _ {W : Type 0} where
  -- `RaftNode::new`, once the directory is there and the log is open.
  unfoldable pub new_node : NodeConfig → StateFile → RaftLog W → ℕ → Inner W
  new_node config file log now = record {
    state = record {
      id = config.id;
      role = follower;
      persistent = load file;
      leader_id = none;
      commit_index = 0;
      last_applied = 0;
    };
    log = log;
    leader_state = none;
    election_state = none;
    read_index_state = new_read_index;
    transfer_state = none;
    membership = new_membership config.id config.peers;
    last_heartbeat = now;
    state_file = file;
  }

  unfoldable pub step_down_inner : Inner W → ℕ → Inner W
  step_down_inner inner new_term =
      let persistent : PersistentState = record { current_term = new_term; voted_for = none } in
      record inner {
        state = record inner.state { persistent = persistent; role = follower; leader_id = none };
        leader_state = none;
        election_state = none;
        read_index_state = clear inner.read_index_state;
        transfer_state = none;
        membership = abort_change inner.membership;
        state_file = save persistent inner.state_file;
      }

  -- `leader.match_index.insert(self.config.id, last_idx)`, where there is a leader state.
  unfoldable pub note_own_match : NodeConfig → Inner W → Inner W
  note_own_match config inner = record inner {
    leader_state = elim inner.leader_state [
      | none ↦ none
      | some ls ↦
          some (record ls { match_index = insert config.id (last_index inner.log) ls.match_index })
    ];
  }

module _ {W : Type 0} ⦃wal : Wal W⦄ where
  -- An error of the append is dropped.
  unfoldable pub append_noop : Inner W → Inner W
  append_noop inner = record inner {
    log =
        (append inner.log (
          record {
            index = wrap64 (last_index inner.log + 1);
            term = inner.state.persistent.current_term;
            payload = [];
            entry_type = noop;
          }
          ∷ [])).0;
  }

  unfoldable pub become_leader_inner : NodeConfig → Inner W → Inner W
  unfolding append_noop note_own_match
  become_leader_inner config inner = note_own_match config (
      append_noop (record inner {
        state = record inner.state { role = leader; leader_id = some config.id };
        election_state = none;
        leader_state = some (new_leader config.peers (last_index inner.log));
      }))
