-- ===== src/Message.antt =====
-- crates/raft-consensus/src/message.rs: the messages of the Raft node, and the log entries in them.
use raftrust.Prelude.{ℕ, Bool, List, Option}

pub data EntryType : Type 0 where
  normal config_change noop : EntryType

-- The field `data` is `payload` here.
pub record LogEntry : Type 0 where
  pub index : ℕ
  pub term : ℕ
  pub payload : List ℕ
  pub entry_type : EntryType

pub record VoteRequest : Type 0 where
  pub term : ℕ
  pub candidate_id : ℕ
  pub last_log_index : ℕ
  pub last_log_term : ℕ
  pub is_pre_vote : Bool

pub record VoteResponse : Type 0 where
  pub term : ℕ
  pub vote_granted : Bool

pub record AppendRequest : Type 0 where
  pub term : ℕ
  pub leader_id : ℕ
  pub prev_log_index : ℕ
  pub prev_log_term : ℕ
  pub entries : List LogEntry
  pub leader_commit : ℕ

pub record AppendResponse : Type 0 where
  pub term : ℕ
  pub success : Bool
  pub match_index : ℕ

pub record TimeoutNow : Type 0 where
  pub term : ℕ
  pub leader_id : ℕ

-- The outcomes of a proposal that failed; `Success` is the `inr` of the operations.
pub data ProposalResult : Type 0 where
  not_leader : Option ℕ → ProposalResult
  transfer_in_progress : ProposalResult
  error : ProposalResult
