-- ===== src/Node/Handover.antt =====
-- Linearizable reads and leadership transfers in crates/raft-consensus/src/node.rs.
pub mod Transfers
use raftrust.Prelude.{
  ℕ, ◌⊎◌, inl, inr, Bool, true, false, not, Option, none, some, List, [], leb, ltb, ◌==◌,
  if◌then◌else◌, some_or, is_some,
}
use raftrust.Prelude.Maps.{lookup}
use raftrust.Message.{VoteRequest, TimeoutNow, ProposalResult, not_leader}
use raftrust.Log.{last_index}
use raftrust.State.{leader, role_eq}
use raftrust.Membership.{current_size, is_voter}
use raftrust.ReadIndex.{register, record_ack, is_confirmed, take_confirmed}
use raftrust.Transfer.{
  TransferState, new_transfer, is_expired, TransferError, already_in_progress,
  target_not_in_cluster, already_leader,
}
use raftrust.Node.{NodeConfig, Inner}
use raftrust.Node.Vote.{start_election}

module _ {W : Type 0} where
  unfoldable pub request_read_index : NodeConfig → Inner W → Inner W × (ProposalResult ⊎ (ℕ × ℕ))
  request_read_index config inner =
      if not (role_eq inner.state.role leader)
      then (inner, inl (not_leader inner.state.leader_id))
      else (let registered =
            register inner.read_index_state inner.state.commit_index config.id
              (current_size inner.membership) in
          (
            record inner { read_index_state = registered.0 },
            inr (registered.1, inner.state.commit_index),
          ))

  unfoldable pub read_index_ack : Inner W → ℕ → Inner W × List ℕ
  read_index_ack inner from =
      let acked = record_ack inner.read_index_state from in
      (record inner { read_index_state = acked.0 }, acked.1)

  unfoldable pub is_read_index_confirmed : Inner W → ℕ → Bool
  is_read_index_confirmed inner id = is_confirmed inner.read_index_state id

  unfoldable pub take_read_index : Inner W → ℕ → Inner W × Option ℕ
  take_read_index inner id =
      let taken = take_confirmed inner.read_index_state id in
      (record inner { read_index_state = taken.0 }, taken.1)

  unfoldable pub transfer_leadership :
      NodeConfig → Inner W → ℕ → ℕ → Inner W × (TransferError ⊎ Unit {0})
  transfer_leadership config inner target now =
      if not (role_eq inner.state.role leader)
      then (inner, inl TransferError.not_leader)
      else if target == config.id
      then (inner, inl already_leader)
      else if is_some inner.transfer_state
      then (inner, inl already_in_progress)
      else if not (is_voter inner.membership target)
      then (inner, inl target_not_in_cluster)
      else (record inner { transfer_state = some (new_transfer target now) }, inr tt)

  -- The match index known for a node, 0 where there is none.
  unfoldable pub target_match : Inner W → ℕ → ℕ
  target_match inner target = elim inner.leader_state [
    | none ↦ 0
    | some ls ↦ some_or 0 (lookup target ls.match_index)
  ]

  unfoldable pub check_transfer_progress : Inner W → Inner W × Option ℕ
  unfolding target_match
  check_transfer_progress inner = elim inner.transfer_state [
    | none ↦ (inner, none)
    | some t ↦
        if t.timeout_now_sent
        then (inner, none)
        else if leb (last_index inner.log) (target_match inner t.target)
        then (
          record inner { transfer_state = some (record t { timeout_now_sent = true }) },
          some t.target,
        )
        else (inner, none)
  ]

  unfoldable pub check_transfer_timeout : Inner W → ℕ → ℕ → Inner W × Bool
  check_transfer_timeout inner timeout_ms now = elim inner.transfer_state [
    | none ↦ (inner, false)
    | some t ↦
        if is_expired t timeout_ms now
        then (record inner { transfer_state = none }, true)
        else (inner, false)
  ]

  -- Behind its guard the handler does what `start_election` does.
  unfoldable pub handle_timeout_now :
      NodeConfig → Inner W → TimeoutNow → Inner W × List (ℕ × VoteRequest)
  handle_timeout_now config inner msg =
      if ltb msg.term inner.state.persistent.current_term
      then (inner, [])
      else start_election config inner
