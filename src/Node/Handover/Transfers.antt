-- ===== src/Node/Handover/Transfers.antt =====
-- A leadership transfer in crates/raft-consensus/src/node.rs, from its start to TimeoutNow or the timeout.
use raftrust.Prelude.{
  ℕ, ◌-◌, ◌≤◌, ◌<◌, ◌≡◌, ◌≢◌, ◌↔◌, inl, inr, true, false, none, some, arith, Option-cases,
}
use raftrust.Log.{last_index}
use raftrust.State.{leader, role_eq}
use raftrust.Membership.{is_voter}
use raftrust.Transfer.{TransferState, new_transfer, is_expired}
use raftrust.Node.{NodeConfig, Inner}
use raftrust.Node.Handover.{
  transfer_leadership, check_transfer_progress, check_transfer_timeout, target_match,
}

module _ {W : Type 0} where
  -- A transfer begins exactly at a leader with no transfer under way, to another node that votes. Then
  -- it is recorded with its target and start, and TimeoutNow is not sent yet.
  pub transfer_leadership_begins :
      (config : NodeConfig) (n : Inner W) (target now : ℕ)
      → ((transfer_leadership config n target now).1 ≡ inr tt) ↔ (
          (n.state.role ≡ leader)
          × (target ≢ config.id)
          × (n.transfer_state ≡ none)
          × (is_voter n.membership target ≡ true)
          × ((transfer_leadership config n target now).0 ≡ record n {
            transfer_state =
                some (record { target = target; started_at = now; timeout_now_sent = false });
          }))
  unfolding transfer_leadership role_eq new_transfer
  transfer_leadership_begins config n target now = (λ h. ground arith, λ h. ground arith)

  -- TimeoutNow goes to the target once its log reaches the leader's end, and is not sent again.
  pub check_transfer_progress_once :
      (n : Inner W) (target : ℕ)
      → (check_transfer_progress n).1 ≡ some target
      → (last_index n.log ≤ target_match n target)
        × ((t : TransferState) × (n.transfer_state ≡ some t)
            × (t.target ≡ target)
            × (t.timeout_now_sent ≡ false))
        × ((check_transfer_progress (check_transfer_progress n).0).1 ≡ none)
  unfolding check_transfer_progress
  check_transfer_progress_once n target h = elim (Option-cases n.transfer_state) [
    | inl e ↦ absurd (ground (arith, e))
    | inr (t, e) ↦
        (ground (arith, e), (t, e, ground (arith, e), ground (arith, e)), ground (arith, e))
  ]

  -- A transfer is given up exactly when more time than the timeout has passed since its start, and
  -- then proposals are accepted again.
  pub check_transfer_timeout_iff :
      (n : Inner W) (t : TransferState) (timeout_ms now : ℕ)
      → n.transfer_state ≡ some t
      → (((check_transfer_timeout n timeout_ms now).1 ≡ true) ↔ (timeout_ms < now - t.started_at))
        × (((check_transfer_timeout n timeout_ms now).0.transfer_state ≡ none)
            ↔ (timeout_ms < now - t.started_at))
  unfolding check_transfer_timeout is_expired
  check_transfer_timeout_iff n t timeout_ms now h =
      ((λ g. ground arith, λ g. ground arith), (λ g. ground arith, λ g. ground arith))
