-- ===== src/Transfer.antt =====
-- crates/raft-consensus/src/leadership_transfer.rs: a leadership transfer in progress. Times are in
-- milliseconds of a monotonic clock, passed by the caller.
use raftrust.Prelude.{ℕ, ◌-◌, Bool, false, ltb}

pub record TransferState : Type 0 where
  pub target : ℕ
  pub started_at : ℕ
  pub timeout_now_sent : Bool

unfoldable pub new_transfer : ℕ → ℕ → TransferState
new_transfer target now = record { target = target; started_at = now; timeout_now_sent = false }

unfoldable pub is_expired : TransferState → ℕ → ℕ → Bool
is_expired t timeout_ms now = ltb timeout_ms (now - t.started_at)

pub data TransferError : Type 0 where
  not_leader already_in_progress target_not_in_cluster already_leader : TransferError
