-- ===== src/Node/OneVote.antt =====
-- Over any run of a node of crates/raft-consensus/src/node.rs, restarts included: the term does not fall, and
-- no two candidates get its vote in one term.
use raftrust.Prelude.{ℕ, ◌+◌, ◌≤◌, ◌<◌, ◌^◌, ◌≡◌, refl, sym, true, false, some, arith}
use raftrust.Message.{VoteRequest}
use raftrust.Log.{Wal}
use raftrust.Membership.{Serde}
use raftrust.Snapshot.{SnapshotManager}
use raftrust.Election.{should_grant_vote}
use raftrust.Node.{Inner, NodeConfig, step_down_inner}
use raftrust.Node.Vote.{start_pre_vote, handle_vote_request}
use raftrust.Node.Handover.{read_index_ack, take_read_index}
use raftrust.Node.Durable.{
  IsDurable, Advances, Advances-same, Advances-trans, start_election-Advances,
  handle_vote_request-Advances, handle_vote_response-Advances, handle_append_entries-Advances,
  propose-Advances, handle_append_response-Advances, take_committed_entries-Advances,
  transfer-Advances, progress-Advances, timeout-Advances, timeout_now-Advances,
  read_request-Advances, restart-Advances, trigger_snapshot-Advances, install_snapshot-Advances,
  propose_config_change-Advances, apply_config_change-Advances,
}
use raftrust.Node.Step
use raftrust.Node.Step.{Event, step, Run, here, next}

module _ {W : Type 0} where
  -- A vote that is granted, and not in a pre-vote, is for the term of the request, and is recorded.
  pub handle_vote_request-granted :
      (n : Inner W) (r : VoteRequest)
      → r.is_pre_vote ≡ false
      → (handle_vote_request n r).1.vote_granted ≡ true
      → ((handle_vote_request n r).0.state.persistent.voted_for ≡ some r.candidate_id)
        × ((handle_vote_request n r).0.state.persistent.current_term ≡ r.term)
        × ((handle_vote_request n r).1.term ≡ r.term)
  unfolding handle_vote_request step_down_inner should_grant_vote
  handle_vote_request-granted n r p g = ground arith

  -- A second vote in the term of a recorded one goes to the same candidate.
  handle_vote_request-same :
      (n : Inner W) (r : VoteRequest) (v : ℕ)
      → r.is_pre_vote ≡ false
      → n.state.persistent.voted_for ≡ some v
      → n.state.persistent.current_term ≡ r.term
      → (handle_vote_request n r).1.vote_granted ≡ true
      → v ≡ r.candidate_id
  unfolding handle_vote_request step_down_inner should_grant_vote
  handle_vote_request-same n r v p h e g = ground arith

  handle_vote_request-term :
      (n : Inner W) (r : VoteRequest)
      → r.is_pre_vote ≡ false
      → (handle_vote_request n r).1.vote_granted ≡ true
      → n.state.persistent.current_term ≤ r.term
  unfolding handle_vote_request step_down_inner should_grant_vote
  handle_vote_request-term n r p g = ground arith

module _ {W : Type 0} (S : Type 0) ⦃wal : Wal W⦄ ⦃mgr : SnapshotManager S⦄ (serde : Serde)
    (config : NodeConfig) where
  -- Each call, and a restart from the disk, keeps the term and the vote on disk, does not lower the
  -- term, and leaves a vote of the same term as it is. The state file takes writes, and the term is
  -- clear of the end of `u64`.
  pub step-Advances :
      (n : Inner W) (e : Event W S)
      → IsDurable n
      → n.state.persistent.current_term + 1 < 2 ^ 64
      → Advances n (step S serde config n e)
  unfolding step
  step-Advances n Step.start_pre_vote d h =
      Advances-same n _ d (unfold start_pre_vote in refl) (unfold start_pre_vote in refl)
  step-Advances n Step.start_election d h = start_election-Advances config n d h
  step-Advances n (Step.vote_request r) d h = handle_vote_request-Advances n r d
  step-Advances n (Step.vote_response from r w) d h =
      handle_vote_response-Advances config n from r w d
  step-Advances n (Step.append_entries r now) d h = handle_append_entries-Advances n r now d
  step-Advances n (Step.append_response from r) d h = handle_append_response-Advances n from r d
  step-Advances n (Step.propose p) d h = propose-Advances config n p d
  step-Advances n Step.take_committed d h = take_committed_entries-Advances n d
  step-Advances n Step.read_request d h = read_request-Advances config n d
  step-Advances n (Step.read_ack from) d h =
      Advances-same n _ d (unfold read_index_ack in refl) (unfold read_index_ack in refl)
  step-Advances n (Step.take_read id) d h =
      Advances-same n _ d (unfold take_read_index in refl) (unfold take_read_index in refl)
  step-Advances n (Step.transfer t now) d h = transfer-Advances config n t now d
  step-Advances n Step.transfer_progress d h = progress-Advances n d
  step-Advances n (Step.transfer_timeout ms now) d h = timeout-Advances n ms now d
  step-Advances n (Step.timeout_now msg) d h = timeout_now-Advances config n msg d h
  step-Advances n (Step.snapshot s p) d h = trigger_snapshot-Advances s n p d
  step-Advances n (Step.install s t id m p) d h = install_snapshot-Advances s n t id m p d
  step-Advances n (Step.propose_change c) d h = propose_config_change-Advances serde config n c d
  step-Advances n (Step.apply_change p) d h = apply_config_change-Advances serde config n p d
  step-Advances n (Step.restart log now) d h = restart-Advances config n log now d

  -- So over a run of the node, restarts included.
  pub Run-Advances : {a b : Inner W} → IsDurable a → Run S serde config a b → Advances a b
  Run-Advances {a} d here = Advances-same a a d refl refl
  Run-Advances {a} d (next {b} r h e) =
      let before = Run-Advances d r in
      Advances-trans a b (step S serde config b e) before (step-Advances b e before.durable h)

  -- A node that granted its vote to one candidate grants it, at any later point of its run, to no
  -- other candidate of the same term. Its term and vote are on disk when it grants, the state file
  -- takes writes, and no term of the run comes near the end of `u64`.
  pub one_vote_per_term :
      (a b : Inner W) (r₁ r₂ : VoteRequest)
      → IsDurable a
      → r₁.is_pre_vote ≡ false
      → (handle_vote_request a r₁).1.vote_granted ≡ true
      → Run S serde config (handle_vote_request a r₁).0 b
      → r₂.is_pre_vote ≡ false
      → (handle_vote_request b r₂).1.vote_granted ≡ true
      → r₂.term ≡ r₁.term
      → r₂.candidate_id ≡ r₁.candidate_id
  one_vote_per_term a b r₁ r₂ d p₁ g₁ run p₂ g₂ same =
      let granted = handle_vote_request-granted a r₁ p₁ g₁ in
      let later = Run-Advances (handle_vote_request-Advances a r₁ d).durable run in
      let below = handle_vote_request-term b r₂ p₂ g₂ in
      let term_same : b.state.persistent.current_term ≡ r₂.term =
        omega (arith, granted.1, later.term_le) in
      sym (
        handle_vote_request-same b r₂ r₁.candidate_id p₂
          (later.vote_kept r₁.candidate_id (omega (arith, granted.1)) granted.0) term_same g₂)
