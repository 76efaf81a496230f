-- ===== src/Election.antt =====
-- crates/raft-consensus/src/election.rs: whether to grant a vote.
use raftrust.Prelude.{
  ℕ, ◌≤◌, ◌<◌, ◌≡◌, ◌↔◌, ◌⊎◌, Bool, true, false, not, none, some, leb, ltb, ◌==◌, if◌then◌else◌,
  arith,
}
use raftrust.Message.{VoteRequest}
use raftrust.State.{RaftState}

unfoldable pub is_log_up_to_date : ℕ → ℕ → ℕ → ℕ → Bool
is_log_up_to_date candidate_last_term candidate_last_index our_last_term our_last_index =
    if not (candidate_last_term == our_last_term)
    then ltb our_last_term candidate_last_term
    else leb our_last_index candidate_last_index

unfoldable pub should_grant_vote : RaftState → VoteRequest → ℕ → ℕ → Bool
should_grant_vote state request our_last_log_index our_last_log_term =
    if ltb request.term state.persistent.current_term
    then false
    else (let up_to_date =
          is_log_up_to_date request.last_log_term request.last_log_index our_last_log_term
            our_last_log_index in
        elim state.persistent.voted_for [
          | none ↦ up_to_date
          | some voted_for ↦ if not (voted_for == request.candidate_id) then false else up_to_date
        ])

-- The order of (last term, last index), first by term.
abbrev pub UpToDate : ℕ → ℕ → ℕ → ℕ → Type 0
UpToDate ct ci ot oi = (ot < ct) ⊎ ((ot ≡ ct) × (oi ≤ ci))

-- A vote is granted exactly if the request's term is not old, no other candidate has the vote and
-- the candidate's log is as far as ours in the order by term and then index.
pub should_grant_vote_iff :
    (state : RaftState) (request : VoteRequest) (i t : ℕ)
    → (should_grant_vote state request i t ≡ true) ↔ (
        (state.persistent.current_term ≤ request.term)
        × ((state.persistent.voted_for ≡ none)
            ⊎ (state.persistent.voted_for ≡ some request.candidate_id))
        × UpToDate request.last_log_term request.last_log_index t i)
unfolding should_grant_vote is_log_up_to_date
should_grant_vote_iff state request i t = ground arith

-- `is_log_up_to_date` is a total preorder on logs, with equivalence only at the same last term and
-- index.
pub is_log_up_to_date_order :
    (t₁ i₁ t₂ i₂ t₃ i₃ : ℕ)
    → ((is_log_up_to_date t₁ i₁ t₂ i₂ ≡ true) ⊎ (is_log_up_to_date t₂ i₂ t₁ i₁ ≡ true))
      × (is_log_up_to_date t₁ i₁ t₂ i₂ ≡ true
          → is_log_up_to_date t₂ i₂ t₃ i₃ ≡ true
          → is_log_up_to_date t₁ i₁ t₃ i₃ ≡ true)
      × (is_log_up_to_date t₁ i₁ t₂ i₂ ≡ true
          → is_log_up_to_date t₂ i₂ t₁ i₁ ≡ true
          → (t₁ ≡ t₂) × (i₁ ≡ i₂))
unfolding is_log_up_to_date
is_log_up_to_date_order t₁ i₁ t₂ i₂ t₃ i₃ = (ground arith, λ p q. ground arith, λ p q. ground arith)
