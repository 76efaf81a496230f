-- ===== src/Node/Vote.antt =====
-- The elections of crates/raft-consensus/src/node.rs: pre-votes, votes, and the answers to them.
pub mod Outcome
pub mod Leads
use raftrust.Prelude.{
  ℕ, ◌+◌, Bool, true, false, not, ◌&&◌, Option, none, some, List, [], ◌∷◌, ltb, if◌then◌else◌,
  wrap64,
}
use raftrust.Message.{VoteRequest, VoteResponse}
use raftrust.Log.{Wal, last_index, last_term}
use raftrust.State.{
  pre_candidate, candidate, PersistentState, save, ElectionState, new_election, has_quorum,
  record_vote,
}
use raftrust.Election.{is_log_up_to_date, should_grant_vote}
use raftrust.Node.{NodeConfig, Inner, cluster_size, step_down_inner, become_leader_inner}

-- One copy of the request to each peer.
to_each : List ℕ → VoteRequest → List (ℕ × VoteRequest)
to_each [] request = []
to_each (peer ∷ peers) request = (peer, request) ∷ to_each peers request

-- The votes of an election that this node starts.
unfoldable pub self_vote : NodeConfig → ElectionState
self_vote config = record_vote (new_election (cluster_size config)) config.id

module _ {W : Type 0} where
  vote_request : NodeConfig → Inner W → ℕ → Bool → VoteRequest
  vote_request config inner term is_pre_vote = record {
    term = term;
    candidate_id = config.id;
    last_log_index = last_index inner.log;
    last_log_term = last_term inner.log;
    is_pre_vote = is_pre_vote;
  }

  unfoldable pub start_pre_vote : NodeConfig → Inner W → Inner W × List (ℕ × VoteRequest)
  unfolding to_each vote_request self_vote
  start_pre_vote config inner = (
    record inner {
      state = record inner.state { role = pre_candidate };
      election_state = some (self_vote config);
    },
    to_each config.peers
        (vote_request config inner (wrap64 (inner.state.persistent.current_term + 1)) true),
  )

  -- The next term, with a vote for this node, written to the state file.
  candidacy : NodeConfig → Inner W → Inner W
  unfolding self_vote
  candidacy config inner =
      let persistent : PersistentState = record {
        current_term = wrap64 (inner.state.persistent.current_term + 1);
        voted_for = some config.id;
      } in
      record inner {
        state = record inner.state { persistent = persistent; role = candidate; leader_id = none };
        election_state = some (self_vote config);
        state_file = save persistent inner.state_file;
      }

  unfoldable pub start_election : NodeConfig → Inner W → Inner W × List (ℕ × VoteRequest)
  unfolding to_each vote_request candidacy
  start_election config inner =
      let inner' = candidacy config inner in
      (
        inner',
        to_each config.peers
            (vote_request config inner' inner'.state.persistent.current_term false),
      )

  unfoldable pub pre_vote_has_quorum : Inner W → Bool
  pre_vote_has_quorum inner = elim inner.election_state [
    | none ↦ false
    | some election ↦ has_quorum election
  ]

  step_down_for_vote : Inner W → ℕ → Inner W
  step_down_for_vote inner term =
      if ltb inner.state.persistent.current_term term then step_down_inner inner term else inner

  grant_vote : Inner W → ℕ → Inner W
  grant_vote inner candidate_id =
      let persistent : PersistentState = record inner.state.persistent {
        voted_for = some candidate_id;
      } in
      record inner {
        state = record inner.state { persistent = persistent };
        state_file = save persistent inner.state_file;
      }

  answer_vote : Inner W → VoteRequest → Inner W × VoteResponse
  unfolding grant_vote
  answer_vote inner request =
      let granted =
        should_grant_vote inner.state request (last_index inner.log) (last_term inner.log) in
      (
        if granted then grant_vote inner request.candidate_id else inner,
        record { term = inner.state.persistent.current_term; vote_granted = granted },
      )

  unfoldable pub handle_vote_request : Inner W → VoteRequest → Inner W × VoteResponse
  unfolding step_down_for_vote answer_vote
  handle_vote_request inner request =
      if request.is_pre_vote
      then (
        inner,
        record {
          term = inner.state.persistent.current_term;
          vote_granted =
              ltb inner.state.persistent.current_term request.term
              && is_log_up_to_date request.last_log_term request.last_log_index
                  (last_term inner.log) (last_index inner.log);
        },
      )
      else answer_vote (step_down_for_vote inner request.term) request

module _ {W : Type 0} ⦃wal : Wal W⦄ where
  count_vote : NodeConfig → Inner W → ElectionState → Bool → Inner W × Bool
  count_vote config inner election was_pre_vote =
      let counted : Inner W = record inner { election_state = some election } in
      if has_quorum election
      then if was_pre_vote then (counted, false) else (become_leader_inner config counted, true)
      else (counted, false)

  unfoldable pub handle_vote_response :
      NodeConfig → Inner W → ℕ → VoteResponse → Bool → Inner W × Bool
  unfolding count_vote
  handle_vote_response config inner from response was_pre_vote =
      if ltb inner.state.persistent.current_term response.term
      then (step_down_inner inner response.term, false)
      else if not response.vote_granted
      then (inner, false)
      else elim inner.election_state [
        | none ↦ (inner, false)
        | some election ↦ count_vote config inner (record_vote election from) was_pre_vote
      ]
