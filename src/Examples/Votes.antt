-- ===== src/Examples/Votes.antt =====
-- Elections at concrete inputs.
use raftrust.State.{save}
use raftrust.Node.{new_node}
use raftrust.Prelude.{
  ℕ, ◌+◌, ◌≤◌, ◌<◌, ◌^◌, ◌≡◌, ◌↔◌, ◌⊎◌, refl, true, false, none, some, [], ◌∷◌, arith,
}
use raftrust.Prelude.Maps.{contains, add, lookup}
use raftrust.Message.{VoteRequest, VoteResponse, noop}
use raftrust.Log.{get, last_index, last_term}
use raftrust.Election.{should_grant_vote, is_log_up_to_date, UpToDate, should_grant_vote_iff}
use raftrust.State.{
  leader, candidate, follower, LeaderState, has_quorum, record_vote, new_election, load,
}
use raftrust.State.Votes.{Within, record_votes}
use raftrust.Log.Index.{IsContiguous}
use raftrust.Node.Vote.Leads.{handle_vote_response-leads}
use raftrust.Node.{step_down_inner, cluster_size}
use raftrust.Node.Vote.{handle_vote_request, handle_vote_response, self_vote}
use raftrust.Node.Vote.Outcome.{IsNodeOf, winners_share_voter, handle_vote_response_late_pre_vote}
use raftrust.Node.Durable.{IsDurable, Advances}
use raftrust.Node.Step
use raftrust.Node.Step.{Run, here, next, step}
use raftrust.Node.OneVote.{step-Advances, one_vote_per_term}
use raftrust.Examples.Fixtures.{
  memory_wal, memory_wal-NeverFails, no_disk, no_serde, config, log3, Node, node_of, election,
}

abbrev ask : VoteRequest
ask = record {
  term = 3;
  candidate_id = 2;
  last_log_index = 3;
  last_log_term = 2;
  is_pre_vote = false;
}

abbrev voter : Node
voter = node_of follower 2 none log3

voter-IsDurable : IsDurable voter
unfolding load
voter-IsDurable = record { saved = refl; writes = refl }

granted : (handle_vote_request voter ask).1.vote_granted ≡ true
unfolding handle_vote_request step_down_inner should_grant_vote is_log_up_to_date last_index
    last_term
granted = refl

-- The voter after its vote, started again from its disk.
abbrev restarted : Node
restarted = step Unit no_serde config (handle_vote_request voter ask).0 (Step.restart log3 9)

restart-Run : Run Unit no_serde config (handle_vote_request voter ask).0 restarted
unfolding handle_vote_request step_down_inner should_grant_vote is_log_up_to_date last_index
    last_term
restart-Run = next here (omega arith) (Step.restart log3 9)

granted_again : (handle_vote_request restarted ask).1.vote_granted ≡ true
unfolding handle_vote_request step_down_inner should_grant_vote is_log_up_to_date last_index
    last_term step new_node load save
granted_again = refl

one_vote_per_term_example : ask.candidate_id ≡ ask.candidate_id
one_vote_per_term_example =
    one_vote_per_term Unit no_serde config voter restarted ask ask voter-IsDurable refl granted
      restart-Run refl granted_again refl

step-Advances_example : Advances voter (step Unit no_serde config voter (Step.vote_request ask))
step-Advances_example =
    step-Advances Unit no_serde config voter (Step.vote_request ask) voter-IsDurable (omega arith)

should_grant_vote_iff_example : (should_grant_vote voter.state ask 3 2 ≡ true) ↔ (
    (2 ≤ 3)
    × ((voter.state.persistent.voted_for ≡ none) ⊎ (voter.state.persistent.voted_for ≡ some 2))
    × UpToDate 2 3 2 3)
should_grant_vote_iff_example = should_grant_vote_iff voter.state ask 3 2

-- A candidate of term 3 with its own vote.
abbrev running : Node
running = record (node_of candidate 3 (some 1) log3) { election_state = some election }

abbrev grant : ℕ → VoteResponse
grant term = record { term = term; vote_granted = true }

won : (handle_vote_response config running 2 (grant 3) false).1 ≡ true
unfolding handle_vote_response has_quorum record_vote add contains
won = refl

started : running.election_state ≡ some (record_votes (self_vote config) [])
unfolding self_vote new_election record_vote cluster_size add contains
started = refl

in_cluster : IsNodeOf (1 ∷ 2 ∷ 3 ∷ []) config
unfolding contains
in_cluster = (refl, refl)

voters_within : Within (1 ∷ 2 ∷ 3 ∷ []) (2 ∷ [])
unfolding contains
voters_within = (refl, tt)

winners_share_voter_example :
    (v : ℕ) × (contains v (1 ∷ 2 ∷ 3 ∷ []) ≡ true)
    × (contains v (record_vote (self_vote config) 2).votes_received ≡ true)
    × (contains v (record_vote (self_vote config) 2).votes_received ≡ true)
winners_share_voter_example =
    winners_share_voter (1 ∷ 2 ∷ 3 ∷ []) config config running running [] [] 2 2 (grant 3) (grant 3)
      in_cluster in_cluster started started voters_within voters_within won won

has_room : last_index running.log + 1 < 2 ^ 64
unfolding last_index
has_room = omega arith

peer_2 : contains 2 config.peers ≡ true
unfolding contains
peer_2 = refl

not_itself : contains 1 config.peers ≡ false
unfolding contains
not_itself = refl

log3-IsContiguous : IsContiguous log3
log3-IsContiguous = record { run = omega arith }

handle_vote_response-leads_example :
    let n' = (handle_vote_response config running 2 (grant 3) false).0 in
    (n'.state ≡ record running.state { role = leader; leader_id = some 1 })
    × (n'.election_state ≡ none)
    × (ls : LeaderState) × (n'.leader_state ≡ some ls)
    × (lookup 2 ls.next_index ≡ some (last_index log3 + 1))
    × (lookup 2 ls.match_index ≡ some 0)
    × (lookup 1 ls.match_index ≡ some (last_index log3 + 1))
    × (get n'.log (last_index log3 + 1)
        ≡ some (record { index = last_index log3 + 1; term = 3; payload = []; entry_type = noop }))
    × (last_index n'.log ≡ last_index log3 + 1)
    × ((k : ℕ) → k ≤ last_index log3 → get n'.log k ≡ get log3 k)
handle_vote_response-leads_example =
    handle_vote_response-leads memory_wal-NeverFails config running 2 2 (grant 3) false
      log3-IsContiguous has_room peer_2 not_itself won

handle_vote_response_late_pre_vote_example :
    (handle_vote_response config running 2 (grant 2) true).0.election_state
    ≡ some (record_vote election 2)
handle_vote_response_late_pre_vote_example =
    handle_vote_response_late_pre_vote config running 2 (grant 2) election refl refl (omega arith)
      refl
