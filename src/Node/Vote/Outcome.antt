-- ===== src/Node/Vote/Outcome.antt =====
-- How an election of crates/raft-consensus/src/node.rs begins, what wins it, and which answers count.
use raftrust.Election.{is_log_up_to_date, UpToDate}
use raftrust.Prelude.{
  ◌↔◌, ℕ, ◌+◌, ◌≤◌, ◌<◌, ◌≡◌, refl, true, false, some, List, [], ◌∷◌, length, arith, wrap64,
}
use raftrust.Prelude.Maps.{contains, add}
use raftrust.Message.{VoteRequest, VoteResponse}
use raftrust.Log.{Wal, last_index, last_term}
use raftrust.State.{ElectionState, has_quorum, record_vote, new_election, candidate}
use raftrust.State.Votes
use raftrust.State.Votes.{
  IsElection, Within, record_vote-IsElection, record_votes, record_votes-IsElection,
}
use raftrust.Node.{NodeConfig, Inner, cluster_size}
use raftrust.Node.Vote.{start_election, handle_vote_response, handle_vote_request, self_vote}

-- The node and its peers are as many as the nodes of the cluster, and the node is one of them.
abbrev pub IsNodeOf : List ℕ → NodeConfig → Type 0
IsNodeOf nodes config = (contains config.id nodes ≡ true) × (length config.peers + 1 ≡ length nodes)

self_vote-IsElection :
    (nodes : List ℕ) (config : NodeConfig)
    → IsNodeOf nodes config
    → IsElection nodes (self_vote config)
unfolding self_vote new_election record_vote cluster_size add contains
self_vote-IsElection nodes config m = record {
  distinct = (refl, tt);
  within = (m.0, tt);
  needed = omega (arith, m.1);
}

answered-IsElection :
    (nodes : List ℕ) (config : NodeConfig) (vs : List ℕ) (from : ℕ)
    → IsNodeOf nodes config
    → Within nodes (from ∷ vs)
    → IsElection nodes (record_vote (record_votes (self_vote config) vs) from)
answered-IsElection nodes config vs from m w =
    record_vote-IsElection nodes (record_votes (self_vote config) vs) from w.0 (
      record_votes-IsElection nodes (self_vote config) vs w.1 (self_vote-IsElection nodes config m))

module _ {W : Type 0} where
  -- A pre-vote request leaves the node as it is, and is granted exactly if its term is above the
  -- node's and the candidate's log is as far as the node's.
  pub handle_vote_request-pre_vote :
      (n : Inner W) (r : VoteRequest)
      → r.is_pre_vote ≡ true
      → ((handle_vote_request n r).0 ≡ n)
        × ((handle_vote_request n r).1.term ≡ n.state.persistent.current_term)
        × (((handle_vote_request n r).1.vote_granted ≡ true) ↔ (
            (n.state.persistent.current_term < r.term)
            × UpToDate r.last_log_term r.last_log_index (last_term n.log) (last_index n.log)))
  unfolding handle_vote_request is_log_up_to_date
  handle_vote_request-pre_vote n r p =
      (ground arith, ground arith, (λ g. ground arith, λ g. ground arith))

  -- The election that the node begins: a candidate in the next term, with its own vote alone, of a
  -- majority of itself and its peers.
  pub start_election-fresh :
      (config : NodeConfig) (n : Inner W)
      → let n' = (start_election config n).0 in
        (n'.state.persistent.current_term ≡ wrap64 (n.state.persistent.current_term + 1))
        × (n'.state.persistent.voted_for ≡ some config.id)
        × (n'.state.role ≡ candidate)
        × (n'.log ≡ n.log)
        × (e : ElectionState) × (n'.election_state ≡ some e)
        × IsElection (config.id ∷ config.peers) e
        × (e.votes_received ≡ config.id ∷ [])
  unfolding start_election new_election record_vote cluster_size add contains
  start_election-fresh config n = (
    refl,
    refl,
    refl,
    refl,
    self_vote config,
    refl,
    record { distinct = (refl, tt); within = (ground arith, tt); needed = omega arith },
    refl,
  )

module _ {W : Type 0} ⦃wal : Wal W⦄ where
  won_quorum :
      (config : NodeConfig) (n : Inner W) (from : ℕ) (r : VoteResponse) (e : ElectionState)
      → n.election_state ≡ some e
      → (handle_vote_response config n from r false).1 ≡ true
      → has_quorum (record_vote e from) ≡ true
  unfolding handle_vote_response
  won_quorum config n from r e h w = ground arith

  -- Two nodes of one cluster that both win an election have a voter in common: a node of the cluster
  -- of which both recorded the vote. Each election began with the node's own vote and recorded answers
  -- of nodes of the cluster, in any order and number. Both nodes are configured as nodes of the
  -- cluster, with as many peers as it has other nodes.
  pub winners_share_voter :
      (nodes : List ℕ) (c₁ c₂ : NodeConfig) (n₁ n₂ : Inner W) (vs₁ vs₂ : List ℕ) (from₁ from₂ : ℕ)
      (r₁ r₂ : VoteResponse)
      → IsNodeOf nodes c₁
      → IsNodeOf nodes c₂
      → n₁.election_state ≡ some (record_votes (self_vote c₁) vs₁)
      → n₂.election_state ≡ some (record_votes (self_vote c₂) vs₂)
      → Within nodes (from₁ ∷ vs₁)
      → Within nodes (from₂ ∷ vs₂)
      → (handle_vote_response c₁ n₁ from₁ r₁ false).1 ≡ true
      → (handle_vote_response c₂ n₂ from₂ r₂ false).1 ≡ true
      → (v : ℕ) × (contains v nodes ≡ true)
        × (contains v (record_vote (record_votes (self_vote c₁) vs₁) from₁).votes_received ≡ true)
        × (contains v (record_vote (record_votes (self_vote c₂) vs₂) from₂).votes_received ≡ true)
  winners_share_voter nodes c₁ c₂ n₁ n₂ vs₁ vs₂ from₁ from₂ r₁ r₂ m₁ m₂ h₁ h₂ i₁ i₂ w₁ w₂ =
      let e₁ = record_votes (self_vote c₁) vs₁ in
      let e₂ = record_votes (self_vote c₂) vs₂ in
      Votes.elections_overlap nodes (record_vote e₁ from₁) (record_vote e₂ from₂)
        (answered-IsElection nodes c₁ vs₁ from₁ m₁ i₁)
        (answered-IsElection nodes c₂ vs₂ from₂ m₂ i₂) (won_quorum c₁ n₁ from₁ r₁ e₁ h₁ w₁)
        (won_quorum c₂ n₂ from₂ r₂ e₂ h₂ w₂)

  -- An answer to a pre-vote that comes when the election has begun is counted among its votes.
  pub handle_vote_response_late_pre_vote :
      (config : NodeConfig) (n : Inner W) (from : ℕ) (r : VoteResponse) (e : ElectionState)
      → n.state.role ≡ candidate
      → n.election_state ≡ some e
      → r.term ≤ n.state.persistent.current_term
      → r.vote_granted ≡ true
      → (handle_vote_response config n from r true).0.election_state ≡ some (record_vote e from)
  unfolding handle_vote_response
  handle_vote_response_late_pre_vote config n from r e c h le g = ground arith
