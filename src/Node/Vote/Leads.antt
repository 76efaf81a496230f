-- ===== src/Node/Vote/Leads.antt =====
-- `become_leader_inner` of crates/raft-consensus/src/node.rs: the node that an answer has made leader.
use raftrust.Prelude.{
  ℕ, ◌+◌, ◌≤◌, ◌<◌, ◌^◌, ◌≡◌, refl, ◌∙◌, ap, Bool, true, false, none, some, [], ◌∷◌, length,
  length-append, ◌==◌, arith, wrap64, inl, inr, Option-cases, Bool-cases, ==_iff,
}
use raftrust.Prelude.Maps.{contains, lookup, lookup-insert, insert}
use raftrust.Message.{LogEntry, VoteResponse, noop}
use raftrust.Log.{Wal, RaftLog, get, append, last_index}
use raftrust.Log.Extend.{
  NeverFails, append_ok, append_cases, append-snapshot, get-append, append-IsContiguous,
}
use raftrust.Log.Index.{IsContiguous}
use raftrust.Log.Cut.{last_index-eq}
use raftrust.State.{LeaderState, new_leader, ElectionState, record_vote, leader}
use raftrust.State.Leader.{new_leader-lookup}
use raftrust.Node.{NodeConfig, Inner, become_leader_inner, append_noop, note_own_match}
use raftrust.Node.Vote.{handle_vote_response}

not_peer :
    (config : NodeConfig) (peer : ℕ)
    → contains peer config.peers ≡ true
    → contains config.id config.peers ≡ false
    → (config.id == peer) ≡ false
not_peer config peer known other = elim (Bool-cases (config.id == peer)) [
  | inl same ↦
      ground (arith, ap (λ (i : ℕ). contains i config.peers) ((==_iff config.id peer).0 same))
  | inr differs ↦ differs
]

module _ {W : Type 0} ⦃wal : Wal W⦄ where
  won_leads :
      (config : NodeConfig) (n : Inner W) (from : ℕ) (r : VoteResponse) (was_pre_vote : Bool)
      → (handle_vote_response config n from r was_pre_vote).1 ≡ true
      → (e : ElectionState) × ((handle_vote_response config n from r was_pre_vote).0
          ≡ become_leader_inner config (record n { election_state = some (record_vote e from) }))
  unfolding handle_vote_response
  won_leads config n from r was_pre_vote h = elim (Option-cases n.election_state) [
    | inl e ↦ ground (arith)
    | inr (e, some_e) ↦ (e, ground (arith))
  ]

module _ {W : Type 0} ⦃wal : Wal W⦄ (reliable : NeverFails wal) where
  last_index-append :
      (log : RaftLog W) (e : LogEntry)
      → IsContiguous log
      → e.index ≡ last_index log + 1
      → last_index (append log (e ∷ [])).0 ≡ last_index log + 1
  last_index-append log e c h =
      let log' = (append log (e ∷ [])).0 in
      let ends = last_index-eq log' (append-IsContiguous log (e ∷ []) c (omega arith, tt)) in
      elim (append_cases log (e ∷ [])) [
        | inl (done, longer) ↦
            let counted = ap length longer ∙ length-append log.entries (e ∷ []) in
            omega (arith, (append-snapshot log (e ∷ [])).0, last_index-eq log c)
        | inr (failed, same) ↦ absurd (failed (append_ok reliable log (e ∷ [])))
      ]

  became_leader :
      (config : NodeConfig) (n : Inner W) (peer : ℕ)
      → IsContiguous n.log
      → last_index n.log + 1 < 2 ^ 64
      → contains peer config.peers ≡ true
      → contains config.id config.peers ≡ false
      → let n' = become_leader_inner config n in
        (n'.state ≡ record n.state { role = leader; leader_id = some config.id })
        × (n'.election_state ≡ none)
        × (ls : LeaderState) × (n'.leader_state ≡ some ls)
        × (lookup peer ls.next_index ≡ some (last_index n.log + 1))
        × (lookup peer ls.match_index ≡ some 0)
        × (lookup config.id ls.match_index ≡ some (last_index n.log + 1))
        × (get n'.log (last_index n.log + 1)
            ≡ some (record {
              index = last_index n.log + 1;
              term = n.state.persistent.current_term;
              payload = [];
              entry_type = noop;
            }))
        × (last_index n'.log ≡ last_index n.log + 1)
        × ((k : ℕ) → k ≤ last_index n.log → get n'.log k ≡ get n.log k)
  unfolding become_leader_inner append_noop note_own_match
  became_leader config n peer c fits known other =
      let noop_entry : LogEntry = record {
        index = wrap64 (last_index n.log + 1);
        term = n.state.persistent.current_term;
        payload = [];
        entry_type = noop;
      } in
      let log' = (append n.log (noop_entry ∷ [])).0 in
      let done = append_ok reliable n.log (noop_entry ∷ []) in
      let at = get-append n.log (noop_entry ∷ []) (last_index n.log + 1) done in
      let begun = new_leader-lookup config.peers (last_index n.log) peer known in
      let matched = (new_leader config.peers (last_index n.log)).match_index in
      let next : wrap64 (last_index n.log + 1) ≡ last_index n.log + 1 = omega arith in
      let ends = last_index-eq n.log c in
      let differs : (config.id == peer) ≡ false = not_peer config peer known other in
      (
        refl,
        refl,
        record (new_leader config.peers (last_index n.log)) {
          match_index = insert config.id (last_index log') matched;
        },
        refl,
        begun.0 ∙ ap some next,
        lookup-insert config.id peer (last_index log') matched ∙ rw differs (begun.1),
        lookup-insert config.id config.id (last_index log') matched
            ∙ (rw ((==_iff config.id config.id).1 refl)
                (ap some (last_index-append n.log noop_entry c next))),
        ground (arith, at),
        last_index-append n.log noop_entry c next,
        λ k h. ground (arith, get-append n.log (noop_entry ∷ []) k done),
      )

  -- What an answer makes of the node that it makes leader: it leads its term under its identifier, with
  -- the term and the vote that it had, and no election is under way. For each peer its next index is
  -- the one behind the last index before and its match index 0; its own match index is its last index.
  -- The log has one entry more, a no-op of the term, behind those that it had. The log was contiguous,
  -- its next index fits `u64`, the node is not its own peer, and the writes to the WAL succeed.
  pub handle_vote_response-leads :
      (config : NodeConfig) (n : Inner W) (from peer : ℕ) (r : VoteResponse) (was_pre_vote : Bool)
      → IsContiguous n.log
      → last_index n.log + 1 < 2 ^ 64
      → contains peer config.peers ≡ true
      → contains config.id config.peers ≡ false
      → (handle_vote_response config n from r was_pre_vote).1 ≡ true
      → let n' = (handle_vote_response config n from r was_pre_vote).0 in
        (n'.state ≡ record n.state { role = leader; leader_id = some config.id })
        × (n'.election_state ≡ none)
        × (ls : LeaderState) × (n'.leader_state ≡ some ls)
        × (lookup peer ls.next_index ≡ some (last_index n.log + 1))
        × (lookup peer ls.match_index ≡ some 0)
        × (lookup config.id ls.match_index ≡ some (last_index n.log + 1))
        × (get n'.log (last_index n.log + 1)
            ≡ some (record {
              index = last_index n.log + 1;
              term = n.state.persistent.current_term;
              payload = [];
              entry_type = noop;
            }))
        × (last_index n'.log ≡ last_index n.log + 1)
        × ((k : ℕ) → k ≤ last_index n.log → get n'.log k ≡ get n.log k)
  handle_vote_response-leads config n from peer r was_pre_vote c fits known other won =
      let (e, led) = won_leads config n from r was_pre_vote won in
      rw led (
        became_leader config (record n { election_state = some (record_vote e from) }) peer c fits
          known other)
