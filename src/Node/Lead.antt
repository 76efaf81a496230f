-- ===== src/Node/Lead.antt =====
-- The leader's side of replication in crates/raft-consensus/src/node.rs, and the entries handed to the
-- state machine.
pub mod Commit
pub mod Propose
pub mod Requests
use raftrust.Prelude.{
  ℕ, zero, suc, ◌+◌, ◌-◌, ◌⊎◌, inl, inr, Bool, true, false, not, ◌&&◌, Option, none, some, List, [],
  ◌∷◌, ◌++◌, leb, ltb, ◌==◌, if◌then◌else◌, wrap64, max, some_or, is_some,
}
use raftrust.Prelude.Maps.{IdMap, lookup, insert, add}
use raftrust.Message.{
  LogEntry, normal, AppendRequest, AppendResponse, ProposalResult, not_leader, transfer_in_progress,
  error,
}
use raftrust.Log.{Wal, RaftLog, get, last_index, term_at, entries_from, append}
use raftrust.State.{leader, role_eq, LeaderState}
use raftrust.Membership.{has_quorum}
use raftrust.Errors.{Error}
use raftrust.Node.{NodeConfig, Inner, step_down_inner, note_own_match}

-- `sort_unstable_by(|a, b| b.cmp(a))`
insert_desc : ℕ → List ℕ → List ℕ
insert_desc a [] = a ∷ []
insert_desc a (x ∷ xs) = let rest = insert_desc a xs in if leb x a then a ∷ x ∷ xs else x ∷ rest

-- The values of a map in descending order.
values_desc : IdMap ℕ → List ℕ
unfolding insert_desc
values_desc [] = []
values_desc ((id, v) ∷ m) = insert_desc v (values_desc m)

-- The nodes whose match index is at least `candidate`.
unfoldable pub voters_at : ℕ → IdMap ℕ → List ℕ
voters_at candidate [] = []
voters_at candidate ((id, idx) ∷ m) =
    let rest = voters_at candidate m in if leb candidate idx then add id rest else rest

note_response : LeaderState → ℕ → AppendResponse → LeaderState
note_response ls from response =
    if response.success
    then record {
      match_index = insert from response.match_index ls.match_index;
      next_index = insert from (wrap64 (response.match_index + 1)) ls.next_index;
    }
    else record ls {
      next_index = insert from (max (some_or 1 (lookup from ls.next_index) - 1) 1) ls.next_index;
    }

module _ {W : Type 0} where
  -- The entry at the index is there and has the term.
  has_term : RaftLog W → ℕ → ℕ → Bool
  has_term log index term = elim (get log index) [ none ↦ false | some e ↦ e.term == term ]

  can_commit : Inner W → IdMap ℕ → ℕ → Bool
  unfolding has_term
  can_commit inner match_index candidate =
      has_quorum inner.membership (voters_at candidate match_index)
      && has_term inner.log candidate inner.state.persistent.current_term

  -- The loop over the match indices: the commit index that it leaves.
  find_commit : Inner W → IdMap ℕ → List ℕ → ℕ
  unfolding can_commit
  find_commit inner match_index [] = inner.state.commit_index
  find_commit inner match_index (candidate ∷ rest) =
      let later = find_commit inner match_index rest in
      if leb candidate inner.state.commit_index
      then inner.state.commit_index
      else if can_commit inner match_index candidate
      then candidate
      else later

  unfoldable pub try_advance_commit : Inner W → Inner W
  unfolding find_commit values_desc
  try_advance_commit inner = elim inner.leader_state [
    | none ↦ inner
    | some ls ↦ record inner {
      state = record inner.state {
        commit_index = find_commit inner ls.match_index (values_desc ls.match_index);
      };
    }
  ]

  unfoldable pub append_request : NodeConfig → Inner W → LeaderState → ℕ → AppendRequest
  append_request config inner ls peer =
      let next_idx = some_or 1 (lookup peer ls.next_index) in
      record {
        term = inner.state.persistent.current_term;
        leader_id = config.id;
        prev_log_index = next_idx - 1;
        prev_log_term = some_or 0 (term_at inner.log (next_idx - 1));
        entries = entries_from inner.log next_idx;
        leader_commit = inner.state.commit_index;
      }

  append_requests_for : NodeConfig → Inner W → LeaderState → List ℕ → List (ℕ × AppendRequest)
  append_requests_for config inner ls [] = []
  append_requests_for config inner ls (peer ∷ peers) =
      (peer, append_request config inner ls peer) ∷ append_requests_for config inner ls peers

  unfoldable pub create_append_requests : NodeConfig → Inner W → List (ℕ × AppendRequest)
  unfolding append_requests_for append_request
  create_append_requests config inner =
      if not (role_eq inner.state.role leader) then [] else elim inner.leader_state [
        | none ↦ []
        | some ls ↦ append_requests_for config inner ls config.peers
      ]

  unfoldable pub handle_append_response : Inner W → ℕ → AppendResponse → Inner W
  unfolding note_response
  handle_append_response inner from response =
      if ltb inner.state.persistent.current_term response.term
      then step_down_inner inner response.term
      else if not (role_eq inner.state.role leader)
      then inner
      else elim inner.leader_state [
        | none ↦ inner
        | some ls ↦
            try_advance_commit
              (record inner { leader_state = some (note_response ls from response) })
      ]

  -- One round of the loop of `take_committed_entries`.
  unfoldable pub take_next : Inner W × List LogEntry → Inner W × List LogEntry
  take_next (inner, entries) =
      let applied = wrap64 (inner.state.last_applied + 1) in
      (
        record inner { state = record inner.state { last_applied = applied } },
        elim (get inner.log applied) [ none ↦ entries | some e ↦ entries ++ (e ∷ []) ],
      )

  unfoldable pub take_loop : ℕ → Inner W × List LogEntry → Inner W × List LogEntry
  take_loop zero s = s
  take_loop (suc fuel) s =
      let rest = take_loop fuel (take_next s) in
      if ltb s.0.state.last_applied s.0.state.commit_index then rest else s

  -- The fuel is the number of rounds, `take_committed_entries_done`.
  unfoldable pub take_committed_entries : Inner W → Inner W × List LogEntry
  unfolding take_loop take_next
  take_committed_entries inner =
      take_loop (inner.state.commit_index - inner.state.last_applied) (inner, [])

module _ {W : Type 0} ⦃wal : Wal W⦄ where
  finish_proposal :
      NodeConfig → Inner W → ℕ → RaftLog W × Option Error → Inner W × (ProposalResult ⊎ ℕ)
  finish_proposal config inner index (log, none) =
      (note_own_match config (record inner { log = log }), inr index)
  finish_proposal config inner index (log, some _) = (record inner { log = log }, inl error)

  unfoldable pub propose : NodeConfig → Inner W → List ℕ → Inner W × (ProposalResult ⊎ ℕ)
  unfolding finish_proposal note_own_match
  propose config inner payload =
      let index = wrap64 (last_index inner.log + 1) in
      if not (role_eq inner.state.role leader)
      then (inner, inl (not_leader inner.state.leader_id))
      else if is_some inner.transfer_state
      then (inner, inl transfer_in_progress)
      else finish_proposal config inner index (
          append inner.log (
            record {
              index = index;
              term = inner.state.persistent.current_term;
              payload = payload;
              entry_type = normal;
            }
            ∷ []))
