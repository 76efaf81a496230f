-- ===== src/Node/Lead/Propose.antt =====
-- `propose`, `take_committed_entries` and `create_append_requests` of crates/raft-consensus/src/node.rs.
use raftrust.Log.Extend.{append-IsContiguous, get-append}
use raftrust.Prelude.{
  lt→ltb, ◌∙◌, ap, ℕ, zero, suc, ◌+◌, ◌-◌, ◌≤◌, ◌<◌, ◌^◌, ◌≡◌, ◌≢◌, refl, ◌⊎◌, inl, inr, Option,
  none, some, List, [], ◌∷◌, ◌++◌, arith, wrap64,
}
use mathlib.Core.List.{append-nil, append_assoc}
use raftrust.Message.{LogEntry, normal, not_leader, transfer_in_progress}
use raftrust.Log.{Wal, RaftLog, get, last_index, append}
use raftrust.Log.Index.{IsContiguous}
use raftrust.Log.Cut.{last_index-eq}
use raftrust.State.{leader, role_eq}
use raftrust.Node.{NodeConfig, Inner}
use raftrust.Node.Lead.{propose, take_committed_entries, take_loop, take_next}

module _ {W : Type 0} ⦃wal : Wal W⦄ where
  -- A proposal is refused, with the state unchanged, exactly by a node that is not leader or that
  -- hands over its leadership.
  pub propose_refused :
      (config : NodeConfig) (n : Inner W) (payload : List ℕ)
      → ((n.state.role ≢ leader) ⊎ (n.transfer_state ≢ none))
      → ((propose config n payload).0 ≡ n)
        × (((propose config n payload).1 ≡ inl (not_leader n.state.leader_id))
            ⊎ ((propose config n payload).1 ≡ inl transfer_in_progress))
  unfolding propose role_eq
  propose_refused config n payload h = (ground arith, ground arith)

  abbrev proposal : Inner W → List ℕ → LogEntry
  proposal n payload = record {
    index = wrap64 (last_index n.log + 1);
    term = n.state.persistent.current_term;
    payload = payload;
    entry_type = normal;
  }

  propose_facts :
      (config : NodeConfig) (n : Inner W) (payload : List ℕ) (index : ℕ)
      → (propose config n payload).1 ≡ inr index
      → let appended = append n.log (proposal n payload ∷ []) in
        (index ≡ wrap64 (last_index n.log + 1))
        × (n.state.role ≡ leader)
        × (appended.1 ≡ none)
        × ((propose config n payload).0.log ≡ appended.0)
        × ((propose config n payload).0.state ≡ n.state)
  unfolding propose role_eq
  propose_facts config n payload index ok = ground arith

  -- An accepted proposal is in the log: at the index returned, the one behind the last, with the
  -- leader's term and the data; the entries before it are where they were, and neither the commit
  -- index nor the term changes. The log is contiguous and its next index fits `u64`.
  pub propose_accepted :
      (config : NodeConfig) (n : Inner W) (payload : List ℕ) (index : ℕ)
      → IsContiguous n.log
      → last_index n.log + 1 < 2 ^ 64
      → (propose config n payload).1 ≡ inr index
      → let n' = (propose config n payload).0 in
        (index ≡ last_index n.log + 1)
        × (n.state.role ≡ leader)
        × (get n'.log index
            ≡ some (record {
              index = index;
              term = n.state.persistent.current_term;
              payload = payload;
              entry_type = normal;
            }))
        × ((k : ℕ) → k ≤ last_index n.log → get n'.log k ≡ get n.log k)
        × IsContiguous n'.log
        × (n'.state ≡ n.state)
  propose_accepted config n payload index c fits ok =
      let (i, role, done, log_eq, state_eq) = propose_facts config n payload index ok in
      let ends = last_index-eq n.log c in
      let at_end : index ≡ last_index n.log + 1 = omega arith in
      let at = λ (k : ℕ). get-append n.log (proposal n payload ∷ []) k done in
      (
        at_end,
        role,
        rw log_eq (ground (arith, at index)),
        λ k h. rw log_eq (ground (arith, at k)),
        rw log_eq (append-IsContiguous n.log (proposal n payload ∷ []) c (omega arith, tt)),
        state_eq,
      )

-- The entries at the indices `from + 1` to `to`, of those that the log holds.
abbrev pub entries_between : {W : Type 0} → RaftLog W → ℕ → ℕ → List LogEntry
entries_between log from zero = []
entries_between log from (suc count) =
    let rest = entries_between log (from + 1) count in
    elim (get log (from + 1)) [ none ↦ rest | some e ↦ e ∷ rest ]

took_one :
    (o : Option LogEntry) (acc rest : List LogEntry)
    → (elim o [ none ↦ acc | some e ↦ acc ++ (e ∷ []) ]) ++ rest
      ≡ acc ++ (elim o [ none ↦ rest | some e ↦ e ∷ rest ])
took_one none acc rest = refl
took_one (some e) acc rest = rw append_assoc

module _ {W : Type 0} where
  -- The node with another applied index.
  abbrev pub applied_up_to : Inner W → ℕ → Inner W
  applied_up_to n i = record n { state = record n.state { last_applied = i } }

  took :
      (count : ℕ) (n : Inner W) (acc : List LogEntry)
      → n.state.last_applied + 1 < 2 ^ 64
      → let next = take_next (n, acc) in
        next.1 ++ entries_between next.0.log next.0.state.last_applied count
        ≡ acc ++ entries_between n.log n.state.last_applied (suc count)
  unfolding take_next
  took count n acc fits =
      let w : wrap64 (n.state.last_applied + 1) ≡ n.state.last_applied + 1 = omega arith in
      rw (w, take_next)
        (took_one (get n.log (n.state.last_applied + 1)) acc
          (entries_between n.log (n.state.last_applied + 1) count))

  take_loop_lem :
      (count : ℕ) (n : Inner W) (acc : List LogEntry)
      → n.state.last_applied + count ≡ n.state.commit_index
      → n.state.commit_index < 2 ^ 64
      → let r = take_loop count (n, acc) in
        (r.0 ≡ applied_up_to n n.state.commit_index)
        × (r.1 ≡ acc ++ entries_between n.log n.state.last_applied count)
  unfolding take_loop take_next
  take_loop_lem zero n acc h fits =
      let at : n.state.last_applied ≡ n.state.commit_index = omega arith in
      (ap (applied_up_to n) at, rw append-nil)
  take_loop_lem (suc count) n acc h fits =
      let next = (take_next (n, acc)).0 in
      let ih = take_loop_lem count next (take_next (n, acc)).1 (omega arith) fits in
      rw (lt→ltb n.state.last_applied n.state.commit_index (omega arith))
        (ih.0, ih.1 ∙ took count n acc (omega arith))

  -- From an applied index at or below the commit index, which fits `u64`, the loop ends with the node
  -- as it was but for the applied index, which is then the commit index. It hands out the entries of
  -- the log between the two, in order and each once.
  pub take_committed_entries_done :
      (n : Inner W)
      → n.state.last_applied ≤ n.state.commit_index
      → n.state.commit_index < 2 ^ 64
      → let r = take_committed_entries n in
        (r.0 ≡ applied_up_to n n.state.commit_index)
        × (r.1
            ≡ entries_between n.log n.state.last_applied
                (n.state.commit_index - n.state.last_applied))
  unfolding take_committed_entries
  take_committed_entries_done n le fits =
      take_loop_lem (n.state.commit_index - n.state.last_applied) n [] (omega arith) fits

  take_idle :
      (n : Inner W)
      → n.state.last_applied ≡ n.state.commit_index
      → (take_committed_entries n).1 ≡ []
  unfolding take_committed_entries
  take_idle n e =
      let none_left : n.state.commit_index - n.state.last_applied ≡ 0 = omega arith in
      rw (none_left, take_loop)

  -- Taken at once again, nothing is handed out.
  pub take_committed_entries_again :
      (n : Inner W)
      → n.state.last_applied ≤ n.state.commit_index
      → n.state.commit_index < 2 ^ 64
      → (take_committed_entries (take_committed_entries n).0).1 ≡ []
  take_committed_entries_again n le fits =
      let d = take_committed_entries_done n le fits in
      take_idle (take_committed_entries n).0 (rw (d.0) refl)
