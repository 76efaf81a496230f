-- ===== src/Examples/Replication.antt =====
-- Replication at concrete inputs.
use raftrust.Node.Append.Merge.{AgreesUpTo}
use raftrust.Node.Lead.Requests.{next_for}
use raftrust.Prelude.{
  ℕ, zero, suc, ◌+◌, ◌-◌, ◌≤◌, ◌<◌, ◌^◌, ◌≡◌, ◌≢◌, ◌⊎◌, inr, refl, true, none, some, [], ◌∷◌, arith,
}
use raftrust.Prelude.Maps.{lookup, contains, add}
use raftrust.Message.{AppendRequest, normal}
use raftrust.Log.{get, last_index, match_term, term_at, append}
use raftrust.Log.Index.{IsContiguous}
use raftrust.State.{leader, follower, LeaderState, role_eq}
use raftrust.Membership.{has_quorum, count_voters, config_len}
use raftrust.Node.{step_down_inner}
use raftrust.Node.Append.{handle_append_entries}
use raftrust.Node.Append.Merge.{IsPlaced, IsStored}
use raftrust.Node.Append.Accept.{
  handle_append_entries-IsStored, handle_append_entries_again, handle_append_entries-committed,
}
use raftrust.Node.Lead.{
  try_advance_commit, voters_at, propose, take_committed_entries, append_request,
}
use raftrust.Node.Lead.Commit.{
  HasTerm, MostReached, MostReachedPending, try_advance_commit_sound, try_advance_commit-max,
}
use raftrust.Node.Lead.Propose.{
  propose_accepted, take_committed_entries_done, entries_between, applied_up_to,
}
use raftrust.Node.Lead.Requests.{append_request_replicates, append_request_gap}
use raftrust.Examples.Fixtures.{
  memory_wal, memory_wal-NeverFails, config, entry, log3, log_cut, log_of, Log, Node, node_of,
  leader_node, leading,
}

log3-IsContiguous : IsContiguous log3
log3-IsContiguous = record { run = omega arith }

log_cut-IsContiguous : IsContiguous log_cut
log_cut-IsContiguous = record { run = omega arith }

-- A follower whose third entry is of an older term than the leader's.
abbrev log_stale : Log
log_stale = log_of 0 0 (entry 1 1 ∷ entry 2 1 ∷ entry 3 1 ∷ [])

log_stale-IsContiguous : IsContiguous log_stale
log_stale-IsContiguous = record { run = omega arith }

abbrev following : Node
following = node_of follower 1 none log_stale

abbrev request : AppendRequest
request = record {
  term = 2;
  leader_id = 1;
  prev_log_index = 2;
  prev_log_term = 1;
  entries = entry 3 2 ∷ [];
  leader_commit = 3;
}

stored : (handle_append_entries following request 5).1.success ≡ true
unfolding handle_append_entries step_down_inner match_term term_at get
stored = refl

handle_append_entries-IsStored_example :
    IsStored log_stale 2 (entry 3 2 ∷ []) (handle_append_entries following request 5).0.log
    × ((handle_append_entries following request 5).1.match_index
        ≡ last_index (handle_append_entries following request 5).0.log)
handle_append_entries-IsStored_example =
    handle_append_entries-IsStored memory_wal-NeverFails following request 5 log_stale-IsContiguous
      (omega arith) (λ z. refl) stored

handle_append_entries_again_example :
    (handle_append_entries (handle_append_entries following request 5).0 request 6).0.log
    ≡ (handle_append_entries following request 5).0.log
handle_append_entries_again_example =
    handle_append_entries_again memory_wal-NeverFails following request 5 6 log_stale-IsContiguous
      (omega arith) (λ z. refl) stored

commit_within : following.state.commit_index ≤ last_index following.log
unfolding last_index
commit_within = omega arith

agree : AgreesUpTo following.log following.state.commit_index request.entries
agree zero e x h found le = ground arith
agree (suc j) e x h found le = cc

handle_append_entries-committed_example :
    ((k : ℕ) → k ≤ 1 → get (handle_append_entries following request 5).0.log k ≡ get log_stale k)
    × (1 ≤ (handle_append_entries following request 5).0.state.commit_index)
    × ((handle_append_entries following request 5).0.state.commit_index
        ≤ last_index (handle_append_entries following request 5).0.log)
handle_append_entries-committed_example =
    handle_append_entries-committed memory_wal-NeverFails following request 5 log_stale-IsContiguous
      (omega arith) (λ z. refl) commit_within agree

abbrev leader3 : Node
leader3 = leader_node log3

try_advance_commit_sound_example :
    let c = (try_advance_commit leader3).state.commit_index in
    (c ≡ 1)
    ⊎ ((ls : LeaderState) × (leader3.leader_state ≡ some ls)
        × (1 < c)
        × MostReached c ls.match_index leader3.membership.current
        × MostReachedPending c ls.match_index leader3.membership.pending
        × HasTerm leader3.log c 2)
try_advance_commit_sound_example = try_advance_commit_sound leader3

quorum_at_3 : has_quorum leader3.membership (voters_at 3 leading.match_index) ≡ true
unfolding has_quorum count_voters config_len contains voters_at add
quorum_at_3 = refl

match_2 : lookup 2 leading.match_index ≡ some 3
unfolding lookup
match_2 = refl

term_at_3 : HasTerm leader3.log 3 2
unfolding get
term_at_3 = (entry 3 2, refl, refl)

try_advance_commit-max_example : 3 ≤ (try_advance_commit leader3).state.commit_index
try_advance_commit-max_example =
    try_advance_commit-max leader3 leading 2 3 refl match_2 quorum_at_3 term_at_3

room : last_index leader3.log + 1 < 2 ^ 64
unfolding last_index
room = omega arith

accepted : (propose config leader3 (9 ∷ [])).1 ≡ inr 4
unfolding propose role_eq last_index append
accepted = refl

propose_accepted_example :
    let n' = (propose config leader3 (9 ∷ [])).0 in
    (4 ≡ last_index leader3.log + 1)
    × (leader3.state.role ≡ leader)
    × (get n'.log 4 ≡ some (record { index = 4; term = 2; payload = 9 ∷ []; entry_type = normal }))
    × ((k : ℕ) → k ≤ last_index leader3.log → get n'.log k ≡ get leader3.log k)
    × IsContiguous n'.log
    × (n'.state ≡ leader3.state)
propose_accepted_example =
    propose_accepted config leader3 (9 ∷ []) 4 log3-IsContiguous room accepted

take_committed_entries_done_example :
    let r = take_committed_entries leader3 in
    (r.0 ≡ applied_up_to leader3 1) × (r.1 ≡ entries_between log3 0 (1 - 0))
take_committed_entries_done_example =
    take_committed_entries_done leader3 (omega arith) (omega arith)

-- Node 2 has next index 3: the request carries entry 3 behind entry 2.
replicated :
    (handle_append_entries following (append_request config leader3 leading 2) 5).1.success ≡ true
unfolding append_request lookup term_at get handle_append_entries step_down_inner match_term
replicated = refl

next_2 : next_for leading 2 ≡ 3
unfolding lookup
next_2 = refl

next_3 : next_for leading 3 ≡ 1
unfolding lookup
next_3 = refl

found_3 : get leader3.log 3 ≡ some (entry 3 2)
unfolding get
found_3 = refl

append_request_replicates_example :
    IsPlaced log_stale
      (entry 3 2)
      (handle_append_entries following (append_request config leader3 leading 2) 5).0.log
append_request_replicates_example =
    append_request_replicates memory_wal-NeverFails config leader3 following leading 2 5 3
      (entry 3 2) log3-IsContiguous log_stale-IsContiguous (omega (arith, next_2)) (λ z. refl)
      replicated (omega (arith, next_2)) found_3

abbrev fresh : Node
fresh = node_of follower 1 none (log_of 0 0 [])

abbrev cut_leader : Node
cut_leader = leader_node log_cut

append_request_gap_example :
    let answer = handle_append_entries fresh (append_request config cut_leader leading 3) 5 in
    (answer.1.success ≡ true)
    × (get answer.0.log 1 ≡ some (entry 3 2))
    × ((entry 3 2).index ≡ 2 + 1)
    × ((entry 3 2).index ≢ 1)
append_request_gap_example =
    append_request_gap memory_wal-NeverFails config cut_leader fresh leading 3 5 (entry 3 2)
      (entry 4 2 ∷ []) log_cut-IsContiguous refl (omega arith) next_3 refl refl (omega arith)
