-- ===== src/State.antt =====
-- crates/raft-consensus/src/state.rs: the state of a Raft node, the leader's book-keeping and the votes of
-- an election. `raft_state.json` is the record `StateFile`: what `load` would read back, and whether
-- the file system takes the next writes, whose errors `save` drops.
pub mod Votes
pub mod Leader
use raftrust.Prelude.{
  ℕ, ◌+◌, ◌/◌, ◌≡◌, refl, Bool, true, false, Option, none, some, List, [], ◌∷◌, length, leb,
  if◌then◌else◌, wrap64,
}
use raftrust.Prelude.Maps.{IdMap, insert, add}

pub data Role : Type 0 where
  follower pre_candidate candidate leader : Role

unfoldable pub role_eq : Role → Role → Bool
role_eq follower follower = true
role_eq pre_candidate pre_candidate = true
role_eq candidate candidate = true
role_eq leader leader = true
role_eq _ _ = false

pub record PersistentState : Type 0 where
  pub current_term : ℕ
  pub voted_for : Option ℕ

unfoldable pub new_persistent : PersistentState
new_persistent = record { current_term = 0; voted_for = none }

-- The state file and its disk: `stored` is what the file parses to, if it is there and parses. A write
-- goes through if the disk is `writable`; if it is not, the temporary file may still have been
-- created and written in part, and the renaming then puts it over the state file (`torn`).
pub record StateFile : Type 0 where
  pub stored : Option PersistentState
  pub writable : Bool
  pub torn : Bool

unfoldable pub load : StateFile → PersistentState
unfolding new_persistent
load file = elim file.stored [ none ↦ new_persistent | some p ↦ p ]

unfoldable pub save : PersistentState → StateFile → StateFile
save p file =
    if file.writable
    then record file { stored = some p }
    else if file.torn
    then record file { stored = none }
    else file

pub record RaftState : Type 0 where
  pub id : ℕ
  pub role : Role
  pub persistent : PersistentState
  pub leader_id : Option ℕ
  pub commit_index : ℕ
  pub last_applied : ℕ

pub record LeaderState : Type 0 where
  pub next_index : IdMap ℕ
  pub match_index : IdMap ℕ

new_leader_from : List ℕ → ℕ → LeaderState → LeaderState
new_leader_from [] last ls = ls
new_leader_from (peer ∷ peers) last ls = new_leader_from peers last (record {
  next_index = insert peer (wrap64 (last + 1)) ls.next_index;
  match_index = insert peer 0 ls.match_index;
})

unfoldable pub new_leader : List ℕ → ℕ → LeaderState
unfolding new_leader_from
new_leader peers last_log_index =
    new_leader_from peers last_log_index (record { next_index = []; match_index = [] })

pub record ElectionState : Type 0 where
  pub votes_received : List ℕ
  pub votes_needed : ℕ

unfoldable pub new_election : ℕ → ElectionState
new_election cluster_size = record { votes_received = []; votes_needed = cluster_size / 2 + 1 }

unfoldable pub has_quorum : ElectionState → Bool
has_quorum e = leb e.votes_needed (length e.votes_received)

unfoldable pub record_vote : ElectionState → ℕ → ElectionState
record_vote e from = record e { votes_received = add from e.votes_received }
