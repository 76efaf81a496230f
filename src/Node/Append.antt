-- ===== src/Node/Append.antt =====
-- `handle_append_entries` of crates/raft-consensus/src/node.rs: the follower's side of replication.
pub mod Merge
pub mod Redeliver
pub mod Committed
pub mod Accept
use raftrust.Prelude.{
  ℕ, ◌-◌, Bool, true, false, not, ◌&&◌, Option, none, some, List, [], ◌∷◌, ◌++◌, ltb, ◌==◌,
  if◌then◌else◌, min,
}
use raftrust.Message.{LogEntry, AppendRequest, AppendResponse}
use raftrust.Log.{Wal, RaftLog, get, last_index, match_term, truncate_after, append}
use raftrust.State.{follower}
use raftrust.Node.{Inner, step_down_inner}

module _ {W : Type 0} where
  -- One round of the loop that looks for the point of conflict, on the log and `new_entries`.
  unfoldable pub merge_entry : RaftLog W × List LogEntry → LogEntry → RaftLog W × List LogEntry
  merge_entry (log, new_entries) entry = elim (get log entry.index) [
    | some existing ↦
        if not (existing.term == entry.term)
        then (truncate_after log (entry.index - 1), new_entries ++ (entry ∷ []))
        else (log, new_entries)
    | none ↦ (log, new_entries ++ (entry ∷ []))
  ]

  unfoldable pub merge_entries :
      RaftLog W × List LogEntry → List LogEntry → RaftLog W × List LogEntry
  unfolding merge_entry
  merge_entries acc [] = acc
  merge_entries acc (entry ∷ entries) = merge_entries (merge_entry acc entry) entries

  -- The node as a follower of the sender, whose term is not old.
  follow : Inner W → AppendRequest → ℕ → Inner W
  follow inner request now =
      let inner' =
        if ltb inner.state.persistent.current_term request.term
        then step_down_inner inner request.term
        else inner in
      record inner' {
        state = record inner'.state { role = follower; leader_id = some request.leader_id };
        last_heartbeat = now;
      }

  advance_to : Inner W → ℕ → Inner W
  advance_to inner leader_commit =
      if ltb inner.state.commit_index leader_commit
      then record inner {
        state = record inner.state { commit_index = min leader_commit (last_index inner.log) };
      }
      else inner

module _ {W : Type 0} ⦃wal : Wal W⦄ where
  -- An error of the append is dropped.
  unfoldable pub append_missing : RaftLog W × List LogEntry → RaftLog W
  append_missing (log, []) = log
  append_missing (log, (entry ∷ new_entries)) = (append log (entry ∷ new_entries)).0

  unfoldable pub store_entries : RaftLog W → List LogEntry → RaftLog W
  unfolding append_missing merge_entries
  store_entries log entries = append_missing (merge_entries (log, []) entries)

  accept_entries : Inner W → AppendRequest → Inner W × AppendResponse
  unfolding advance_to
  accept_entries inner request =
      let stored : Inner W = record inner { log = store_entries inner.log request.entries } in
      let inner' = advance_to stored request.leader_commit in
      (
        inner',
        record {
          term = inner'.state.persistent.current_term;
          success = true;
          match_index = last_index inner'.log;
        },
      )

  unfoldable pub handle_append_entries : Inner W → AppendRequest → ℕ → Inner W × AppendResponse
  unfolding follow accept_entries
  handle_append_entries inner request now =
      let inner' = follow inner request now in
      if ltb request.term inner.state.persistent.current_term
      then (
        inner,
        record { term = inner.state.persistent.current_term; success = false; match_index = 0 },
      )
      else if ltb 0 request.prev_log_index
          && not (match_term inner'.log request.prev_log_index request.prev_log_term)
      then (
        inner',
        record {
          term = inner'.state.persistent.current_term;
          success = false;
          match_index = last_index inner'.log;
        },
      )
      else accept_entries inner' request
