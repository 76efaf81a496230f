-- ===== src/Node/Install.antt =====
-- Snapshots in crates/raft-consensus/src/node.rs. The snapshot directory `S` is a state of its own.
use raftrust.Prelude.{ℕ, Bool, Option, none, some, List, ltb, leb, ◌==◌, if◌then◌else◌, some_or}
use raftrust.Errors.{Error, Result, ok, err, panic}
use raftrust.Log.{term_at, compact, len}
use raftrust.State.{follower}
use raftrust.Snapshot.{SnapshotMetadata, SnapshotManager}
use raftrust.Node.{Inner, step_down_inner}

module _ {W : Type 0} where
  unfoldable pub should_snapshot : Inner W → ℕ → Bool
  should_snapshot inner threshold = ltb threshold (len inner.log)

  -- The node as a follower of the sender of a snapshot.
  follow_leader : Inner W → ℕ → ℕ → Inner W
  follow_leader inner leader_term leader_id =
      let inner' =
        if ltb inner.state.persistent.current_term leader_term
        then step_down_inner inner leader_term
        else inner in
      record inner' { state = record inner'.state { role = follower; leader_id = some leader_id } }

  -- What follows once the snapshot is stored.
  install : Inner W → SnapshotMetadata → Inner W
  install inner m = record inner {
    log = compact inner.log m.last_included_index m.last_included_term;
    state = record inner.state {
      commit_index =
          if ltb inner.state.commit_index m.last_included_index
          then m.last_included_index
          else inner.state.commit_index;
      last_applied =
          if ltb inner.state.last_applied m.last_included_index
          then m.last_included_index
          else inner.state.last_applied;
    };
  }

module _ {W S : Type 0} ⦃mgr : SnapshotManager S⦄ where
  finish_snapshot :
      Inner W → ℕ → ℕ → S × Result SnapshotMetadata → S × Inner W × Option SnapshotMetadata
  finish_snapshot inner commit_index commit_term (s, ok meta) =
      (s, record inner { log = compact inner.log commit_index commit_term }, some meta)
  finish_snapshot inner commit_index commit_term (s, err _) = (s, inner, none)
  finish_snapshot inner commit_index commit_term (s, panic) = (s, inner, none)

  create_snapshot : Inner W → List ℕ → S × Option Error → S × Inner W × Option SnapshotMetadata
  unfolding finish_snapshot
  create_snapshot inner snapshot_data (s, none) =
      let commit_term = some_or 0 (term_at inner.log inner.state.commit_index) in
      finish_snapshot inner inner.state.commit_index commit_term
        (mgr.create_snapshot s inner.state.commit_index commit_term snapshot_data)
  create_snapshot inner snapshot_data (s, some _) = (s, inner, none)

  unfoldable pub trigger_snapshot : S → Inner W → List ℕ → S × Inner W × Option SnapshotMetadata
  unfolding create_snapshot
  trigger_snapshot s inner snapshot_data =
      if inner.state.commit_index == 0
      then (s, inner, none)
      else create_snapshot inner snapshot_data (mgr.new s)

  -- The snapshot is saved; where the directory cannot be made, the log is cut all the same.
  finish_receive : Inner W → SnapshotMetadata → S × Option Error → S × Inner W
  finish_receive inner m (s, none) = (s, install inner m)
  finish_receive inner m (s, some _) = (s, inner)

  receive_snapshot : Inner W → SnapshotMetadata → List ℕ → S × Option Error → S × Inner W
  unfolding finish_receive install
  receive_snapshot inner m snapshot_data (s, none) =
      finish_receive inner m (mgr.receive_snapshot s m snapshot_data)
  receive_snapshot inner m snapshot_data (s, some _) = (s, install inner m)

  -- The result of the handler is the current term of the state that it leaves.
  unfoldable pub handle_install_snapshot :
      S → Inner W → ℕ → ℕ → SnapshotMetadata → List ℕ → S × Inner W
  unfolding follow_leader receive_snapshot
  handle_install_snapshot s inner leader_term leader_id m snapshot_data =
      let inner' = follow_leader inner leader_term leader_id in
      if ltb leader_term inner.state.persistent.current_term
      then (s, inner)
      else if leb m.last_included_index inner'.log.snapshot_index
      then (s, inner')
      else receive_snapshot inner' m snapshot_data (mgr.new s)
