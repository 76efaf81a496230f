-- ===== src/Node/Config.antt =====
-- Membership changes in crates/raft-consensus/src/node.rs.
use raftrust.Prelude.{
  ℕ, ◌+◌, ◌⊎◌, inl, inr, not, Option, none, some, List, [], ◌∷◌, if◌then◌else◌, wrap64,
}
use raftrust.Errors.{Error}
use raftrust.Message.{config_change}
use raftrust.Log.{Wal, RaftLog, last_index, append}
use raftrust.State.{leader, role_eq}
use raftrust.Membership.{
  MembershipState, ClusterConfig, ConfigChange, MembershipError, not_leader, invalid_config_data,
  JointConfigData, Serde, begin_change, finalize_joint, apply_new_config,
}
use raftrust.Node.{NodeConfig, Inner, note_own_match}

module _ {W : Type 0} ⦃wal : Wal W⦄ (serde : Serde) where
  -- The log with a config change entry behind its last entry.
  append_config : Inner W → List ℕ → RaftLog W × Option Error
  append_config inner payload = append inner.log (
      record {
        index = wrap64 (last_index inner.log + 1);
        term = inner.state.persistent.current_term;
        payload = payload;
        entry_type = config_change;
      }
      ∷ [])

  -- The index is taken before the append.
  finish_change :
      NodeConfig → Inner W → ℕ → RaftLog W × Option Error → Inner W × (MembershipError ⊎ ℕ)
  finish_change config inner index (log, none) =
      (note_own_match config (record inner { log = log }), inr index)
  finish_change config inner index (log, some _) =
      (record inner { log = log }, inl invalid_config_data)

  propose_joint :
      NodeConfig
      → Inner W
      → MembershipState × (MembershipError ⊎ JointConfigData)
      → Inner W × (MembershipError ⊎ ℕ)
  unfolding finish_change append_config note_own_match
  propose_joint config inner (m, inl e) = (record inner { membership = m }, inl e)
  propose_joint config inner (m, inr joint) =
      let inner' : Inner W = record inner { membership = m } in
      finish_change config inner' (wrap64 (last_index inner.log + 1))
        (append_config inner' (serde.encode_joint joint))

  unfoldable pub propose_config_change :
      NodeConfig → Inner W → ConfigChange → Inner W × (MembershipError ⊎ ℕ)
  unfolding propose_joint
  propose_config_change config inner change =
      if not (role_eq inner.state.role leader)
      then (inner, inl not_leader)
      else propose_joint config inner (begin_change inner.membership change)

  -- The leader moves to C_new and appends the entry for it; an error of the append is dropped.
  propose_final :
      NodeConfig → Inner W → MembershipState × Option ClusterConfig → Inner W × Option ClusterConfig
  unfolding append_config note_own_match
  propose_final config inner (m, none) = (record inner { membership = m }, none)
  propose_final config inner (m, some new_config) =
      let inner' : Inner W = record inner { membership = m } in
      (
        note_own_match config
            (record inner' { log = (append_config inner' (serde.encode_config new_config)).0 }),
        some new_config,
      )

  apply_joint : NodeConfig → Inner W → JointConfigData → Inner W × Option ClusterConfig
  unfolding propose_final
  apply_joint config inner joint =
      let m : MembershipState = record inner.membership { pending = some joint.joint_new } in
      let inner' : Inner W = record inner { membership = m } in
      if role_eq inner.state.role leader
      then propose_final config inner' (finalize_joint m)
      else (inner', none)

  apply_final : Inner W → Option ClusterConfig → Inner W × Option ClusterConfig
  apply_final inner none = (inner, none)
  apply_final inner (some new_config) =
      (record inner { membership = apply_new_config inner.membership new_config }, some new_config)

  unfoldable pub apply_config_change :
      NodeConfig → Inner W → List ℕ → Inner W × Option ClusterConfig
  unfolding apply_joint apply_final
  apply_config_change config inner payload = elim (serde.decode_joint payload) [
    | some joint ↦ apply_joint config inner joint
    | none ↦ apply_final inner (serde.decode_config payload)
  ]
