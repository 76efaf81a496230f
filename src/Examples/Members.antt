-- ===== src/Examples/Members.antt =====
-- Configurations, quorums, reads and transfers at concrete inputs.
use raftrust.Membership.{config_len}
use raftrust.Membership.{any_id, count_voters, retain}
use raftrust.Prelude.Maps.{lookup}
use raftrust.Prelude.{◌≡◌, inr, refl, true, false, some, [], ◌∷◌, arith}
use raftrust.Prelude.Maps.{contains}
use raftrust.Log.{last_index}
use raftrust.Membership.{
  MembershipState, ClusterConfig, remove_node, begin_change, has_quorum, from_config,
  config_contains, JointConfigData,
}
use raftrust.Membership.Quorum.{Shared, has_quorum_overlap, has_quorum-joint_overlap}
use raftrust.Membership.Change.{IsWellFormed}
use raftrust.ReadIndex.{
  ReadIndexState, register, record_ack, is_confirmed, take_confirmed, get_read_index,
}
use raftrust.ReadIndex.Acks.{IsTracked}
use raftrust.Transfer.{TransferState}
use raftrust.Node.Handover.{check_transfer_progress, target_match}
use raftrust.Examples.Fixtures.{log3, members, Node, leader_node}

-- The cluster while node 3 leaves it.
abbrev leaving : MembershipState
leaving = (begin_change members (remove_node 3)).0

abbrev two : ClusterConfig
two = record { members = record { id = 1; address = "" } ∷ record { id = 2; address = "" } ∷ [] }

leaving_pending : leaving.pending ≡ some two
unfolding begin_change config_contains retain
leaving_pending = refl

quorum_12 : has_quorum members (1 ∷ 2 ∷ []) ≡ true
unfolding has_quorum count_voters config_len contains
quorum_12 = refl

quorum_23 : has_quorum members (2 ∷ 3 ∷ []) ≡ true
unfolding has_quorum count_voters config_len contains
quorum_23 = refl

quorum_leaving : has_quorum leaving (1 ∷ 2 ∷ []) ≡ true
unfolding has_quorum count_voters config_len contains begin_change config_contains retain
quorum_leaving = refl

quorum_old : has_quorum (from_config leaving.current) (2 ∷ 3 ∷ []) ≡ true
unfolding has_quorum count_voters config_len contains begin_change config_contains retain
    from_config
quorum_old = refl

quorum_new : has_quorum (from_config two) (1 ∷ 2 ∷ []) ≡ true
unfolding has_quorum count_voters config_len contains from_config
quorum_new = refl

has_quorum_overlap_example : Shared members.current (1 ∷ 2 ∷ []) (2 ∷ 3 ∷ [])
has_quorum_overlap_example =
    has_quorum_overlap members (1 ∷ 2 ∷ []) (2 ∷ 3 ∷ []) quorum_12 quorum_23

has_quorum-joint_overlap_example :
    Shared leaving.current (1 ∷ 2 ∷ []) (2 ∷ 3 ∷ []) × Shared two (1 ∷ 2 ∷ []) (1 ∷ 2 ∷ [])
has_quorum-joint_overlap_example =
    has_quorum-joint_overlap leaving two (1 ∷ 2 ∷ []) (2 ∷ 3 ∷ []) (1 ∷ 2 ∷ []) leaving_pending
      quorum_leaving quorum_old quorum_new

abbrev joint : JointConfigData
joint = record { old = members.current; joint_new = two }

begun : (begin_change members (remove_node 3)).1 ≡ inr joint
unfolding begin_change config_contains retain
begun = refl

members-IsWellFormed : IsWellFormed members
unfolding any_id
members-IsWellFormed = record { current = ((refl, (refl, (refl, tt))), omega arith); pending = tt }

-- A read at index 5 in a cluster of three, which waits for one more node.
abbrev waiting : ReadIndexState
waiting = record {
  next_id = 2;
  pending = (1, record { read_index = 5; acks = 1 ∷ []; cluster_size = 3 }) ∷ [];
}

waiting-IsTracked : IsTracked waiting
unfolding contains
waiting-IsTracked = record { distinct = (refl, tt); below = omega arith }

-- The request is taken though it has one acknowledgement of two.
taken_unconfirmed : (is_confirmed waiting 1 ≡ false) × ((take_confirmed waiting 1).1 ≡ some 5)
unfolding is_confirmed raftrust.ReadIndex.has_quorum lookup take_confirmed
taken_unconfirmed = (refl, refl)

abbrev leader3 : Node
leader3 = leader_node log3

abbrev handing_over : TransferState
handing_over = record { target = 2; started_at = 100; timeout_now_sent = false }

abbrev handover_node : Node
handover_node = record leader3 { transfer_state = some handing_over }

progress_now : (check_transfer_progress handover_node).1 ≡ some 2
unfolding check_transfer_progress target_match lookup last_index
progress_now = refl
