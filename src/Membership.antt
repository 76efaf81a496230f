-- ===== src/Membership.antt =====
-- crates/raft-consensus/src/membership.rs: cluster configurations and joint consensus. `serde_json`, which
-- encodes them, is the interface `Serde`.
pub mod Quorum
pub mod Change
use raftrust.Prelude.{
  ℕ, ◌+◌, ◌/◌, ◌≡◌, ◌⊎◌, inl, inr, Bool, true, false, not, ◌||◌, Option, none, some, List, [], ◌∷◌,
  ◌++◌, length, leb, ltb, ◌==◌, if◌then◌else◌, map,
}
use raftrust.Prelude.Maps.{contains, add}
use Prim.Native.String.{String}

pub record MemberInfo : Type 0 where
  pub id : ℕ
  pub address : String

pub record ClusterConfig : Type 0 where
  pub members : List MemberInfo

-- `members.iter().map(|m| m.id).collect()` into a set.
collect_ids : List MemberInfo → List ℕ
collect_ids [] = []
collect_ids (m ∷ ms) = add m.id (collect_ids ms)

unfoldable pub member_ids : ClusterConfig → List ℕ
unfolding collect_ids
member_ids config = collect_ids config.members

unfoldable pub any_id : ℕ → List MemberInfo → Bool
any_id id [] = false
any_id id (m ∷ ms) = m.id == id || any_id id ms

unfoldable pub config_contains : ClusterConfig → ℕ → Bool
unfolding any_id
config_contains config id = any_id id config.members

unfoldable pub config_len : ClusterConfig → ℕ
config_len config = length config.members

pub data ConfigChange : Type 0 where
  add_node : ℕ → String → ConfigChange
  remove_node : ℕ → ConfigChange

pub record MembershipState : Type 0 where
  pub current : ClusterConfig
  pub pending : Option ClusterConfig
  pub change_in_progress : Bool

-- `already_changing` is `ChangeInProgress`.
pub data MembershipError : Type 0 where
  already_changing : MembershipError
  node_already_exists : ℕ → MembershipError
  node_not_found : ℕ → MembershipError
  cannot_remove_last_node invalid_config_data not_leader : MembershipError

pub record JointConfigData : Type 0 where
  pub old : ClusterConfig
  pub joint_new : ClusterConfig

-- `serde_json` on the two types that go into log entries.
pub record Serde : Type 0 where
  pub encode_joint : JointConfigData → List ℕ
  pub decode_joint : List ℕ → Option JointConfigData
  pub encode_config : ClusterConfig → List ℕ
  pub decode_config : List ℕ → Option ClusterConfig

new_members : List ℕ → List MemberInfo
new_members [] = []
new_members (p ∷ ps) = record { id = p; address = "" } ∷ new_members ps

unfoldable pub new_membership : ℕ → List ℕ → MembershipState
unfolding new_members
new_membership self_id peers = record {
  current = record { members = record { id = self_id; address = "" } ∷ new_members peers };
  pending = none;
  change_in_progress = false;
}

unfoldable pub from_config : ClusterConfig → MembershipState
from_config config = record { current = config; pending = none; change_in_progress = false }

unfoldable pub in_joint_consensus : MembershipState → Bool
in_joint_consensus m = elim m.pending [ none ↦ false | some _ ↦ true ]

-- `voters.extend(ids)`
extend : List ℕ → List ℕ → List ℕ
extend [] voters = voters
extend (x ∷ xs) voters = extend xs (add x voters)

unfoldable pub all_voters : MembershipState → List ℕ
unfolding extend member_ids
all_voters m = elim m.pending [
  | none ↦ member_ids m.current
  | some p ↦ extend (member_ids p) (member_ids m.current)
]

unfoldable pub current_size : MembershipState → ℕ
current_size m = config_len m.current

-- `members.iter().filter(|m| voters.contains(&m.id)).count()`
unfoldable pub count_voters : List MemberInfo → List ℕ → ℕ
count_voters [] voters = 0
count_voters (m ∷ ms) voters =
    let rest = count_voters ms voters in if contains m.id voters then rest + 1 else rest

unfoldable pub has_quorum : MembershipState → List ℕ → Bool
has_quorum m voters =
    if ltb (count_voters m.current.members voters) (config_len m.current / 2 + 1)
    then false
    else elim m.pending [
      | none ↦ true
      | some new_config ↦
          if ltb (count_voters new_config.members voters) (config_len new_config / 2 + 1)
          then false
          else true
    ]

-- `new_members.retain(|m| m.id != id)`
unfoldable pub retain : ℕ → List MemberInfo → List MemberInfo
retain id [] = []
retain id (m ∷ ms) = let rest = retain id ms in if m.id == id then rest else m ∷ rest

begin_with :
    MembershipState → List MemberInfo → MembershipState × (MembershipError ⊎ JointConfigData)
begin_with m new_members =
    let new_config : ClusterConfig = record { members = new_members } in
    (
      record m { pending = some new_config; change_in_progress = true },
      inr (record { old = m.current; joint_new = new_config }),
    )

unfoldable pub begin_change :
    MembershipState → ConfigChange → MembershipState × (MembershipError ⊎ JointConfigData)
unfolding begin_with
begin_change m (add_node id address) =
    if m.change_in_progress
    then (m, inl already_changing)
    else if config_contains m.current id
    then (m, inl (node_already_exists id))
    else begin_with m (m.current.members ++ (record { id = id; address = address } ∷ []))
begin_change m (remove_node id) =
    if m.change_in_progress
    then (m, inl already_changing)
    else if not (config_contains m.current id)
    then (m, inl (node_not_found id))
    else if length (retain id m.current.members) == 0
    then (m, inl cannot_remove_last_node)
    else begin_with m (retain id m.current.members)

unfoldable pub finalize_joint : MembershipState → MembershipState × Option ClusterConfig
finalize_joint m = elim m.pending [
  | none ↦ (m, none)
  | some new_config ↦
      (record { current = new_config; pending = none; change_in_progress = false }, some new_config)
]

unfoldable pub apply_new_config : MembershipState → ClusterConfig → MembershipState
apply_new_config m config = record { current = config; pending = none; change_in_progress = false }

unfoldable pub abort_change : MembershipState → MembershipState
abort_change m = record m { pending = none; change_in_progress = false }

unfoldable pub is_voter : MembershipState → ℕ → Bool
is_voter m id = contains id (all_voters m)
