-- ===== src/Membership/Quorum.antt =====
-- The quorums of crates/raft-consensus/src/membership.rs meet, also across a change of the configuration.
use raftrust.Prelude.{
  ℕ, ◌+◌, ◌/◌, ◌≤◌, ◌<◌, ◌≡◌, true, some, List, [], ◌∷◌, length, arith, Bool-cases, inl, inr,
}
use raftrust.Prelude.Maps.{contains}
use raftrust.Membership.{
  MemberInfo, ClusterConfig, MembershipState, has_quorum, count_voters, config_contains, any_id,
  config_len, from_config,
}

-- A member that both sets contain.
abbrev pub Shared : ClusterConfig → List ℕ → List ℕ → Type 0
Shared config a b =
    (id : ℕ) × (config_contains config id ≡ true) × (contains id a ≡ true) × (contains id b ≡ true)

-- Two sets that together count more voters than there are members share one.
shared_member :
    (ms : List MemberInfo) (a b : List ℕ)
    → length ms < count_voters ms a + count_voters ms b
    → (id : ℕ) × (any_id id ms ≡ true) × (contains id a ≡ true) × (contains id b ≡ true)
unfolding count_voters any_id
shared_member [] a b h = absurd (omega arith)
shared_member (m ∷ ms) a b h = elim (Bool-cases (contains m.id a)) [
  | inl in_a ↦ elim (Bool-cases (contains m.id b)) [
    | inl in_b ↦ (m.id, ground arith, in_a, in_b)
    | inr out ↦ let (id, i, x, y) = shared_member ms a b (ground arith) in (id, ground arith, x, y)
  ]
  | inr out ↦ let (id, i, x, y) = shared_member ms a b (ground arith) in (id, ground arith, x, y)
]

majorities_share :
    (config : ClusterConfig) (a b : List ℕ)
    → config_len config / 2 + 1 ≤ count_voters config.members a
    → config_len config / 2 + 1 ≤ count_voters config.members b
    → Shared config a b
unfolding config_contains config_len
majorities_share config a b p q = shared_member config.members a b (omega arith)

quorum_current :
    (m : MembershipState) (a : List ℕ)
    → has_quorum m a ≡ true
    → config_len m.current / 2 + 1 ≤ count_voters m.current.members a
unfolding has_quorum
quorum_current m a h = ground arith

quorum_pending :
    (m : MembershipState) (new_config : ClusterConfig) (a : List ℕ)
    → has_quorum m a ≡ true
    → m.pending ≡ some new_config
    → config_len new_config / 2 + 1 ≤ count_voters new_config.members a
unfolding has_quorum
quorum_pending m new_config a h p = ground arith

-- Two quorums of one membership state share a member of the current configuration.
pub has_quorum_overlap :
    (m : MembershipState) (a b : List ℕ)
    → has_quorum m a ≡ true
    → has_quorum m b ≡ true
    → Shared m.current a b
has_quorum_overlap m a b p q =
    majorities_share m.current a b (quorum_current m a p) (quorum_current m b q)

-- During joint consensus a quorum shares a member with every quorum of the old configuration alone,
-- and with every quorum of the new one alone.
pub has_quorum-joint_overlap :
    (m : MembershipState) (new_config : ClusterConfig) (a b c : List ℕ)
    → m.pending ≡ some new_config
    → has_quorum m a ≡ true
    → has_quorum (from_config m.current) b ≡ true
    → has_quorum (from_config new_config) c ≡ true
    → Shared m.current a b × Shared new_config a c
unfolding from_config
has_quorum-joint_overlap m new_config a b c e p q r = (
  majorities_share m.current a b (quorum_current m a p) (quorum_current _ b q),
  majorities_share new_config a c (quorum_pending m new_config a p e) (quorum_current _ c r),
)
