-- ===== src/Membership/Change.antt =====
-- What a configuration change of crates/raft-consensus/src/membership.rs does to the members.
use raftrust.Prelude.{
  ℕ, ◌<◌, ◌≡◌, refl, Bool, true, false, not, ◌&&◌, ◌||◌, Option, none, some, List, [], ◌∷◌, ◌++◌,
  length, ◌==◌, arith, Bool-cases, inl, inr, length-append,
}
use raftrust.Membership.{
  MemberInfo, ClusterConfig, MembershipState, JointConfigData, MembershipError, ConfigChange,
  add_node, remove_node, begin_change, retain, config_contains, any_id, finalize_joint,
  abort_change, apply_new_config,
}

-- No two members have one id.
abbrev DistinctIds : List MemberInfo → Type 0
DistinctIds [] = Unit
DistinctIds (m ∷ ms) = (any_id m.id ms ≡ false) × DistinctIds ms

-- A configuration that names no node twice, and some node.
abbrev pub IsConfig : ClusterConfig → Type 0
IsConfig c = DistinctIds c.members × (0 < length c.members)

abbrev IsPending : Option ClusterConfig → Type 0
IsPending none = Unit
IsPending (some c) = IsConfig c

pub record IsWellFormed (m : MembershipState) : Type 0 where
  pub current : IsConfig m.current
  pub pending : IsPending m.pending

any_id-append :
    (id : ℕ) (xs ys : List MemberInfo) → any_id id (xs ++ ys) ≡ (any_id id xs || any_id id ys)
unfolding any_id
any_id-append id [] ys = refl
any_id-append id (x ∷ xs) ys = ground (arith, any_id-append id xs ys)

any_id-retain :
    (id j : ℕ) (ms : List MemberInfo) → any_id j (retain id ms) ≡ (not (id == j) && any_id j ms)
unfolding any_id retain
any_id-retain id j [] = ground arith
any_id-retain id j (m ∷ ms) = ground (arith, any_id-retain id j ms)

DistinctIds-append :
    (xs : List MemberInfo) (m : MemberInfo)
    → DistinctIds xs
    → any_id m.id xs ≡ false
    → DistinctIds (xs ++ (m ∷ []))
unfolding any_id
DistinctIds-append [] m d h = ground arith
DistinctIds-append (x ∷ xs) m d h =
    (ground (arith, any_id-append x.id xs (m ∷ [])), DistinctIds-append xs m d.1 (ground arith))

DistinctIds-retain : (id : ℕ) (ms : List MemberInfo) → DistinctIds ms → DistinctIds (retain id ms)
unfolding retain
DistinctIds-retain id [] d = tt
DistinctIds-retain id (m ∷ ms) d = elim (Bool-cases (m.id == id)) [
  | inl e ↦ rw e (DistinctIds-retain id ms d.1)
  | inr e ↦ rw e (ground (arith, any_id-retain id m.id ms), DistinctIds-retain id ms d.1)
]

-- The members that a change asks for.
abbrev pub wanted : ConfigChange → ClusterConfig → ℕ → Bool
wanted (add_node id address) config j = config_contains config j || id == j
wanted (remove_node id) config j = not (id == j) && config_contains config j

-- A change that is refused leaves the state as it was.
pub begin_change_refused :
    (m : MembershipState) (change : ConfigChange) (e : MembershipError)
    → (begin_change m change).1 ≡ inl e
    → (begin_change m change).0 ≡ m
unfolding begin_change
begin_change_refused m (add_node id address) e h = ground arith
begin_change_refused m (remove_node id) e h = ground arith

-- A change that is begun proposes the current configuration with the one that has exactly the
-- members asked for, and keeps that one pending; the current one stays.
pub begin_change_members :
    (m : MembershipState) (change : ConfigChange) (joint : JointConfigData)
    → (begin_change m change).1 ≡ inr joint
    → let m' = (begin_change m change).0 in
      (m.change_in_progress ≡ false)
      × (joint.old ≡ m.current)
      × (m'.current ≡ m.current)
      × (m'.pending ≡ some joint.joint_new)
      × (m'.change_in_progress ≡ true)
      × ((j : ℕ) → config_contains joint.joint_new j ≡ wanted change m.current j)
unfolding begin_change config_contains any_id
begin_change_members m (add_node id address) joint h = (
  ground arith,
  ground arith,
  ground arith,
  ground arith,
  ground arith,
  λ j.
      ground
        (arith, any_id-append j m.current.members (record { id = id; address = address } ∷ [])),
)
begin_change_members m (remove_node id) joint h = (
  ground arith,
  ground arith,
  ground arith,
  ground arith,
  ground arith,
  λ j. ground (arith, any_id-retain id j m.current.members),
)

-- Beginning a change keeps the configurations well formed, with different identifiers and at least
-- one member, whether the change is refused or not.
pub begin_change-IsWellFormed :
    (m : MembershipState) (change : ConfigChange)
    → IsWellFormed m
    → IsWellFormed (begin_change m change).0
unfolding begin_change config_contains
begin_change-IsWellFormed m (add_node id address) v = ground (
  arith,
  DistinctIds-append m.current.members (record { id = id; address = address }) v.current.0,
  length-append m.current.members (record { id = id; address = address } ∷ []),
)
begin_change-IsWellFormed m (remove_node id) v =
    ground (arith, DistinctIds-retain id m.current.members v.current.0)

-- Finalizing, aborting and applying a well-formed configuration keep the configurations well formed,
-- and end the change: none is pending, and another change can begin.
pub end_change-IsWellFormed :
    (m : MembershipState) (c : ClusterConfig)
    → IsWellFormed m
    → IsConfig c
    → IsWellFormed (finalize_joint m).0
      × IsWellFormed (abort_change m)
      × IsWellFormed (apply_new_config m c)
      × ((finalize_joint m).0.pending ≡ none)
      × ((abort_change m).pending ≡ none)
      × ((abort_change m).change_in_progress ≡ false)
unfolding finalize_joint abort_change apply_new_config
end_change-IsWellFormed m c v w = ground arith
