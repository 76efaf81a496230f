-- ===== src/State/Votes.antt =====
-- The votes of `ElectionState` in crates/raft-consensus/src/state.rs: two quorums over one set of nodes share a
-- voter.
use raftrust.Prelude.{
  ap, ==_iff, ℕ, ◌+◌, ◌/◌, ◌≤◌, ◌<◌, ◌≡◌, true, false, List, [], ◌∷◌, length, ◌==◌, if◌then◌else◌,
  arith, Bool-cases, inl, inr,
}
use raftrust.Prelude.Maps.{contains, add, Distinct, add-Distinct}
use raftrust.State.{ElectionState, has_quorum, record_vote}

-- How many of the nodes are in the set.
count_in : List ℕ → List ℕ → ℕ
count_in [] votes = 0
count_in (n ∷ ns) votes =
    let rest = count_in ns votes in if contains n votes then rest + 1 else rest

-- All of the set are nodes.
abbrev pub Within : List ℕ → List ℕ → Type 0
Within nodes [] = Unit
Within nodes (v ∷ vs) = (contains v nodes ≡ true) × Within nodes vs

-- The votes are of different nodes of the cluster, and a majority of the cluster is needed.
pub record IsElection (nodes : List ℕ) (e : ElectionState) : Type 0 where
  pub distinct : Distinct e.votes_received
  pub within : Within nodes e.votes_received
  pub needed : e.votes_needed ≡ length nodes / 2 + 1

count_in_le : (nodes votes : List ℕ) (v : ℕ) → count_in nodes votes ≤ count_in nodes (v ∷ votes)
unfolding count_in contains
count_in_le [] votes v = omega arith
count_in_le (n ∷ ns) votes v = ground (arith, count_in_le ns votes v)

count_in_lt :
    (nodes votes : List ℕ) (v : ℕ)
    → contains v votes ≡ false
    → contains v nodes ≡ true
    → count_in nodes votes + 1 ≤ count_in nodes (v ∷ votes)
unfolding count_in contains
count_in_lt [] votes v out h = cc
count_in_lt (n ∷ ns) votes v out h = elim (Bool-cases (v == n)) [
  | inl same ↦
      ground (arith, count_in_le ns votes v, ap (λ (t : ℕ). contains t votes) ((==_iff v n).0 same))
  | inr other ↦ ground (arith, count_in_lt ns votes v out)
]

length-le_count :
    (nodes votes : List ℕ)
    → Distinct votes
    → Within nodes votes
    → length votes ≤ count_in nodes votes
length-le_count nodes [] d w = omega arith
length-le_count nodes (v ∷ vs) d w =
    omega (arith, length-le_count nodes vs d.1 w.1, count_in_lt nodes vs v d.0 w.0)

shared_voter :
    (nodes a b : List ℕ)
    → length nodes < count_in nodes a + count_in nodes b
    → (v : ℕ) × (contains v nodes ≡ true) × (contains v a ≡ true) × (contains v b ≡ true)
unfolding count_in contains
shared_voter [] a b h = absurd (omega arith)
shared_voter (n ∷ ns) a b h = elim (Bool-cases (contains n a)) [
  | inl in_a ↦ elim (Bool-cases (contains n b)) [
    | inl in_b ↦ (n, ground arith, in_a, in_b)
    | inr out ↦ let (v, i, x, y) = shared_voter ns a b (ground arith) in (v, ground arith, x, y)
  ]
  | inr out ↦ let (v, i, x, y) = shared_voter ns a b (ground arith) in (v, ground arith, x, y)
]

-- Two elections of one cluster that both have a quorum share a voter.
pub elections_overlap :
    (nodes : List ℕ) (e₁ e₂ : ElectionState)
    → IsElection nodes e₁
    → IsElection nodes e₂
    → has_quorum e₁ ≡ true
    → has_quorum e₂ ≡ true
    → (v : ℕ) × (contains v nodes ≡ true)
      × (contains v e₁.votes_received ≡ true)
      × (contains v e₂.votes_received ≡ true)
unfolding has_quorum
elections_overlap nodes e₁ e₂ i₁ i₂ q₁ q₂ =
    let c₁ = length-le_count nodes e₁.votes_received i₁.distinct i₁.within in
    let c₂ = length-le_count nodes e₂.votes_received i₂.distinct i₂.within in
    shared_voter nodes e₁.votes_received e₂.votes_received (ground arith)

Within-add :
    (nodes : List ℕ) (v : ℕ) (votes : List ℕ)
    → contains v nodes ≡ true
    → Within nodes votes
    → Within nodes (add v votes)
unfolding add
Within-add nodes v votes h w = ground arith

-- A vote of a node of the cluster is counted once.
pub record_vote-IsElection :
    (nodes : List ℕ) (e : ElectionState) (from : ℕ)
    → contains from nodes ≡ true
    → IsElection nodes e
    → IsElection nodes (record_vote e from)
unfolding record_vote
record_vote-IsElection nodes e from h i = record {
  distinct = add-Distinct from e.votes_received i.distinct;
  within = Within-add nodes from e.votes_received h i.within;
  needed = i.needed;
}

-- The votes of nodes, recorded one after the other.
abbrev pub record_votes : ElectionState → List ℕ → ElectionState
record_votes e [] = e
record_votes e (v ∷ vs) = record_votes (record_vote e v) vs

pub record_votes-IsElection :
    (nodes : List ℕ) (e : ElectionState) (vs : List ℕ)
    → Within nodes vs
    → IsElection nodes e
    → IsElection nodes (record_votes e vs)
record_votes-IsElection nodes e [] w i = i
record_votes-IsElection nodes e (v ∷ vs) w i =
    record_votes-IsElection nodes (record_vote e v) vs w.1 (record_vote-IsElection nodes e v w.0 i)
