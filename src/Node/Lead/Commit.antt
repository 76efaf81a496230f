-- ===== src/Node/Lead/Commit.antt =====
-- `try_advance_commit` of crates/raft-consensus/src/node.rs: what the leader commits.
use raftrust.Prelude.{
  ◌↔◌, ap, Option-cases, ltb→lt, ℕ, ◌≤◌, ◌<◌, ◌≡◌, ◌⊎◌, inl, inr, refl, true, none, some, List, [],
  ◌∷◌, leb, ltb, ◌==◌, arith, Bool-cases, Bool, false, ◌&&◌, ◌||◌, Option, suc, length, ◌*◌,
  if◌then◌else◌,
}
use raftrust.Prelude.Maps.{IdMap, contains, contains-add, lookup}
use raftrust.Message.{LogEntry}
use raftrust.Log.{RaftLog, get}
use raftrust.State.{LeaderState}
use raftrust.Membership.{
  MemberInfo, ClusterConfig, MembershipState, has_quorum, count_voters, config_len,
}
use raftrust.Node.{Inner}
use raftrust.Node.Lead.{
  try_advance_commit, find_commit, can_commit, has_term, values_desc, insert_desc, voters_at,
}

abbrev pub In : ℕ → List ℕ → Type 0
In a [] = ⊥
In a (x ∷ xs) = (a ≡ x) ⊎ In a xs

abbrev IsDesc : List ℕ → Type 0
IsDesc [] = Unit
IsDesc (x ∷ xs) = ((y : ℕ) → In y xs → y ≤ x) × IsDesc xs

In-insert_desc : (a y : ℕ) (xs : List ℕ) → In y (insert_desc a xs) → (y ≡ a) ⊎ In y xs
unfolding insert_desc
In-insert_desc a y [] h = h
In-insert_desc a y (x ∷ xs) h = ground (arith, In-insert_desc a y xs)

insert_desc-In : (a y : ℕ) (xs : List ℕ) → (y ≡ a) ⊎ In y xs → In y (insert_desc a xs)
unfolding insert_desc
insert_desc-In a y [] h = h
insert_desc-In a y (x ∷ xs) h = ground (arith, insert_desc-In a y xs)

insert_desc-IsDesc : (a : ℕ) (xs : List ℕ) → IsDesc xs → IsDesc (insert_desc a xs)
unfolding insert_desc
insert_desc-IsDesc a [] d = (λ y h. elim h [ ], tt)
insert_desc-IsDesc a (x ∷ xs) d = elim (Bool-cases (leb x a)) [
  | inl h ↦ rw h (λ y i. ground (arith, d.0 y), d)
  | inr h ↦
      rw h (λ y i. ground (arith, d.0 y, In-insert_desc a y xs i), insert_desc-IsDesc a xs d.1)
]

values_desc-IsDesc : (m : IdMap ℕ) → IsDesc (values_desc m)
unfolding values_desc
values_desc-IsDesc [] = tt
values_desc-IsDesc ((id, v) ∷ m) = insert_desc-IsDesc v (values_desc m) (values_desc-IsDesc m)

lookup-In : (id v : ℕ) (m : IdMap ℕ) → lookup id m ≡ some v → In v (values_desc m)
unfolding values_desc lookup
lookup-In id v [] h = cc
lookup-In id v ((j, w) ∷ m) h = ground (arith, lookup-In id v m, insert_desc-In w v (values_desc m))

-- Some entry of the map gives the node an index that is at least `c`.
abbrev pub reaches : ℕ → ℕ → IdMap ℕ → Bool
reaches c id [] = false
reaches c id ((j, idx) ∷ m) = (j == id && leb c idx) || reaches c id m

-- How many of the members have a match index that is at least `c`.
abbrev pub reached_by : ℕ → IdMap ℕ → List MemberInfo → ℕ
reached_by c m [] = 0
reached_by c m (x ∷ xs) = if reaches c x.id m then suc (reached_by c m xs) else reached_by c m xs

-- More than half of the members of the configuration have reached the index.
abbrev pub MostReached : ℕ → IdMap ℕ → ClusterConfig → Type 0
MostReached c m config = length config.members < 2 * reached_by c m config.members

abbrev pub MostReachedPending : ℕ → IdMap ℕ → Option ClusterConfig → Type 0
MostReachedPending c m none = Unit
MostReachedPending c m (some config) = MostReached c m config

contains-voters_at : (c id : ℕ) (m : IdMap ℕ) → contains id (voters_at c m) ≡ reaches c id m
unfolding voters_at contains
contains-voters_at c id [] = refl
contains-voters_at c id ((j, idx) ∷ m) =
    ground (arith, contains-voters_at c id m, contains-add j id (voters_at c m))

count_voters-voters_at :
    (c : ℕ) (m : IdMap ℕ) (ms : List MemberInfo)
    → count_voters ms (voters_at c m) ≡ reached_by c m ms
unfolding count_voters
count_voters-voters_at c m [] = refl
count_voters-voters_at c m (x ∷ xs) =
    ground (arith, count_voters-voters_at c m xs, contains-voters_at c x.id m)

-- The quorum of the nodes that have reached an index is a majority of each configuration.
has_quorum-voters_at :
    (s : MembershipState) (c : ℕ) (m : IdMap ℕ)
    → has_quorum s (voters_at c m) ≡ true
    → MostReached c m s.current × MostReachedPending c m s.pending
unfolding has_quorum config_len
has_quorum-voters_at s c m h = elim (Option-cases s.pending) [
  | inl e ↦ (ground (arith, count_voters-voters_at c m s.current.members), rw e tt)
  | inr (p, e) ↦ (
    ground (arith, count_voters-voters_at c m s.current.members),
    rw e (ground (arith, count_voters-voters_at c m p.members)),
  )
]

module _ {W : Type 0} where
  -- There is an entry at the index, and it has the term.
  abbrev pub HasTerm : RaftLog W → ℕ → ℕ → Type 0
  HasTerm log i t = (e : LogEntry) × (get log i ≡ some e) × (e.term ≡ t)

  can_commit_iff :
      (n : Inner W) (m : IdMap ℕ) (i : ℕ)
      → (can_commit n m i ≡ true) ↔ (
          (has_quorum n.membership (voters_at i m) ≡ true)
          × HasTerm n.log i n.state.persistent.current_term)
  unfolding can_commit has_term
  can_commit_iff n m i = (λ h. ground arith, λ h. ground arith)

  find_commit_sound :
      (n : Inner W) (m : IdMap ℕ) (cs : List ℕ)
      → (find_commit n m cs ≡ n.state.commit_index)
        ⊎ ((n.state.commit_index < find_commit n m cs)
            × (can_commit n m (find_commit n m cs) ≡ true))
  unfolding find_commit
  find_commit_sound n m [] = inl refl
  find_commit_sound n m (c ∷ cs) = ground (arith, find_commit_sound n m cs)

  find_commit_max :
      (n : Inner W) (m : IdMap ℕ) (cs : List ℕ) (i : ℕ)
      → IsDesc cs
      → In i cs
      → n.state.commit_index < i
      → can_commit n m i ≡ true
      → i ≤ find_commit n m cs
  unfolding find_commit
  find_commit_max n m [] i d h lt ok = elim h [ ]
  find_commit_max n m (c ∷ cs) i d (inl e) lt ok = ground arith
  find_commit_max n m (c ∷ cs) i d (inr h) lt ok =
      ground (arith, d.0 i h, find_commit_max n m cs i d.1 h lt ok)

  commit_index_lem :
      (n : Inner W) (ls : LeaderState)
      → n.leader_state ≡ some ls
      → (try_advance_commit n).state.commit_index
        ≡ find_commit n ls.match_index (values_desc ls.match_index)
  unfolding try_advance_commit
  commit_index_lem n ls e = ground arith

  commit_unled : (n : Inner W) → n.leader_state ≡ none → try_advance_commit n ≡ n
  unfolding try_advance_commit
  commit_unled n e = ground arith

  -- The commit index moves only up, and only to an index that more than half of the members of the
  -- configuration have reached by their match indices, and of the pending one too while it changes,
  -- with an entry of the current term there.
  pub try_advance_commit_sound :
      (n : Inner W)
      → let c = (try_advance_commit n).state.commit_index in
        (c ≡ n.state.commit_index)
        ⊎ ((ls : LeaderState) × (n.leader_state ≡ some ls)
            × (n.state.commit_index < c)
            × MostReached c ls.match_index n.membership.current
            × MostReachedPending c ls.match_index n.membership.pending
            × HasTerm n.log c n.state.persistent.current_term)
  try_advance_commit_sound n = elim (Option-cases n.leader_state) [
    | inl e ↦ inl (ap (λ (m : Inner W). m.state.commit_index) (commit_unled n e))
    | inr (ls, e) ↦
        rw (commit_index_lem n ls e)
          (elim (find_commit_sound n ls.match_index (values_desc ls.match_index)) [
            | inl same ↦ inl same
            | inr (lt, ok) ↦
                let (q, t) = (can_commit_iff n ls.match_index _).0 ok in
                let (old, new) = has_quorum-voters_at n.membership _ ls.match_index q in
                inr (ls, e, lt, old, new, t)
          ])
  ]

  -- No index is left behind that could be committed: the match index of some node, reached by a
  -- quorum, with an entry of the current term.
  pub try_advance_commit-max :
      (n : Inner W) (ls : LeaderState) (id i : ℕ)
      → n.leader_state ≡ some ls
      → lookup id ls.match_index ≡ some i
      → has_quorum n.membership (voters_at i ls.match_index) ≡ true
      → HasTerm n.log i n.state.persistent.current_term
      → i ≤ (try_advance_commit n).state.commit_index
  try_advance_commit-max n ls id i e found q t =
      let m = ls.match_index in
      let max_at =
        find_commit_max n m (values_desc m) i (values_desc-IsDesc m) (lookup-In id i m found) in
      let grows = find_commit_sound n m (values_desc m) in
      rw (commit_index_lem n ls e) (elim (Bool-cases (ltb n.state.commit_index i)) [
        | inl lt ↦ max_at (ltb→lt _ _ lt) ((can_commit_iff n m i).1 (q, t))
        | inr ge ↦ ground arith
      ])
