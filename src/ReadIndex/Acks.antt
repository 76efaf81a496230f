-- ===== src/ReadIndex/Acks.antt =====
-- The requests and their acknowledgements in crates/raft-consensus/src/read_index.rs.
use raftrust.Prelude.{
  wrap64, ap, ==_iff, ℕ, ◌+◌, ◌≤◌, ◌<◌, ◌^◌, ◌≡◌, ◌≢◌, ◌↔◌, refl, Bool, true, false, ◌||◌, Option,
  none, some, List, [], ◌∷◌, ◌==◌, arith, Bool-cases, inl, inr,
}
use raftrust.Prelude.Maps.{
  IdMap, lookup, insert, remove, contains, add, Distinct, lookup-insert, lookup-remove,
}
use raftrust.ReadIndex.{
  ReadIndexRequest, ReadIndexState, register, record_ack, ack_all, ack_request, has_quorum,
  take_confirmed, get_read_index, is_confirmed, new_request,
}

abbrev ids : IdMap ReadIndexRequest → List ℕ
ids [] = []
ids ((id, _) ∷ m) = id ∷ ids m

-- The pending requests have different identifiers, all below the next one.
abbrev Below : ℕ → IdMap ReadIndexRequest → Type 0
Below next [] = Unit
Below next ((id, _) ∷ m) = (id < next) × Below next m

pub record IsTracked (s : ReadIndexState) : Type 0 where
  pub distinct : Distinct (ids s.pending)
  pub below : Below s.next_id s.pending

lookup-ack_all :
    (id from : ℕ) (m : IdMap ReadIndexRequest)
    → lookup id (ack_all m from).0
      ≡ (elim (lookup id m) [ none ↦ none | some req ↦ some (ack_request req from) ])
unfolding lookup ack_all
lookup-ack_all id from [] = refl
lookup-ack_all id from ((j, req) ∷ m) = ground (arith, lookup-ack_all id from m)

confirmed-absent :
    (id from : ℕ) (m : IdMap ReadIndexRequest)
    → contains id (ids m) ≡ false
    → contains id (ack_all m from).1 ≡ false
unfolding contains ack_all
confirmed-absent id from [] h = refl
confirmed-absent id from ((j, req) ∷ m) h = ground (arith, confirmed-absent id from m)

abbrev is_quorate : Option ReadIndexRequest → Bool
is_quorate none = false
is_quorate (some req) = has_quorum req

confirmed-quorum :
    (id from : ℕ) (m : IdMap ReadIndexRequest)
    → Distinct (ids m)
    → contains id (ack_all m from).1 ≡ is_quorate (lookup id (ack_all m from).0)
unfolding contains ack_all lookup
confirmed-quorum id from [] d = refl
confirmed-quorum id from ((j, req) ∷ m) d = elim (Bool-cases (j == id)) [
  | inl e ↦ ground (
    arith,
    confirmed-absent j from m d.0,
    ap (λ (t : ℕ). contains t (ack_all m from).1) ((==_iff j id).0 e),
  )
  | inr e ↦ ground (arith, confirmed-quorum id from m d.1)
]

-- The identifiers that an acknowledgement returns are exactly those of the requests that have their
-- quorum behind it, where the identifiers of the pending requests differ and lie below the next one.
pub record_ack-is_confirmed :
    (s : ReadIndexState) (from id : ℕ)
    → IsTracked s
    → contains id (record_ack s from).1 ≡ is_confirmed (record_ack s from).0 id
unfolding record_ack is_confirmed
record_ack-is_confirmed s from id t = ground (arith, confirmed-quorum id from s.pending t.distinct)

lookup-Below : (next : ℕ) (m : IdMap ReadIndexRequest) → Below next m → lookup next m ≡ none
unfolding lookup
lookup-Below next [] b = refl
lookup-Below next ((id, req) ∷ m) b = ground (arith, lookup-Below next m b.1)

Below-suc : (next : ℕ) (m : IdMap ReadIndexRequest) → Below next m → Below (next + 1) m
Below-suc next [] b = tt
Below-suc next ((id, req) ∷ m) b = (omega arith, Below-suc next m b.1)

ids-insert :
    (k j : ℕ) (v : ReadIndexRequest) (m : IdMap ReadIndexRequest)
    → contains j (ids (insert k v m)) ≡ (k == j || contains j (ids m))
unfolding contains insert
ids-insert k j v [] = refl
ids-insert k j v ((i, w) ∷ m) = ground (arith, ids-insert k j v m)

insert-tracked :
    (k : ℕ) (v : ReadIndexRequest) (m : IdMap ReadIndexRequest)
    → Distinct (ids m)
    → Below k m
    → Distinct (ids (insert k v m)) × Below (k + 1) (insert k v m)
unfolding insert contains
insert-tracked k v [] d b = ground arith
insert-tracked k v ((i, w) ∷ m) d b =
    let rest = insert-tracked k v m d.1 b.1 in ground (arith, ids-insert k i v m)

ack_all-ids : (m : IdMap ReadIndexRequest) (from : ℕ) → ids (ack_all m from).0 ≡ ids m
unfolding ack_all
ack_all-ids [] from = refl
ack_all-ids ((id, req) ∷ m) from = ap (λ l. id ∷ l) (ack_all-ids m from)

ack_all-Below :
    (next : ℕ) (m : IdMap ReadIndexRequest) (from : ℕ)
    → Below next m
    → Below next (ack_all m from).0
unfolding ack_all
ack_all-Below next [] from b = tt
ack_all-Below next ((id, req) ∷ m) from b = (b.0, ack_all-Below next m from b.1)

ids-remove :
    (k j : ℕ) (m : IdMap ReadIndexRequest)
    → contains j (ids m) ≡ false
    → contains j (ids (remove k m)) ≡ false
unfolding contains remove
ids-remove k j [] h = refl
ids-remove k j ((i, w) ∷ m) h = ground (arith, ids-remove k j m)

remove-tracked :
    (k next : ℕ) (m : IdMap ReadIndexRequest)
    → Distinct (ids m)
    → Below next m
    → Distinct (ids (remove k m)) × Below next (remove k m)
unfolding remove
remove-tracked k next [] d b = (tt, tt)
remove-tracked k next ((i, w) ∷ m) d b =
    let rest = remove-tracked k next m d.1 b.1 in
    elim (Bool-cases (i == k)) [
      | inl e ↦ rw e rest
      | inr e ↦ rw e ((ids-remove k i m d.0, rest.0), (b.0, rest.1))
    ]

-- Registering, acknowledging and taking keep the identifiers different and below the next one, while
-- the counter is clear of the end of `u64`.
pub IsTracked-kept :
    (s : ReadIndexState) (read_index self_id cluster_size from id : ℕ)
    → IsTracked s
    → s.next_id + 1 < 2 ^ 64
    → IsTracked (register s read_index self_id cluster_size).0
      × IsTracked (record_ack s from).0
      × IsTracked (take_confirmed s id).0
unfolding register record_ack take_confirmed
IsTracked-kept s read_index self_id cluster_size from id t fits =
    let next_eq : wrap64 (s.next_id + 1) ≡ s.next_id + 1 = omega arith in
    let put =
      insert-tracked s.next_id (new_request read_index self_id cluster_size) s.pending t.distinct
        t.below in
    let cut = remove-tracked id s.next_id s.pending t.distinct t.below in
    (
      record { distinct = put.0; below = rw next_eq put.1 },
      record {
        distinct = rw ack_all-ids t.distinct;
        below = ack_all-Below s.next_id s.pending from t.below;
      },
      record { distinct = cut.0; below = cut.1 },
    )

-- A new request has a new identifier and its read index; the others are as they were. It is confirmed
-- at once exactly in a cluster of at most one node. The pending identifiers lie below the next one.
pub register_fresh :
    (s : ReadIndexState) (read_index self_id cluster_size : ℕ)
    → IsTracked s
    → let r = register s read_index self_id cluster_size in
      (get_read_index s r.1 ≡ none)
      × (get_read_index r.0 r.1 ≡ some read_index)
      × ((id : ℕ) → id ≢ r.1 → get_read_index r.0 id ≡ get_read_index s id)
      × ((is_confirmed r.0 r.1 ≡ true) ↔ (cluster_size ≤ 1))
unfolding register get_read_index is_confirmed has_quorum new_request add contains
register_fresh s read_index self_id cluster_size t =
    let req = new_request read_index self_id cluster_size in
    (
      ground (arith, lookup-Below s.next_id s.pending t.below),
      ground (arith, lookup-insert s.next_id s.next_id req s.pending),
      λ id h. ground (arith, lookup-insert s.next_id id req s.pending),
      (
        λ h. ground (arith, lookup-insert s.next_id s.next_id req s.pending),
        λ h. ground (arith, lookup-insert s.next_id s.next_id req s.pending),
      ),
    )

-- Taking a request returns its read index whether or not it has its quorum, and removes it.
pub take_confirmed_unchecked :
    (s : ReadIndexState) (id : ℕ)
    → ((take_confirmed s id).1 ≡ get_read_index s id)
      × (get_read_index (take_confirmed s id).0 id ≡ none)
      × ((j : ℕ) → j ≢ id → get_read_index (take_confirmed s id).0 j ≡ get_read_index s j)
unfolding take_confirmed get_read_index
take_confirmed_unchecked s id = (
  refl,
  ground (arith, lookup-remove id id s.pending),
  λ j h. ground (arith, lookup-remove id j s.pending),
)
