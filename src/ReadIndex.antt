-- ===== src/ReadIndex.antt =====
-- crates/raft-consensus/src/read_index.rs: reads that wait for a quorum of acknowledgements.
pub mod Acks
use raftrust.Prelude.{
  ℕ, ◌+◌, ◌/◌, Bool, true, false, Option, none, some, List, [], ◌∷◌, length, leb, if◌then◌else◌,
  wrap64,
}
use raftrust.Prelude.Maps.{IdMap, lookup, insert, remove, add}

pub record ReadIndexRequest : Type 0 where
  pub read_index : ℕ
  pub acks : List ℕ
  pub cluster_size : ℕ

unfoldable pub new_request : ℕ → ℕ → ℕ → ReadIndexRequest
new_request read_index self_id cluster_size = record {
  read_index = read_index;
  acks = add self_id [];
  cluster_size = cluster_size;
}

quorum_size : ReadIndexRequest → ℕ
quorum_size req = req.cluster_size / 2 + 1

unfoldable pub has_quorum : ReadIndexRequest → Bool
unfolding quorum_size
has_quorum req = leb (quorum_size req) (length req.acks)

-- `ReadIndexRequest::record_ack`: the request with the acknowledgement; the result is its quorum.
unfoldable pub ack_request : ReadIndexRequest → ℕ → ReadIndexRequest
ack_request req from = record req { acks = add from req.acks }

pub record ReadIndexState : Type 0 where
  pub next_id : ℕ
  pub pending : IdMap ReadIndexRequest

unfoldable pub new_read_index : ReadIndexState
new_read_index = record { next_id = 1; pending = [] }

unfoldable pub register : ReadIndexState → ℕ → ℕ → ℕ → ReadIndexState × ℕ
register s read_index self_id cluster_size = (
  record {
    next_id = wrap64 (s.next_id + 1);
    pending = insert s.next_id (new_request read_index self_id cluster_size) s.pending;
  },
  s.next_id,
)

-- The loop of `record_ack` over the pending requests: the requests after it, and the confirmed ones.
unfoldable pub ack_all : IdMap ReadIndexRequest → ℕ → IdMap ReadIndexRequest × List ℕ
ack_all [] from = ([], [])
ack_all ((id, req) ∷ rest) from =
    let later = ack_all rest from in
    (
      (id, ack_request req from) ∷ later.0,
      if has_quorum (ack_request req from) then id ∷ later.1 else later.1,
    )

unfoldable pub record_ack : ReadIndexState → ℕ → ReadIndexState × List ℕ
record_ack s from = (record s { pending = (ack_all s.pending from).0 }, (ack_all s.pending from).1)

unfoldable pub take_confirmed : ReadIndexState → ℕ → ReadIndexState × Option ℕ
take_confirmed s id = (
  record s { pending = remove id s.pending },
  elim (lookup id s.pending) [ none ↦ none | some req ↦ some req.read_index ],
)

unfoldable pub get_read_index : ReadIndexState → ℕ → Option ℕ
get_read_index s id = elim (lookup id s.pending) [ none ↦ none | some req ↦ some req.read_index ]

-- `ReadIndexState::remove`
unfoldable pub remove_request : ReadIndexState → ℕ → ReadIndexState × Option ReadIndexRequest
remove_request s id = (record s { pending = remove id s.pending }, lookup id s.pending)

unfoldable pub clear : ReadIndexState → ReadIndexState
clear s = record s { pending = [] }

unfoldable pub pending_count : ReadIndexState → ℕ
pending_count s = length s.pending

unfoldable pub is_confirmed : ReadIndexState → ℕ → Bool
is_confirmed s id = elim (lookup id s.pending) [ none ↦ false | some req ↦ has_quorum req ]
