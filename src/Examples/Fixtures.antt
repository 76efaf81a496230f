-- ===== src/Examples/Fixtures.antt =====
-- A WAL in memory, a three-node cluster and its logs, for the tests.
use raftrust.Log.Extend.{NeverFails}
use raftrust.Prelude.{ℕ, true, false, Option, none, some, List, [], ◌∷◌, ◌++◌}
use raftrust.Errors.{ok}
use raftrust.Message.{LogEntry, normal}
use raftrust.Log.{Wal, RaftLog}
use raftrust.State.{Role, leader, LeaderState, ElectionState}
use raftrust.Membership.{Serde, MembershipState}
use raftrust.Snapshot.{SnapshotManager}
use raftrust.Node.{NodeConfig, Inner}
use raftrust.Prelude.{refl}

instance abbrev pub memory_wal : Wal (List (List ℕ))
memory_wal = record { append = λ w b. (w ++ (b ∷ []), none); sync = λ w. (w, none) }

pub memory_wal-NeverFails : NeverFails memory_wal
memory_wal-NeverFails = record { append_ok = λ w b. refl; sync_ok = λ w. refl }

instance abbrev pub no_disk : SnapshotManager (Unit {0})
no_disk = record {
  new = λ s. (s, none);
  create_snapshot = λ s i t b.
      (s, ok (record { last_included_index = i; last_included_term = t; checksum = 0; size = 0 }));
  receive_snapshot = λ s m b. (s, none);
}

abbrev pub no_serde : Serde
no_serde = record {
  encode_joint = λ j. [];
  decode_joint = λ b. none;
  encode_config = λ c. [];
  decode_config = λ b. none;
}

abbrev pub config : NodeConfig
config = record {
  id = 1;
  peers = 2 ∷ 3 ∷ [];
  data_dir = "data";
  tick_config = record {
    election_timeout_min = 150;
    election_timeout_max = 300;
    heartbeat_interval = 50;
  };
}

abbrev pub entry : ℕ → ℕ → LogEntry
entry i t = record { index = i; term = t; payload = 7 ∷ []; entry_type = normal }

abbrev pub Log : Type 0
Log = RaftLog (List (List ℕ))

abbrev pub log_of : ℕ → ℕ → List LogEntry → Log
log_of s t es = record { entries = es; wal = []; snapshot_index = s; snapshot_term = t }

abbrev pub log3 : Log
log3 = log_of 0 0 (entry 1 1 ∷ entry 2 1 ∷ entry 3 2 ∷ [])

-- A log that was cut at index 2.
abbrev pub log_cut : Log
log_cut = log_of 2 1 (entry 3 2 ∷ entry 4 2 ∷ [])

abbrev pub members : MembershipState
members = record {
  current = record {
    members =
        record { id = 1; address = "" }
        ∷ record { id = 2; address = "" }
        ∷ record { id = 3; address = "" }
        ∷ [];
  };
  pending = none;
  change_in_progress = false;
}

abbrev pub Node : Type 0
Node = Inner (List (List ℕ))

abbrev pub node_of : Role → ℕ → Option ℕ → Log → Node
node_of role term vote log = record {
  state = record {
    id = 1;
    role = role;
    persistent = record { current_term = term; voted_for = vote };
    leader_id = none;
    commit_index = 1;
    last_applied = 0;
  };
  log = log;
  leader_state = none;
  election_state = none;
  read_index_state = record { next_id = 1; pending = [] };
  transfer_state = none;
  membership = members;
  last_heartbeat = 0;
  state_file = record {
    stored = some (record { current_term = term; voted_for = vote });
    writable = true;
    torn = false;
  };
}

abbrev pub leading : LeaderState
leading = record { next_index = (2, 3) ∷ (3, 1) ∷ []; match_index = (2, 3) ∷ (3, 0) ∷ (1, 3) ∷ [] }

-- A leader of term 2, and an election that it won with node 2.
abbrev pub leader_node : Log → Node
leader_node log = record (node_of leader 2 (some 1) log) { leader_state = some leading }

abbrev pub election : ElectionState
election = record { votes_received = 1 ∷ []; votes_needed = 2 }
