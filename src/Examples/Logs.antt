-- ===== src/Examples/Logs.antt =====
-- The Raft log and its codec at concrete inputs.
use raftrust.Prelude.{◌≡◌, none, arith, leb, if◌then◌else◌}
use raftrust.Errors.{ok}
use raftrust.Log.{get, truncate_after, compact}
use raftrust.Log.Codec.{encode_entry, decode_entry, decode_entry-encode_entry}
use raftrust.Log.Index.{IsContiguous}
use raftrust.Log.Cut.{get-truncate_after, get-compact}
use raftrust.Examples.Fixtures.{memory_wal, entry, log3}

log3-IsContiguous : IsContiguous log3
log3-IsContiguous = record { run = omega arith }

decode_entry-encode_entry_example : decode_entry (encode_entry (entry 300 2)) ≡ ok (entry 300 2)
decode_entry-encode_entry_example = decode_entry-encode_entry (entry 300 2) (omega arith)

get-truncate_after_example : get (truncate_after log3 1) 2 ≡ (if leb 2 1 then get log3 2 else none)
get-truncate_after_example = get-truncate_after log3 1 2

get-compact_example : get (compact log3 2 1) 3 ≡ (if leb 3 2 then none else get log3 3)
get-compact_example = get-compact log3 2 1 3
