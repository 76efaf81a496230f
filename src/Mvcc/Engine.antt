-- ===== src/Mvcc/Engine.antt =====
-- `StorageEngine` of crates/raft-storage/src/engine.rs, as crates/raft-mvcc uses it.
use raftrust.Prelude.{ℕ, ◌≡◌, true, false, List}
use raftrust.Prelude.Keys.{Key, key_lt}
use raftrust.Prelude.Tables.{Table, add_entry, remove_entry, range, IsOrdered}
use raftrust.Errors.{Result, ok, panic}
use raftrust.Storage.MemTable.{Slot}

pub record Engine (E : Type 0) : Type 0 where
  pub get : E → Key → Result Slot
  pub put : E → Key → List ℕ → E × Result (Unit {0})
  pub delete : E → Key → E × Result (Unit {0})
  pub scan : E → Key → Key → Result (Table (List ℕ))

-- What an engine promises, `view` being the keys it has with their values. A range whose start is beyond
-- its end makes the engine of lsm.rs panic.
pub record IsEngine {E : Type 0} (engine : Engine E) (view : E → Table (List ℕ)) : Type 0 where
  pub ordered : (e : E) → IsOrdered (view e)
  pub scans :
      (e : E) (start end : Key)
      → key_lt end start ≡ false
      → engine.scan e start end ≡ ok (range start end (view e))
  pub reversed :
      (e : E) (start end : Key) → key_lt end start ≡ true → engine.scan e start end ≡ panic
  pub puts :
      (e : E) (key : Key) (value : List ℕ)
      → (engine.put e key value).1 ≡ ok tt
      → view (engine.put e key value).0 ≡ add_entry key value (view e)
  pub deletes :
      (e : E) (key : Key)
      → (engine.delete e key).1 ≡ ok tt
      → view (engine.delete e key).0 ≡ remove_entry key (view e)
