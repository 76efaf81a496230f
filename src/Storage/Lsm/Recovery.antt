-- ===== src/Storage/Lsm/Recovery.antt =====
-- `open` of crates/raft-storage/src/lsm.rs after a restart.
use raftrust.Storage.Lsm.Runs.{apply_map}
use raftrust.Storage.Lsm.Write.{all_entries}
use raftrust.Storage.Lsm.{find_memtables}
use raftrust.Storage.Lsm.Runs.{logged}
use raftrust.Storage.Lsm.Write.{load_tables}
use raftrust.Prelude.Tables.{find}
use raftrust.Prelude.{ℕ, ◌≡◌, refl, ap, ◌∙◌, Option, some, List, [], ◌∷◌}
use raftrust.Prelude.Keys.{Key}
use raftrust.Prelude.Tables.{Table}
use raftrust.Errors.{ok}
use raftrust.Storage.MemTable.{MemTable, Slot, new_memtable}
use raftrust.Storage.WalOp.{WalOp, IsWalOp, decode-encode}
use raftrust.Storage.WalOp
use raftrust.Storage.Manifest.{SstEntry, Manifest}
use raftrust.Storage.Sst.{SstFiles, IsSst}
use raftrust.Storage.Lsm.Newest.{
  Opened, AllOpen, freshest, slot_of, first_held-newest_first, load_tables-Opened,
}
use raftrust.Storage.Lsm.{LsmConfig, LsmTree, apply_op, get, value_of}
use raftrust.Storage.Lsm.Write.{replay_ops, open_tree}
use raftrust.Storage.Lsm.View.{visible, get-visible}
use raftrust.Storage.Lsm.Runs.{apply_maps, visible-logged, apply_maps_same}

-- The records that writes leave in the log.
abbrev pub records_of : List WalOp → List (List ℕ)
records_of [] = []
records_of (op ∷ ops) = WalOp.encode op ∷ records_of ops

abbrev pub AllWalOps : List WalOp → Type 0
AllWalOps [] = Unit
AllWalOps (op ∷ ops) = IsWalOp op × AllWalOps ops

abbrev apply_ops : MemTable → List WalOp → MemTable
apply_ops m [] = m
apply_ops m (op ∷ ops) = apply_ops (apply_op m op) ops

replay_ops-records_of :
    (m : MemTable) (ops : List WalOp)
    → AllWalOps ops
    → replay_ops m (records_of ops) ≡ ok (apply_ops m ops)
unfolding replay_ops
replay_ops-records_of m [] h = refl
replay_ops-records_of m (op ∷ ops) h =
    rw (decode-encode op h.0) (replay_ops-records_of (apply_op m op) ops h.1)

module _ {D W T : Type 0} (held : T → Table Slot) where
  apply_ops-visible :
      (t : LsmTree D W T) (ops : List WalOp) (key : Key)
      → visible held (record t { active_memtable = apply_ops t.active_memtable ops }) key
        ≡ apply_maps (visible held t) ops key
  unfolding apply_maps logged
  apply_ops-visible t [] key = refl
  apply_ops-visible t (op ∷ ops) key =
      apply_ops-visible (logged t t.wal op) ops key
      ∙ apply_maps_same (visible held (logged t t.wal op)) (apply_map (visible held t) op) ops key
          (visible-logged held t t.wal op)

module _ {D W T : Type 0} {files : SstFiles D T} {stored : D → ℕ → Option (Table Slot)}
    {held : T → Table Slot} (law : IsSst files stored held) where
  -- The tree that `open` makes of the opened files, before the records of the log.
  abbrev opened_tree : D → LsmConfig → Manifest → W → List (SstEntry × T) → LsmTree D W T
  opened_tree d config m w ts = record {
    disk = d;
    active_memtable = new_memtable config.memtable_size_limit;
    immutable_memtables = [];
    manifest = m;
    wal = w;
    sstable_cache = ts;
    config = config;
  }

  visible-opened_tree :
      (d : D) (config : LsmConfig) (m : Manifest) (w : W) (ts : List (SstEntry × T))
      → Opened held stored d (all_entries m.levels) ts
      → (key : Key)
      → visible held (opened_tree d config m w ts) key
        ≡ value_of (slot_of (freshest stored d key (all_entries m.levels)))
  unfolding visible new_memtable find find_memtables
  visible-opened_tree d config m w ts opened key =
      ap value_of (first_held-newest_first held key stored d (all_entries m.levels) ts opened)

  open_tree-apply_ops :
      (d : D) (config : LsmConfig) (m : Manifest) (ops : List WalOp) (w : W)
      (ts : List (SstEntry × T))
      → AllWalOps ops
      → load_tables files d [] (all_entries m.levels) ≡ (ts, ok tt)
      → let base = opened_tree d config m w ts in
        open_tree files d config (ok m) (some (ok (records_of ops))) (ok w)
        ≡ ok (record base { active_memtable = apply_ops base.active_memtable ops })
  unfolding open_tree
  open_tree-apply_ops d config m ops w ts h loads =
      rw (replay_ops-records_of (new_memtable config.memtable_size_limit) ops h) (rw loads refl)

  -- Opening with the records of writes in the log succeeds, and `get` then gives for every key what the
  -- writes, made in their order, leave of what the files have: of the files that the manifest lists
  -- and that have the key, the entry of the one at the lowest level and there of the latest
  -- identifier. The log is read whole and opens for writing, its keys and values are shorter than 2^32
  -- bytes, every file of the manifest is there and opens, and the files keep what was written.
  pub open_tree-get :
      (d : D) (config : LsmConfig) (m : Manifest) (ops : List WalOp) (w : W) (key : Key)
      → AllWalOps ops
      → AllOpen files d (all_entries m.levels)
      → (t : LsmTree D W T) × (open_tree files d config (ok m) (some (ok (records_of ops))) (ok w)
          ≡ ok t)
        × (get files t key
            ≡ ok (
                apply_maps
                  (λ k. value_of (slot_of (freshest stored d k (all_entries m.levels))))
                  ops
                  key))
  open_tree-get d config m ops w key h open_files =
      let (ts, opened, loads) = load_tables-Opened law d (all_entries m.levels) open_files in
      let base = opened_tree d config m w ts in
      (
        record base { active_memtable = apply_ops base.active_memtable ops },
        open_tree-apply_ops d config m ops w ts h (loads []),
        get-visible law (record base { active_memtable = apply_ops base.active_memtable ops }) key
            ∙ ap ok (
                apply_ops-visible held base ops key
                ∙ apply_maps_same (visible held base)
                    (λ k. value_of (slot_of (freshest stored d k (all_entries m.levels)))) ops key
                    (visible-opened_tree d config m w ts opened)),
      )
