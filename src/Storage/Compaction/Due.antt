-- ===== src/Storage/Compaction/Due.antt =====
-- When crates/raft-storage/src/compaction/leveled.rs finds a level full.
use raftrust.Prelude.{
  ℕ, zero, suc, ◌+◌, ◌-◌, ◌<◌, ◌≡◌, refl, none, List, [], ◌∷◌, length, length-append, arith,
}
use native.Mathlib.Numerals.{unary_clauses}
use raftrust.Storage.Manifest.{
  SstEntry, Manifest, next_sst_filename, add_sstable, level_count, num_levels, push_at, level_at,
}
use raftrust.Storage.Compaction.{CompactionConfig, needs_compaction, full_level}

push_at_first :
    (e : SstEntry) (ls : List (List SstEntry))
    → length (level_at 0 (push_at 0 e ls)) ≡ length (level_at 0 ls) + 1
unfolding push_at level_at
push_at_first e [] = refl
push_at_first e (l ∷ ls) = length-append l (e ∷ [])

push_at_others :
    (e : SstEntry) (n : ℕ) (ls : List (List SstEntry))
    → level_at (n + 1) (push_at 0 e ls) ≡ level_at (n + 1) ls
unfolding push_at level_at
push_at_others e n [] = simp unary_clauses refl
push_at_others e n (l ∷ ls) = simp unary_clauses refl

length-push_at :
    (e : SstEntry) (ls : List (List SstEntry)) → length (push_at 0 e ls) - 1 ≡ length ls - 1
unfolding push_at
length-push_at e [] = refl
length-push_at e (l ∷ ls) = refl

-- One more file in level 0.
pub level_count-add_sstable :
    (m : Manifest) (e : SstEntry)
    → e.level ≡ 0
    → level_count (add_sstable (next_sst_filename m).0 e) 0 ≡ level_count m 0 + 1
unfolding level_count add_sstable next_sst_filename
level_count-add_sstable m e zero_level = simp zero_level (push_at_first e m.levels)

full_level-add_sstable :
    (config : CompactionConfig) (m : Manifest) (e : SstEntry) (level count : ℕ)
    → e.level ≡ 0
    → full_level config (add_sstable (next_sst_filename m).0 e) (level + 1) count
      ≡ full_level config m (level + 1) count
unfolding full_level level_count add_sstable next_sst_filename
full_level-add_sstable config m e level zero zero_level = refl
full_level-add_sstable config m e level (suc count) zero_level =
    rw (full_level-add_sstable config m e (level + 1) count zero_level)
      (simp (zero_level, push_at_others e level m.levels) refl)

-- A file of level 0 makes no compaction due as long as that level is not full.
pub needs_compaction-add_sstable :
    (config : CompactionConfig) (m : Manifest) (e : SstEntry)
    → e.level ≡ 0
    → level_count m 0 + 1 < config.l0_compaction_trigger
    → needs_compaction config m ≡ none
    → needs_compaction config (add_sstable (next_sst_filename m).0 e) ≡ none
unfolding needs_compaction num_levels add_sstable next_sst_filename
needs_compaction-add_sstable config m e zero_level room due =
    let same = full_level-add_sstable config m e 0 (num_levels m - 1 - 1) zero_level in
    let count = level_count-add_sstable m e zero_level in
    let levels = length-push_at e m.levels in simp (zero_level, levels) (ground arith)
