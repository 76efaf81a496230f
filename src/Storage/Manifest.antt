-- ===== src/Storage/Manifest.antt =====
-- crates/raft-storage/src/compaction/manifest.rs: which sorted files there are, by level. A file is
-- named after its identifier, and the model names it by the identifier alone.
use raftrust.Prelude.{ℕ, zero, suc, ◌+◌, List, [], ◌∷◌, ◌++◌, length, if◌then◌else◌, wrap64}
use raftrust.Prelude.Maps.{contains}
use raftrust.Prelude.Keys.{Key}

pub record SstEntry : Type 0 where
  pub id : ℕ
  pub level : ℕ
  pub min_key : Key
  pub max_key : Key
  pub entry_count : ℕ
  pub file_size : ℕ

pub record Manifest : Type 0 where
  pub levels : List (List SstEntry)
  pub next_sst_id : ℕ

empty_levels : ℕ → List (List SstEntry)
empty_levels zero = []
empty_levels (suc n) = [] ∷ empty_levels n

unfoldable pub new_manifest : ℕ → Manifest
unfolding empty_levels
new_manifest num_levels = record { levels = empty_levels num_levels; next_sst_id = 0 }

unfoldable pub next_sst_filename : Manifest → Manifest × ℕ
next_sst_filename m = (record m { next_sst_id = wrap64 (m.next_sst_id + 1) }, m.next_sst_id)

-- `levels[level].push(entry)`, with empty levels added up to it.
unfoldable pub push_at : ℕ → SstEntry → List (List SstEntry) → List (List SstEntry)
push_at zero entry [] = (entry ∷ []) ∷ []
push_at zero entry (l ∷ ls) = (l ++ (entry ∷ [])) ∷ ls
push_at (suc n) entry [] = [] ∷ push_at n entry []
push_at (suc n) entry (l ∷ ls) = l ∷ push_at n entry ls

unfoldable pub add_sstable : Manifest → SstEntry → Manifest
add_sstable m entry = record m { levels = push_at entry.level entry m.levels }

unfoldable pub retain_others : List ℕ → List SstEntry → List SstEntry
retain_others ids [] = []
retain_others ids (e ∷ es) =
    let rest = retain_others ids es in if contains e.id ids then rest else e ∷ rest

unfoldable pub retain_levels : List ℕ → List (List SstEntry) → List (List SstEntry)
retain_levels ids [] = []
retain_levels ids (l ∷ ls) = retain_others ids l ∷ retain_levels ids ls

unfoldable pub remove_sstables : Manifest → List ℕ → Manifest
remove_sstables m ids = record m { levels = retain_levels ids m.levels }

unfoldable pub level_at : ℕ → List (List SstEntry) → List SstEntry
level_at n [] = []
level_at zero (l ∷ ls) = l
level_at (suc n) (l ∷ ls) = level_at n ls

unfoldable pub entries_at : Manifest → ℕ → List SstEntry
entries_at m level = level_at level m.levels

unfoldable pub level_count : Manifest → ℕ → ℕ
level_count m level = length (level_at level m.levels)

unfoldable pub num_levels : Manifest → ℕ
num_levels m = length m.levels
