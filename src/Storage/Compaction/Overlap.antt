-- ===== src/Storage/Compaction/Overlap.antt =====
-- Which files of the next level `compact` of crates/raft-storage/src/compaction/leveled.rs takes along.
use raftrust.Prelude.{
  ℕ, ◌+◌, ◌≡◌, refl, sym, ◌∙◌, Bool, false, not, ◌&&◌, ◌||◌, List, [], ◌∷◌, if◌then◌else◌, arith,
  inl, inr, Bool-cases,
}
use raftrust.Prelude.Keys.{Key, key_lt, lt_le_trans, key_lt_trans, not_lt_trans}
use raftrust.Storage.Manifest.{SstEntry, Manifest, entries_at}
use raftrust.Storage.Compaction.{least, greatest, overlapping, overlapping_targets}

-- Some file ends at the key or behind it.
abbrev pub any_ends_from : Key → List SstEntry → Bool
any_ends_from k [] = false
any_ends_from k (e ∷ es) = not (key_lt e.max_key k) || any_ends_from k es

-- Some file begins at the key or before it.
abbrev pub any_begins_to : Key → List SstEntry → Bool
any_begins_to k [] = false
any_begins_to k (e ∷ es) = not (key_lt k e.min_key) || any_begins_to k es

-- The files that begin where one of the sources has not ended, and end where one of them has begun.
abbrev pub touching : List SstEntry → List SstEntry → List SstEntry
touching sources [] = []
touching sources (t ∷ ts) =
    if any_ends_from t.min_key sources && any_begins_to t.max_key sources
    then t ∷ touching sources ts
    else touching sources ts

not_lt-greatest :
    (k x : Key) (es : List SstEntry)
    → not (key_lt (greatest k es) x) ≡ (not (key_lt k x) || any_ends_from x es)
unfolding greatest
not_lt-greatest k x [] = ground arith
not_lt-greatest k x (e ∷ es) = elim (Bool-cases (key_lt e.max_key k)) [
  | inl below ↦ rw below (not_lt-greatest k x es ∙ ground (arith, key_lt_trans e.max_key k x))
  | inr above ↦
      rw above (not_lt-greatest e.max_key x es ∙ ground (arith, not_lt_trans x k e.max_key))
]

not_lt-least :
    (k x : Key) (es : List SstEntry)
    → not (key_lt x (least k es)) ≡ (not (key_lt x k) || any_begins_to x es)
unfolding least
not_lt-least k x [] = ground arith
not_lt-least k x (e ∷ es) = elim (Bool-cases (key_lt e.min_key k)) [
  | inl below ↦ rw below (not_lt-least e.min_key x es ∙ ground (arith, key_lt_trans x e.min_key k))
  | inr above ↦ rw above (not_lt-least k x es ∙ ground (arith, lt_le_trans x k e.min_key))
]

overlapping_lem :
    (s : SstEntry) (sources ts : List SstEntry)
    → overlapping (least s.min_key sources) (greatest s.max_key sources) ts
      ≡ touching (s ∷ sources) ts
unfolding overlapping
overlapping_lem s sources [] = refl
overlapping_lem s sources (t ∷ ts) =
    rw
      (
        not_lt-greatest s.max_key t.min_key sources,
        not_lt-least s.min_key t.max_key sources,
        overlapping_lem s sources ts,
      )
      refl

touching-none : (ts : List SstEntry) → touching [] ts ≡ []
touching-none [] = refl
touching-none (t ∷ ts) = touching-none ts

-- The files of the next level that are merged with a level are those that overlap with it.
pub overlapping_targets_lem :
    (m : Manifest) (level : ℕ)
    → overlapping_targets m level ≡ touching (entries_at m level) (entries_at m (level + 1))
unfolding overlapping_targets
overlapping_targets_lem m level = targets (entries_at m level)
  where
    targets :
        (sources : List SstEntry)
        → (elim sources [
          | [] ↦ []
          | e ∷ es ↦
              overlapping (least e.min_key es) (greatest e.max_key es) (entries_at m (level + 1))
        ])
          ≡ touching sources (entries_at m (level + 1))
    targets [] = sym (touching-none (entries_at m (level + 1)))
    targets (e ∷ es) = overlapping_lem e es (entries_at m (level + 1))
