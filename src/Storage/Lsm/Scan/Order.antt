-- ===== src/Storage/Lsm/Scan/Order.antt =====
-- The two orders in which crates/raft-storage/src/lsm.rs goes through the files.
use raftrust.Prelude.{
  ◌≡◌, ◌⊎◌, refl, ap, ◌∙◌, true, false, List, [], ◌∷◌, ◌++◌, arith, inl, inr, Bool-cases,
}
use mathlib.Core.List.{reverse, reverse-cons}
use raftrust.Storage.Manifest.{SstEntry}
use raftrust.Storage.Lsm.{newer, insert_by_age, newest_first}
use raftrust.Storage.Lsm.Scan.{insert_by_depth, oldest_first}

-- The files, each differing from the others in its level or its identifier.
abbrev pub Apart : {T : Type 0} → SstEntry → List (SstEntry × T) → Type 0
Apart e [] = Unit
Apart e ((b, t) ∷ rest) = ((newer e b ≡ true) ⊎ (newer b e ≡ true)) × Apart e rest

abbrev pub AllApart : {T : Type 0} → List (SstEntry × T) → Type 0
AllApart [] = Unit
AllApart ((a, t) ∷ rest) = Apart a rest × AllApart rest

-- Every file is newer.
abbrev Older : {T : Type 0} → SstEntry → List (SstEntry × T) → Type 0
Older e [] = Unit
Older e ((b, t) ∷ rest) = (newer b e ≡ true) × Older e rest

abbrev IsByDepth : {T : Type 0} → List (SstEntry × T) → Type 0
IsByDepth [] = Unit
IsByDepth ((a, t) ∷ rest) = Older a rest × IsByDepth rest

newer_trans : (a b c : SstEntry) → newer a b ≡ true → newer b c ≡ true → newer a c ≡ true
unfolding newer
newer_trans a b c h k = ground arith

newer_asymm : (a b : SstEntry) → newer a b ≡ true → newer b a ≡ false
unfolding newer
newer_asymm a b h = ground arith

module _ {T : Type 0} where
  Older-weaken :
      (a b : SstEntry) (xs : List (SstEntry × T)) → newer a b ≡ true → Older a xs → Older b xs
  Older-weaken a b [] h o = tt
  Older-weaken a b ((c, t) ∷ xs) h o = (newer_trans c a b o.0 h, Older-weaken a b xs h o.1)

  Older-insert_by_depth :
      (e : SstEntry) (a : SstEntry × T) (xs : List (SstEntry × T))
      → newer a.0 e ≡ true
      → Older e xs
      → Older e (insert_by_depth a xs)
  unfolding insert_by_depth
  Older-insert_by_depth e a [] h o = (h, tt)
  Older-insert_by_depth e a (b ∷ xs) h o = ground (arith, Older-insert_by_depth e a xs h o.1)

  Apart-insert_by_depth :
      (e : SstEntry) (a : SstEntry × T) (xs : List (SstEntry × T))
      → (newer e a.0 ≡ true) ⊎ (newer a.0 e ≡ true)
      → Apart e xs
      → Apart e (insert_by_depth a xs)
  unfolding insert_by_depth
  Apart-insert_by_depth e a [] h o = (h, tt)
  Apart-insert_by_depth e a (b ∷ xs) h o = ground (arith, Apart-insert_by_depth e a xs h o.1)

  Apart-oldest_first :
      (e : SstEntry) (xs : List (SstEntry × T)) → Apart e xs → Apart e (oldest_first xs)
  unfolding oldest_first
  Apart-oldest_first e [] h = tt
  Apart-oldest_first e (a ∷ xs) h =
      Apart-insert_by_depth e a (oldest_first xs) h.0 (Apart-oldest_first e xs h.1)

  insert_by_depth-IsByDepth :
      (a : SstEntry × T) (xs : List (SstEntry × T))
      → Apart a.0 xs
      → IsByDepth xs
      → IsByDepth (insert_by_depth a xs)
  unfolding insert_by_depth
  insert_by_depth-IsByDepth a [] h o = (tt, tt)
  insert_by_depth-IsByDepth a (b ∷ xs) h o = elim (Bool-cases (newer a.0 b.0)) [
    | inl deeper ↦
        rw deeper
          (Older-insert_by_depth b.0 a xs deeper o.0, insert_by_depth-IsByDepth a xs h.1 o.1)
    | inr above ↦
        let b_newer : newer b.0 a.0 ≡ true = ground arith in
        rw above ((b_newer, Older-weaken b.0 a.0 xs b_newer o.0), o)
  ]

  oldest_first-IsByDepth : (xs : List (SstEntry × T)) → AllApart xs → IsByDepth (oldest_first xs)
  unfolding oldest_first
  oldest_first-IsByDepth [] h = tt
  oldest_first-IsByDepth (a ∷ xs) h =
      insert_by_depth-IsByDepth a (oldest_first xs) (Apart-oldest_first a.0 xs h.0)
        (oldest_first-IsByDepth xs h.1)

  insert_by_age-append :
      (a b : SstEntry × T) (xs : List (SstEntry × T))
      → newer b.0 a.0 ≡ false
      → insert_by_age a (xs ++ (b ∷ [])) ≡ insert_by_age a xs ++ (b ∷ [])
  unfolding insert_by_age
  insert_by_age-append a b [] h = rw h refl
  insert_by_age-append a b (c ∷ xs) h = ground (arith, insert_by_age-append a b xs h)

  Older-append :
      (e : SstEntry) (xs : List (SstEntry × T)) (b : SstEntry × T)
      → Older e xs
      → newer b.0 e ≡ true
      → Older e (xs ++ (b ∷ []))
  Older-append e [] b o h = (h, tt)
  Older-append e (a ∷ xs) b o h = (o.0, Older-append e xs b o.1 h)

  insert_by_age_last :
      (a : SstEntry × T) (xs : List (SstEntry × T))
      → Older a.0 xs
      → insert_by_age a xs ≡ xs ++ (a ∷ [])
  unfolding insert_by_age
  insert_by_age_last a [] h = refl
  insert_by_age_last a (b ∷ xs) h = rw (h.0, insert_by_age_last a xs h.1) refl

  Older-reverse : (e : SstEntry) (xs : List (SstEntry × T)) → Older e xs → Older e (reverse xs)
  Older-reverse e [] o = tt
  Older-reverse e (a ∷ xs) o =
      rw (reverse-cons a xs) (Older-append e (reverse xs) a (Older-reverse e xs o.1) o.0)

  insert_by_age-reverse :
      (a : SstEntry × T) (xs : List (SstEntry × T))
      → Apart a.0 xs
      → IsByDepth xs
      → insert_by_age a (reverse xs) ≡ reverse (insert_by_depth a xs)
  unfolding insert_by_depth insert_by_age
  insert_by_age-reverse a [] h o = refl
  insert_by_age-reverse a (b ∷ xs) h o = elim (Bool-cases (newer a.0 b.0)) [
    | inl deeper ↦
        rw (deeper, reverse-cons b xs, reverse-cons b (insert_by_depth a xs))
          (insert_by_age-append a b (reverse xs) (newer_asymm a.0 b.0 deeper)
            ∙ ap (λ r. r ++ (b ∷ [])) (insert_by_age-reverse a xs h.1 o.1))
    | inr above ↦
        let b_newer : newer b.0 a.0 ≡ true = ground arith in
        rw (above, reverse-cons a (b ∷ xs))
          (insert_by_age_last a (reverse (b ∷ xs))
            (Older-reverse a.0 (b ∷ xs) (b_newer, Older-weaken b.0 a.0 xs b_newer o.0)))
  ]

  -- The files newest first are the files oldest first, backwards.
  pub newest_first-reverse :
      (xs : List (SstEntry × T)) → AllApart xs → newest_first xs ≡ reverse (oldest_first xs)
  unfolding newest_first oldest_first
  newest_first-reverse [] h = refl
  newest_first-reverse (a ∷ xs) h =
      ap (insert_by_age a) (newest_first-reverse xs h.1)
      ∙ insert_by_age-reverse a (oldest_first xs) (Apart-oldest_first a.0 xs h.0)
          (oldest_first-IsByDepth xs h.1)
