-- ===== src/Storage/Lsm/Ages.antt =====
-- The files of an LSM tree of crates/raft-storage/src/lsm.rs by age.
use raftrust.Prelude.{ℕ, ◌<◌, ◌≡◌, refl, true, List, [], ◌∷◌, ◌++◌, arith}
use raftrust.Storage.Manifest.{SstEntry}
use raftrust.Storage.Lsm.{newest_first, insert_by_age, newer}

-- Every file is older than the identifier.
abbrev pub AllOlder : {T : Type 0} → ℕ → List (SstEntry × T) → Type 0
AllOlder id [] = Unit
AllOlder id ((e, t) ∷ rest) = (e.id < id) × AllOlder id rest

insert_by_age_newest :
    {T : Type 0} (a b : SstEntry × T) (tables : List (SstEntry × T))
    → newer b.0 a.0 ≡ true
    → insert_by_age a (b ∷ tables) ≡ b ∷ insert_by_age a tables
unfolding insert_by_age
insert_by_age_newest a b tables h = rw h refl

-- A file of level 0 with the next identifier is the first that is read.
pub newest_first-append :
    {T : Type 0} (tables : List (SstEntry × T)) (e : SstEntry) (t : T)
    → e.level ≡ 0
    → AllOlder e.id tables
    → newest_first (tables ++ ((e, t) ∷ [])) ≡ (e, t) ∷ newest_first tables
unfolding newest_first newer insert_by_age
newest_first-append [] e t l o = refl
newest_first-append ((a, s) ∷ tables) e t l o =
    rw (newest_first-append tables e t l o.1)
      (insert_by_age_newest (a, s) (e, t) (newest_first tables) (ground arith))

pub AllOlder-weaken :
    {T : Type 0} (id n : ℕ) (tables : List (SstEntry × T))
    → id < n
    → AllOlder id tables
    → AllOlder n tables
AllOlder-weaken id n [] h o = tt
AllOlder-weaken id n ((e, t) ∷ tables) h o = (omega arith, AllOlder-weaken id n tables h o.1)

pub AllOlder-append :
    {T : Type 0} (id : ℕ) (tables : List (SstEntry × T)) (e : SstEntry) (t : T)
    → AllOlder id tables
    → e.id < id
    → AllOlder id (tables ++ ((e, t) ∷ []))
AllOlder-append id [] e t o h = (h, tt)
AllOlder-append id ((a, s) ∷ tables) e t o h = (o.0, AllOlder-append id tables e t o.1 h)
