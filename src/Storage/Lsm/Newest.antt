-- ===== src/Storage/Lsm/Newest.antt =====
-- The newest file that has a key, among the files that the manifest of crates/raft-storage/src/lsm.rs lists.
use raftrust.Prelude.{
  ap, sym, ℕ, ◌≡◌, refl, ◌∙◌, Bool, true, false, ◌&&◌, ◌||◌, Option, none, some, List, [], ◌∷◌,
  ◌++◌, ltb, ◌==◌, if◌then◌else◌, arith, inl, inr, Bool-cases, Option-cases,
}
use mathlib.Core.List.{append-nil, append_assoc}
use raftrust.Prelude.Keys.{Key}
use raftrust.Prelude.Tables.{Table, find}
use raftrust.Errors.{ok}
use raftrust.Storage.MemTable.{Slot, or_else}
use raftrust.Storage.Manifest.{SstEntry}
use raftrust.Storage.Sst.{SstFiles, IsSst}
use raftrust.Storage.Lsm.{newest_first, insert_by_age, newer}
use raftrust.Storage.Lsm.Write.{load_tables}
use raftrust.Storage.Lsm.View.{first_held}
use raftrust.Storage.Compaction.Outcome.{find_in}

-- A file of a lower level, or a later one of the level.
abbrev pub fresher : SstEntry → SstEntry → Bool
fresher f e = ltb f.level e.level || (f.level == e.level && ltb e.id f.id)

-- What this file has, or what others have if that is fresher or this one has nothing.
abbrev pub pick : SstEntry → Option Slot → Option (SstEntry × Slot) → Option (SstEntry × Slot)
pick e none best = best
pick e (some slot) none = some (e, slot)
pick e (some slot) (some (f, other)) = if fresher f e then some (f, other) else some (e, slot)

-- Of the files that have the key, the freshest, with what it has.
abbrev pub freshest :
    {D : Type 0}
    → (D → ℕ → Option (Table Slot))
    → D
    → Key
    → List SstEntry
    → Option (SstEntry × Slot)
freshest stored d k [] = none
freshest stored d k (e ∷ es) = pick e (find_in k (stored d e.id)) (freshest stored d k es)

abbrev pub slot_of : Option (SstEntry × Slot) → Option Slot
slot_of none = none
slot_of (some (e, slot)) = some slot

-- Every file of the manifest is there and opens.
abbrev pub AllOpen : {D T : Type 0} → SstFiles D T → D → List SstEntry → Type 0
AllOpen files d [] = Unit
AllOpen {D} {T} files d (e ∷ es) =
    ((files.file_exists d e.id ≡ true) × (t : T) × (files.open_table d e.id ≡ ok t))
    × AllOpen files d es

abbrev or_holder : SstEntry → Option Slot → Option (SstEntry × Slot) → Option (SstEntry × Slot)
or_holder e none rest = rest
or_holder e (some slot) rest = some (e, slot)

or_holder-slot :
    (e : SstEntry) (o : Option Slot) (rest : Option (SstEntry × Slot))
    → slot_of (or_holder e o rest) ≡ or_else o (slot_of rest)
or_holder-slot e none rest = refl
or_holder-slot e (some slot) rest = refl

pick-or_holder :
    (e f : SstEntry) (o p : Option Slot) (rest : Option (SstEntry × Slot))
    → fresher f e ≡ true
    → or_holder f p (pick e o rest) ≡ pick e o (or_holder f p rest)
pick-or_holder e f o none rest h = refl
pick-or_holder e f none (some other) rest h = refl
pick-or_holder e f (some slot) (some other) rest h = rw h refl

-- The opened files of the entries.
abbrev pub Opened :
    {D T : Type 0}
    → (T → Table Slot)
    → (D → ℕ → Option (Table Slot))
    → D
    → List SstEntry
    → List (SstEntry × T)
    → Type 0
Opened held stored d [] [] = Unit
Opened held stored d [] (x ∷ ts) = ⊥
Opened held stored d (e ∷ es) [] = ⊥
Opened held stored d (e ∷ es) ((f, t) ∷ ts) =
    (f ≡ e) × (stored d e.id ≡ some (held t)) × Opened held stored d es ts

module _ {T : Type 0} (held : T → Table Slot) (k : Key) where
  -- The first of the opened files that has the key.
  abbrev holder : List (SstEntry × T) → Option (SstEntry × Slot)
  holder [] = none
  holder ((e, t) ∷ ts) = or_holder e (find k (held t)) (holder ts)

  slot_of-holder : (ts : List (SstEntry × T)) → slot_of (holder ts) ≡ first_held held k ts
  slot_of-holder [] = refl
  slot_of-holder ((e, t) ∷ ts) =
      or_holder-slot e (find k (held t)) (holder ts)
      ∙ ap (or_else (find k (held t))) (slot_of-holder ts)

  -- No file of the list is fresher.
  abbrev AllStaler : SstEntry → List (SstEntry × T) → Type 0
  AllStaler e [] = Unit
  AllStaler e ((f, t) ∷ ts) = (fresher f e ≡ false) × AllStaler e ts

  abbrev IsAged : List (SstEntry × T) → Type 0
  IsAged [] = Unit
  IsAged ((e, t) ∷ ts) = AllStaler e ts × IsAged ts

  pick_first :
      (e : SstEntry) (slot : Slot) (ts : List (SstEntry × T))
      → AllStaler e ts
      → pick e (some slot) (holder ts) ≡ some (e, slot)
  pick_first e slot [] a = refl
  pick_first e slot ((f, t) ∷ ts) a = elim (Option-cases (find k (held t))) [
    | inl absent ↦ rw absent (pick_first e slot ts a.1)
    | inr (other, found) ↦ rw (found, a.0) refl
  ]

  or_holder-pick :
      (e : SstEntry) (o : Option Slot) (ts : List (SstEntry × T))
      → AllStaler e ts
      → or_holder e o (holder ts) ≡ pick e o (holder ts)
  or_holder-pick e none ts a = refl
  or_holder-pick e (some slot) ts a = sym (pick_first e slot ts a)

  AllStaler-weaken :
      (a b : SstEntry) (ts : List (SstEntry × T))
      → fresher b a ≡ false
      → AllStaler b ts
      → AllStaler a ts
  AllStaler-weaken a b [] h s = tt
  AllStaler-weaken a b ((f, t) ∷ ts) h s = (ground (arith), AllStaler-weaken a b ts h s.1)

  AllStaler-insert_by_age :
      (e a : SstEntry) (t : T) (ts : List (SstEntry × T))
      → fresher a e ≡ false
      → AllStaler e ts
      → AllStaler e (insert_by_age (a, t) ts)
  unfolding insert_by_age
  AllStaler-insert_by_age e a t [] h s = (h, tt)
  AllStaler-insert_by_age e a t ((f, u) ∷ ts) h s = elim (Bool-cases (newer f a)) [
    | inl behind ↦ rw behind (s.0, AllStaler-insert_by_age e a t ts h s.1)
    | inr before ↦ rw before (h, s)
  ]

  insert_by_age-IsAged :
      (e : SstEntry) (t : T) (ts : List (SstEntry × T))
      → IsAged ts
      → IsAged (insert_by_age (e, t) ts)
  unfolding insert_by_age newer
  insert_by_age-IsAged e t [] a = (tt, tt)
  insert_by_age-IsAged e t ((f, u) ∷ ts) a = elim (Bool-cases (newer f e)) [
    | inl behind ↦
        rw behind
          (AllStaler-insert_by_age f e t ts (ground (arith)) a.0, insert_by_age-IsAged e t ts a.1)
    | inr before ↦ rw before ((before, AllStaler-weaken e f ts before a.0), a)
  ]

  holder-insert_by_age :
      (e : SstEntry) (t : T) (ts : List (SstEntry × T))
      → IsAged ts
      → holder (insert_by_age (e, t) ts) ≡ pick e (find k (held t)) (holder ts)
  unfolding insert_by_age newer
  holder-insert_by_age e t [] a = elim (Option-cases (find k (held t))) [
    | inl absent ↦ rw absent refl
    | inr (slot, found) ↦ rw found refl
  ]
  holder-insert_by_age e t ((f, u) ∷ ts) a = elim (Bool-cases (newer f e)) [
    | inl behind ↦ rw behind (
        ap (or_holder f (find k (held u))) (holder-insert_by_age e t ts a.1)
        ∙ pick-or_holder e f (find k (held t)) (find k (held u)) (holder ts) behind)
    | inr before ↦ rw before (
        or_holder-pick e (find k (held t)) ((f, u) ∷ ts)
          (before, AllStaler-weaken e f ts before a.0))
  ]

  newest_first-IsAged : (ts : List (SstEntry × T)) → IsAged (newest_first ts)
  unfolding newest_first
  newest_first-IsAged [] = tt
  newest_first-IsAged ((e, t) ∷ ts) =
      insert_by_age-IsAged e t (newest_first ts) (newest_first-IsAged ts)

  holder-newest_first :
      {D : Type 0} (stored : D → ℕ → Option (Table Slot)) (d : D) (es : List SstEntry)
      (ts : List (SstEntry × T))
      → Opened held stored d es ts
      → holder (newest_first ts) ≡ freshest stored d k es
  unfolding newest_first
  holder-newest_first stored d [] [] o = refl
  holder-newest_first stored d [] (x ∷ ts) o = elim o [ ]
  holder-newest_first stored d (e ∷ es) [] o = elim o [ ]
  holder-newest_first stored d (e ∷ es) ((f, t) ∷ ts) o =
      holder-insert_by_age f t (newest_first ts) (newest_first-IsAged ts)
      ∙ rw (o.0, o.1) (ap (pick e (find k (held t))) (holder-newest_first stored d es ts o.2))

  -- The first file that is read is the freshest that has the key.
  pub first_held-newest_first :
      {D : Type 0} (stored : D → ℕ → Option (Table Slot)) (d : D) (es : List SstEntry)
      (ts : List (SstEntry × T))
      → Opened held stored d es ts
      → first_held held k (newest_first ts) ≡ slot_of (freshest stored d k es)
  first_held-newest_first stored d es ts o =
      sym (slot_of-holder (newest_first ts)) ∙ ap slot_of (holder-newest_first stored d es ts o)

module _ {D T : Type 0} {files : SstFiles D T} {stored : D → ℕ → Option (Table Slot)}
    {held : T → Table Slot} (law : IsSst files stored held) where
  -- Where every file opens, the loop opens all of them, in their order.
  pub load_tables-Opened :
      (d : D) (es : List SstEntry)
      → AllOpen files d es
      → (ts : List (SstEntry × T)) × Opened held stored d es ts
        × ((acc : List (SstEntry × T)) → load_tables files d acc es ≡ (acc ++ ts, ok tt))
  unfolding load_tables
  load_tables-Opened d [] a = ([], tt, λ acc. rw append-nil refl)
  load_tables-Opened d (e ∷ es) ((there, t, opens), a) =
      let (ts, opened, loads) = load_tables-Opened d es a in
      (
        (e, t) ∷ ts,
        (refl, law.opens d e.id t opens, opened),
        λ acc. rw (there, opens) (loads (acc ++ ((e, t) ∷ [])) ∙ rw append_assoc refl),
      )
