-- ===== src/Prelude/Maps.antt =====
-- `HashMap<u64, V>` as an association list and `HashSet<u64>` as a list without repetitions. The
-- order of a list stands for the unspecified order of iteration.
use raftrust.Prelude.Tests.{◌==◌, if◌then◌else◌, Bool-cases}
use raftrust.Prelude.Lists.{length}
use Prim.Native.Nat.{ℕ, ◌≤◌}
use mathlib.Core.Path.{◌≡◌}
use mathlib.Core.Bool.{Bool, false, ◌||◌}
use mathlib.Core.Logic.{inl, inr}
use mathlib.Core.Option.{Option, none, some}
use mathlib.Core.List.{List, [], ◌∷◌}
use native.Mathlib.Omega.{arith}

abbrev pub IdMap {ℓ} : Type ℓ → Type ℓ
IdMap V = List (ℕ × V)

module _ {ℓ} {V : Type ℓ} where
  unfoldable pub lookup : ℕ → IdMap V → Option V
  lookup k [] = none
  lookup k ((j, v) ∷ m) = if j == k then some v else lookup k m

  unfoldable pub insert : ℕ → V → IdMap V → IdMap V
  insert k v [] = (k, v) ∷ []
  insert k v ((j, w) ∷ m) = if j == k then (k, v) ∷ m else (j, w) ∷ insert k v m

  unfoldable pub remove : ℕ → IdMap V → IdMap V
  remove k [] = []
  remove k ((j, w) ∷ m) = let rest = remove k m in if j == k then rest else (j, w) ∷ rest

  pub lookup-insert :
      (k j : ℕ) (v : V) (m : IdMap V)
      → lookup j (insert k v m) ≡ (if k == j then some v else lookup j m)
  unfolding lookup insert
  lookup-insert k j v [] = ground arith
  lookup-insert k j v ((i, w) ∷ m) = ground (arith, lookup-insert k j v m)

  pub lookup-remove :
      (k j : ℕ) (m : IdMap V) → lookup j (remove k m) ≡ (if k == j then none else lookup j m)
  unfolding lookup remove
  lookup-remove k j [] = ground arith
  lookup-remove k j ((i, w) ∷ m) = ground (arith, lookup-remove k j m)

-- Sets of identifiers.
unfoldable pub contains : ℕ → List ℕ → Bool
contains a [] = false
contains a (x ∷ xs) = x == a || contains a xs

unfoldable pub add : ℕ → List ℕ → List ℕ
unfolding contains
add a xs = if contains a xs then xs else a ∷ xs

-- A list with no identifier twice.
abbrev pub Distinct : List ℕ → Type 0
Distinct [] = Unit
Distinct (x ∷ xs) = (contains x xs ≡ false) × Distinct xs

pub contains-add : (a b : ℕ) (xs : List ℕ) → contains b (add a xs) ≡ (a == b || contains b xs)
unfolding add contains
contains-add a b xs = elim (Bool-cases (contains a xs)) [
  | inl h ↦ elim (Bool-cases (a == b)) [ inl e ↦ ground (arith, h) | inr e ↦ ground (arith, h) ]
  | inr h ↦ ground (arith, h)
]

pub add-Distinct : (a : ℕ) (xs : List ℕ) → Distinct xs → Distinct (add a xs)
unfolding add
add-Distinct a xs d = ground arith

pub length-add_le : (a : ℕ) (xs : List ℕ) → length xs ≤ length (add a xs)
unfolding add
length-add_le a xs = ground arith
