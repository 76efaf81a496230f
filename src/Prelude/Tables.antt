-- ===== src/Prelude/Tables.antt =====
-- `BTreeMap` from keys, as the list of its entries in the order of their keys.
use raftrust.Prelude.Keys.{key_lt-not_eq}
use mathlib.Core.Path.{◌≡◌, refl}
use mathlib.Core.Bool.{Bool, true, not, ◌&&◌}
use mathlib.Core.List.{List, [], ◌∷◌}
use mathlib.Core.Option.{Option, none, some}
use mathlib.Core.Logic.{inl, inr}
use native.Mathlib.Omega.{arith}
use raftrust.Prelude.Tests.{if◌then◌else◌, Bool-cases}
use raftrust.Prelude.Keys.{
  Key, key_eq, key_lt, key_eq_same, key_eq_refl, key_lt_trans, key_lt_total,
}

abbrev pub Table {ℓ} : Type ℓ → Type ℓ
Table V = List (Key × V)

-- In `[start, end)`.
unfoldable pub in_range : Key → Key → Key → Bool
in_range start end k = not (key_lt k start) && key_lt k end

module _ {ℓ} {V : Type ℓ} where
  unfoldable pub find : Key → Table V → Option V
  find k [] = none
  find k ((j, v) ∷ m) = if key_eq k j then some v else find k m

  unfoldable pub add_entry : Key → V → Table V → Table V
  add_entry k v [] = (k, v) ∷ []
  add_entry k v ((j, w) ∷ m) =
      let rest = add_entry k v m in
      if key_eq k j then (k, v) ∷ m else if key_lt k j then (k, v) ∷ (j, w) ∷ m else (j, w) ∷ rest

  unfoldable pub remove_entry : Key → Table V → Table V
  remove_entry k [] = []
  remove_entry k ((j, v) ∷ m) =
      let rest = remove_entry k m in if key_eq k j then rest else (j, v) ∷ rest

  unfoldable pub range : Key → Key → Table V → Table V
  range start end [] = []
  range start end ((k, v) ∷ m) =
      let rest = range start end m in if in_range start end k then (k, v) ∷ rest else rest

  -- The key comes before every entry.
  abbrev pub Before : Key → Table V → Type 0
  Before k [] = Unit
  Before k ((j, w) ∷ m) = (key_lt k j ≡ true) × Before k m

  abbrev pub IsOrdered : Table V → Type 0
  IsOrdered [] = Unit
  IsOrdered ((k, v) ∷ m) = Before k m × IsOrdered m

  pub find-add_entry :
      (k j : Key) (v : V) (m : Table V)
      → find j (add_entry k v m) ≡ (if key_eq j k then some v else find j m)
  unfolding find add_entry
  find-add_entry k j v [] = refl
  find-add_entry k j v ((i, w) ∷ m) = elim (Bool-cases (key_eq k i)) [
    | inl same ↦ rw (key_eq_same k i same, key_eq_refl i) (ground arith)
    | inr other ↦ ground (arith, find-add_entry k j v m, key_eq_same j k, key_eq_same j i)
  ]

  pub Before-weaken : (i k : Key) (m : Table V) → key_lt i k ≡ true → Before k m → Before i m
  Before-weaken i k [] h b = b
  Before-weaken i k ((j, w) ∷ m) h b = (key_lt_trans i k j h b.0, Before-weaken i k m h b.1)

  pub find-Before : (k : Key) (m : Table V) → Before k m → find k m ≡ none
  unfolding find
  find-Before k [] b = refl
  find-Before k ((j, w) ∷ m) b = ground (arith, key_lt-not_eq k j b.0, find-Before k m b.1)

  Before-add_entry :
      (i k : Key) (v : V) (m : Table V)
      → key_lt i k ≡ true
      → Before i m
      → Before i (add_entry k v m)
  unfolding add_entry
  Before-add_entry i k v [] h b = (h, b)
  Before-add_entry i k v ((j, w) ∷ m) h b = ground (arith, Before-add_entry i k v m h b.1)

  pub add_entry-IsOrdered :
      (k : Key) (v : V) (m : Table V) → IsOrdered m → IsOrdered (add_entry k v m)
  unfolding add_entry
  add_entry-IsOrdered k v [] o = (tt, tt)
  add_entry-IsOrdered k v ((j, w) ∷ m) o = elim (Bool-cases (key_eq k j)) [
    | inl same ↦ rw (same, key_eq_same k j same) o
    | inr other ↦ elim (Bool-cases (key_lt k j)) [
      | inl lt ↦ rw (other, lt) ((lt, Before-weaken k j m lt o.0), o)
      | inr ge ↦
          rw (other, ge)
            (
              Before-add_entry j k v m (key_lt_total k j ge other) o.0,
              add_entry-IsOrdered k v m o.1,
            )
    ]
  ]

  pub find-range :
      (start end k : Key) (m : Table V)
      → find k (range start end m) ≡ (if in_range start end k then find k m else none)
  unfolding find range
  find-range start end k [] = ground arith
  find-range start end k ((j, w) ∷ m) = elim (Bool-cases (key_eq k j)) [
    | inl same ↦
        rw (key_eq_same k j same, key_eq_refl j)
          (ground (arith, key_eq_refl j, find-range start end j m))
    | inr other ↦ ground (arith, find-range start end k m)
  ]

  pub Before-range : (start end i : Key) (m : Table V) → Before i m → Before i (range start end m)
  unfolding range
  Before-range start end i [] b = b
  Before-range start end i ((j, w) ∷ m) b = ground (arith, Before-range start end i m b.1)

  pub range-IsOrdered :
      (start end : Key) (m : Table V) → IsOrdered m → IsOrdered (range start end m)
  unfolding range
  range-IsOrdered start end [] o = o
  range-IsOrdered start end ((j, w) ∷ m) o =
      ground (arith, Before-range start end j m o.0, range-IsOrdered start end m o.1)

  pub add_entry-Before : (k : Key) (v : V) (m : Table V) → Before k m → add_entry k v m ≡ (k, v) ∷ m
  unfolding add_entry
  add_entry-Before k v [] b = refl
  add_entry-Before k v ((j, w) ∷ m) b = rw (key_lt-not_eq k j b.0, b.0) refl
