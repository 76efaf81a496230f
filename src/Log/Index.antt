-- ===== src/Log/Index.antt =====
-- The positions of crates/raft-consensus/src/log.rs: an entry is stored where its index says, and the
-- operations that cut the log keep it so.
use raftrust.Prelude.{
  ℕ, zero, suc, ◌+◌, ◌-◌, ◌≤◌, ◌<◌, ◌≡◌, refl, none, some, List, [], ◌∷◌, ◌++◌, length, get_elem?,
  take, drop, ltb, if◌then◌else◌, arith,
}
use raftrust.Message.{LogEntry}
use raftrust.Log.{RaftLog, last?}

-- The entries have the indices `base + 1`, `base + 2` and so on.
abbrev pub IsRun : ℕ → List LogEntry → Type 0
IsRun base [] = Unit
IsRun base (e ∷ es) = (e.index ≡ base + 1) × IsRun (base + 1) es

pub record IsContiguous {W : Type 0} (log : RaftLog W) : Type 0 where
  pub run : IsRun log.snapshot_index log.entries

pub IsRun-shift : {a b : ℕ} (es : List LogEntry) → a ≡ b → IsRun a es → IsRun b es
IsRun-shift es p r = rw (← p) r

pub get_elem?-IsRun :
    (base i : ℕ) (es : List LogEntry) {e : LogEntry}
    → IsRun base es
    → get_elem? es i ≡ some e
    → e.index ≡ base + i + 1
get_elem?-IsRun base i [] r h = cc
get_elem?-IsRun base zero (x ∷ es) r h = ground arith
get_elem?-IsRun base (suc i) (x ∷ es) r h = omega (arith, get_elem?-IsRun (base + 1) i es r.1 h)

pub get_elem?-some :
    {A : Type 0} (i : ℕ) (es : List A) → i < length es → (e : A) × (get_elem? es i ≡ some e)
get_elem?-some i [] h = absurd (omega arith)
get_elem?-some zero (x ∷ es) h = (x, refl)
get_elem?-some (suc i) (x ∷ es) h = get_elem?-some i es (omega arith)

pub get_elem?-none : {A : Type 0} (i : ℕ) (es : List A) → length es ≤ i → get_elem? es i ≡ none
get_elem?-none i [] h = refl
get_elem?-none zero (x ∷ es) h = absurd (omega arith)
get_elem?-none (suc i) (x ∷ es) h = get_elem?-none i es (omega arith)

pub get_elem?-take :
    {A : Type 0} (n i : ℕ) (xs : List A)
    → get_elem? (take n xs) i ≡ (if ltb i n then get_elem? xs i else none)
get_elem?-take zero i xs = ground arith
get_elem?-take (suc n) i [] = ground arith
get_elem?-take (suc n) zero (x ∷ xs) = ground arith
get_elem?-take (suc n) (suc i) (x ∷ xs) = ground (arith, get_elem?-take n i xs)

pub get_elem?-drop :
    {A : Type 0} (n i : ℕ) (xs : List A) → get_elem? (drop n xs) i ≡ get_elem? xs (n + i)
get_elem?-drop zero i xs = ground arith
get_elem?-drop (suc n) i [] = ground arith
get_elem?-drop (suc n) i (x ∷ xs) = ground (arith, get_elem?-drop n i xs)

pub get_elem?-append :
    {A : Type 0} (i : ℕ) (xs ys : List A)
    → get_elem? (xs ++ ys) i
      ≡ (if ltb i (length xs) then get_elem? xs i else get_elem? ys (i - length xs))
get_elem?-append i [] ys = ground arith
get_elem?-append zero (x ∷ xs) ys = ground arith
get_elem?-append (suc i) (x ∷ xs) ys = ground (arith, get_elem?-append i xs ys)

pub IsRun-append :
    (base : ℕ) (xs ys : List LogEntry)
    → IsRun base xs
    → IsRun (base + length xs) ys
    → IsRun base (xs ++ ys)
IsRun-append base [] ys r s = IsRun-shift ys (omega arith) s
IsRun-append base (x ∷ xs) ys r s =
    (r.0, IsRun-append (base + 1) xs ys r.1 (IsRun-shift ys (omega arith) s))

pub IsRun-take : (base n : ℕ) (xs : List LogEntry) → IsRun base xs → IsRun base (take n xs)
IsRun-take base zero xs r = tt
IsRun-take base (suc n) [] r = tt
IsRun-take base (suc n) (x ∷ xs) r = (r.0, IsRun-take (base + 1) n xs r.1)

pub IsRun-drop : (base n : ℕ) (xs : List LogEntry) → IsRun base xs → IsRun (base + n) (drop n xs)
IsRun-drop base zero xs r = IsRun-shift xs (omega arith) r
IsRun-drop base (suc n) [] r = tt
IsRun-drop base (suc n) (x ∷ xs) r =
    IsRun-shift (drop n xs) (omega arith) (IsRun-drop (base + 1) n xs r.1)

pub last-IsRun :
    (base : ℕ) (es : List LogEntry)
    → IsRun base es
    → (elim (last? es) [ none ↦ base | some e ↦ e.index ]) ≡ base + length es
last-IsRun base [] r = omega arith
last-IsRun base (e ∷ []) r = omega arith
last-IsRun base (e ∷ f ∷ es) r = ground (arith, last-IsRun (base + 1) (f ∷ es) r.1)
