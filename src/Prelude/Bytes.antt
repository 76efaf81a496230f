-- ===== src/Prelude/Bytes.antt =====
-- Bytes as numbers below 256, and the words of `to_le_bytes` and `to_be_bytes` with their inverses.
use raftrust.Prelude.Lists.{length, length-append, take, drop}
use Prim.Native.Nat.{ℕ, zero, suc, ◌+◌, ◌*◌, ◌/◌, ◌%◌, ◌^◌, ◌<◌}
use mathlib.Core.Path.{◌≡◌, refl, ap}
use mathlib.Core.List.{List, [], ◌∷◌, ◌++◌, reverse, reverse-cons, reverse-reverse}
use native.Mathlib.Omega.{arith}
use native.Mathlib.Nat.{pow-suc}

-- The `width` low bytes of `n`, the lowest first.
unfoldable pub to_le_bytes : ℕ → ℕ → List ℕ
to_le_bytes zero n = []
to_le_bytes (suc width) n = (n % 256) ∷ to_le_bytes width (n / 256)

unfoldable pub from_le_bytes : List ℕ → ℕ
from_le_bytes [] = 0
from_le_bytes (b ∷ bs) = b + 256 * from_le_bytes bs

pub length-to_le_bytes : (width n : ℕ) → length (to_le_bytes width n) ≡ width
unfolding to_le_bytes
length-to_le_bytes zero n = refl
length-to_le_bytes (suc width) n = ap suc (length-to_le_bytes width (n / 256))

pub div_bound : (width n : ℕ) → n < 256 ^ suc width → n / 256 < 256 ^ width
div_bound width n h = omega (arith, pow-suc 256 width)

pub from_le_bytes-to_le_bytes :
    (width n : ℕ) → n < 256 ^ width → from_le_bytes (to_le_bytes width n) ≡ n
unfolding to_le_bytes from_le_bytes
from_le_bytes-to_le_bytes zero n h = omega arith
from_le_bytes-to_le_bytes (suc width) n h =
    omega (arith, from_le_bytes-to_le_bytes width (n / 256) (div_bound width n h))

module _ {ℓ} {A : Type ℓ} where
  pub take-length : (xs : List A) → take (length xs) xs ≡ xs
  take-length [] = refl
  take-length (x ∷ xs) = ap (λ l. x ∷ l) (take-length xs)

  pub take-length_append : (xs ys : List A) → take (length xs) (xs ++ ys) ≡ xs
  take-length_append [] ys = refl
  take-length_append (x ∷ xs) ys = ap (λ l. x ∷ l) (take-length_append xs ys)

  pub drop-length_append : (xs ys : List A) → drop (length xs) (xs ++ ys) ≡ ys
  drop-length_append [] ys = refl
  drop-length_append (x ∷ xs) ys = drop-length_append xs ys

-- The bytes with the highest first.
unfoldable pub to_be_bytes : ℕ → ℕ → List ℕ
to_be_bytes width n = reverse (to_le_bytes width n)

unfoldable pub from_be_bytes : List ℕ → ℕ
from_be_bytes bs = from_le_bytes (reverse bs)

pub from_be_bytes-to_be_bytes :
    (width n : ℕ) → n < 256 ^ width → from_be_bytes (to_be_bytes width n) ≡ n
unfolding to_be_bytes from_be_bytes
from_be_bytes-to_be_bytes width n h =
    rw (reverse-reverse (to_le_bytes width n)) (from_le_bytes-to_le_bytes width n h)

pub to_be_bytes-suc :
    (width n : ℕ) → to_be_bytes (suc width) n ≡ to_be_bytes width (n / 256) ++ ((n % 256) ∷ [])
unfolding to_be_bytes to_le_bytes
to_be_bytes-suc width n = reverse-cons (n % 256) (to_le_bytes width (n / 256))

pub length-to_be_bytes : (width n : ℕ) → length (to_be_bytes width n) ≡ width
unfolding to_be_bytes to_le_bytes
length-to_be_bytes zero n = refl
length-to_be_bytes (suc width) n = rw (reverse-cons (n % 256) (to_le_bytes width (n / 256))) (
    omega (
      arith,
      length-append (reverse (to_le_bytes width (n / 256))) ((n % 256) ∷ []),
      length-to_be_bytes width (n / 256),
    ))
