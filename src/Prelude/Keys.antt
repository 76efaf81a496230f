-- ===== src/Prelude/Keys.antt =====
-- Keys: byte strings in their order, as Rust compares them, first byte first.
use Prim.Native.Nat.{ℕ, zero, suc, ◌/◌, ◌%◌, ◌^◌, ◌<◌}
use mathlib.Core.Path.{◌≡◌, refl, sym, ap, ◌∙◌}
use mathlib.Core.Bool.{Bool, true, false, ◌&&◌, ◌||◌}
use mathlib.Core.List.{List, [], ◌∷◌, ◌++◌}
use native.Mathlib.Omega.{arith}
use raftrust.Prelude.Lists.{length}
use raftrust.Prelude.Bytes.{
  to_le_bytes, to_be_bytes, to_be_bytes-suc, length-to_be_bytes, div_bound,
}
use raftrust.Prelude.Tests.{ltb, ◌==◌, Bool-cases}
use mathlib.Core.Logic.{inl, inr}

abbrev pub Key : Type 0
Key = List ℕ

unfoldable pub key_eq : Key → Key → Bool
key_eq [] [] = true
key_eq [] (y ∷ ys) = false
key_eq (x ∷ xs) [] = false
key_eq (x ∷ xs) (y ∷ ys) = x == y && key_eq xs ys

unfoldable pub key_lt : Key → Key → Bool
key_lt [] [] = false
key_lt [] (y ∷ ys) = true
key_lt (x ∷ xs) [] = false
key_lt (x ∷ xs) (y ∷ ys) = ltb x y || (x == y && key_lt xs ys)

pub key_eq_refl : (a : Key) → key_eq a a ≡ true
unfolding key_eq
key_eq_refl [] = refl
key_eq_refl (x ∷ xs) = ground (arith, key_eq_refl xs)

pub key_eq_same : (a b : Key) → key_eq a b ≡ true → a ≡ b
unfolding key_eq
key_eq_same [] [] h = refl
key_eq_same [] (y ∷ ys) h = ground arith
key_eq_same (x ∷ xs) [] h = ground arith
key_eq_same (x ∷ xs) (y ∷ ys) h = ground (arith, key_eq_same xs ys (ground arith))

pub key_eq_comm : (a b : Key) → key_eq a b ≡ key_eq b a
unfolding key_eq
key_eq_comm [] [] = refl
key_eq_comm [] (y ∷ ys) = refl
key_eq_comm (x ∷ xs) [] = refl
key_eq_comm (x ∷ xs) (y ∷ ys) = ground (arith, key_eq_comm xs ys)

pub key_lt_irrefl : (a : Key) → key_lt a a ≡ false
unfolding key_lt
key_lt_irrefl [] = refl
key_lt_irrefl (x ∷ xs) = ground (arith, key_lt_irrefl xs)

pub key_lt_trans : (a b c : Key) → key_lt a b ≡ true → key_lt b c ≡ true → key_lt a c ≡ true
unfolding key_lt
key_lt_trans [] [] c p q = ground arith
key_lt_trans [] (y ∷ ys) [] p q = ground arith
key_lt_trans [] (y ∷ ys) (z ∷ zs) p q = refl
key_lt_trans (x ∷ xs) [] c p q = ground arith
key_lt_trans (x ∷ xs) (y ∷ ys) [] p q = ground arith
key_lt_trans (x ∷ xs) (y ∷ ys) (z ∷ zs) p q = ground (arith, key_lt_trans xs ys zs)

-- Of two different keys, one comes first.
pub key_lt_total : (a b : Key) → key_lt a b ≡ false → key_eq a b ≡ false → key_lt b a ≡ true
unfolding key_lt key_eq
key_lt_total [] [] p q = ground arith
key_lt_total [] (y ∷ ys) p q = ground arith
key_lt_total (x ∷ xs) [] p q = refl
key_lt_total (x ∷ xs) (y ∷ ys) p q = ground (arith, key_lt_total xs ys)

pub key_lt-not_eq : (a b : Key) → key_lt a b ≡ true → key_eq a b ≡ false
unfolding key_lt key_eq
key_lt-not_eq [] [] p = ground arith
key_lt-not_eq [] (y ∷ ys) p = refl
key_lt-not_eq (x ∷ xs) [] p = refl
key_lt-not_eq (x ∷ xs) (y ∷ ys) p = ground (arith, key_lt-not_eq xs ys)

pub key_lt_asymm : (a b : Key) → key_lt a b ≡ true → key_lt b a ≡ false
key_lt_asymm a b p = ground (arith, key_lt_trans a b a, key_lt_irrefl a)

pub lt_le_trans : (a b c : Key) → key_lt a b ≡ true → key_lt c b ≡ false → key_lt a c ≡ true
lt_le_trans a b c p q = elim (Bool-cases (key_eq c b)) [
  | inl same ↦ rw (key_eq_same c b same) p
  | inr other ↦ key_lt_trans a b c p (key_lt_total c b q other)
]

pub not_lt_trans : (a b c : Key) → key_lt b a ≡ false → key_lt c b ≡ false → key_lt c a ≡ false
not_lt_trans a b c p q = ground (arith, lt_le_trans c a b)

pub key_lt-append_same : (k a b : Key) → key_lt (k ++ a) (k ++ b) ≡ key_lt a b
unfolding key_lt
key_lt-append_same [] a b = refl
key_lt-append_same (x ∷ k) a b = ground (arith, key_lt-append_same k a b)

pub key_eq-append_same : (k a b : Key) → key_eq (k ++ a) (k ++ b) ≡ key_eq a b
unfolding key_eq
key_eq-append_same [] a b = refl
key_eq-append_same (x ∷ k) a b = ground (arith, key_eq-append_same k a b)

-- One more byte at the end of two keys of one length.
pub key_eq_last :
    (a b : Key) (x y : ℕ)
    → length a ≡ length b
    → key_eq (a ++ (x ∷ [])) (b ++ (y ∷ [])) ≡ (key_eq a b && x == y)
unfolding key_eq
key_eq_last [] [] x y h = ground arith
key_eq_last [] (c ∷ b) x y h = ground arith
key_eq_last (c ∷ a) [] x y h = ground arith
key_eq_last (c ∷ a) (d ∷ b) x y h = ground (arith, key_eq_last a b x y)

pub key_lt_last :
    (a b : Key) (x y : ℕ)
    → length a ≡ length b
    → key_lt (a ++ (x ∷ [])) (b ++ (y ∷ [])) ≡ (key_lt a b || (key_eq a b && ltb x y))
unfolding key_lt key_eq
key_lt_last [] [] x y h = ground arith
key_lt_last [] (c ∷ b) x y h = ground arith
key_lt_last (c ∷ a) [] x y h = ground arith
key_lt_last (c ∷ a) (d ∷ b) x y h = ground (arith, key_lt_last a b x y)

ap2_key_eq : {a b c d : Key} → a ≡ b → c ≡ d → key_eq a c ≡ key_eq b d
ap2_key_eq p q = rw (p, q) refl

ap2_key_lt : {a b c d : Key} → a ≡ b → c ≡ d → key_lt a c ≡ key_lt b d
ap2_key_lt p q = rw (p, q) refl

same_length : (width m n : ℕ) → length (to_be_bytes width m) ≡ length (to_be_bytes width n)
same_length width m n = length-to_be_bytes width m ∙ sym (length-to_be_bytes width n)

pub key_eq-to_be_bytes :
    (width m n : ℕ)
    → m < 256 ^ width
    → n < 256 ^ width
    → key_eq (to_be_bytes width m) (to_be_bytes width n) ≡ (m == n)
unfolding to_be_bytes to_le_bytes key_eq
key_eq-to_be_bytes zero m n hm hn = ground arith
key_eq-to_be_bytes (suc width) m n hm hn =
    let a = to_be_bytes width (m / 256) in
    let b = to_be_bytes width (n / 256) in
    ap2_key_eq (to_be_bytes-suc width m) (to_be_bytes-suc width n)
    ∙ (key_eq_last a b (m % 256) (n % 256) (same_length width (m / 256) (n / 256))
        ∙ (ap (λ e. e && (m % 256) == (n % 256))
              (key_eq-to_be_bytes width (m / 256) (n / 256) (div_bound width m hm)
                (div_bound width n hn))
            ∙ ground arith))

-- Words with the highest byte first are in the order of the numbers.
pub key_lt-to_be_bytes :
    (width m n : ℕ)
    → m < 256 ^ width
    → n < 256 ^ width
    → key_lt (to_be_bytes width m) (to_be_bytes width n) ≡ ltb m n
unfolding to_be_bytes to_le_bytes key_lt
key_lt-to_be_bytes zero m n hm hn = ground arith
key_lt-to_be_bytes (suc width) m n hm hn =
    let a = to_be_bytes width (m / 256) in
    let b = to_be_bytes width (n / 256) in
    ap2_key_lt (to_be_bytes-suc width m) (to_be_bytes-suc width n)
    ∙ (key_lt_last a b (m % 256) (n % 256) (same_length width (m / 256) (n / 256))
        ∙ (rw
            (
              key_lt-to_be_bytes width (m / 256) (n / 256) (div_bound width m hm)
                  (div_bound width n hn),
              key_eq-to_be_bytes width (m / 256) (n / 256) (div_bound width m hm)
                  (div_bound width n hn),
            )
            (ground arith)))
