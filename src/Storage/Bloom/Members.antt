-- ===== src/Storage/Bloom/Members.antt =====
-- The keys that a filter of crates/raft-storage/src/bloom.rs was given are found in it.
use raftrust.Prelude.{length-replicate}
use raftrust.Storage.Bloom.{new_filter}
use raftrust.Prelude.{
  ℕ, zero, suc, ◌+◌, ◌*◌, ◌%◌, ◌<◌, ◌≡◌, refl, ap, ◌∙◌, Bool, true, false, Option, none, some, List,
  [], ◌∷◌, length, length-set, get_elem?, get_elem?-set_self, get_elem?-set_ne, set, ltb, ◌==◌,
  wrap64, arith, inl, inr, Bool-cases,
}
use raftrust.Prelude.{if◌then◌else◌}
use native.Mathlib.Nat.{mod-lt}
use raftrust.Prelude.Keys.{Key}
use raftrust.Errors.{Result, ok, panic, ◌>>=◌}
use raftrust.Storage.Bloom.{BloomFilter, get_index, set_bits, test_bits, insert, may_contain}

pub record IsFilter (f : BloomFilter) : Type 0 where
  pub some_bits : 0 < f.num_bits
  pub full : length f.bits ≡ f.num_bits

-- The bit of a hash.
abbrev bit_of : BloomFilter → ℕ × ℕ → ℕ → ℕ
bit_of f hashes i = wrap64 (hashes.0 + wrap64 (i * hashes.1)) % f.num_bits

-- The bits of so many hashes are set.
abbrev HasBits : BloomFilter → ℕ × ℕ → ℕ → ℕ → Type 0
HasBits f hashes i zero = Unit
HasBits f hashes i (suc count) =
    (get_elem? f.bits (bit_of f hashes i) ≡ some true) × HasBits f hashes (i + 1) count

-- No bit is lost.
record Grown (f g : BloomFilter) : Type 0 where
  hashes_same : g.num_hashes ≡ f.num_hashes
  width_same : g.num_bits ≡ f.num_bits
  kept : (idx : ℕ) → get_elem? f.bits idx ≡ some true → get_elem? g.bits idx ≡ some true

Grown-trans : {f g h : BloomFilter} → Grown f g → Grown g h → Grown f h
Grown-trans a b = record {
  hashes_same = b.hashes_same ∙ a.hashes_same;
  width_same = b.width_same ∙ a.width_same;
  kept = λ idx h. b.kept idx (a.kept idx h);
}

HasBits-Grown :
    (f g : BloomFilter) (hashes : ℕ × ℕ) (i count : ℕ)
    → Grown f g
    → HasBits f hashes i count
    → HasBits g hashes i count
HasBits-Grown f g hashes i zero grown h = tt
HasBits-Grown f g hashes i (suc count) grown h = (
  rw grown.width_same (grown.kept (bit_of f hashes i) h.0),
  HasBits-Grown f g hashes (i + 1) count grown h.1,
)

get_index-IsFilter :
    (f : BloomFilter) (hashes : ℕ × ℕ) (i : ℕ)
    → IsFilter f
    → get_index f.num_bits hashes i ≡ ok (bit_of f hashes i)
unfolding get_index
get_index-IsFilter f hashes i w = ground (arith, w.some_bits)

bit_inside :
    (f : BloomFilter) (hashes : ℕ × ℕ) (i : ℕ) → IsFilter f → bit_of f hashes i < length f.bits
bit_inside f hashes i w = rw w.full (mod-lt _ w.some_bits)

ltb-true : (a b : ℕ) → a < b → ltb a b ≡ true
ltb-true a b h = ground arith

set_kept :
    (xs : List Bool) (j idx : ℕ)
    → get_elem? xs j ≡ some true
    → (j == idx) ≡ true
    → get_elem? (set xs idx true) j ≡ some true
set_kept [] j idx h same = cc
set_kept (x ∷ xs) zero zero h same = refl
set_kept (x ∷ xs) zero (suc idx) h same = ground arith
set_kept (x ∷ xs) (suc j) zero h same = ground arith
set_kept (x ∷ xs) (suc j) (suc idx) h same = set_kept xs j idx h (ground arith)

abbrev with_bit : BloomFilter → ℕ → BloomFilter
with_bit f idx = record f { bits = set f.bits idx true }

with_bit-Grown : (f : BloomFilter) (idx : ℕ) → Grown f (with_bit f idx)
with_bit-Grown f idx = record {
  hashes_same = refl;
  width_same = refl;
  kept = λ j h. elim (Bool-cases (j == idx)) [
    | inl same ↦ set_kept f.bits j idx h same
    | inr other ↦ get_elem?-set_ne f.bits true (λ e. ground arith) ∙ h
  ];
}

with_bit-IsFilter : (f : BloomFilter) (idx : ℕ) → IsFilter f → IsFilter (with_bit f idx)
with_bit-IsFilter f idx w = record {
  some_bits = w.some_bits;
  full = length-set f.bits idx true ∙ w.full;
}

set_bits-HasBits :
    (hashes : ℕ × ℕ) (i count : ℕ) (f : BloomFilter)
    → IsFilter f
    → (g : BloomFilter) × (set_bits hashes i count f ≡ ok g)
      × IsFilter g
      × Grown f g
      × HasBits g hashes i count
unfolding set_bits
set_bits-HasBits hashes i zero f w =
    (f, refl, w, record { hashes_same = refl; width_same = refl; kept = λ idx h. h }, tt)
set_bits-HasBits hashes i (suc count) f w =
    let idx = bit_of f hashes i in
    let one = with_bit-Grown f idx in
    let inside = bit_inside f hashes i w in
    let (g, done, well, grown, others) =
      set_bits-HasBits hashes (i + 1) count (with_bit f idx) (with_bit-IsFilter f idx w) in
    (
      g,
      rw (get_index-IsFilter f hashes i w) (rw (ltb-true idx (length f.bits) inside) done),
      well,
      Grown-trans one grown,
      (rw (grown.width_same) (grown.kept idx (get_elem?-set_self f.bits idx true inside)), others),
    )

tested :
    (o : Option Bool) (rest : Result Bool)
    → o ≡ some true
    → elim o [ none ↦ panic | some bit ↦ if bit then rest else ok false ] ≡ rest
tested o rest h = rw h refl

test_bits-HasBits :
    (hashes : ℕ × ℕ) (i count : ℕ) (f : BloomFilter)
    → IsFilter f
    → HasBits f hashes i count
    → test_bits hashes i count f ≡ ok true
unfolding test_bits
test_bits-HasBits hashes i zero f w h = refl
test_bits-HasBits hashes i (suc count) f w h = rw (get_index-IsFilter f hashes i w) (
    tested (get_elem? f.bits (bit_of f hashes i)) (test_bits hashes (i + 1) count f) h.0
    ∙ test_bits-HasBits hashes (i + 1) count f w h.1)

module _ (hash_pair : Key → ℕ × ℕ) where
  -- Inserting the keys one after the other.
  abbrev pub insert_keys : BloomFilter → List Key → Result BloomFilter
  insert_keys f [] = ok f
  insert_keys f (key ∷ keys) = insert hash_pair f key >>= λ g. insert_keys g keys

  -- Each key is answered to be possibly there.
  abbrev pub AllFound : BloomFilter → List Key → Type 0
  AllFound f [] = Unit
  AllFound f (key ∷ keys) = (may_contain hash_pair f key ≡ ok true) × AllFound f keys

  insert_keys-Grown :
      (f : BloomFilter) (keys : List Key)
      → IsFilter f
      → (g : BloomFilter) × (insert_keys f keys ≡ ok g) × IsFilter g × Grown f g × AllFound g keys
  unfolding insert may_contain
  insert_keys-Grown f [] w =
      (f, refl, w, record { hashes_same = refl; width_same = refl; kept = λ idx h. h }, tt)
  insert_keys-Grown f (key ∷ keys) w =
      let (g, done, well, grown, has) = set_bits-HasBits (hash_pair key) 0 f.num_hashes f w in
      let (h, rest, whole, more, found) = insert_keys-Grown g keys well in
      let all = Grown-trans grown more in
      (
        h,
        rw done rest,
        whole,
        all,
        (
          ap (λ n. test_bits (hash_pair key) 0 n h) all.hashes_same
              ∙ test_bits-HasBits (hash_pair key) 0 f.num_hashes h whole
                  (HasBits-Grown g h (hash_pair key) 0 f.num_hashes more has),
          found,
        ),
      )

  -- No false negative: inserting any keys never panics, and the filter then answers for each of them
  -- that it may be there, whatever the hash. The filter has a bit at least.
  pub insert-may_contain :
      (num_bits num_hashes : ℕ) (keys : List Key)
      → 0 < num_bits
      → (g : BloomFilter) × (insert_keys (new_filter num_bits num_hashes) keys ≡ ok g)
        × AllFound g keys
  unfolding new_filter
  insert-may_contain num_bits num_hashes keys some_bits =
      let (g, done, well, grown, found) =
        insert_keys-Grown (new_filter num_bits num_hashes) keys
          (record { some_bits = some_bits; full = length-replicate num_bits false }) in
      (g, done, found)
