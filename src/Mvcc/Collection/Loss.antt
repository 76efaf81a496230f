-- ===== src/Mvcc/Collection/Loss.antt =====
-- What `collect` of crates/raft-mvcc/src/gc.rs takes from a reader.
use raftrust.Prelude.{inl, inr}
use raftrust.Errors.{>>=-Passed, Result-cases}
use raftrust.Mvcc.Version.{carry_bytes}
use raftrust.Prelude.{
  ℕ, ◌<◌, ◌≤◌, ◌≡◌, refl, ap, ◌∙◌, true, false, none, List, [], ◌∷◌, IsU64, arith,
}
use mathlib.Core.List.{reverse}
use raftrust.Prelude.Keys.{Key, key_lt, key_eq_refl}
use raftrust.Prelude.Tables.{Table, range, in_range, remove_entry}
use raftrust.Errors.{ok, ◌>>=◌}
use raftrust.Mvcc.Version.{
  VersionedValue, IsValue, encode_key, encode, decode-encode, encode_key_prefix_start,
  encode_key_prefix_end,
}
use raftrust.Mvcc.Version.Order.{decode_key-encode_key, key_eq-encode_key}
use raftrust.Mvcc.Store.Latest.{encode_key-in_range, range_right}
use raftrust.Mvcc.Engine.{Engine, IsEngine}
use raftrust.Mvcc.Store.{MvccStore, key_value, first_at, get_at_revision}
use raftrust.Mvcc.Collection.{first_key, last_key, old_versions, delete_all, collect}

-- Of two versions of a key the older is collected, where its revision is below the given one.
old_versions_two :
    (key : Key) (r1 r2 min_revision : ℕ) (raw1 raw2 : List ℕ)
    → IsU64 r1
    → IsU64 r2
    → r1 < min_revision
    → old_versions min_revision none false
        ((encode_key key r2, raw2) ∷ (encode_key key r1, raw1) ∷ [])
      ≡ ok (encode_key key r1 ∷ [])
unfolding old_versions
old_versions_two key r1 r2 min_revision raw1 raw2 h1 h2 old =
    rw (decode_key-encode_key key r2 h2, decode_key-encode_key key r1 h1, key_eq_refl key)
      (ground arith)

first_at_two :
    (key : Key) (r1 r2 q : ℕ) (vv1 : VersionedValue) (raw2 : List ℕ)
    → IsU64 r1
    → IsU64 r2
    → r1 ≤ q
    → q < r2
    → IsValue vv1
    → first_at key q ((encode_key key r2, raw2) ∷ (encode_key key r1, encode vv1) ∷ [])
      ≡ ok (key_value key vv1)
unfolding first_at
first_at_two key r1 r2 q vv1 raw2 h1 h2 below above value =
    rw (decode_key-encode_key key r2 h2, decode_key-encode_key key r1 h1, decode-encode vv1 value)
      (ground arith)

-- A key that starts with a byte between 0 and 255 is in the range of all keys.
inside_all : (b : ℕ) (bs : Key) → 0 < b → b < 255 → in_range first_key last_key (b ∷ bs) ≡ true
unfolding in_range key_lt
inside_all b bs low high = ground arith

encode_key-inside_all :
    (b : ℕ) (bs : Key) (r : ℕ)
    → 0 < b
    → b < 255
    → in_range first_key last_key (encode_key (b ∷ bs) r) ≡ true
unfolding encode_key
encode_key-inside_all b bs r low high = inside_all b _ low high

own_range :
    (key : Key) (r1 r2 : ℕ) (raw1 raw2 : List ℕ) (lo hi : Key)
    → in_range lo hi (encode_key key r1) ≡ true
    → in_range lo hi (encode_key key r2) ≡ true
    → range lo hi ((encode_key key r2, raw2) ∷ (encode_key key r1, raw1) ∷ [])
      ≡ (encode_key key r2, raw2) ∷ (encode_key key r1, raw1) ∷ []
unfolding range
own_range key r1 r2 raw1 raw2 lo hi h1 h2 = rw (h1, h2) refl

one_range :
    (key : Key) (r2 : ℕ) (raw2 : List ℕ) (lo hi : Key)
    → in_range lo hi (encode_key key r2) ≡ true
    → range lo hi ((encode_key key r2, raw2) ∷ []) ≡ (encode_key key r2, raw2) ∷ []
unfolding range
one_range key r2 raw2 lo hi h = rw h refl

-- The two versions of the key.
abbrev pub versions : Key → ℕ → ℕ → List ℕ → List ℕ → Table (List ℕ)
versions key r1 r2 raw1 raw2 = (encode_key key r2, raw2) ∷ (encode_key key r1, raw1) ∷ []

remove_older :
    (key : Key) (r1 r2 : ℕ) (raw1 raw2 : List ℕ)
    → IsU64 r1
    → IsU64 r2
    → r1 < r2
    → remove_entry (encode_key key r1) (versions key r1 r2 raw1 raw2)
      ≡ (encode_key key r2, raw2) ∷ []
unfolding remove_entry
remove_older key r1 r2 raw1 raw2 h1 h2 lt =
    rw (key_eq-encode_key key r1 r2 h1 h2, key_eq_refl (encode_key key r1)) (ground arith)

first_at_newer :
    (key : Key) (r2 q : ℕ) (raw2 : List ℕ)
    → IsU64 r2
    → q < r2
    → first_at key q ((encode_key key r2, raw2) ∷ []) ≡ ok none
unfolding first_at
first_at_newer key r2 q raw2 h2 above = rw (decode_key-encode_key key r2 h2) (ground arith)

module _ {E : Type 0} {engine : Engine E} {view : E → Table (List ℕ)}
    (law : IsEngine engine view) where
  read_range :
      (s : MvccStore E) (key : Key) (q : ℕ)
      → (carry_bytes (reverse key)).1 ≡ false
      → get_at_revision engine s key q
        ≡ first_at key q
            (range (encode_key_prefix_start key) (encode_key_prefix_end key) (view s.engine))
  unfolding get_at_revision
  read_range s key q below =
      let start = encode_key_prefix_start key in
      let end = encode_key_prefix_end key in
      rw (law.scans s.engine start end (range_right start end _ (encode_key-in_range key 0 below)))
        refl

  collected_two :
      (e : E) (key : Key) (r1 r2 min_revision : ℕ) (raw1 raw2 : List ℕ)
      → in_range first_key last_key (encode_key key r1) ≡ true
      → in_range first_key last_key (encode_key key r2) ≡ true
      → IsU64 r1
      → IsU64 r2
      → r1 < min_revision
      → view e ≡ versions key r1 r2 raw1 raw2
      → (engine.scan e first_key last_key >>= λ all. old_versions min_revision none false all)
        ≡ ok (encode_key key r1 ∷ [])
  collected_two e key r1 r2 min_revision raw1 raw2 in1 in2 h1 h2 old held =
      rw
        (
          law.scans e first_key last_key (range_right first_key last_key _ in1),
          held,
          own_range key r1 r2 raw1 raw2 first_key last_key in1 in2,
        )
        (old_versions_two key r1 r2 min_revision raw1 raw2 h1 h2 old)

  delete_one :
      (e : E) (key : Key)
      → (delete_all engine e (key ∷ [])).1 ≡ ok tt
      → view (delete_all engine e (key ∷ [])).0 ≡ remove_entry key (view e)
  unfolding delete_all
  delete_one e key done = elim (Result-cases (engine.delete e key).1) [
    | inl (u, deleted) ↦ rw (deleted, delete_all) (law.deletes e key deleted)
    | inr (inl (x, failed)) ↦ absurd (ground arith)
    | inr (inr panics) ↦ absurd (ground arith)
  ]

  collect-delete :
      (e : E) (key : Key) (min_revision n : ℕ)
      → (engine.scan e first_key last_key >>= λ all. old_versions min_revision none false all)
        ≡ ok (key ∷ [])
      → (collect engine e min_revision).1 ≡ ok n
      → view (collect engine e min_revision).0 ≡ remove_entry key (view e)
  unfolding collect
  collect-delete e key min_revision n found done =
      let applied = >>=-Passed (delete_all engine e (key ∷ [])).1 _ (rw (found, collect) at done) in
      rw (found, collect) (delete_one e key applied.1)

  -- A collection that succeeds takes from a reader a version that it sees at a revision not below the
  -- given one: the store has two versions of the key, the older below the given revision and the newer
  -- above the reader's. The key starts with a byte between 0 and 255.
  pub collect_loses :
      (s : MvccStore E) (b : ℕ) (bs : Key) (r1 r2 min_revision q n : ℕ) (vv1 : VersionedValue)
      (raw2 : List ℕ)
      → let key = b ∷ bs in
        let after = record s { engine = (collect engine s.engine min_revision).0 } in
        (carry_bytes (reverse key)).1 ≡ false
        → 0 < b
        → b < 255
        → IsU64 r2
        → r1 < min_revision
        → min_revision ≤ q
        → q < r2
        → IsValue vv1
        → view s.engine ≡ versions key r1 r2 (encode vv1) raw2
        → (collect engine s.engine min_revision).1 ≡ ok n
        → (get_at_revision engine s key q ≡ ok (key_value key vv1))
          × (get_at_revision engine after key q ≡ ok none)
  collect_loses s b bs r1 r2 min_revision q n vv1 raw2 below low high h2 old least above value held
        done =
      let key = b ∷ bs in
      let start = encode_key_prefix_start key in
      let end = encode_key_prefix_end key in
      let h1 : IsU64 r1 = omega arith in
      let raw1 = encode vv1 in
      let found =
        collected_two s.engine key r1 r2 min_revision raw1 raw2
          (encode_key-inside_all b bs r1 low high) (encode_key-inside_all b bs r2 low high) h1 h2
          old held in
      let after = record s { engine = (collect engine s.engine min_revision).0 } in
      let left =
        collect-delete s.engine (encode_key key r1) min_revision n found done
        ∙ (ap (remove_entry (encode_key key r1)) held
            ∙ remove_older key r1 r2 raw1 raw2 h1 h2 (omega arith)) in
      (
        read_range s key q below
            ∙ rw
                (
                  held,
                  own_range key r1 r2 raw1 raw2 start end (encode_key-in_range key r1 below)
                      (encode_key-in_range key r2 below),
                )
                (first_at_two key r1 r2 q vv1 raw2 h1 h2 (omega arith) above value),
        read_range after key q below
            ∙ rw (left, one_range key r2 raw2 start end (encode_key-in_range key r2 below))
                (first_at_newer key r2 q raw2 h2 above),
      )
