-- ===== src/Lease/Expiry.antt =====
-- Renewal, expiry and revocation in crates/raft-server/src/lease.rs.
use raftrust.Prelude.Keys.{Key, key_eq}
use raftrust.Prelude.{◌∙◌}
use raftrust.Prelude.{
  ℕ, ◌+◌, ◌*◌, ◌<◌, ◌≡◌, ◌≢◌, ◌↔◌, refl, ap, true, ◌||◌, none, some, inl, inr, List, [], ◌∷◌,
  if◌then◌else◌, arith, Bool-cases, Option,
}
use raftrust.Prelude.Keys.{key_eq_same}
use raftrust.Prelude.Maps.{IdMap, lookup, insert, lookup-insert, lookup-remove}
use raftrust.Lease.{
  I64, Lease, LeaseManager, keepalive, revoke, attach_key, collect_expired, sort_out, is_alive,
  is_expired, remaining_ttl, renew, has_key, insert_key,
}
use raftrust.Lease.Upkeep.{Before}

-- A lease is renewed exactly while it is alive. From then on it is alive for its granted time again,
-- and the other leases stay.
pub keepalive_renews :
    (m : LeaseManager) (id : I64) (now later : ℕ) (l : Lease)
    → lookup id m.leases ≡ some l
    → let m' = (keepalive m id now).0 in
      (((keepalive m id now).1 ≡ inr l.granted_ttl) ↔ (is_alive m id now ≡ true))
      × (is_alive m id now ≡ true
          → (is_alive m' id (now + later) ≡ true) ↔ (later < l.granted_ttl * 1000))
      × ((j : I64) → j ≢ id → lookup j m'.leases ≡ lookup j m.leases)
unfolding keepalive is_alive is_expired remaining_ttl renew
keepalive_renews m id now later l found = (
  (λ h. ground arith, λ h. ground arith),
  λ alive. (
    λ h. ground (arith, lookup-insert id id (renew l now) m.leases),
    λ h. ground (arith, lookup-insert id id (renew l now) m.leases),
  ),
  λ j ne. ground (arith, lookup-insert id j (renew l now) m.leases),
)

-- The keys of a lease, if it is there and has expired.
abbrev pub expired_keys : Option Lease → ℕ → Option (List Key)
expired_keys none now = none
expired_keys (some l) now = if is_expired l now then some l.keys else none

abbrev pub alive_lease : Option Lease → ℕ → Option Lease
alive_lease none now = none
alive_lease (some l) now = if is_expired l now then none else some l

lookup-sort_out :
    (next id : I64) (now : ℕ) (m : IdMap Lease)
    → Before next m
    → (lookup id (sort_out now m).0 ≡ alive_lease (lookup id m) now)
      × (lookup id (sort_out now m).1 ≡ expired_keys (lookup id m) now)
unfolding sort_out lookup
lookup-sort_out next id now [] b = (refl, refl)
lookup-sort_out next id now ((j, l) ∷ m) b =
    let rest = lookup-sort_out next id now m b.2 in (ground (arith, rest.0), ground (arith, rest.1))

-- Collecting takes exactly the leases that have expired, and reports each with its keys. The
-- identifiers differ and come before the next one.
pub collect_expired_exact :
    (m : LeaseManager) (id : I64) (now : ℕ)
    → Before m.next_id m.leases
    → let r = collect_expired m now in
      (lookup id r.0.leases ≡ alive_lease (lookup id m.leases) now)
      × (lookup id r.1 ≡ expired_keys (lookup id m.leases) now)
      × (is_alive r.0 id now ≡ is_alive m id now)
unfolding collect_expired is_alive
collect_expired_exact m id now b =
    let r = lookup-sort_out m.next_id id now m.leases b in (r.0, r.1, ground (arith, r.0))

has_key-insert_key :
    (j k : Key) (xs : List Key) → has_key j (insert_key k xs) ≡ (key_eq j k || has_key j xs)
unfolding insert_key has_key
has_key-insert_key j k xs = elim (Bool-cases (has_key k xs)) [
  | inl there ↦ elim (Bool-cases (key_eq j k)) [
    | inl same ↦ rw (there, same) (ap (λ (x : Key). has_key x xs) (key_eq_same j k same) ∙ there)
    | inr other ↦ rw (there, other) refl
  ]
  | inr absent ↦ rw absent refl
]

-- Revoking a lease gives its keys and ends it: a key attached to it before is among them, with those
-- it had.
pub revoke-attach_key :
    (m : LeaseManager) (id : I64) (key : Key) (l : Lease)
    → lookup id m.leases ≡ some l
    → let r = revoke (attach_key m id key).0 id in
      ((keys : List Key) × (r.1 ≡ inr keys)
        × ((j : Key) → has_key j keys ≡ (key_eq j key || has_key j l.keys)))
      × (lookup id r.0.leases ≡ none)
unfolding revoke attach_key
revoke-attach_key m id key l found = (
  (insert_key key l.keys, ground (arith, attached), λ j. has_key-insert_key j key l.keys),
  ground (
    arith,
    attached,
    lookup-remove id id (insert id (record l { keys = insert_key key l.keys }) m.leases),
  ),
)
  where
    attached :
        lookup id (insert id (record l { keys = insert_key key l.keys }) m.leases)
        ≡ some (record l { keys = insert_key key l.keys })
    attached =
        ground (arith, lookup-insert id id (record l { keys = insert_key key l.keys }) m.leases)
