-- ===== src/Lease/Upkeep.antt =====
-- What the operations of crates/raft-server/src/lease.rs do to the leases.
use raftrust.Prelude.{◌*◌}
use raftrust.Prelude.{
  ℕ, ◌+◌, ◌^◌, ◌<◌, ◌≤◌, ◌≡◌, ◌≢◌, ◌↔◌, refl, true, false, none, inl, inr, [], ◌∷◌, ◌==◌, wrap64,
  arith, Bool-cases,
}
use raftrust.Prelude.Maps.{IdMap, lookup, insert, lookup-insert}
use raftrust.Lease.{
  I64, order_of, Lease, LeaseManager, grant, insert_lease, is_alive, is_expired, remaining_ttl,
  is_negative, max_i64,
}

-- Each identifier stands once, and all come before the next one.
abbrev pub Before : I64 → IdMap Lease → Type 0
Before next [] = Unit
Before next ((id, l) ∷ m) = (order_of id < order_of next) × (lookup id m ≡ none) × Before next m

-- The identifier is not the last of its type, so that 1 can be added.
abbrev pub HasNext : I64 → Type 0
HasNext i = order_of i + 1 < 2 ^ 64

order_of-next : (i : I64) → HasNext i → order_of (wrap64 (i + 1)) ≡ order_of i + 1
order_of-next i h = omega arith

lookup-Before : (next : I64) (m : IdMap Lease) → Before next m → lookup next m ≡ none
unfolding lookup
lookup-Before next [] b = refl
lookup-Before next ((id, l) ∷ m) b = ground (arith, lookup-Before next m b.2)

Before-later :
    (next later : I64) (m : IdMap Lease)
    → order_of next ≤ order_of later
    → Before next m
    → Before later m
Before-later next later [] h b = b
Before-later next later ((id, l) ∷ m) h b = (omega arith, b.1, Before-later next later m h b.2)

Before-insert :
    (next id : I64) (l : Lease) (m : IdMap Lease)
    → order_of id < order_of next
    → Before next m
    → Before next (insert id l m)
unfolding insert lookup
Before-insert next id l [] h b = (h, refl, b)
Before-insert next id l ((j, k) ∷ m) h b =
    ground (arith, Before-insert next id l m h b.2, lookup-insert id j l m)

-- A new lease is alive for its time, the others stay, and all come before the next identifier.
insert_lease_fresh :
    (m : LeaseManager) (id ttl : I64) (now later : ℕ) (next : I64)
    → Before m.next_id m.leases
    → (ttl == 0) ≡ false
    → is_negative ttl ≡ false
    → order_of id < order_of next
    → order_of m.next_id ≤ order_of next
    → let m' = (insert_lease m id ttl now next).0 in
      ((is_alive m' id (now + later) ≡ true) ↔ (later < ttl * 1000))
      × ((j : I64) → j ≢ id → lookup j m'.leases ≡ lookup j m.leases)
      × Before m'.next_id m'.leases
unfolding insert_lease is_alive is_expired remaining_ttl
insert_lease_fresh m id ttl now later next b z n lt le = (
  (
    λ h. ground (arith, lookup-insert id id l m.leases),
    λ h. ground (arith, lookup-insert id id l m.leases),
  ),
  λ j ne. ground (arith, lookup-insert id j l m.leases),
  Before-insert next id l m.leases lt (Before-later m.next_id next m.leases le b),
)
  where
    l : Lease
    l = record { id = id; granted_ttl = ttl; last_renewed = now; keys = [] }

-- What a grant comes down to.
abbrev Granted : LeaseManager → I64 → I64 → ℕ → I64 → I64 → Type 0
Granted m id ttl now lease_id next =
    (grant m id ttl now ≡ insert_lease m lease_id ttl now next)
    × (lookup lease_id m.leases ≡ none)
    × (order_of lease_id < order_of next)
    × (order_of m.next_id ≤ order_of next)
    × (id ≢ 0 → lease_id ≡ id)

grant-Granted :
    (m : LeaseManager) (id ttl : I64) (now : ℕ) (lease_id granted : I64)
    → Before m.next_id m.leases
    → HasNext m.next_id
    → HasNext id
    → (grant m id ttl now).1 ≡ inr (lease_id, granted)
    → (next : I64) × Granted m id ttl now lease_id next
unfolding grant insert_lease
grant-Granted m id ttl now lease_id granted b h i ok = elim (Bool-cases (id == 0)) [
  | inl auto ↦
      let same : lease_id ≡ m.next_id = ground arith in
      (
        wrap64 (m.next_id + 1),
        (
          ground (arith, same),
          rw same (lookup-Before m.next_id m.leases b),
          omega (arith, same, order_of-next m.next_id h),
          omega (arith, order_of-next m.next_id h),
          λ ne. absurd (ground arith),
        ),
      )
  | inr own ↦
      let same : lease_id ≡ id = ground arith in
      (
        max_i64 m.next_id (wrap64 (id + 1)),
        (
          ground (arith, same),
          ground (arith, same),
          ground (arith, same, order_of-next id i),
          ground arith,
          λ ne. same,
        ),
      )
]

grant_ttl :
    (m : LeaseManager) (id ttl : I64) (now : ℕ) (lease_id granted : I64)
    → (grant m id ttl now).1 ≡ inr (lease_id, granted)
    → ((ttl == 0) ≡ false) × (is_negative ttl ≡ false)
unfolding grant insert_lease
grant_ttl m id ttl now lease_id granted ok = (ground arith, ground arith)

-- Granting gives an identifier that no lease has, its own if it was asked for, and a lease that is
-- alive for exactly the time asked for; the other leases stay. The next identifier still comes after
-- all, as those of the leases did before. The identifier asked for and the next one are not the last
-- of `i64`.
pub grant_fresh :
    (m : LeaseManager) (id ttl : I64) (now later : ℕ) (lease_id granted : I64)
    → Before m.next_id m.leases
    → HasNext m.next_id
    → HasNext id
    → (grant m id ttl now).1 ≡ inr (lease_id, granted)
    → let m' = (grant m id ttl now).0 in
      (lookup lease_id m.leases ≡ none)
      × (id ≢ 0 → lease_id ≡ id)
      × ((is_alive m' lease_id (now + later) ≡ true) ↔ (later < ttl * 1000))
      × ((j : I64) → j ≢ lease_id → lookup j m'.leases ≡ lookup j m.leases)
      × Before m'.next_id m'.leases
grant_fresh m id ttl now later lease_id granted b h i ok =
    let g = grant-Granted m id ttl now lease_id granted b h i ok in
    let bad = grant_ttl m id ttl now lease_id granted ok in
    let r = insert_lease_fresh m lease_id ttl now later g.0 b bad.0 bad.1 g.1.2 g.1.3 in
    (g.1.1, g.1.4, rw (g.1.0) r.0, rw (g.1.0) r.1, rw (g.1.0) r.2)
