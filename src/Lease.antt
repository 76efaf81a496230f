-- ===== src/Lease.antt =====
-- crates/raft-server/src/lease.rs: leases with a time to live, and their manager. Each operation holds
-- the lock of the map but `grant`, whose check and insertion lock it one after the other; it is
-- modelled without another call between them. The clock is in milliseconds.
pub mod Upkeep
pub mod Expiry
use raftrust.Prelude.{
  ℕ, ◌+◌, ◌-◌, ◌/◌, ◌^◌, Bool, true, false, not, ◌||◌, ◌&&◌, Option, none, some, List, [], ◌∷◌, ◌⊎◌,
  inl, inr, length, leb, ltb, ◌==◌, is_some, wrap64, if◌then◌else◌,
}
use raftrust.Prelude.Keys.{Key, key_eq}
use raftrust.Prelude.Maps.{IdMap, lookup, insert, remove}

-- An `i64` is its pattern of 64 bits: the numbers from 2^63 on are the negative ones. Adding 2^63
-- orders the patterns as the integers are.
abbrev pub I64 : Type 0
I64 = ℕ

abbrev pub order_of : I64 → ℕ
order_of i = wrap64 (i + 2 ^ 63)

abbrev pub is_negative : I64 → Bool
is_negative i = leb (2 ^ 63) i

abbrev pub max_i64 : I64 → I64 → I64
max_i64 a b = if leb (order_of a) (order_of b) then b else a

-- A set of keys, each once.
unfoldable pub has_key : Key → List Key → Bool
unfolding key_eq
has_key k [] = false
has_key k (x ∷ xs) = key_eq k x || has_key k xs

insert_key : Key → List Key → List Key
insert_key k xs = if has_key k xs then xs else k ∷ xs

remove_key : Key → List Key → List Key
unfolding key_eq
remove_key k [] = []
remove_key k (x ∷ xs) = let rest = remove_key k xs in if key_eq k x then rest else x ∷ rest

pub record Lease : Type 0 where
  pub id : I64
  pub granted_ttl : I64
  pub last_renewed : ℕ
  pub keys : List Key

-- `(granted_ttl - elapsed).max(0)`, the time elapsed in whole seconds, which are taken to be fewer
-- than 2^63 and so kept by the cast to `i64`.
unfoldable pub remaining_ttl : Lease → ℕ → I64
remaining_ttl l now =
    if is_negative l.granted_ttl then 0 else l.granted_ttl - (now - l.last_renewed) / 1000

unfoldable pub is_expired : Lease → ℕ → Bool
is_expired l now = remaining_ttl l now == 0

unfoldable pub renew : Lease → ℕ → Lease
renew l now = record l { last_renewed = now }

pub record LeaseManager : Type 0 where
  pub leases : IdMap Lease
  pub next_id : I64

unfoldable pub new_manager : LeaseManager
new_manager = record { leases = []; next_id = 1 }

pub record LeaseInfo : Type 0 where
  pub id : I64
  pub ttl : I64
  pub granted_ttl : I64
  pub keys : List Key

pub data LeaseError : Type 0 where
  not_found already_exists expired : I64 → LeaseError
  invalid_ttl : LeaseError

insert_lease : LeaseManager → I64 → I64 → ℕ → I64 → LeaseManager × (LeaseError ⊎ (I64 × I64))
insert_lease m lease_id ttl now next_id = (
  record {
    leases =
        insert lease_id (record { id = lease_id; granted_ttl = ttl; last_renewed = now; keys = [] })
          m.leases;
    next_id = next_id;
  },
  inr (lease_id, ttl),
)

unfoldable pub grant : LeaseManager → I64 → I64 → ℕ → LeaseManager × (LeaseError ⊎ (I64 × I64))
unfolding insert_lease
grant m id ttl now =
    if (ttl == 0) || is_negative ttl
    then (m, inl invalid_ttl)
    else if id == 0
    then insert_lease m m.next_id ttl now (wrap64 (m.next_id + 1))
    else if is_some (lookup id m.leases)
    then (m, inl (already_exists id))
    else insert_lease m id ttl now (max_i64 m.next_id (wrap64 (id + 1)))

unfoldable pub keepalive : LeaseManager → I64 → ℕ → LeaseManager × (LeaseError ⊎ I64)
keepalive m id now = elim (lookup id m.leases) [
  | none ↦ (m, inl (not_found id))
  | some l ↦
      if is_expired l now
      then (m, inl (expired id))
      else (record m { leases = insert id (renew l now) m.leases }, inr l.granted_ttl)
]

unfoldable pub revoke : LeaseManager → I64 → LeaseManager × (LeaseError ⊎ List Key)
revoke m id = elim (lookup id m.leases) [
  | none ↦ (m, inl (not_found id))
  | some l ↦ (record m { leases = remove id m.leases }, inr l.keys)
]

unfoldable pub get_lease : LeaseManager → I64 → ℕ → LeaseError ⊎ LeaseInfo
get_lease m id now = elim (lookup id m.leases) [
  | none ↦ inl (not_found id)
  | some l ↦
      inr (record {
        id = l.id;
        ttl = remaining_ttl l now;
        granted_ttl = l.granted_ttl;
        keys = l.keys;
      })
]

unfoldable pub attach_key : LeaseManager → I64 → Key → LeaseManager × (LeaseError ⊎ Unit {0})
unfolding insert_key
attach_key m id key = elim (lookup id m.leases) [
  | none ↦ (m, inl (not_found id))
  | some l ↦
      (record m { leases = insert id (record l { keys = insert_key key l.keys }) m.leases }, inr tt)
]

unfoldable pub detach_key : LeaseManager → I64 → Key → LeaseManager
unfolding remove_key
detach_key m id key = elim (lookup id m.leases) [
  | none ↦ m
  | some l ↦ record m { leases = insert id (record l { keys = remove_key key l.keys }) m.leases }
]

-- The leases that stay, and the identifiers and keys of those that have expired.
unfoldable pub sort_out : ℕ → IdMap Lease → IdMap Lease × List (I64 × List Key)
sort_out now [] = ([], [])
sort_out now ((id, l) ∷ m) =
    let rest = sort_out now m in
    if is_expired l now then (rest.0, (id, l.keys) ∷ rest.1) else ((id, l) ∷ rest.0, rest.1)

unfoldable pub collect_expired : LeaseManager → ℕ → LeaseManager × List (I64 × List Key)
collect_expired m now = (record m { leases = (sort_out now m.leases).0 }, (sort_out now m.leases).1)

unfoldable pub lease_count : LeaseManager → ℕ
lease_count m = length m.leases

unfoldable pub is_alive : LeaseManager → I64 → ℕ → Bool
is_alive m id now = elim (lookup id m.leases) [ none ↦ false | some l ↦ not (is_expired l now) ]
