-- ===== src/Examples/Leases.antt =====
-- The lease manager at concrete inputs.
use raftrust.Prelude.{◌+◌, ◌*◌, ◌<◌, ◌≡◌, ◌≢◌, ◌↔◌, refl, true, none, [], ◌∷◌, arith}
use raftrust.Prelude.Maps.{lookup}
use raftrust.Lease.{I64, Lease, LeaseManager, grant, collect_expired, is_alive}
use raftrust.Lease.Upkeep.{Before, grant_fresh}
use raftrust.Lease.Expiry.{expired_keys, alive_lease, collect_expired_exact}

-- Two leases at time 0, of 10 and of 60 seconds.
abbrev short : Lease
short = record { id = 1; granted_ttl = 10; last_renewed = 0; keys = (1 ∷ []) ∷ [] }

abbrev long : Lease
long = record { id = 4; granted_ttl = 60; last_renewed = 0; keys = [] }

abbrev manager : LeaseManager
manager = record { leases = (1, short) ∷ (4, long) ∷ []; next_id = 5 }

manager-Before : Before 5 manager.leases
unfolding lookup
manager-Before = (omega arith, refl, (omega arith, refl, tt))

abbrev auto : I64
auto = 0

grant_fresh_example :
    let m' = (grant manager auto 30 1000).0 in
    (lookup 5 manager.leases ≡ none)
    × (auto ≢ 0 → 5 ≡ auto)
    × ((is_alive m' 5 (1000 + 200) ≡ true) ↔ (200 < 30 * 1000))
    × ((j : I64) → j ≢ 5 → lookup j m'.leases ≡ lookup j manager.leases)
    × Before m'.next_id m'.leases
unfolding grant
grant_fresh_example =
    grant_fresh manager auto 30 1000 200 5 30 manager-Before (omega arith) (omega arith) refl

collect_expired_exact_example :
    let r = collect_expired manager 12000 in
    (lookup 1 r.0.leases ≡ alive_lease (lookup 1 manager.leases) 12000)
    × (lookup 1 r.1 ≡ expired_keys (lookup 1 manager.leases) 12000)
    × (is_alive r.0 1 12000 ≡ is_alive manager 1 12000)
collect_expired_exact_example = collect_expired_exact manager 1 12000 manager-Before
