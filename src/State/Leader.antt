-- ===== src/State/Leader.antt =====
-- `LeaderState::new` of crates/raft-consensus/src/state.rs: what a new leader holds of each peer.
use raftrust.Prelude.{
  ℕ, ◌+◌, ◌≡◌, refl, ◌∙◌, true, some, List, [], ◌∷◌, if◌then◌else◌, arith, wrap64,
}
use raftrust.Prelude.Maps.{lookup, lookup-insert, contains, insert}
use raftrust.State.{LeaderState, new_leader, new_leader_from}

new_leader_from-lookup :
    (peers : List ℕ) (last p : ℕ) (ls : LeaderState)
    → let made = new_leader_from peers last ls in
      (lookup p made.next_index
        ≡ (if contains p peers then some (wrap64 (last + 1)) else lookup p ls.next_index))
      × (lookup p made.match_index ≡ (if contains p peers then some 0 else lookup p ls.match_index))
unfolding new_leader_from contains
new_leader_from-lookup [] last p ls = (refl, refl)
new_leader_from-lookup (x ∷ xs) last p ls =
    let next = insert x (wrap64 (last + 1)) ls.next_index in
    let matched = insert x 0 ls.match_index in
    let ih =
      new_leader_from-lookup xs last p (record { next_index = next; match_index = matched }) in
    (
      ground (arith, ih.0, lookup-insert x p (wrap64 (last + 1)) ls.next_index),
      ground (arith, ih.1, lookup-insert x p 0 ls.match_index),
    )

-- Each peer is sent the entries behind the last index first, and is known to have none.
pub new_leader-lookup :
    (peers : List ℕ) (last p : ℕ)
    → contains p peers ≡ true
    → (lookup p (new_leader peers last).next_index ≡ some (wrap64 (last + 1)))
      × (lookup p (new_leader peers last).match_index ≡ some 0)
unfolding new_leader
new_leader-lookup peers last p h =
    let made = new_leader_from-lookup peers last p (record { next_index = []; match_index = [] }) in
    (made.0 ∙ rw h refl, made.1 ∙ rw h refl)
