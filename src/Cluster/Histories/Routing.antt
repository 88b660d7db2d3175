-- ===== src/Cluster/Histories/Routing.antt =====
-- Where a request for a slot is sent: the redirections of src/cluster/state.rs after any operations.
use kore.Base.{ℕ, ◌<◌, ◌≡◌, refl, true, false, some, [], ◌∷◌, arith, ltb, Bytes, same}
use kore.Base.Table.{Table, contains_key, contains_key-some}
use kore.Cluster.{slot_count, ClusterNode, ClusterState, is_empty}
use kore.Cluster.Migration.{owns_slot, owner_of, redirect, moved_target, ask_target}
use kore.Cluster.Histories.{owner_known, IsSound}
use kore.Cluster.Histories.Steps.{Reachable, Reachable-Fits}

owner_known-key :
    (m : Table ClusterNode) (id : Bytes)
    → is_empty id ≡ false
    → owner_known m id ≡ true
    → contains_key id m ≡ true
unfolding is_empty
owner_known-key m [] e h = cc
owner_known-key m (c ∷ cs) e h = h

module _ (s : ℕ) (g : ClusterState) (v : IsSound g) (l : s < slot_count) where
  in_range : ltb s slot_count ≡ true
  in_range = ground (arith, l)

  owner_of-some : is_empty (g.slot_owner s) ≡ false → (n : ClusterNode) × (owner_of s g ≡ some n)
  unfolding owner_of
  owner_of-some e =
      let (n, o) =
        contains_key-some (g.slot_owner s) g.nodes
          (owner_known-key g.nodes (g.slot_owner s) e (v.owners s l)) in
      (n, rw (in_range, e) o)

  moved-some : (n : ClusterNode) → owner_of s g ≡ some n → moved_target s g ≡ some (redirect s n)
  unfolding moved_target
  moved-some n e = rw (e, moved_target) refl

  migrating-mine : (d : Bytes) → g.migrating s ≡ some d → owns_slot s g ≡ true
  unfolding owns_slot
  migrating-mine d e =
      let mine : same (g.slot_owner s) g.my_id ≡ true = rw e at (v.mine s) in
      rw (in_range, mine) refl

  ask-some :
      (d : Bytes)
      → g.migrating s ≡ some d
      → (n : ClusterNode) × (ask_target s g ≡ some (redirect s n))
  unfolding ask_target
  ask-some d e =
      let known : contains_key d g.nodes ≡ true = rw e at (v.migrating_known s) in
      let (n, o) = contains_key-some d g.nodes known in (n, rw (e, ask_target, o) refl)

-- After any operations on a node that starts alone, every slot that has an owner has an address to send
-- a client to; and a slot that migrates is this node's own, and the node that it goes to has an address
-- to ask at.
pub routed :
    (g : ClusterState) (s : ℕ)
    → Reachable g
    → s < slot_count
    → (is_empty (g.slot_owner s) ≡ false
        → (n : ClusterNode) × (moved_target s g ≡ some (redirect s n)))
      × ((d : Bytes)
          → g.migrating s ≡ some d
          → (owns_slot s g ≡ true) × ((n : ClusterNode) × (ask_target s g ≡ some (redirect s n))))
routed g s r l =
    let v = Reachable-Fits g r in
    (
      λ e. let (n, o) = owner_of-some s g v l e in (n, moved-some s g v l n o),
      λ d e. (migrating-mine s g v l d e, ask-some s g v l d e),
    )
