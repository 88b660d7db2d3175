-- ===== src/Cluster/Histories/Votes.antt =====
-- The votes of src/cluster/state.rs keep the topology sound.
use kore.Base.{
  ℕ, ◌≡◌, refl, true, false, not, arith, ltb, ◌==◌, if◌then◌else◌, Bytes, Bool-cases, Option-cases,
  ◌⊎◌, inl, inr,
}
use kore.Base.Table.{contains_key}
use kore.Cluster.{
  slot_count, ClusterNode, PrepareVote, ClusterState, ClusterError, Reply, ok, err, ◌>>=◌, is_empty,
  no_slot, next_epoch, single_node, put_slot, set_node_flags,
}
use kore.Cluster.Slots.{bump_epoch}
use kore.Cluster.Prepare.{
  prepare_vote_expired, prepare_topology_ready, set_prepare_node, drop_vote, clear_all_prepares,
  purge_expired_prepare, check_vote, check_prepare_valid, commit_prepare_node,
}
use kore.Cluster.Histories.{IsSound, owner_known-of_key, put_slot-IsSound}
use kore.Cluster.Histories.Kept.{OnOk, OnOk-if, unnot, bump_epoch-IsSound}

pub drop_vote-IsSound : (slot : ℕ) (g : ClusterState) → IsSound g → IsSound (drop_vote slot g)
unfolding drop_vote kore.Cluster.update
drop_vote-IsSound slot g v = record {
  me = v.me;
  epochs = v.epochs;
  owners = v.owners;
  migrating_known = v.migrating_known;
  importing_known = v.importing_known;
  votes_known =
      λ s. elim (Bool-cases (s == slot)) [ inl p ↦ rw p refl | inr p ↦ rw p (v.votes_known s) ];
  mine = v.mine;
  exclusive = v.exclusive;
}

pub set_prepare_node-IsSound :
    (now slot : ℕ) (id : Bytes) (g : ClusterState)
    → IsSound g
    → OnOk IsSound (set_prepare_node now slot id g)
unfolding set_prepare_node kore.Cluster.update
set_prepare_node-IsSound now slot id g v =
    OnOk-if IsSound (not (ltb slot slot_count)) _ _ (λ _. tt)
      (λ _.
        OnOk-if IsSound (not (contains_key id g.nodes)) _ _ (λ _. tt)
          (λ k. elim (Option-cases (prepare_topology_ready g slot id)) [
            | inr (x, e) ↦ rw (e, OnOk) tt
            | inl e ↦
                rw (e, OnOk)
                  (record {
                    me = v.me;
                    epochs = v.epochs;
                    owners = v.owners;
                    migrating_known = v.migrating_known;
                    importing_known = v.importing_known;
                    votes_known = λ s. elim (Bool-cases (s == slot)) [
                      | inl p ↦ rw p (unnot _ k)
                      | inr p ↦ rw p (v.votes_known s)
                    ];
                    mine = v.mine;
                    exclusive = v.exclusive;
                  })
          ]))

pub clear_all_prepares-IsSound : (g : ClusterState) → IsSound g → IsSound (clear_all_prepares g)
unfolding clear_all_prepares
clear_all_prepares-IsSound g v = record {
  me = v.me;
  epochs = v.epochs;
  owners = v.owners;
  migrating_known = v.migrating_known;
  importing_known = v.importing_known;
  votes_known = λ s. refl;
  mine = v.mine;
  exclusive = v.exclusive;
}

pub purge-IsSound :
    (now slot : ℕ) (g : ClusterState) → IsSound g → IsSound (purge_expired_prepare now slot g)
unfolding purge_expired_prepare
purge-IsSound now slot g v = elim (Option-cases (g.prepare_node slot)) [
  | inl e ↦ rw (e, purge_expired_prepare) v
  | inr (w, e) ↦ rw (e, purge_expired_prepare) (kept w (Bool-cases (prepare_vote_expired now w)))
]
  where
    kept :
        (w : PrepareVote)
        → (prepare_vote_expired now w ≡ true) ⊎ (prepare_vote_expired now w ≡ false)
        → IsSound (if prepare_vote_expired now w then drop_vote slot g else g)
    kept w (inl p) = rw p (drop_vote-IsSound slot g v)
    kept w (inr p) = rw p v

pub check_prepare_valid-IsSound :
    (now slot : ℕ) (id : Bytes) (g : ClusterState)
    → IsSound g
    → IsSound (check_prepare_valid now slot id g).0
unfolding check_prepare_valid
check_prepare_valid-IsSound now slot id g v = elim (Bool-cases (not (ltb slot slot_count))) [
  | inl p ↦ rw p v
  | inr p ↦ rw p (purge-IsSound now slot g v)
]

pub commit_prepare_node-IsSound :
    (now slot : ℕ) (id : Bytes) (g : ClusterState)
    → IsSound g
    → IsSound (commit_prepare_node now slot id g).0
unfolding commit_prepare_node bump_epoch
commit_prepare_node-IsSound now slot id g v = elim (Bool-cases (not (ltb slot slot_count))) [
  | inl p ↦ rw p v
  | inr p ↦ rw p (
      let g' = purge_expired_prepare now slot g in
      let v' : IsSound g' = purge-IsSound now slot g v in
      elim (Option-cases (check_vote now slot id g')) [
        | inr (x, e) ↦ rw e v'
        | inl e ↦ rw e (elim (Bool-cases (not (contains_key id g'.nodes))) [
          | inl q ↦ rw q v'
          | inr q ↦ rw q (
              put_slot-IsSound id (next_epoch g'.current_epoch) slot (bump_epoch g')
                (owner_known-of_key g'.nodes id (unnot _ q)) (omega arith)
                (bump_epoch-IsSound g' v'))
        ])
      ])
]
