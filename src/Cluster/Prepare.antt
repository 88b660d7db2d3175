-- ===== src/Cluster/Prepare.antt =====
-- The two-phase hand-over of a slot: SETSLOT PREPARE, ABORTPREPARE, CHECKPREPARE and COMMITPREPARE of
-- src/cluster/state.rs. The test hooks and the autosave are left out, and the clock is an argument.
pub mod Commit
use kore.Base.{
  ℕ, zero, suc, ◌+◌, ◌-◌, Bool, true, false, not, ◌&&◌, ◌||◌, Option, none, some, List, [], ◌∷◌,
  ltb, leb, ◌==◌, if◌then◌else◌, Bytes, same,
}
use kore.Base.Table.{lookup, contains_key}
use kore.Cluster.{
  slot_count, PrepareVote, ClusterState, ClusterError, slot_out_of_range, unknown_node, no_vote,
  other_target, vote_expired, epoch_stale, not_ready, not_owner, other_destination, Reply, ok, err,
  is_empty, no_slot, update, next_epoch, put_slot,
}
use kore.Cluster.Slots.{bump_epoch}

abbrev pub prepare_vote_ttl : ℕ
prepare_vote_ttl = 60000

-- `saturating_sub` stops at 0, as the subtraction of natural numbers does.
unfoldable pub prepare_vote_expired : ℕ → PrepareVote → Bool
prepare_vote_expired now v = ltb prepare_vote_ttl (now - v.prepared_at_unix_ms)

unfoldable pub is_some {ℓ} : {A : Type ℓ} → Option A → Bool
is_some none = false
is_some (some a) = true

-- `prepare_topology_ready`, and the same tests of `set_prepare_node`.
unfoldable pub prepare_topology_ready : ClusterState → ℕ → Bytes → Option ClusterError
unfolding is_empty is_some
prepare_topology_ready g slot id =
    let owner = if ltb slot slot_count then g.slot_owner slot else [] in
    let owns = same owner g.my_id in
    let already_target = not (is_empty owner) && same owner id in
    if same id g.my_id
    then (if owns || already_target || is_some (g.importing slot)
        then none
        else if is_empty owner || contains_key owner g.nodes
        then none
        else some not_ready)
    else if not owns && not already_target
    then some not_owner
    else elim (g.migrating slot) [
      | none ↦ none
      | some m ↦ if same m id then none else some other_destination
    ]

unfoldable pub set_prepare_node : ℕ → ℕ → Bytes → ClusterState → Reply ClusterState
unfolding update
set_prepare_node now slot id g =
    if not (ltb slot slot_count)
    then err slot_out_of_range
    else if not (contains_key id g.nodes)
    then err unknown_node
    else elim (prepare_topology_ready g slot id) [
      | some e ↦ err e
      | none ↦ ok (record g {
        prepare_node =
            update slot
              (some (record {
                target_id = id;
                slot_epoch = g.slot_config_epoch slot;
                prepared_at_unix_ms = now;
              }))
              g.prepare_node;
      })
    ]

unfoldable pub drop_vote : ℕ → ClusterState → ClusterState
unfolding update
drop_vote slot g = record g { prepare_node = update slot none g.prepare_node }

unfoldable pub abort_prepare_node : ℕ → ClusterState → Reply ClusterState
unfolding drop_vote
abort_prepare_node slot g =
    if not (ltb slot slot_count) then err slot_out_of_range else ok (drop_vote slot g)

unfoldable pub clear_all_prepares : ClusterState → ClusterState
clear_all_prepares g = record g { prepare_node = no_slot }

unfoldable pub purge_expired_prepare : ℕ → ℕ → ClusterState → ClusterState
unfolding drop_vote prepare_vote_expired
purge_expired_prepare now slot g = elim (g.prepare_node slot) [
  | none ↦ g
  | some v ↦ if prepare_vote_expired now v then drop_vote slot g else g
]

-- The vote authorizes the node, after the purge.
unfoldable pub check_vote : ℕ → ℕ → Bytes → ClusterState → Option ClusterError
unfolding prepare_vote_expired
check_vote now slot id g = elim (g.prepare_node slot) [
  | none ↦ some no_vote
  | some v ↦
      if not (same v.target_id id)
      then some other_target
      else if prepare_vote_expired now v
      then some vote_expired
      else if not (v.slot_epoch == (if ltb slot slot_count then g.slot_config_epoch slot else 0))
      then some epoch_stale
      else prepare_topology_ready g slot id
]

abbrev pub reply_of : Option ClusterError → Reply (Unit {0})
reply_of none = ok tt
reply_of (some e) = err e

-- A failure may have dropped an expired vote.
unfoldable pub check_prepare_valid : ℕ → ℕ → Bytes → ClusterState → ClusterState × Reply (Unit {0})
unfolding purge_expired_prepare check_vote
check_prepare_valid now slot id g =
    if not (ltb slot slot_count)
    then (g, err slot_out_of_range)
    else (let g' = purge_expired_prepare now slot g in (g', reply_of (check_vote now slot id g')))

unfoldable pub commit_prepare_node : ℕ → ℕ → Bytes → ClusterState → ClusterState × Reply (Unit {0})
unfolding purge_expired_prepare check_vote bump_epoch put_slot
commit_prepare_node now slot id g =
    if not (ltb slot slot_count)
    then (g, err slot_out_of_range)
    else (let g' = purge_expired_prepare now slot g in
        elim (check_vote now slot id g') [
          | some e ↦ (g', err e)
          | none ↦
              if not (contains_key id g'.nodes)
              then (g', err unknown_node)
              else (let g'' = bump_epoch g' in (put_slot id g''.current_epoch slot g'', ok tt))
        ])

unfoldable pub prepared_node : ℕ → ℕ → ClusterState → ClusterState × Option Bytes
unfolding purge_expired_prepare
prepared_node now slot g =
    let g' = purge_expired_prepare now slot g in
    (g', elim (g'.prepare_node slot) [ none ↦ none | some v ↦ some v.target_id ])
