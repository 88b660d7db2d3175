-- ===== src/Cluster/Histories/Steps.antt =====
-- Every history of the operations of src/cluster/state.rs keeps the topology sound.
use kore.Base.{subst, ℕ, ◌≡◌, refl, Bool, true, not, Option, List, arith, ltb, Bytes, same_refl}
use kore.Base.Table.{lookup, contains_key}
use kore.Cluster.{slot_count, ClusterState, Reply, ok, err, single_node}
use kore.Cluster.Slots.{
  bump_epoch, set_config_epoch, forget_node, reset_cluster_config, add_slots, del_slots,
  add_slot_ranges, del_slot_ranges, flush_slots,
}
use kore.Cluster.Migration.{reassign_slot, set_migrating, set_importing, set_stable}
use kore.Cluster.Prepare.{
  set_prepare_node, abort_prepare_node, clear_all_prepares, check_prepare_valid,
  commit_prepare_node,
}
use kore.Cluster.Gossip.{
  OwnershipRange, RoleMapEntry, add_node_with_role, merge_role_map, apply_ownership_range,
  merge_ownership_snapshot,
}
use kore.Cluster.Failover.{
  set_local_repl_offset, set_local_repl_priority, mark_fail, touch_pong, ingest_fail_reports,
  escalate_fails, note_unreachable, configure_as_replica_of, claim_slots_from, ManualFailoverMode,
  manual_failover, reconfigure_as_replica_of_failover_winner,
}
use kore.Cluster.Histories.{IsSound, owner_known-of_key}
use kore.Cluster.Histories.Kept.{OnOk, OnOk-if, bump_epoch-IsSound}
use kore.Cluster.Histories.Kept.{
  set_config_epoch-IsSound, forget_node-IsSound, reset_cluster_config-IsSound, add_slots-IsSound,
  del_slots-IsSound, add_slot_ranges-IsSound, del_slot_ranges-IsSound, flush_slots-IsSound,
  reassign_slot-IsSound, set_migrating-IsSound, set_importing-IsSound, set_stable-IsSound,
}
use kore.Cluster.Histories.Votes.{
  drop_vote-IsSound, set_prepare_node-IsSound, clear_all_prepares-IsSound,
  check_prepare_valid-IsSound, commit_prepare_node-IsSound,
}
use kore.Cluster.Histories.Spread.{
  add_node_with_role-IsSound, merge_role_map-IsSound, apply_ownership_range-IsSound,
  merge_ownership_snapshot-IsSound,
}
use kore.Cluster.Histories.Takeover.{
  set_local_repl_offset-IsSound, set_local_repl_priority-IsSound, mark_fail-IsSound,
  touch_pong-IsSound, ingest_fail_reports-IsSound, escalate_fails-IsSound, note_unreachable-IsSound,
  configure_as_replica_of-IsSound, claim_slots_from-IsSound, manual_failover-IsSound,
  reconfigure-IsSound,
}

-- One operation that changes the topology. Where an operation can fail, the failure changes nothing but
-- what `check_prepare_valid`, `commit_prepare_node` and `manual_failover` change before it.
pub data Step (g : ClusterState) : ClusterState → Type 0 where
  epoch_bumped : Step g (bump_epoch g)
  epoch_set : (e : ℕ) {g' : ClusterState} → set_config_epoch e g ≡ ok g' → Step g g'
  forgotten : (id : Bytes) {g' : ClusterState} → forget_node id g ≡ ok g' → Step g g'
  reset : Step g (reset_cluster_config g)
  slots_added : (ss : List ℕ) {g' : ClusterState} → add_slots ss g ≡ ok g' → Step g g'
  slots_deleted : (ss : List ℕ) {g' : ClusterState} → del_slots ss g ≡ ok g' → Step g g'
  ranges_added : (rs : List (ℕ × ℕ)) {g' : ClusterState} → add_slot_ranges rs g ≡ ok g' → Step g g'
  ranges_deleted :
      (rs : List (ℕ × ℕ)) {g' : ClusterState} → del_slot_ranges rs g ≡ ok g' → Step g g'
  flushed : Step g (flush_slots g)
  reassigned :
      (slot : ℕ) (id : Bytes) {g' : ClusterState} → reassign_slot slot id g ≡ ok g' → Step g g'
  migrating :
      (slot : ℕ) (id : Bytes) {g' : ClusterState} → set_migrating slot id g ≡ ok g' → Step g g'
  importing :
      (slot : ℕ) (id : Bytes) {g' : ClusterState} → set_importing slot id g ≡ ok g' → Step g g'
  stable : (slot : ℕ) {g' : ClusterState} → set_stable slot g ≡ ok g' → Step g g'
  prepared :
      (now slot : ℕ) (id : Bytes) {g' : ClusterState}
      → set_prepare_node now slot id g ≡ ok g'
      → Step g g'
  aborted : (slot : ℕ) {g' : ClusterState} → abort_prepare_node slot g ≡ ok g' → Step g g'
  votes_cleared : Step g (clear_all_prepares g)
  checked : (now slot : ℕ) (id : Bytes) → Step g (check_prepare_valid now slot id g).0
  committed : (now slot : ℕ) (id : Bytes) → Step g (commit_prepare_node now slot id g).0
  node_added :
      (now : ℕ) (id ip : Bytes) (port : ℕ) (role : Option Bool) (m : Option (Option Bytes))
      → Step g (add_node_with_role now id ip port role m g)
  roles_merged : (now : ℕ) (es : List RoleMapEntry) → Step g (merge_role_map now es g)
  range_applied : (now : ℕ) (r : OwnershipRange) → Step g (apply_ownership_range now r g).0
  snapshot_merged :
      (now : ℕ) (rs : List OwnershipRange) → Step g (merge_ownership_snapshot now rs g).0
  offset_set : (offset : ℕ) → Step g (set_local_repl_offset offset g)
  priority_set : (priority : ℕ) → Step g (set_local_repl_priority priority g)
  marked : (id : Bytes) → Step g (mark_fail id g)
  touched : (now : ℕ) (id : Bytes) → Step g (touch_pong now id g)
  reports_taken : (from : Bytes) (xs : List Bytes) → Step g (ingest_fail_reports from xs g)
  escalated : Step g (escalate_fails g).0
  unreachable : (id : Bytes) → Step g (note_unreachable id g).0
  replica_made : (id : Bytes) {g' : ClusterState} → configure_as_replica_of id g ≡ ok g' → Step g g'
  claimed :
      (id : Bytes) {g' : ClusterState} (n : ℕ) → claim_slots_from id g ≡ ok (g', n) → Step g g'
  failed_over : (mode : ManualFailoverMode) → Step g (manual_failover mode g).0
  reconfigured :
      (w : Bytes) {g' : ClusterState}
      → reconfigure_as_replica_of_failover_winner w g ≡ ok g'
      → Step g g'

pub data Reachable : ClusterState → Type 0 where
  start : (ip : Bytes) (port : ℕ) (id : Bytes) → Reachable (single_node ip port id)
  next : {g g' : ClusterState} → Reachable g → Step g g' → Reachable g'

on_ok {ℓ} : {A : Type ℓ} (P : A → Type 0) (r : Reply A) (a : A) → r ≡ ok a → OnOk P r → P a
on_ok P (ok b) a e h = subst P (cc) h
on_ok P (err x) a e h = cc

abort-IsSound : (slot : ℕ) (g : ClusterState) → IsSound g → OnOk IsSound (abort_prepare_node slot g)
unfolding abort_prepare_node
abort-IsSound slot g v =
    OnOk-if IsSound (not (ltb slot slot_count)) _ _ (λ _. tt) (λ _. drop_vote-IsSound slot g v)

Step-IsSound : {g g' : ClusterState} → Step g g' → IsSound g → IsSound g'
Step-IsSound {g} epoch_bumped v = bump_epoch-IsSound g v
Step-IsSound {g} (epoch_set e h) v = on_ok IsSound _ _ h (set_config_epoch-IsSound e g v)
Step-IsSound {g} (forgotten id h) v = on_ok IsSound _ _ h (forget_node-IsSound id g v)
Step-IsSound {g} reset v = reset_cluster_config-IsSound g v
Step-IsSound {g} (slots_added ss h) v = on_ok IsSound _ _ h (add_slots-IsSound ss g v)
Step-IsSound {g} (slots_deleted ss h) v = on_ok IsSound _ _ h (del_slots-IsSound ss g v)
Step-IsSound {g} (ranges_added rs h) v = on_ok IsSound _ _ h (add_slot_ranges-IsSound rs g v)
Step-IsSound {g} (ranges_deleted rs h) v = on_ok IsSound _ _ h (del_slot_ranges-IsSound rs g v)
Step-IsSound {g} flushed v = flush_slots-IsSound g v
Step-IsSound {g} (reassigned slot id h) v = on_ok IsSound _ _ h (reassign_slot-IsSound slot id g v)
Step-IsSound {g} (migrating slot id h) v = on_ok IsSound _ _ h (set_migrating-IsSound slot id g v)
Step-IsSound {g} (importing slot id h) v = on_ok IsSound _ _ h (set_importing-IsSound slot id g v)
Step-IsSound {g} (stable slot h) v = on_ok IsSound _ _ h (set_stable-IsSound slot g v)
Step-IsSound {g} (prepared now slot id h) v =
    on_ok IsSound _ _ h (set_prepare_node-IsSound now slot id g v)
Step-IsSound {g} (aborted slot h) v = on_ok IsSound _ _ h (abort-IsSound slot g v)
Step-IsSound {g} votes_cleared v = clear_all_prepares-IsSound g v
Step-IsSound {g} (checked now slot id) v = check_prepare_valid-IsSound now slot id g v
Step-IsSound {g} (committed now slot id) v = commit_prepare_node-IsSound now slot id g v
Step-IsSound {g} (node_added now id ip port role m) v =
    add_node_with_role-IsSound now id ip port role m g v
Step-IsSound {g} (roles_merged now es) v = merge_role_map-IsSound now es g v
Step-IsSound {g} (range_applied now r) v = apply_ownership_range-IsSound now r g v
Step-IsSound {g} (snapshot_merged now rs) v = merge_ownership_snapshot-IsSound now rs g v
Step-IsSound {g} (offset_set n) v = set_local_repl_offset-IsSound n g v
Step-IsSound {g} (priority_set n) v = set_local_repl_priority-IsSound n g v
Step-IsSound {g} (marked id) v = mark_fail-IsSound id g v
Step-IsSound {g} (touched now id) v = touch_pong-IsSound now id g v
Step-IsSound {g} (reports_taken from xs) v = ingest_fail_reports-IsSound from xs g v
Step-IsSound {g} escalated v = escalate_fails-IsSound g v
Step-IsSound {g} (unreachable id) v = note_unreachable-IsSound id g v
Step-IsSound {g} (replica_made id h) v =
    on_ok IsSound _ _ h (configure_as_replica_of-IsSound id g v)
Step-IsSound {g} (claimed id n h) v =
    on_ok (λ r. IsSound r.0) _ _ h (claim_slots_from-IsSound id g v)
Step-IsSound {g} (failed_over mode) v = manual_failover-IsSound mode g v
Step-IsSound {g} (reconfigured w h) v = on_ok IsSound _ _ h (reconfigure-IsSound w g v)

single_node-IsSound : (ip : Bytes) (port : ℕ) (id : Bytes) → IsSound (single_node ip port id)
unfolding single_node contains_key lookup
single_node-IsSound ip port id =
    let here : contains_key id (single_node ip port id).nodes ≡ true =
      ground (arith, same_refl id) in
    record {
      me = here;
      epochs = λ s. omega arith;
      owners = λ s h. owner_known-of_key (single_node ip port id).nodes id here;
      migrating_known = λ s. refl;
      importing_known = λ s. refl;
      votes_known = λ s. refl;
      mine = λ s. refl;
      exclusive = λ s. refl;
    }

-- After any operations on a node that starts alone, the topology is sound: the node is in its own table,
-- and so is the owner of every slot that has one, the other end of every migration and import, and the
-- target of every vote; no slot has an epoch above the current one; a slot that migrates is ours, and
-- is not imported as well.
pub Reachable-Fits : (g : ClusterState) → Reachable g → IsSound g
Reachable-Fits g (start ip port id) = single_node-IsSound ip port id
Reachable-Fits g (next {g = h} r st) = Step-IsSound st (Reachable-Fits h r)
