-- ===== src/Cluster/Slots.antt =====
-- The assignment of slots and the epochs: ADDSLOTS to FLUSHSLOTS, BUMPEPOCH, SET-CONFIG-EPOCH, FORGET and
-- RESET of src/cluster/state.rs.
pub mod Assigned
use kore.Base.{
  ℕ, zero, suc, ◌+◌, ◌-◌, Bool, true, false, not, ◌&&◌, ◌||◌, Option, none, some, List, [], ◌∷◌,
  ◌++◌, ltb, leb, ◌==◌, if◌then◌else◌, Bytes, same,
}
use kore.Base.Table.{Table, lookup, contains_key, remove, retain, update}
use kore.Cluster.{
  slot_count, ClusterNode, PrepareVote, ClusterState, ClusterError, no_arguments, slot_out_of_range,
  slot_busy, slot_unassigned, slot_not_mine, range_reversed, slot_repeated, epoch_not_greater,
  forget_myself, unknown_node, has_slots, Reply, ok, err, ◌>>=◌, is_empty, no_slot, next_epoch,
  any_slot, put_slot, set_node_flags,
}

unfoldable pub bump_epoch : ClusterState → ClusterState
unfolding next_epoch
bump_epoch g = record g { current_epoch = next_epoch g.current_epoch }

unfoldable pub set_config_epoch : ℕ → ClusterState → Reply ClusterState
set_config_epoch epoch g =
    if leb epoch g.current_epoch
    then err epoch_not_greater
    else ok (record g { current_epoch = epoch })

-- `retain(|_, x| x != node_id)` of a map from slots.
unfoldable pub drop_target : Bytes → (ℕ → Option Bytes) → ℕ → Option Bytes
drop_target id m s = elim (m s) [ none ↦ none | some x ↦ if same x id then none else some x ]

unfoldable pub drop_votes : Bytes → (ℕ → Option PrepareVote) → ℕ → Option PrepareVote
drop_votes id m s = elim (m s) [
  | none ↦ none
  | some v ↦ if same v.target_id id then none else some v
]

unfoldable pub without : Bytes → List Bytes → List Bytes
without id [] = []
without id (x ∷ xs) = let rest = without id xs in if same x id then rest else x ∷ rest

unfoldable pub drop_suspect : Bytes → Table (List Bytes) → Table (List Bytes)
drop_suspect id [] = []
drop_suspect id ((k, xs) ∷ m) = (k, without id xs) ∷ drop_suspect id m

unfoldable pub forget_node : Bytes → ClusterState → Reply ClusterState
unfolding any_slot drop_target drop_votes
forget_node id g =
    if same id g.my_id
    then err forget_myself
    else if not (contains_key id g.nodes)
    then err unknown_node
    else if any_slot slot_count (λ s. same (g.slot_owner s) id)
    then err has_slots
    else ok (record g {
      nodes = remove id g.nodes;
      last_pong = remove id g.last_pong;
      fail_reports = drop_suspect id (remove id g.fail_reports);
      migrating = drop_target id g.migrating;
      importing = drop_target id g.importing;
      prepare_node = drop_votes id g.prepare_node;
    })

unfoldable pub as_master : ClusterNode → ClusterNode
as_master n = record n {
  myself = true;
  master = true;
  master_id = none;
  fail = false;
  pfail = false;
}

unfoldable pub reset_cluster_config : ClusterState → ClusterState
unfolding next_epoch
reset_cluster_config g =
    let epoch = next_epoch g.current_epoch in
    record g {
      current_epoch = epoch;
      slot_owner = λ s. [];
      slot_config_epoch = λ s. epoch;
      migrating = no_slot;
      importing = no_slot;
      prepare_node = no_slot;
      fail_reports = [];
      last_pong = [];
      nodes = update g.my_id as_master (retain (λ id _. same id g.my_id) g.nodes);
    }

-- The slots may be taken: each one is free or ours.
unfoldable pub check_add : ClusterState → List ℕ → Option ClusterError
unfolding is_empty
check_add g [] = none
check_add g (s ∷ ss) =
    let rest = check_add g ss in
    if not (ltb s slot_count)
    then some slot_out_of_range
    else if not (is_empty (g.slot_owner s)) && not (same (g.slot_owner s) g.my_id)
    then some slot_busy
    else rest

-- The slots may be given up: each one is ours.
unfoldable pub check_del : ClusterState → List ℕ → Option ClusterError
unfolding is_empty
check_del g [] = none
check_del g (s ∷ ss) =
    let rest = check_del g ss in
    if not (ltb s slot_count)
    then some slot_out_of_range
    else if is_empty (g.slot_owner s)
    then some slot_unassigned
    else if not (same (g.slot_owner s) g.my_id)
    then some slot_not_mine
    else rest

unfoldable pub put_slots : Bytes → ℕ → List ℕ → ClusterState → ClusterState
put_slots owner epoch [] g = g
put_slots owner epoch (s ∷ ss) g = put_slots owner epoch ss (put_slot owner epoch s g)

-- One epoch for the whole command.
unfoldable pub assign_slots : Bytes → List ℕ → ClusterState → ClusterState
unfolding bump_epoch put_slots
assign_slots owner slots g = let g' = bump_epoch g in put_slots owner g'.current_epoch slots g'

unfoldable pub add_slots : List ℕ → ClusterState → Reply ClusterState
add_slots [] g = err no_arguments
add_slots (s ∷ ss) g = elim (check_add g (s ∷ ss)) [
  | some e ↦ err e
  | none ↦ ok (assign_slots g.my_id (s ∷ ss) g)
]

unfoldable pub del_slots : List ℕ → ClusterState → Reply ClusterState
del_slots [] g = err no_arguments
del_slots (s ∷ ss) g = elim (check_del g (s ∷ ss)) [
  | some e ↦ err e
  | none ↦ ok (assign_slots [] (s ∷ ss) g)
]

-- `n` slots from `start` on.
unfoldable pub range_from : ℕ → ℕ → List ℕ
range_from start zero = []
range_from start (suc n) = start ∷ range_from (suc start) n

unfoldable pub expand : List (ℕ × ℕ) → Reply (List ℕ)
unfolding range_from
expand [] = ok []
expand ((start, end) ∷ ranges) =
    if ltb end start
    then err range_reversed
    else if not (ltb end slot_count)
    then err slot_out_of_range
    else (expand ranges >>= λ rest. ok (range_from start (suc end - start) ++ rest))

unfoldable pub among : ℕ → List ℕ → Bool
among s [] = false
among s (x ∷ xs) = (x == s) || among s xs

-- The slots that were seen, the last one first, and those that are left.
unfoldable pub no_repeats : List ℕ → List ℕ → Bool
no_repeats seen [] = true
no_repeats seen (s ∷ ss) = not (among s seen) && no_repeats (s ∷ seen) ss

unfoldable pub expand_slot_ranges : List (ℕ × ℕ) → Reply (List ℕ)
unfolding expand no_repeats
expand_slot_ranges ranges =
    expand ranges >>= λ slots. if no_repeats [] slots then ok slots else err slot_repeated

unfoldable pub add_slot_ranges : List (ℕ × ℕ) → ClusterState → Reply ClusterState
add_slot_ranges ranges g = expand_slot_ranges ranges >>= λ slots. add_slots slots g

unfoldable pub del_slot_ranges : List (ℕ × ℕ) → ClusterState → Reply ClusterState
del_slot_ranges ranges g = expand_slot_ranges ranges >>= λ slots. del_slots slots g

unfoldable pub end_transitions : ClusterState → ClusterState
end_transitions g = record g { migrating = no_slot; importing = no_slot; prepare_node = no_slot }

-- Every slot of one node goes to another one, at one new epoch.
unfoldable pub hand_over : Bytes → Bytes → ClusterState → ClusterState
unfolding next_epoch
hand_over from to g =
    let epoch = next_epoch g.current_epoch in
    record g {
      current_epoch = epoch;
      slot_owner = λ s. if same (g.slot_owner s) from then to else g.slot_owner s;
      slot_config_epoch = λ s. if same (g.slot_owner s) from then epoch else g.slot_config_epoch s;
    }

unfoldable pub owns_any : Bytes → ClusterState → Bool
unfolding any_slot
owns_any id g = any_slot slot_count (λ s. same (g.slot_owner s) id)

unfoldable pub flush_slots : ClusterState → ClusterState
unfolding owns_any end_transitions hand_over
flush_slots g =
    if not (owns_any g.my_id g) then end_transitions g else end_transitions (hand_over g.my_id [] g)
