-- ===== src/Cluster/Tests.antt =====
-- Runs of the cluster topology of src/cluster/state.rs on two and three nodes.
use kore.Base.{
  ℕ, zero, suc, ◌+◌, ◌-◌, ◌*◌, ◌≤◌, ◌<◌, ◌≡◌, ◌≢◌, refl, sym, ap, ◌∙◌, Bool, true, false, not, ◌&&◌,
  ◌||◌, Option, none, some, List, [], ◌∷◌, arith, ltb, leb, ◌==◌, if◌then◌else◌, Bytes, same,
  same_iff, Bool-cases, ◌⊎◌, inl, inr,
}
use kore.Base.Table.{Table, lookup, contains_key, insert, or_insert}
use kore.Cluster.{
  slot_count, ClusterNode, PrepareVote, ClusterState, ClusterError, Reply, ok, err, is_empty,
  update, next_epoch, any_slot, bus_port, with_identity, single_node, put_slot,
}
use kore.Cluster.Slots.{add_slots, among}
use kore.Cluster.Migration.{set_migrating, owns_slot, redirect, moved_target, ask_target}
use kore.Cluster.Prepare.{is_some, prepare_topology_ready, set_prepare_node, commit_prepare_node}
use kore.Cluster.Gossip.{
  OwnershipRange, add_node_with_role, apply_ownership_range, merge_ownership_snapshot,
}
use kore.Cluster.Failover.{
  listed, pri_off, replicas_of, failover_election_winner, should_claim_on_failover, escalate_fails,
  fail_quorum_size, master_count, votes, node_test, is_replica_of, replicates, names, sort_ids,
  insert_id, dedup, replica_ids, elect, best_of, eligible, max_rank, leb_rank,
}
use kore.Cluster.Slots.Assigned.{may_take, IsAssigned, add_slots_lem}
use kore.Cluster.Prepare.Commit.{IsAuthorized, SameTopology, IsCommitted, commit_prepare_node_lem}
use kore.Cluster.Gossip.Merge.{CanReach, IsValidRange, Unchanged, Merged, apply_ownership_range_lem}
use kore.Cluster.Gossip.Converge.{
  AllClaims, Holds, highest, merge_ownership_snapshot-Holds, merge_ownership_snapshot_converges,
}
use kore.Cluster.KeySlot.{
  key_hash_slot, crc16, crc_bytes, crc_bits, crc_bit, hash_tag_bytes, after, before,
}
use kore.Cluster.KeySlot.Placed.{tagged, key_hash_slot-tagged}
use mathlib.Core.List.{Perm}
use mathlib.Core.List.Perm
use kore.Cluster.Failover.Election.{Wins, failover_election_winner-Wins, should_claim_once}
use kore.Cluster.Failover.Quorum.{HasFailed, escalate_fails-HasQuorum}
use kore.Cluster.Histories.{IsSound}
use kore.Cluster.Histories.Steps.{
  Reachable, start, next, node_added, migrating, prepared, Reachable-Fits,
}
use kore.Cluster.Histories.Routing.{routed}

abbrev name_a : Bytes
name_a = b'a' ∷ []

abbrev name_b : Bytes
name_b = b'b' ∷ []

abbrev name_m : Bytes
name_m = b'm' ∷ []

abbrev host : Bytes
host = b'h' ∷ []

-- A node with every slot that knows another one.
abbrev two_nodes : ClusterState
two_nodes = add_node_with_role 5 name_b host 7001 none none (single_node host 7000 name_a)

two_nodes-Reachable : Reachable two_nodes
two_nodes-Reachable = next (start host 7000 name_a) (node_added 5 name_b host 7001 none none)

-- Slot 3 goes to the other node.
abbrev moving : ClusterState
moving = record two_nodes {
  importing = update 3 none two_nodes.importing;
  migrating = update 3 (some name_b) two_nodes.migrating;
}

set_migrating_run : set_migrating 3 name_b two_nodes ≡ ok moving
unfolding set_migrating add_node_with_role single_node with_identity contains_key lookup insert same
set_migrating_run = refl

moving-Reachable : Reachable moving
moving-Reachable = next two_nodes-Reachable (migrating 3 name_b set_migrating_run)

-- It has a vote.
abbrev voted : ClusterState
voted = record moving {
  prepare_node =
      update 3
        (some (record {
          target_id = name_b;
          slot_epoch = moving.slot_config_epoch 3;
          prepared_at_unix_ms = 10;
        }))
        moving.prepare_node;
}

set_prepare_node_run : set_prepare_node 10 3 name_b moving ≡ ok voted
unfolding set_prepare_node prepare_topology_ready add_node_with_role single_node with_identity
    contains_key lookup insert update same
set_prepare_node_run = refl

voted-Reachable : Reachable voted
voted-Reachable = next moving-Reachable (prepared 10 3 name_b set_prepare_node_run)

commit_run : (commit_prepare_node 20 3 name_b voted).1 ≡ ok tt
unfolding commit_prepare_node kore.Cluster.Prepare.check_vote
    kore.Cluster.Prepare.purge_expired_prepare kore.Cluster.Prepare.prepare_vote_expired
    prepare_topology_ready add_node_with_role single_node with_identity contains_key lookup insert
    update same
commit_run = refl

abbrev of_a : OwnershipRange
of_a = record { start = 0; end = 16383; owner_id = name_a; ip = host; port = 7000; epoch = 1 }

abbrev of_b : OwnershipRange
of_b = record { start = 3; end = 3; owner_id = name_b; ip = host; port = 7001; epoch = 2 }

-- Two replicas of a master that failed.
abbrev node_of : Bytes → Bool → Option Bytes → Bool → ClusterNode
node_of id master master_id fail = record {
  id = id;
  ip = host;
  port = 7000;
  cport = 17000;
  myself = false;
  master = master;
  master_id = master_id;
  pfail = false;
  fail = fail;
  repl_offset = 0;
  repl_priority = 100;
}

abbrev three_nodes : Table ClusterNode
three_nodes =
    (name_a, node_of name_a false (some name_m) false)
    ∷ (name_b, node_of name_b false (some name_m) false)
    ∷ (name_m, node_of name_m true none true)
    ∷ []

abbrev replica_a : ClusterState
replica_a = record (with_identity host 7000 name_a false (some name_m) false) {
  nodes = three_nodes;
}

abbrev replica_b : ClusterState
replica_b = record (with_identity host 7000 name_b false (some name_m) false) {
  nodes = three_nodes;
}

replicas_a : replicas_of name_m replica_a ≡ name_a ∷ name_b ∷ []
unfolding replicas_of replica_ids replicates names sort_ids insert_id dedup kore.Base.leb_bytes
    with_identity same
replicas_a = refl

replicas_agree : replicas_of name_m replica_a ≡ replicas_of name_m replica_b
unfolding replicas_of with_identity same
replicas_agree = refl

listed_b :
    (y : Bytes)
    → same name_a y ≡ false
    → listed y (name_a ∷ name_b ∷ []) ≡ true
    → same name_b y ≡ true
unfolding listed
listed_b y p k = ground (arith, p, k)

name_clash : name_a ≡ name_b → ⊥
unfolding same
name_clash e = let clash : false ≡ true = (same_iff name_a name_b).1 e in cc

replicas_some : replicas_of name_m replica_a ≢ []
replicas_some h = let e = sym replicas_a ∙ h in cc

ranks_agree :
    (y : Bytes)
    → listed y (replicas_of name_m replica_a) ≡ true
    → pri_off replica_a y ≡ pri_off replica_b y
unfolding pri_off with_identity lookup same
ranks_agree y h = elim (Bool-cases (same name_a y)) [
  | inl p ↦ at_a y ((same_iff name_a y).0 p)
  | inr p ↦ at_b y ((same_iff name_b y).0 (is_b p (ap (listed y) (sym replicas_a) ∙ h)))
]
  where
    at_a : (z : Bytes) → name_a ≡ z → pri_off replica_a z ≡ pri_off replica_b z
    at_a z e = rw (sym e) refl

    at_b : (z : Bytes) → name_b ≡ z → pri_off replica_a z ≡ pri_off replica_b z
    at_b z e = rw (sym e) refl

    is_b : same name_a y ≡ false → listed y (name_a ∷ name_b ∷ []) ≡ true → same name_b y ≡ true
    is_b p k = listed_b y p k

a_and_b_differ : replica_a.my_id ≢ replica_b.my_id
unfolding with_identity same
a_and_b_differ e = name_clash e

winner_run : failover_election_winner name_m replica_a ≡ some name_b
unfolding failover_election_winner is_replica_of node_test replicas_of replica_ids replicates names
    sort_ids insert_id dedup elect best_of eligible max_rank leb_rank pri_off with_identity lookup
    kore.Base.leb_bytes same
winner_run = refl

-- Three masters, two of which suspect the third one.
abbrev suspecting : ClusterState
suspecting = record (with_identity host 7000 name_a true none true) {
  nodes =
      (name_a, node_of name_a true none false)
      ∷ (name_b, node_of name_b true none false)
      ∷ (name_m, record (node_of name_m true none false) { pfail = true })
      ∷ [];
  fail_reports = (name_b, name_m ∷ []) ∷ [];
}

escalate_run : listed name_m (escalate_fails suspecting).1 ≡ true
unfolding escalate_fails kore.Cluster.Failover.escalate_all kore.Cluster.Failover.escalate_one
    kore.Cluster.Failover.candidates kore.Cluster.Failover.local_suspects
    kore.Cluster.Failover.reported kore.Cluster.Failover.to_set kore.Cluster.Slots.without votes
    kore.Cluster.Failover.peer_votes fail_quorum_size master_count kore.Cluster.Failover.count_nodes
    kore.Cluster.Failover.live_master kore.Cluster.Failover.suspected_here
    kore.Cluster.Failover.node_is_fail node_test lookup contains_key with_identity listed
    kore.Cluster.set_node_flags kore.Cluster.Failover.confirm_fail kore.Base.Table.update same
escalate_run = refl

Reachable-Fits_example : IsSound voted
Reachable-Fits_example = Reachable-Fits voted voted-Reachable

routed_example :
    (is_empty (moving.slot_owner 3) ≡ false
      → (n : ClusterNode) × (moved_target 3 moving ≡ some (redirect 3 n)))
    × ((d : Bytes)
        → moving.migrating 3 ≡ some d
        → (owns_slot 3 moving ≡ true)
          × ((n : ClusterNode) × (ask_target 3 moving ≡ some (redirect 3 n))))
routed_example = routed moving 3 moving-Reachable (omega arith)

commit_prepare_node_lem_example :
    let r = commit_prepare_node 20 3 name_b voted in
    let allowed =
      (ltb 3 slot_count ≡ true)
      × (contains_key name_b voted.nodes ≡ true)
      × IsAuthorized 20 3 name_b voted in
    (allowed × (r.1 ≡ ok tt) × IsCommitted 3 name_b voted r.0)
    ⊎ (¬ allowed × ((e : ClusterError) × (r.1 ≡ err e)) × SameTopology voted r.0)
commit_prepare_node_lem_example = commit_prepare_node_lem 20 3 name_b voted

add_slots_lem_example :
    ((g' : ClusterState) × (add_slots (3 ∷ 9 ∷ []) two_nodes ≡ ok g')
      × ((s : ℕ) → among s (3 ∷ 9 ∷ []) ≡ true → may_take two_nodes s ≡ true)
      × (g'.current_epoch ≡ next_epoch two_nodes.current_epoch)
      × ((s : ℕ)
          → IsAssigned two_nodes.my_id
              (next_epoch two_nodes.current_epoch)
              (3 ∷ 9 ∷ [])
              two_nodes
              g'
              s))
    ⊎ (((e : ClusterError) × (add_slots (3 ∷ 9 ∷ []) two_nodes ≡ err e))
        × ((s : ℕ) × (among s (3 ∷ 9 ∷ []) ≡ true) × (may_take two_nodes s ≡ false)))
add_slots_lem_example = add_slots_lem (3 ∷ 9 ∷ []) two_nodes (λ e. cc)

of_a-IsValid : IsValidRange of_a
unfolding is_empty
of_a-IsValid = (omega arith, omega arith, refl)

of_b-IsValid : IsValidRange of_b
unfolding is_empty
of_b-IsValid = (omega arith, omega arith, refl)

of_b-CanReach : CanReach of_b two_nodes
unfolding contains_key lookup add_node_with_role single_node with_identity insert same
of_b-CanReach = refl

-- Epoch 2 of a slot belongs to the other node.
abbrev owner_at : ℕ → Bytes
owner_at e = if e == 2 then name_b else name_a

both_orders : Perm (of_a ∷ of_b ∷ []) (of_b ∷ of_a ∷ [])
both_orders = Perm.swap of_b of_a []

a_then_b : AllClaims owner_at 3 (of_a ∷ of_b ∷ [])
unfolding is_empty
a_then_b = ((of_a-IsValid, refl, λ _. refl), ((of_b-IsValid, refl, λ _. refl), tt))

b_then_a : AllClaims owner_at 3 (of_b ∷ of_a ∷ [])
unfolding is_empty
b_then_a = ((of_b-IsValid, refl, λ _. refl), ((of_a-IsValid, refl, λ _. refl), tt))

two_nodes-Holds : Holds owner_at 3 two_nodes 1
unfolding is_some add_node_with_role single_node with_identity same
two_nodes-Holds = (refl, refl, refl)

alone-Holds : Holds owner_at 3 (single_node host 7000 name_a) 1
unfolding is_some single_node with_identity
alone-Holds = (refl, refl, refl)

-- The published check value of CRC16, and a slot of the Redis documentation.
crc16_run : crc16 (b'1' ∷ b'2' ∷ b'3' ∷ b'4' ∷ b'5' ∷ b'6' ∷ b'7' ∷ b'8' ∷ b'9' ∷ []) ≡ 12739
unfolding crc16 crc_bytes crc_bits crc_bit
crc16_run = refl

key_hash_slot_run : key_hash_slot (b'f' ∷ b'o' ∷ b'o' ∷ []) ≡ 12182
unfolding key_hash_slot hash_tag_bytes after before crc16 crc_bytes crc_bits crc_bit
key_hash_slot_run = refl

apply_ownership_range_lem_example :
    let g' = (apply_ownership_range 9 of_b two_nodes).0 in
    ((of_b.start ≤ 3) × (3 ≤ of_b.end) × Merged of_b two_nodes g' 3)
    ⊎ (((3 < of_b.start) ⊎ (of_b.end < 3)) × Unchanged two_nodes g' 3)
apply_ownership_range_lem_example =
    apply_ownership_range_lem 9 of_b two_nodes 3 of_b-IsValid of_b-CanReach

merge_ownership_snapshot-Holds_example :
    Holds owner_at 3
      (merge_ownership_snapshot 9 (of_a ∷ of_b ∷ []) two_nodes).0
      (highest 3 (of_a ∷ of_b ∷ []) 1)
merge_ownership_snapshot-Holds_example =
    merge_ownership_snapshot-Holds owner_at 3 9 1 (of_a ∷ of_b ∷ []) two_nodes a_then_b
      two_nodes-Holds

merge_ownership_snapshot_converges_example :
    let a' = (merge_ownership_snapshot 9 (of_a ∷ of_b ∷ []) two_nodes).0 in
    let b' = (merge_ownership_snapshot 12 (of_b ∷ of_a ∷ []) (single_node host 7000 name_a)).0 in
    (a'.slot_owner 3 ≡ b'.slot_owner 3) × (a'.slot_config_epoch 3 ≡ b'.slot_config_epoch 3)
merge_ownership_snapshot_converges_example =
    merge_ownership_snapshot_converges owner_at 3 9 12 1 (of_a ∷ of_b ∷ []) (of_b ∷ of_a ∷ [])
      two_nodes (single_node host 7000 name_a) both_orders a_then_b b_then_a two_nodes-Holds
      alone-Holds

key_hash_slot-tagged_example :
    key_hash_slot (tagged name_a host name_m) ≡ key_hash_slot (tagged name_b host [])
key_hash_slot-tagged_example =
    key_hash_slot-tagged name_a name_b host name_m [] refl refl refl (λ e. cc)

failover_election_winner-Wins_example : Wins replica_a (replicas_of name_m replica_a) name_b
failover_election_winner-Wins_example =
    failover_election_winner-Wins name_m replica_a name_b replicas_some winner_run

should_claim_once_example :
    (should_claim_on_failover name_m replica_a && should_claim_on_failover name_m replica_b) ≡ false
should_claim_once_example =
    should_claim_once name_m replica_a replica_b a_and_b_differ replicas_agree replicas_some
      ranks_agree

escalate_fails-HasQuorum_example :
    HasFailed (fail_quorum_size suspecting) suspecting (escalate_fails suspecting).0 name_m
    × (2 < master_count suspecting → master_count suspecting < 2 * votes suspecting name_m)
escalate_fails-HasQuorum_example = escalate_fails-HasQuorum suspecting name_m escalate_run
