-- ===== src/Cluster/Gossip.antt =====
-- The gossip of roles and of slot ownership: ROLEMAP and OWNERS of src/cluster/state.rs.
pub mod Merge
pub mod Converge
use kore.Base.{
  ℕ, zero, suc, ◌+◌, ◌-◌, Bool, true, false, not, ◌&&◌, ◌||◌, Option, none, some, List, [], ◌∷◌,
  ltb, leb, ◌==◌, if◌then◌else◌, Bytes, same,
}
use kore.Base.Table.{Table, lookup, contains_key, insert, update, or_insert}
use kore.Cluster.{slot_count, ClusterNode, ClusterState, is_empty, bus_port}
use kore.Cluster.Prepare.{is_some}

pub record OwnershipRange : Type 0 where
  pub start : ℕ
  pub end : ℕ
  pub owner_id : Bytes
  pub ip : Bytes
  pub port : ℕ
  pub epoch : ℕ

pub data OwnershipApplyResult : Type 0 where
  applied rejected_stale skipped_transition invalid : OwnershipApplyResult

abbrev pub or_else {ℓ} : {A : Type ℓ} → Option A → A → A
or_else none a = a
or_else (some x) a = x

-- A peer that is added or updated; `none` keeps the role that is known.
unfoldable pub add_node_with_role :
    ℕ → Bytes → Bytes → ℕ → Option Bool → Option (Option Bytes) → ClusterState → ClusterState
unfolding bus_port
add_node_with_role now id ip port role_master role_master_id g =
    if same id g.my_id
    then g
    else (let old = or_else (lookup id g.nodes) (record {
      id = id;
      ip = ip;
      port = port;
      cport = 0;
      myself = false;
      master = true;
      master_id = none;
      pfail = false;
      fail = false;
      repl_offset = 0;
      repl_priority = 100;
    }) in
        record g {
          nodes =
              insert id
                (record {
                  id = id;
                  ip = ip;
                  port = port;
                  cport = bus_port port;
                  myself = false;
                  master = or_else role_master old.master;
                  master_id = or_else role_master_id old.master_id;
                  pfail = old.pfail;
                  fail = old.fail;
                  repl_offset = old.repl_offset;
                  repl_priority = old.repl_priority;
                })
                g.nodes;
          last_pong = or_insert id now g.last_pong;
        })

unfoldable pub add_node : ℕ → Bytes → Bytes → ℕ → ClusterState → ClusterState
unfolding add_node_with_role
add_node now id ip port g = add_node_with_role now id ip port none none g

pub record RoleMapEntry : Type 0 where
  pub id : Bytes
  pub master : Bool
  pub master_id : Bytes
  pub ip : Bytes
  pub port : ℕ
  pub repl_offset : ℕ
  pub repl_priority : ℕ

unfoldable pub set_rank : RoleMapEntry → ClusterNode → ClusterNode
set_rank e n = record n { repl_offset = e.repl_offset; repl_priority = e.repl_priority }

unfoldable pub merge_role : ℕ → RoleMapEntry → ClusterState → ClusterState
unfolding add_node_with_role is_empty
merge_role now e g =
    if same e.id g.my_id
    then g
    else (let master_id = if e.master || is_empty e.master_id then none else some e.master_id in
        let g' = add_node_with_role now e.id e.ip e.port (some e.master) (some master_id) g in
        record g' { nodes = update e.id (set_rank e) g'.nodes })

unfoldable pub merge_role_map : ℕ → List RoleMapEntry → ClusterState → ClusterState
merge_role_map now [] g = g
merge_role_map now (e ∷ es) g = merge_role_map now es (merge_role now e g)

unfoldable pub set_address : OwnershipRange → ClusterNode → ClusterNode
unfolding bus_port
set_address r n =
    if n.myself then n else record n { ip = r.ip; port = r.port; cport = bus_port r.port }

unfoldable pub readdress : OwnershipRange → ClusterState → ClusterState
unfolding set_address
readdress r g = record g { nodes = update r.owner_id (set_address r) g.nodes }

unfoldable pub add_owner : ℕ → OwnershipRange → ClusterState → ClusterState
unfolding bus_port
add_owner now r g = record g {
  nodes =
      insert r.owner_id
        (record {
          id = r.owner_id;
          ip = r.ip;
          port = r.port;
          cport = bus_port r.port;
          myself = false;
          master = true;
          master_id = none;
          pfail = false;
          fail = false;
          repl_offset = 0;
          repl_priority = 100;
        })
        g.nodes;
  last_pong = or_insert r.owner_id now g.last_pong;
}

-- The owner of the range becomes known, if its address is.
unfoldable pub learn_owner : ℕ → OwnershipRange → ClusterState → Option ClusterState
unfolding is_empty readdress add_owner
learn_owner now r g =
    let unreachable = is_empty r.ip || (r.port == 0) in
    if contains_key r.owner_id g.nodes
    then (if unreachable then some g else some (readdress r g))
    else if unreachable
    then none
    else some (add_owner now r g)

-- Slots that were applied, skipped and rejected so far.
pub record Tally : Type 0 where
  pub applied_count : ℕ
  pub skipped_count : ℕ
  pub rejected_count : ℕ

unfoldable pub apply_slot : OwnershipRange → ℕ → ClusterState → Tally → ClusterState × Tally
unfolding is_some kore.Cluster.update
apply_slot r slot g t =
    if is_some (g.migrating slot) || is_some (g.importing slot)
    then (g, record t { skipped_count = t.skipped_count + 1 })
    else if ltb (g.slot_config_epoch slot) r.epoch
    then (
      record g {
        slot_owner = kore.Cluster.update slot r.owner_id g.slot_owner;
        slot_config_epoch = kore.Cluster.update slot r.epoch g.slot_config_epoch;
      },
      record t { applied_count = t.applied_count + 1 },
    )
    else (g, record t { rejected_count = t.rejected_count + 1 })

unfoldable pub apply_slots : ℕ → OwnershipRange → ℕ → ClusterState → Tally → ClusterState × Tally
unfolding apply_slot
apply_slots zero r slot g t = (g, t)
apply_slots (suc n) r slot g t =
    let next = apply_slot r slot g t in apply_slots n r (suc slot) next.0 next.1

unfoldable pub raise_epoch : OwnershipRange → ClusterState × Tally → ClusterState
raise_epoch r (g, t) =
    if ltb 0 t.applied_count && ltb g.current_epoch r.epoch
    then record g { current_epoch = r.epoch }
    else g

unfoldable pub result_of : Tally → OwnershipApplyResult
result_of t =
    if ltb 0 t.applied_count
    then applied
    else if ltb 0 t.skipped_count && (t.rejected_count == 0)
    then skipped_transition
    else if ltb 0 t.skipped_count && (t.applied_count == 0)
    then skipped_transition
    else rejected_stale

abbrev pub no_tally : Tally
no_tally = record { applied_count = 0; skipped_count = 0; rejected_count = 0 }

-- The slots of the range, once its owner is known.
unfoldable pub install :
    OwnershipRange → ClusterState → Option ClusterState → ClusterState × OwnershipApplyResult
unfolding apply_slots raise_epoch result_of
install r g none = (g, rejected_stale)
install r g (some g') =
    let done = apply_slots (suc r.end - r.start) r r.start g' no_tally in
    (raise_epoch r done, result_of done.1)

unfoldable pub apply_ownership_range :
    ℕ → OwnershipRange → ClusterState → ClusterState × OwnershipApplyResult
unfolding is_empty learn_owner install
apply_ownership_range now r g =
    if ltb r.end r.start || not (ltb r.end slot_count)
    then (g, invalid)
    else if is_empty r.owner_id
    then (g, invalid)
    else install r g (learn_owner now r g)

-- The ranges that were applied, rejected and skipped.
unfoldable pub count_result : OwnershipApplyResult → Tally → Tally
count_result applied t = record t { applied_count = t.applied_count + 1 }
count_result rejected_stale t = record t { rejected_count = t.rejected_count + 1 }
count_result invalid t = record t { rejected_count = t.rejected_count + 1 }
count_result skipped_transition t = record t { skipped_count = t.skipped_count + 1 }

unfoldable pub merge_ranges : ℕ → List OwnershipRange → ClusterState → Tally → ClusterState × Tally
unfolding apply_ownership_range count_result
merge_ranges now [] g t = (g, t)
merge_ranges now (r ∷ rs) g t =
    let next = apply_ownership_range now r g in merge_ranges now rs next.0 (count_result next.1 t)

unfoldable pub merge_ownership_snapshot :
    ℕ → List OwnershipRange → ClusterState → ClusterState × Tally
unfolding merge_ranges
merge_ownership_snapshot now rs g = merge_ranges now rs g no_tally
