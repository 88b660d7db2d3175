-- ===== src/Cluster/Migration.antt =====
-- The transitions of a slot: SETSLOT MIGRATING, IMPORTING, STABLE and NODE, and the redirections, of
-- src/cluster/state.rs.
use kore.Base.{
  ℕ, zero, suc, ◌-◌, Bool, not, ◌&&◌, ◌||◌, Option, none, some, ltb, if◌then◌else◌, Bytes, same,
}
use kore.Base.Table.{lookup, contains_key}
use kore.Cluster.{
  slot_count, ClusterNode, ClusterState, slot_out_of_range, range_reversed, unknown_node, not_owner,
  Reply, ok, err, ◌>>=◌, is_empty, update, put_slot,
}
use kore.Cluster.Slots.{bump_epoch}

unfoldable pub reassign_slot : ℕ → Bytes → ClusterState → Reply ClusterState
unfolding bump_epoch put_slot
reassign_slot slot id g =
    if not (ltb slot slot_count)
    then err slot_out_of_range
    else if not (contains_key id g.nodes)
    then err unknown_node
    else (let g' = bump_epoch g in ok (put_slot id g'.current_epoch slot g'))

-- SETSLOT NODE, whose test hook is left out.
unfoldable pub set_node : ℕ → Bytes → ClusterState → Reply ClusterState
set_node slot id g = reassign_slot slot id g

unfoldable pub reassign_all : ℕ → ℕ → Bytes → ClusterState → Reply ClusterState
reassign_all zero slot id g = ok g
reassign_all (suc n) slot id g = reassign_slot slot id g >>= λ g'. reassign_all n (suc slot) id g'

unfoldable pub reassign_slot_range : ℕ → ℕ → Bytes → ClusterState → Reply ClusterState
reassign_slot_range start end id g =
    if ltb end start || not (ltb end slot_count)
    then err range_reversed
    else reassign_all (suc end - start) start id g

unfoldable pub set_migrating : ℕ → Bytes → ClusterState → Reply ClusterState
unfolding update
set_migrating slot dest g =
    if not (ltb slot slot_count)
    then err slot_out_of_range
    else if not (contains_key dest g.nodes)
    then err unknown_node
    else if not (same (g.slot_owner slot) g.my_id)
    then err not_owner
    else ok (record g {
      importing = update slot none g.importing;
      migrating = update slot (some dest) g.migrating;
    })

unfoldable pub set_importing : ℕ → Bytes → ClusterState → Reply ClusterState
unfolding update
set_importing slot source g =
    if not (ltb slot slot_count)
    then err slot_out_of_range
    else if not (contains_key source g.nodes)
    then err unknown_node
    else ok (record g {
      migrating = update slot none g.migrating;
      importing = update slot (some source) g.importing;
    })

unfoldable pub set_stable : ℕ → ClusterState → Reply ClusterState
unfolding update
set_stable slot g =
    if not (ltb slot slot_count)
    then err slot_out_of_range
    else ok (record g {
      migrating = update slot none g.migrating;
      importing = update slot none g.importing;
      prepare_node = update slot none g.prepare_node;
    })

unfoldable pub owns_slot : ℕ → ClusterState → Bool
owns_slot slot g = ltb slot slot_count && same (g.slot_owner slot) g.my_id

unfoldable pub owner_of : ℕ → ClusterState → Option ClusterNode
unfolding is_empty
owner_of slot g =
    if not (ltb slot slot_count)
    then none
    else if is_empty (g.slot_owner slot)
    then none
    else lookup (g.slot_owner slot) g.nodes

pub record RedirectTarget : Type 0 where
  pub slot : ℕ
  pub ip : Bytes
  pub port : ℕ
  pub node_id : Bytes

unfoldable pub redirect : ℕ → ClusterNode → RedirectTarget
redirect slot n = record { slot = slot; ip = n.ip; port = n.port; node_id = n.id }

unfoldable pub moved_target : ℕ → ClusterState → Option RedirectTarget
unfolding owner_of redirect
moved_target slot g = elim (owner_of slot g) [ none ↦ none | some n ↦ some (redirect slot n) ]

unfoldable pub ask_target : ℕ → ClusterState → Option RedirectTarget
unfolding redirect
ask_target slot g = elim (g.migrating slot) [
  | none ↦ none
  | some dest ↦ elim (lookup dest g.nodes) [ none ↦ none | some n ↦ some (redirect slot n) ]
]
