-- ===== src/Cluster.antt =====
-- The cluster topology of one process: the state of src/cluster/state.rs. The vectors over the slots and
-- the maps by slot are functions of the slot; every access outside of the 16384 slots is written out.
use kore.Base.{
  ℕ, zero, suc, ◌+◌, ◌-◌, Bool, true, false, not, ◌&&◌, ◌||◌, Option, none, some, List, [], ◌∷◌,
  ltb, leb, ◌==◌, if◌then◌else◌, Bytes, same,
}
use kore.Base.Table.{Table, lookup, contains_key, insert}
pub mod Slots
pub mod KeySlot
pub mod Migration
pub mod Prepare
pub mod Gossip
pub mod Failover
pub mod Histories
mod Tests

abbrev pub slot_count : ℕ
slot_count = 16384

abbrev pub u64_max : ℕ
u64_max = 18446744073709551615

pub record ClusterNode : Type 0 where
  pub id : Bytes
  pub ip : Bytes
  pub port : ℕ
  pub cport : ℕ
  pub myself : Bool
  pub master : Bool
  pub master_id : Option Bytes
  pub pfail : Bool
  pub fail : Bool
  pub repl_offset : ℕ
  pub repl_priority : ℕ

pub record PrepareVote : Type 0 where
  pub target_id : Bytes
  pub slot_epoch : ℕ
  pub prepared_at_unix_ms : ℕ

-- `Inner`, less node_timeout_ms, which no operation here reads. An empty owner is an unbound slot.
pub record ClusterState : Type 0 where
  pub my_id : Bytes
  pub ip : Bytes
  pub port : ℕ
  pub slot_owner : ℕ → Bytes
  pub slot_config_epoch : ℕ → ℕ
  pub migrating : ℕ → Option Bytes
  pub importing : ℕ → Option Bytes
  pub prepare_node : ℕ → Option PrepareVote
  pub nodes : Table ClusterNode
  pub current_epoch : ℕ
  pub last_pong : Table ℕ
  pub fail_reports : Table (List Bytes)
  pub local_repl_offset : ℕ
  pub local_repl_priority : ℕ

pub data ClusterError : Type 0 where
  no_arguments slot_out_of_range slot_busy slot_unassigned slot_not_mine range_reversed
        slot_repeated :
      ClusterError
  epoch_not_greater forget_myself unknown_node has_slots not_owner replicate_myself : ClusterError
  no_vote other_target vote_expired epoch_stale not_ready other_destination : ClusterError
  not_a_replica master_not_failed not_the_winner : ClusterError

pub data Reply {ℓ} (A : Type ℓ) : Type ℓ where
  ok : A → Reply A
  err : ClusterError → Reply A

infixl 5 ◌>>=◌
abbrev pub ◌>>=◌ {ℓ κ} : {A : Type ℓ} {B : Type κ} → Reply A → (A → Reply B) → Reply B
ok a >>= f = f a
err e >>= f = err e

unfoldable pub is_empty : Bytes → Bool
is_empty [] = true
is_empty (c ∷ cs) = false

-- A write at one slot.
unfoldable pub update {ℓ} : {A : Type ℓ} → ℕ → A → (ℕ → A) → ℕ → A
update k a f j = if j == k then a else f j

abbrev pub no_slot {ℓ} : {A : Type ℓ} → ℕ → Option A
no_slot s = none

-- `saturating_add(1)` of a 64-bit epoch.
unfoldable pub next_epoch : ℕ → ℕ
next_epoch e = if ltb e u64_max then e + 1 else e

-- The first `n` slots have one that passes the test.
unfoldable pub any_slot : ℕ → (ℕ → Bool) → Bool
any_slot zero p = false
any_slot (suc n) p = p n || any_slot n p

unfoldable pub count_slots : ℕ → (ℕ → Bool) → ℕ
count_slots zero p = 0
count_slots (suc n) p = if p n then suc (count_slots n p) else count_slots n p

-- `port.saturating_add(10000)`.
unfoldable pub bus_port : ℕ → ℕ
bus_port port = if ltb 55535 port then 65535 else port + 10000

-- A node alone, with every slot or with none.
unfoldable pub with_identity : Bytes → ℕ → Bytes → Bool → Option Bytes → Bool → ClusterState
unfolding bus_port
with_identity ip port my_id master master_id own_all_slots = record {
  my_id = my_id;
  ip = ip;
  port = port;
  slot_owner = λ s. if own_all_slots then my_id else [];
  slot_config_epoch = λ s. 1;
  migrating = no_slot;
  importing = no_slot;
  prepare_node = no_slot;
  nodes =
      (
        my_id,
        record {
          id = my_id;
          ip = ip;
          port = port;
          cport = bus_port port;
          myself = true;
          master = master;
          master_id = master_id;
          pfail = false;
          fail = false;
          repl_offset = 0;
          repl_priority = 100;
        },
      )
      ∷ [];
  current_epoch = 1;
  last_pong = [];
  fail_reports = [];
  local_repl_offset = 0;
  local_repl_priority = 100;
}

unfoldable pub single_node : Bytes → ℕ → Bytes → ClusterState
unfolding with_identity
single_node ip port my_id = with_identity ip port my_id true none true

-- The slot is taken over by a node at an epoch, and its transitions end.
unfoldable pub put_slot : Bytes → ℕ → ℕ → ClusterState → ClusterState
unfolding update
put_slot owner epoch slot g = record g {
  slot_owner = update slot owner g.slot_owner;
  slot_config_epoch = update slot epoch g.slot_config_epoch;
  migrating = update slot none g.migrating;
  importing = update slot none g.importing;
  prepare_node = update slot none g.prepare_node;
}

-- The flags of a node that is there.
unfoldable pub set_node_flags : Bytes → (ClusterNode → ClusterNode) → ClusterState → ClusterState
set_node_flags id f g = record g { nodes = kore.Base.Table.update id f g.nodes }
