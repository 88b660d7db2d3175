-- ===== src/Stream/Snapshot.antt =====
-- The export and import of a whole stream for persistence: `export_state` and `import_state` of
-- src/stream_type.rs.
pub mod Restored
use kore.Base.{
  ℕ, zero, suc, ◌+◌, Bool, true, false, Option, none, some, List, [], ◌∷◌, if◌then◌else◌, length,
  Bytes, map,
}
use kore.Base.Table.{Table, insert, update, or_insert}
use kore.Stream.Id.{StreamId, zero_id, lt_id}
use kore.Stream.Index.{Index, put, values, last_key}
use kore.Stream.State.{
  StreamEntry, PendingEntry, Consumer, ConsumerGroup, RedisStream, new_group, later_of,
}
use kore.Stream.Groups.{gain_one}

pub record GroupSnapshot : Type 0 where
  pub name : Bytes
  pub last_delivered_id : StreamId
  pub pending : List PendingEntry
  pub consumers : List Consumer

-- The snapshots of a pending entry and of a consumer have the fields of the originals.
pub record StreamStateSnapshot : Type 0 where
  pub last_generated_id : StreamId
  pub entries : List (StreamId × List (Bytes × Bytes))
  pub groups : List GroupSnapshot

unfoldable pub export_entries : Index StreamEntry → List (StreamId × List (Bytes × Bytes))
export_entries [] = []
export_entries ((id, e) ∷ m) = (e.id, e.fields) ∷ export_entries m

-- `values()` of a hash map.
unfoldable pub table_values {ℓ} : {V : Type ℓ} → Table V → List V
table_values [] = []
table_values ((k, v) ∷ m) = v ∷ table_values m

unfoldable pub export_group : ConsumerGroup → GroupSnapshot
export_group g = record {
  name = g.name;
  last_delivered_id = g.last_delivered_id;
  pending = values g.pending;
  consumers = table_values g.consumers;
}

unfoldable pub export_state : RedisStream → StreamStateSnapshot
export_state s = record {
  last_generated_id = s.last_generated_id;
  entries = export_entries s.entries;
  groups = map export_group (table_values s.groups);
}

unfoldable pub import_entries :
    Index StreamEntry → List (StreamId × List (Bytes × Bytes)) → Index StreamEntry
import_entries m [] = m
import_entries m ((id, fields) ∷ es) =
    import_entries (put id (record { id = id; fields = fields }) m) es

unfoldable pub import_consumers : Table Consumer → List Consumer → Table Consumer
import_consumers cs [] = cs
import_consumers cs (c ∷ rest) = import_consumers (insert c.name c cs) rest

-- The owner of an entry gets a consumer if it has none.
unfoldable pub import_pending : ConsumerGroup → List PendingEntry → ConsumerGroup
import_pending g [] = g
import_pending g (pe ∷ rest) =
    import_pending
      (record g {
        consumers =
            or_insert pe.consumer
              (record { name = pe.consumer; seen_time_ms = pe.delivery_time_ms; pending = 0 })
              g.consumers;
        pending = put pe.id pe g.pending;
      })
      rest

unfoldable pub zero_counts : Table Consumer → Table Consumer
zero_counts [] = []
zero_counts ((k, c) ∷ cs) = (k, record c { pending = 0 }) ∷ zero_counts cs

unfoldable pub count_pending : Table Consumer → Index PendingEntry → Table Consumer
count_pending cs [] = cs
count_pending cs ((id, pe) ∷ m) = count_pending (update pe.consumer gain_one cs) m

unfoldable pub import_group : GroupSnapshot → ConsumerGroup
import_group gs =
    let fresh = new_group gs.name gs.last_delivered_id in
    let g =
      import_pending (record fresh { consumers = import_consumers fresh.consumers gs.consumers })
        gs.pending in
    record g { consumers = count_pending (zero_counts g.consumers) g.pending }

unfoldable pub import_groups : Table ConsumerGroup → List GroupSnapshot → Table ConsumerGroup
import_groups groups [] = groups
import_groups groups (gs ∷ rest) = import_groups (insert gs.name (import_group gs) groups) rest

unfoldable pub top_id : Option StreamId → StreamId → StreamId
top_id none id = id
top_id (some k) id = if lt_id id k then k else id

unfoldable pub import_state : StreamStateSnapshot → RedisStream
import_state state =
    let entries = import_entries [] state.entries in
    record {
      entries = entries;
      last_generated_id = top_id (last_key entries) state.last_generated_id;
      entries_added = length entries;
      max_deleted_entry_id = zero_id;
      groups = import_groups [] state.groups;
    }
