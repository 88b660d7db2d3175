-- ===== src/Deadlock/Merge.antt =====
-- `merge_snapshot` of src/deadlock.rs: the wait-for graph of another process is merged into this one.
-- A text of a snapshot is given by its bytes, so a client ID and its text are the same here.
use kore.Base.{
  ℕ, ◌-◌, Bool, false, ◌||◌, none, some, List, [], ◌∷◌, ◌++◌, leb, if◌then◌else◌, Bytes, same,
}
use kore.Base.Table.{Table, lookup, contains_key, insert}
use kore.Deadlock.{LockInfo, WaitEdge, DeadlockDetector, edge_exists, push_new, push_wait}
use mathlib.Core.Option

pub record HeldLockSnapshot : Type 0 where
  pub resource : Bytes
  pub client_id : Bytes
  pub ttl_ms : ℕ
  pub held_for_ms : ℕ

pub record WaitEdgeSnapshot : Type 0 where
  pub waiter : Bytes
  pub holder : Bytes
  pub resource : Bytes
  pub wait_elapsed_ms : ℕ

pub record OrphanWaitSnapshot : Type 0 where
  pub waiter : Bytes
  pub resource : Bytes
  pub wait_elapsed_ms : ℕ

pub record DeadlockGraphSnapshot : Type 0 where
  pub held : List HeldLockSnapshot
  pub waits : List WaitEdgeSnapshot
  pub orphan_waits : List OrphanWaitSnapshot

-- Local ownership wins; a hold that had expired at the export is not revived.
unfoldable pub merge_hold : ℕ → HeldLockSnapshot → Table LockInfo → Table LockInfo
merge_hold now h held =
    let remaining_ttl = h.ttl_ms - h.held_for_ms in
    if contains_key h.resource held || leb remaining_ttl 0
    then held
    else insert h.resource
        (record {
          resource = h.resource;
          client_id = h.client_id;
          timestamp = now;
          ttl_ms = remaining_ttl;
        })
        held

unfoldable pub merge_holds : ℕ → Table LockInfo → List HeldLockSnapshot → Table LockInfo
merge_holds now held [] = held
merge_holds now held (h ∷ hs) = merge_holds now (merge_hold now h held) hs

-- The current holder of the resource, if it is known.
unfoldable pub holder_or : Table LockInfo → Bytes → Bytes → Bytes
holder_or held r holder = elim (lookup r held) [ none ↦ holder | some info ↦ info.client_id ]

unfoldable pub reconcile : Table LockInfo → List WaitEdge → List WaitEdge → List WaitEdge
reconcile held graph [] = graph
reconcile held graph (e ∷ es) =
    let holder = holder_or held e.resource e.holder in
    reconcile held
      (if same holder e.waiter then graph else push_new (record e { holder = holder }) graph) es

unfoldable pub waits_already : Bytes → List LockInfo → Bool
waits_already r [] = false
waits_already r (i ∷ infos) = same i.resource r || waits_already r infos

unfoldable pub ensure_waiting :
    Bytes → Bytes → ℕ → ℕ → Table (List LockInfo) → Table (List LockInfo)
ensure_waiting waiter r timestamp max_wait_ms m =
    if waits_already r (Option.get_or (lookup waiter m) [])
    then m
    else push_wait waiter
        (record { resource = r; client_id = waiter; timestamp = timestamp; ttl_ms = max_wait_ms }) m

-- `Instant::now().checked_sub(elapsed).unwrap_or_else(Instant::now)`.
unfoldable pub started : ℕ → ℕ → ℕ
started now elapsed = if leb elapsed now then now - elapsed else now

abbrev pub Waiting : Type 0
Waiting = Table (List LockInfo) × List WaitEdge

-- A wait for a known holder becomes an edge, unless it is a self-wait or is there.
unfoldable pub link : ℕ → ℕ → Bytes → Bytes → Bytes → ℕ → Waiting → Waiting
link now max_wait_ms waiter holder r elapsed (m, graph) =
    if same holder waiter || edge_exists graph waiter holder r then (m, graph) else (
      ensure_waiting waiter r (started now elapsed) max_wait_ms m,
      graph
          ++ record {
            waiter = waiter;
            holder = holder;
            resource = r;
            timestamp = started now elapsed;
          }
            ∷ [],
    )

unfoldable pub union_waits : ℕ → ℕ → Table LockInfo → Waiting → List WaitEdgeSnapshot → Waiting
union_waits now max_wait_ms held w [] = w
union_waits now max_wait_ms held w (e ∷ es) =
    union_waits now max_wait_ms held
      (link now max_wait_ms e.waiter (holder_or held e.resource e.holder) e.resource
        e.wait_elapsed_ms w)
      es

unfoldable pub link_orphan : ℕ → ℕ → Table LockInfo → OrphanWaitSnapshot → Waiting → Waiting
link_orphan now max_wait_ms held o w = elim (lookup o.resource held) [
  | none ↦ (ensure_waiting o.waiter o.resource (started now o.wait_elapsed_ms) max_wait_ms w.0, w.1)
  | some info ↦ link now max_wait_ms o.waiter info.client_id o.resource o.wait_elapsed_ms w
]

unfoldable pub link_orphans : ℕ → ℕ → Table LockInfo → Waiting → List OrphanWaitSnapshot → Waiting
link_orphans now max_wait_ms held w [] = w
link_orphans now max_wait_ms held w (o ∷ os) =
    link_orphans now max_wait_ms held (link_orphan now max_wait_ms held o w) os

-- The entries of `waiting_for` are linked to the holders known now. An edge is pushed unless it is in
-- the graph or among the edges pushed before it.
unfoldable pub relink_entry : Table LockInfo → Bytes → List WaitEdge → LockInfo → List WaitEdge
relink_entry held waiter graph i = elim (lookup i.resource held) [
  | none ↦ graph
  | some info ↦
      if same info.client_id waiter
      then graph
      else push_new
          (record {
            waiter = waiter;
            holder = info.client_id;
            resource = i.resource;
            timestamp = i.timestamp;
          })
          graph
]

unfoldable pub relink_entries :
    Table LockInfo → Bytes → List WaitEdge → List LockInfo → List WaitEdge
relink_entries held waiter graph [] = graph
relink_entries held waiter graph (i ∷ infos) =
    relink_entries held waiter (relink_entry held waiter graph i) infos

unfoldable pub relink : Table LockInfo → List WaitEdge → Table (List LockInfo) → List WaitEdge
relink held graph [] = graph
relink held graph ((waiter, infos) ∷ m) = relink held (relink_entries held waiter graph infos) m

unfoldable pub merge_snapshot : ℕ → DeadlockGraphSnapshot → DeadlockDetector → DeadlockDetector
merge_snapshot now remote d =
    let max_wait_ms = d.max_wait_time_ms in
    let held = merge_holds now d.held_locks remote.held in
    let graph = reconcile held [] d.wait_graph in
    let w = union_waits now max_wait_ms held (d.waiting_for, graph) remote.waits in
    let (waiting, graph') = link_orphans now max_wait_ms held w remote.orphan_waits in
    record d { held_locks = held; waiting_for = waiting; wait_graph = relink held graph' waiting }
