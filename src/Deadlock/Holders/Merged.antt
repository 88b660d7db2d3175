-- ===== src/Deadlock/Holders/Merged.antt =====
-- The merge of a snapshot keeps the edges true, and the states that the operations reach.
use kore.Base.{
  ℕ, ◌≡◌, Bool, ◌||◌, some, List, [], ◌∷◌, arith, Bytes, same, Option-cases, Bool-cases, inl, inr,
  leb, ◌-◌,
}
use kore.Base.Table.{Table, lookup, contains_key, Distinct, insert-Distinct}
use kore.Deadlock.{
  LockInfo, WaitEdge, VictimSelectionStrategy, DeadlockDetector, new_with_strategy, edge_exists,
  record_lock_acquired, record_lock_released, record_lock_wait, remove_from_waiting,
  cleanup_expired_into, release_client_locks,
}
use kore.Deadlock.Merge.{
  HeldLockSnapshot, WaitEdgeSnapshot, OrphanWaitSnapshot, DeadlockGraphSnapshot, merge_hold,
  merge_holds, holder_or, reconcile, link, union_waits, link_orphan, link_orphans, relink_entry,
  relink_entries, relink, merge_snapshot, Waiting,
}
use kore.Deadlock.Holders.{
  AllAgree, IsSound, snoc-AllAgree, push_new-AllAgree, record_lock_acquired-IsSound,
  record_lock_released-IsSound, record_lock_wait-IsSound, remove_from_waiting-IsSound,
  cleanup_expired_into-IsSound, release_client_locks-IsSound,
}

merge_hold-Distinct :
    (now : ℕ) (h : HeldLockSnapshot) (held : Table LockInfo)
    → Distinct held
    → Distinct (merge_hold now h held)
unfolding merge_hold
merge_hold-Distinct now h held d =
    elim (Bool-cases (contains_key h.resource held || leb (h.ttl_ms - h.held_for_ms) 0)) [
      | inl p ↦ rw p d
      | inr p ↦ rw p (insert-Distinct h.resource _ held d)
    ]

merge_holds-Distinct :
    (now : ℕ) (hs : List HeldLockSnapshot) (held : Table LockInfo)
    → Distinct held
    → Distinct (merge_holds now held hs)
unfolding merge_holds
merge_holds-Distinct now [] held d = d
merge_holds-Distinct now (h ∷ hs) held d =
    merge_holds-Distinct now hs (merge_hold now h held) (merge_hold-Distinct now h held d)

holder_or_agrees :
    (held : Table LockInfo) (r holder : Bytes) (info : LockInfo)
    → lookup r held ≡ some info
    → holder_or held r holder ≡ info.client_id
unfolding holder_or
holder_or_agrees held r holder info e = ground arith

reconcile-AllAgree :
    (held : Table LockInfo) (es graph : List WaitEdge)
    → AllAgree held graph
    → AllAgree held (reconcile held graph es)
unfolding reconcile
reconcile-AllAgree held [] graph g = g
reconcile-AllAgree held (e ∷ es) graph g =
    elim (Bool-cases (same (holder_or held e.resource e.holder) e.waiter)) [
      | inl p ↦ rw p (reconcile-AllAgree held es graph g)
      | inr p ↦ rw p (
          reconcile-AllAgree held es _ (
            push_new-AllAgree held _ graph
              (λ info l. holder_or_agrees held e.resource e.holder info l) g))
    ]

link-AllAgree :
    (held : Table LockInfo) (now bound : ℕ) (waiter holder r : Bytes) (elapsed : ℕ) (w : Waiting)
    → ((info : LockInfo) → lookup r held ≡ some info → holder ≡ info.client_id)
    → AllAgree held w.1
    → AllAgree held (link now bound waiter holder r elapsed w).1
unfolding link
link-AllAgree held now bound waiter holder r elapsed w h g =
    elim (Bool-cases (same holder waiter || edge_exists w.1 waiter holder r)) [
      | inl p ↦ rw p g
      | inr p ↦ rw p (snoc-AllAgree held _ w.1 h g)
    ]

union_waits-AllAgree :
    (held : Table LockInfo) (now bound : ℕ) (es : List WaitEdgeSnapshot) (w : Waiting)
    → AllAgree held w.1
    → AllAgree held (union_waits now bound held w es).1
unfolding union_waits
union_waits-AllAgree held now bound [] w g = g
union_waits-AllAgree held now bound (e ∷ es) w g = union_waits-AllAgree held now bound es _ (
    link-AllAgree held now bound e.waiter (holder_or held e.resource e.holder) e.resource
      e.wait_elapsed_ms w (holder_or_agrees held e.resource e.holder) g)

link_orphan-AllAgree :
    (held : Table LockInfo) (now bound : ℕ) (o : OrphanWaitSnapshot) (w : Waiting)
    → AllAgree held w.1
    → AllAgree held (link_orphan now bound held o w).1
unfolding link_orphan
link_orphan-AllAgree held now bound o w g = elim (Option-cases (lookup o.resource held)) [
  | inl p ↦ rw (p, link_orphan) g
  | inr (info, p) ↦
      rw (p, link_orphan)
        (link-AllAgree held now bound o.waiter info.client_id o.resource o.wait_elapsed_ms w
          (λ i l. ground arith) g)
]

link_orphans-AllAgree :
    (held : Table LockInfo) (now bound : ℕ) (os : List OrphanWaitSnapshot) (w : Waiting)
    → AllAgree held w.1
    → AllAgree held (link_orphans now bound held w os).1
unfolding link_orphans
link_orphans-AllAgree held now bound [] w g = g
link_orphans-AllAgree held now bound (o ∷ os) w g =
    link_orphans-AllAgree held now bound os _ (link_orphan-AllAgree held now bound o w g)

relink_entry-AllAgree :
    (held : Table LockInfo) (waiter : Bytes) (i : LockInfo) (graph : List WaitEdge)
    → AllAgree held graph
    → AllAgree held (relink_entry held waiter graph i)
unfolding relink_entry
relink_entry-AllAgree held waiter i graph g = elim (Option-cases (lookup i.resource held)) [
  | inl p ↦ rw (p, relink_entry) g
  | inr (info, p) ↦
      rw (p, relink_entry)
        (elim (Bool-cases (same info.client_id waiter)) [
          | inl q ↦ rw q g
          | inr q ↦ rw q (push_new-AllAgree held _ graph (λ j l. ground arith) g)
        ])
]

relink_entries-AllAgree :
    (held : Table LockInfo) (waiter : Bytes) (infos : List LockInfo) (graph : List WaitEdge)
    → AllAgree held graph
    → AllAgree held (relink_entries held waiter graph infos)
unfolding relink_entries
relink_entries-AllAgree held waiter [] graph g = g
relink_entries-AllAgree held waiter (i ∷ infos) graph g =
    relink_entries-AllAgree held waiter infos _ (relink_entry-AllAgree held waiter i graph g)

relink-AllAgree :
    (held : Table LockInfo) (m : Table (List LockInfo)) (graph : List WaitEdge)
    → AllAgree held graph
    → AllAgree held (relink held graph m)
unfolding relink
relink-AllAgree held [] graph g = g
relink-AllAgree held ((w, infos) ∷ m) graph g =
    relink-AllAgree held m _ (relink_entries-AllAgree held w infos graph g)

-- A merge makes the edges agree with the holders, also where the snapshot or the graph before it
-- named others; each resource is held once.
pub merge_snapshot-IsSound :
    (now : ℕ) (remote : DeadlockGraphSnapshot) (d : DeadlockDetector)
    → Distinct d.held_locks
    → IsSound (merge_snapshot now remote d)
unfolding merge_snapshot
merge_snapshot-IsSound now remote d s =
    let held = merge_holds now d.held_locks remote.held in
    record {
      distinct = merge_holds-Distinct now remote.held d.held_locks s;
      agree = relink-AllAgree held _ _ (
          link_orphans-AllAgree held now d.max_wait_time_ms remote.orphan_waits _ (
            union_waits-AllAgree held now d.max_wait_time_ms remote.waits _
              (reconcile-AllAgree held d.wait_graph [] tt)));
    }

-- The states that the operations reach from a new detector.
pub data Reachable : DeadlockDetector → Type 0 where
  created :
      (bound : ℕ) (auto : Bool) (strategy : VictimSelectionStrategy)
      → Reachable (new_with_strategy bound auto strategy)
  acquired :
      (d : DeadlockDetector) (now : ℕ) (r client : Bytes) (ttl : ℕ)
      → Reachable d
      → Reachable (record_lock_acquired now r client ttl d)
  released :
      (d : DeadlockDetector) (r client : Bytes)
      → Reachable d
      → Reachable (record_lock_released r client d)
  waits :
      (d : DeadlockDetector) (now : ℕ) (r client : Bytes) (ttl : ℕ)
      → Reachable d
      → Reachable (record_lock_wait now r client ttl d)
  gave_up :
      (d : DeadlockDetector) (client : Bytes)
      → Reachable d
      → Reachable (remove_from_waiting client d)
  cleaned : (d : DeadlockDetector) (now : ℕ) → Reachable d → Reachable (cleanup_expired_into now d)
  aborted :
      (d : DeadlockDetector) (client : Bytes)
      → Reachable d
      → Reachable (release_client_locks client d).0
  merged :
      (d : DeadlockDetector) (now : ℕ) (remote : DeadlockGraphSnapshot)
      → Reachable d
      → Reachable (merge_snapshot now remote d)

new-IsSound :
    (bound : ℕ) (auto : Bool) (strategy : VictimSelectionStrategy)
    → IsSound (new_with_strategy bound auto strategy)
unfolding new_with_strategy
new-IsSound bound auto strategy = record { distinct = tt; agree = tt }

-- At every time each resource is held once, and an edge of the wait-for graph whose resource is held
-- names its holder.
pub Reachable-IsSound : (d : DeadlockDetector) → Reachable d → IsSound d
Reachable-IsSound _ (created bound auto strategy) = new-IsSound bound auto strategy
Reachable-IsSound _ (acquired d now r client ttl s) =
    record_lock_acquired-IsSound now r client ttl d (Reachable-IsSound d s)
Reachable-IsSound _ (released d r client s) =
    record_lock_released-IsSound r client d (Reachable-IsSound d s)
Reachable-IsSound _ (waits d now r client ttl s) =
    record_lock_wait-IsSound now r client ttl d (Reachable-IsSound d s)
Reachable-IsSound _ (gave_up d client s) =
    remove_from_waiting-IsSound client d (Reachable-IsSound d s)
Reachable-IsSound _ (cleaned d now s) = cleanup_expired_into-IsSound now d (Reachable-IsSound d s)
Reachable-IsSound _ (aborted d client s) =
    release_client_locks-IsSound client d (Reachable-IsSound d s)
Reachable-IsSound _ (merged d now remote s) =
    merge_snapshot-IsSound now remote d (Reachable-IsSound d s).distinct
