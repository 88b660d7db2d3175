-- ===== src/Deadlock/Tests.antt =====
-- Runs of the deadlock detector of src/deadlock.rs on small graphs.
use kore.Base.{
  ℕ, zero, suc, ◌≡◌, ◌≢◌, refl, Bool, true, false, not, Option, none, some, List, [], ◌∷◌,
  if◌then◌else◌, Bytes, same, ◌⊎◌, inl, inr,
}
use kore.Base.Table.{Table, lookup, Distinct}
use kore.Deadlock.{
  LockInfo, WaitEdge, youngest, DeadlockDetector, new_with_strategy, member, record_lock_acquired,
  record_lock_wait, release_client_locks,
}
use kore.Deadlock.Merge.{DeadlockGraphSnapshot, merge_snapshot}
use kore.Deadlock.Search.{adjacency_of, deadlock, no_deadlock, detect_from_graph}
use kore.Deadlock.Search.Trails.{Trail}
use kore.Deadlock.Search.Cycles.{Leads, Waits, detect_from_graph_sound, detect_from_graph_complete}
use kore.Deadlock.Holders.{IsSound}
use kore.Deadlock.Holders.Merged.{Reachable, created, acquired, waits, merged, Reachable-IsSound}
use kore.Deadlock.Victims.{Candidate, resolve_deadlock, holds_some, resolve_deadlock_lem}
use kore.Deadlock.Victims.Release.{release_client_locks_lem}

abbrev ann : Bytes
ann = 97 ∷ []

abbrev bob : Bytes
bob = 98 ∷ []

abbrev disk : Bytes
disk = 100 ∷ []

abbrev tape : Bytes
tape = 116 ∷ []

abbrev ann_for_tape : WaitEdge
ann_for_tape = record { waiter = ann; holder = bob; resource = tape; timestamp = 5 }

abbrev bob_for_disk : WaitEdge
bob_for_disk = record { waiter = bob; holder = ann; resource = disk; timestamp = 6 }

abbrev crossed : List WaitEdge
crossed = ann_for_tape ∷ bob_for_disk ∷ []

abbrev straight : List WaitEdge
straight = ann_for_tape ∷ []

abbrev both : List Bytes
both = ann ∷ bob ∷ []

abbrev their_resources : List Bytes
their_resources = tape ∷ disk ∷ []

abbrev disk_of_ann : LockInfo
disk_of_ann = record { resource = disk; client_id = ann; timestamp = 1; ttl_ms = 1000 }

abbrev tape_of_bob : LockInfo
tape_of_bob = record { resource = tape; client_id = bob; timestamp = 2; ttl_ms = 1000 }

abbrev ann_stands : Candidate
ann_stands = record { client = ann; count = 1; earliest = 1; latest = 1 }

abbrev bob_stands : Candidate
bob_stands = record { client = bob; count = 1; earliest = 2; latest = 2 }

abbrev bob_alone : List Candidate
bob_alone = bob_stands ∷ []

abbrev stuck_detector : DeadlockDetector
stuck_detector = record {
  held_locks = (disk, disk_of_ann) ∷ (tape, tape_of_bob) ∷ [];
  waiting_for = [];
  wait_graph = crossed;
  max_wait_time_ms = 30000;
  auto_resolve = true;
  victim_strategy = youngest;
}

stuck-Distinct : Distinct stuck_detector.held_locks
unfolding lookup kore.Base.same
stuck-Distinct = (refl, (refl, tt))

crossed_found : detect_from_graph crossed ≡ deadlock both their_resources
unfolding detect_from_graph kore.Deadlock.Search.try_starts kore.Deadlock.Search.find_cycle_dfs
    kore.Deadlock.Search.cut_path kore.Deadlock.Search.dfs_visit kore.Deadlock.Search.scan
    kore.Deadlock.Search.leave kore.Deadlock.Search.after_visit kore.Deadlock.Search.enter
    kore.Deadlock.Search.push_resource kore.Deadlock.Search.pop_resource kore.Deadlock.Search.pop
    kore.Deadlock.Search.without kore.Deadlock.Search.neighbors adjacency_of
    kore.Deadlock.Search.add_edge member lookup kore.Base.same kore.Base.position
    kore.Base.Table.update kore.Base.Table.or_insert kore.Base.Table.insert
    kore.Base.Table.contains_key kore.Base.Table.keys
crossed_found = refl

straight_free : detect_from_graph straight ≡ no_deadlock
unfolding detect_from_graph kore.Deadlock.Search.try_starts kore.Deadlock.Search.find_cycle_dfs
    kore.Deadlock.Search.cut_path kore.Deadlock.Search.dfs_visit kore.Deadlock.Search.scan
    kore.Deadlock.Search.leave kore.Deadlock.Search.after_visit kore.Deadlock.Search.enter
    kore.Deadlock.Search.push_resource kore.Deadlock.Search.pop_resource kore.Deadlock.Search.pop
    kore.Deadlock.Search.without kore.Deadlock.Search.neighbors adjacency_of
    kore.Deadlock.Search.add_edge member lookup kore.Base.same kore.Base.position
    kore.Base.Table.update kore.Base.Table.or_insert kore.Base.Table.insert
    kore.Base.Table.contains_key kore.Base.Table.keys
straight_free = refl

abbrev empty_snapshot : DeadlockGraphSnapshot
empty_snapshot = record { held = []; waits = []; orphan_waits = [] }

abbrev grown : DeadlockDetector
grown = merge_snapshot 9 empty_snapshot (
    record_lock_wait 5 disk bob 1000
      (record_lock_acquired 1 disk ann 1000 (new_with_strategy 30000 true youngest)))

grown-Reachable : Reachable grown
grown-Reachable =
    merged _ 9 empty_snapshot
      (waits _ 5 disk bob 1000 (acquired _ 1 disk ann 1000 (created 30000 true youngest)))

detect_from_graph_sound_example :
    (x : Bytes) × Trail (adjacency_of [] crossed) both their_resources x
    × (member x both ≡ true)
    × Leads crossed x x
detect_from_graph_sound_example = detect_from_graph_sound crossed both their_resources crossed_found

detect_from_graph_complete_example : ¬ Leads straight ann ann
detect_from_graph_complete_example = detect_from_graph_complete straight ann straight_free

resolve_deadlock_lem_example :
    ((v : Bytes) × (resolve_deadlock both stuck_detector ≡ some v)
      × (member v both ≡ true)
      × (holds_some v stuck_detector.held_locks ≡ true))
    ⊎ ((resolve_deadlock both stuck_detector ≡ none)
        × ((x : Bytes) → member x both ≡ true → holds_some x stuck_detector.held_locks ≡ false))
resolve_deadlock_lem_example = resolve_deadlock_lem both stuck_detector refl

release_client_locks_lem_example :
    let d' = (release_client_locks bob stuck_detector).0 in
    ((r : Bytes)
      → lookup r d'.held_locks ≡ elim (lookup r stuck_detector.held_locks) [
        | none ↦ none
        | some info ↦ if not (same info.client_id bob) then some info else none
      ])
    × ((a r b : Bytes) → Waits d'.wait_graph a r b → (a ≢ bob) × (b ≢ bob))
    × (lookup bob d'.waiting_for ≡ none)
    × (¬ Leads d'.wait_graph bob bob)
release_client_locks_lem_example = release_client_locks_lem bob stuck_detector stuck-Distinct

Reachable-IsSound_example : IsSound grown
Reachable-IsSound_example = Reachable-IsSound grown grown-Reachable
