-- ===== src/Redlock/Tests.antt =====
-- Runs of the distributed lock of src/redlock/mod.rs over three keyspaces in memory.
use kore.Base.{
  ℕ, zero, suc, ◌+◌, ◌≤◌, ◌<◌, ◌≡◌, ◌≢◌, refl, Bool, true, false, Option, none, some, List, [], ◌∷◌,
  arith, Bytes,
}
use kore.Base.Table.{Table, lookup, insert}
use kore.FairQueue
use kore.FairQueue.{FairQueue, enqueue}
use kore.Deadlock.{DeadlockDetector, youngest, new_with_strategy}
use kore.Redlock.{Lock, quorum_of, lock_key, try_lock, extend}
use kore.Redlock.Quorum.{HasQuorum, try_lock_excluded}
use kore.Redlock.Memory.{memory, memory-IsBackend, stores}
use kore.Redlock.Service.{Service, Request, Pass, attempt}
use kore.Redlock.Attempts.{LeavesQueue, LockedWell, attempt-LeavesQueue, attempt-LockedWell}

abbrev ann : Bytes
ann = 97 ∷ []

abbrev bob : Bytes
bob = 98 ∷ []

abbrev disk : Bytes
disk = 100 ∷ []

abbrev disk_key : Bytes
disk_key = 108 ∷ 111 ∷ 99 ∷ 107 ∷ 58 ∷ 100 ∷ []

-- Ann holds two of the three keyspaces.
abbrev three : List (Table Bytes)
three = ((disk_key, ann) ∷ []) ∷ ((disk_key, ann) ∷ []) ∷ [] ∷ []

abbrev free_instances : List (Table Bytes)
free_instances = [] ∷ [] ∷ [] ∷ []

abbrev anns_lock : Lock
anns_lock = record { resource = disk; val = ann; validity_time = 87 }

anns_quorum : HasQuorum memory-IsBackend (lock_key disk) ann three
unfolding try_lock kore.Redlock.acquire_all kore.Redlock.validity quorum_of lock_key stores
    kore.Redlock.Memory.set_if_absent lookup insert kore.Base.same
anns_quorum = omega arith

ann_locks : (try_lock memory 1 10 disk ann 100 free_instances).1 ≡ some anns_lock
unfolding try_lock kore.Redlock.acquire_all kore.Redlock.validity quorum_of lock_key stores
    kore.Redlock.Memory.set_if_absent lookup insert kore.Base.same
ann_locks = refl

not_bob : bob ≢ ann
not_bob = λ e. ground arith

abbrev waiting_room : FairQueue
waiting_room =
    (enqueue (record { client_id = ann; resource = disk; queued_at = 5; ttl = 100; priority = 0 })
      (FairQueue.new 5)).0

abbrev watcher : DeadlockDetector
watcher = new_with_strategy 30000 true youngest

abbrev service : Service (Table Bytes)
service = record {
  instances = free_instances;
  fair_queue = some waiting_room;
  deadlock_detector = some watcher;
}

abbrev request : Request
request = record { resource = disk; val = ann; ttl_ms = 100; priority = 0 }

abbrev first_pass : Pass
first_pass = record { now = 10; deadline = 110; elapsed_ms = 1; scaled_ttl = 10; is_last = false }

try_lock_excluded_example :
    ((try_lock memory 1 10 disk bob 100 three).1 ≡ none)
    × HasQuorum memory-IsBackend (lock_key disk) ann (try_lock memory 1 10 disk bob 100 three).0
try_lock_excluded_example =
    try_lock_excluded memory-IsBackend 1 10 disk bob ann 100 three not_bob anns_quorum

attempt-LeavesQueue_example :
    (q' : FairQueue) × ((attempt memory first_pass request service).0.fair_queue ≡ some q')
    × LeavesQueue request first_pass waiting_room (attempt memory first_pass request service).1 q'
attempt-LeavesQueue_example =
    attempt-LeavesQueue memory first_pass request waiting_room service refl

attempt-LockedWell_example :
    LockedWell memory-IsBackend first_pass request (attempt memory first_pass request service)
attempt-LockedWell_example = attempt-LockedWell memory-IsBackend first_pass request service
