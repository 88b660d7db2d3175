-- ===== src/Redlock/Service.antt =====
-- `lock_with_priority` of src/redlock/mod.rs: the distributed lock with the fair queue, which orders
-- the clients, and the deadlock detector. One pass of its retry loop is one step on the shared state.
use kore.Base.{ℕ, Bool, Option, none, some, List, [], ◌∷◌, leb, if◌then◌else◌, Bytes}
use kore.FairQueue.{FairQueue, enqueue, try_acquire, remove_client, dequeue_client}
use kore.Deadlock.{
  DeadlockDetector, record_lock_wait, remove_from_waiting, record_lock_acquired,
  cleanup_expired_into, release_client_locks, record_lock_released, held_resources_for_client,
}
use kore.Deadlock.Search.{DeadlockStatus, deadlock, no_deadlock, detect_from_graph}
use kore.Deadlock.Victims.{resolve_deadlock}
use kore.Redlock.{
  LockBackend, Lock, lock_key, unlock_instances, all_indices, try_lock, unlock_backends,
}
use mathlib.Core.Option

pub record Service (S : Type 0) : Type 0 where
  pub instances : List S
  pub fair_queue : Option FairQueue
  pub deadlock_detector : Option DeadlockDetector

pub data LockError : Type 0 where
  queue_full timed_out deadlock_detected quorum_not_reached retries_exhausted : LockError

pub data Progress : Type 0 where
  keep_trying : Progress
  locked : Lock → Progress
  failed : LockError → Progress

-- What one client asks for: the resource, its token, and the TTL.
pub record Request : Type 0 where
  pub resource : Bytes
  pub val : Bytes
  pub ttl_ms : ℕ
  pub priority : ℕ

-- What is read from outside in one pass: the clock, the time that the calls of the instances take, the
-- scaled TTL, and if this is the last pass.
pub record Pass : Type 0 where
  pub now : ℕ
  pub deadline : ℕ
  pub elapsed_ms : ℕ
  pub scaled_ttl : ℕ
  pub is_last : Bool

module _ {S : Type 0} (b : LockBackend S) where
  -- The client leaves the queue and stops waiting: at the deadline, and after the last pass.
  unfoldable pub give_up : Request → Service S → Service S
  give_up req s = record s {
    fair_queue = Option.map (λ q. (remove_client req.resource req.val q).0) s.fair_queue;
    deadlock_detector = Option.map (remove_from_waiting req.val) s.deadlock_detector;
  }

  unfoldable pub unlock_resources : Bytes → List Bytes → List S → List S
  unlock_resources victim [] instances = instances
  unlock_resources victim (r ∷ rs) instances =
      unlock_resources victim rs
        (unlock_instances b (lock_key r) victim (all_indices b 0 instances) instances)

  -- The locks of the victim are released at the backends, then in the graph.
  unfoldable pub abort_victim : Option Bytes → DeadlockDetector → Service S → Service S
  abort_victim none d s = record s { deadlock_detector = some d }
  abort_victim (some victim) d s = record s {
    instances = unlock_resources victim (held_resources_for_client victim d) s.instances;
    deadlock_detector = some (release_client_locks victim d).0;
  }

  unfoldable pub after_lock : Pass → Request → Service S → Option Lock → Service S × Progress
  after_lock p req s (some l) = (
    record s {
      fair_queue = Option.map (λ q. (dequeue_client p.now req.resource req.val q).0) s.fair_queue;
      deadlock_detector =
          Option.map (record_lock_acquired p.now req.resource req.val req.ttl_ms)
            s.deadlock_detector;
    },
    locked l,
  )
  after_lock p req s none =
      if p.is_last then (give_up req s, failed quorum_not_reached) else (s, keep_trying)

  unfoldable pub lock_now : Pass → Request → Service S → Service S × Progress
  lock_now p req s =
      let (instances, l) =
        try_lock b p.elapsed_ms p.scaled_ttl req.resource req.val req.ttl_ms s.instances in
      after_lock p req (record s { instances = instances }) l

  unfoldable pub with_status :
      Pass → Request → DeadlockDetector → Service S → DeadlockStatus → Service S × Progress
  with_status p req d s no_deadlock = lock_now p req (record s { deadlock_detector = some d })
  with_status p req d s (deadlock cycle resources) =
      if d.auto_resolve then lock_now p req (abort_victim (resolve_deadlock cycle d) d s) else (
        record s { deadlock_detector = some (remove_from_waiting req.val d) },
        failed deadlock_detected,
      )

  unfoldable pub check_and_lock :
      Pass → Request → Service S → Option DeadlockDetector → Service S × Progress
  check_and_lock p req s none = lock_now p req s
  check_and_lock p req s (some d) =
      let d' = cleanup_expired_into p.now d in
      with_status p req d' s (detect_from_graph d'.wait_graph)

  -- A client whose turn it is not waits for the next pass; after the last pass it gives up.
  unfoldable pub take_turn : Pass → Request → Service S → Option FairQueue → Service S × Progress
  take_turn p req s none = check_and_lock p req s s.deadlock_detector
  take_turn p req s (some q) =
      let (q', granted) = try_acquire p.now req.resource req.val q in
      let s' : Service S = record s { fair_queue = some q' } in
      if granted
      then check_and_lock p req s' s'.deadlock_detector
      else if p.is_last
      then (give_up req s', failed retries_exhausted)
      else (s', keep_trying)

  unfoldable pub attempt : Pass → Request → Service S → Service S × Progress
  attempt p req s =
      if leb p.deadline p.now
      then (give_up req s, failed timed_out)
      else take_turn p req s s.fair_queue

  -- The part before the loop: the client is enqueued, unless the queue is full, and its wait is
  -- recorded.
  unfoldable pub start_waiting : ℕ → Request → Service S → Option FairQueue → Service S × Progress
  start_waiting now req s none = (
    record s {
      deadlock_detector =
          Option.map (record_lock_wait now req.resource req.val req.ttl_ms) s.deadlock_detector;
    },
    keep_trying,
  )
  start_waiting now req s (some q) =
      let (q', room) =
        enqueue
          (record {
            client_id = req.val;
            resource = req.resource;
            queued_at = now;
            ttl = req.ttl_ms;
            priority = req.priority;
          })
          q in
      if room
      then (
        record s {
          fair_queue = some q';
          deadlock_detector =
              Option.map (record_lock_wait now req.resource req.val req.ttl_ms) s.deadlock_detector;
        },
        keep_trying,
      )
      else (record s { fair_queue = some q' }, failed queue_full)

  unfoldable pub unlock : Lock → Service S → Service S
  unlock l s = record s {
    instances = unlock_backends b l s.instances;
    deadlock_detector = Option.map (record_lock_released l.resource l.val) s.deadlock_detector;
  }
