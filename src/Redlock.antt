-- ===== src/Redlock.antt =====
-- The distributed lock: src/redlock/mod.rs over the backends of src/redlock/backend.rs. The clock, the
-- time that the calls take and the drift are arguments.
pub mod Quorum
pub mod Memory
pub mod Service
pub mod Attempts
mod Tests
use kore.Base.{
  ℕ, zero, suc, ◌+◌, ◌-◌, ◌/◌, Bool, true, false, not, ◌&&◌, Option, none, some, List, [], ◌∷◌,
  ◌++◌, ltb, leb, if◌then◌else◌, length, Bytes,
}
use kore.FairQueue
use kore.FairQueue.{FairQueue, QueuedClient}
use kore.Deadlock
use kore.Deadlock.{DeadlockDetector}
use kore.Deadlock.Search.{DeadlockStatus, deadlock, no_deadlock, detect_from_graph}
use kore.Deadlock.Victims.{resolve_deadlock}

-- What the algorithm needs of one independent keyspace, whose state is `S`.
pub record LockBackend (S : Type 0) : Type 0 where
  pub try_acquire : Bytes → Bytes → ℕ → S → S × Bool
  pub release_if_equal : Bytes → Bytes → S → S
  pub extend_if_equal : Bytes → Bytes → ℕ → S → S × Bool

pub record Lock : Type 0 where
  pub resource : Bytes
  pub val : Bytes
  pub validity_time : ℕ

-- A majority of the instances.
unfoldable pub quorum_of : ℕ → ℕ
quorum_of n = n / 2 + 1

-- `format!("lock:{}", resource)`.
unfoldable pub lock_key : Bytes → Bytes
lock_key resource = b'l' ∷ b'o' ∷ b'c' ∷ b'k' ∷ b':' ∷ resource

module _ {S : Type 0} (b : LockBackend S) where
  -- Tries every instance, and returns the indices of those that were acquired.
  unfoldable pub acquire_all : Bytes → Bytes → ℕ → ℕ → List S → List S × List ℕ
  acquire_all key val ttl_ms idx [] = ([], [])
  acquire_all key val ttl_ms idx (s ∷ instances) =
      let (s', acquired) = b.try_acquire key val ttl_ms s in
      let (rest, indices) = acquire_all key val ttl_ms (suc idx) instances in
      (s' ∷ rest, if acquired then idx ∷ indices else indices)

  -- `instances.get(idx)`: an index out of range does nothing.
  unfoldable pub release_at : Bytes → Bytes → ℕ → List S → List S
  release_at key val idx [] = []
  release_at key val zero (s ∷ instances) = b.release_if_equal key val s ∷ instances
  release_at key val (suc idx) (s ∷ instances) = s ∷ release_at key val idx instances

  unfoldable pub unlock_instances : Bytes → Bytes → List ℕ → List S → List S
  unlock_instances key val [] instances = instances
  unlock_instances key val (idx ∷ indices) instances =
      unlock_instances key val indices (release_at key val idx instances)

  unfoldable pub all_indices : ℕ → List S → List ℕ
  all_indices idx [] = []
  all_indices idx (s ∷ instances) = idx ∷ all_indices (suc idx) instances

  -- The validity is what is left of the TTL after the time that passed and the drift.
  unfoldable pub validity : ℕ → ℕ → ℕ → ℕ
  validity ttl_ms elapsed_ms scaled_ttl = (ttl_ms - elapsed_ms) - (scaled_ttl + 2)

  unfoldable pub try_lock : ℕ → ℕ → Bytes → Bytes → ℕ → List S → List S × Option Lock
  try_lock elapsed_ms scaled_ttl resource val ttl_ms instances =
      let key = lock_key resource in
      let (held, indices) = acquire_all key val ttl_ms 0 instances in
      let validity_time = validity ttl_ms elapsed_ms scaled_ttl in
      if leb (quorum_of (length instances)) (length indices) && ltb 0 validity_time
      then (held, some (record { resource = resource; val = val; validity_time = validity_time }))
      else (unlock_instances key val indices held, none)

  unfoldable pub unlock_backends : Lock → List S → List S
  unlock_backends l instances =
      unlock_instances (lock_key l.resource) l.val (all_indices 0 instances) instances

  unfoldable pub extend_all : Bytes → Bytes → ℕ → List S → List S × ℕ
  extend_all key val ttl_ms [] = ([], 0)
  extend_all key val ttl_ms (s ∷ instances) =
      let (s', extended) = b.extend_if_equal key val ttl_ms s in
      let (rest, n) = extend_all key val ttl_ms instances in
      (s' ∷ rest, if extended then suc n else n)

  unfoldable pub extend : Lock → ℕ → List S → List S × Bool
  extend l ttl_ms instances =
      let (instances', n) = extend_all (lock_key l.resource) l.val ttl_ms instances in
      (instances', leb (quorum_of (length instances)) n)
