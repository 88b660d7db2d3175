-- ===== src/Redlock/Attempts.antt =====
-- What one pass of the retry loop does: when it gets the lock, and how it leaves the fair queue.
use kore.Base.{
  ◌<◌, ◌≡◌, refl, ap, sym, ◌∙◌, subst, Bool, true, false, Option, none, some, [], ◌∷◌, leb,
  if◌then◌else◌, Bytes, same_iff, ◌⊎◌, inl, inr,
}
use kore.FairQueue.{
  QueuedClient, Line, FairQueue, live, line_of, try_acquire, is_front, remove_client,
  dequeue_client,
}
use kore.FairQueue.Turn.{granted_iff}
use kore.FairQueue.Leave.{
  IsOut, Elsewhere, remove_client-IsOut, dequeue_client-IsOut, try_acquire-line,
}
use kore.Deadlock.{DeadlockDetector}
use kore.Deadlock.Search.{DeadlockStatus, deadlock, no_deadlock}
use kore.Deadlock.Victims.{resolve_deadlock}
use kore.Redlock.{LockBackend, Lock, lock_key, try_lock}
use kore.Redlock.Quorum.{IsBackend, HasQuorum, try_lock-HasQuorum}
use kore.Redlock.Service.{
  Service, queue_full, timed_out, deadlock_detected, quorum_not_reached, retries_exhausted,
  Progress, keep_trying, locked, failed, Request, Pass, give_up, abort_victim, after_lock, lock_now,
  with_status, check_and_lock, take_turn, attempt,
}
use mathlib.Core.Option

-- The client is the first one of the line, if anybody waits there.
abbrev pub IsFirst : Bytes → Line → Type 0
IsFirst client queue =
    (queue ≡ [])
    ⊎ ((c : QueuedClient) × (rest : Line) × (queue ≡ c ∷ rest) × (c.client_id ≡ client))

is_front-IsFirst :
    (client : Bytes) (queue : Line) → is_front client (some queue) ≡ true → IsFirst client queue
unfolding is_front
is_front-IsFirst client [] h = inl refl
is_front-IsFirst client (c ∷ queue) h = inr (c, queue, refl, (same_iff c.client_id client).0 h)

-- How a pass leaves the line of its resource, by its outcome: `line` is the line before the pass, `kept`
-- is what has not expired of it, and `after` the line after the pass.
abbrev pub LeavesLine : Request → Pass → Line → Line → Line → Progress → Type 0
LeavesLine req p line kept after keep_trying = (p.is_last ≡ false) × (after ≡ kept)
LeavesLine req p line kept after (locked l) = IsOut req.val kept after
LeavesLine req p line kept after (failed timed_out) = IsOut req.val line after
LeavesLine req p line kept after (failed quorum_not_reached) =
    (p.is_last ≡ true) × IsOut req.val kept after
LeavesLine req p line kept after (failed retries_exhausted) =
    (p.is_last ≡ true) × IsOut req.val kept after
LeavesLine req p line kept after (failed deadlock_detected) = (after ≡ kept) × IsFirst req.val kept
LeavesLine req p line kept after (failed queue_full) = ⊥

abbrev pub LeavesQueue : Request → Pass → FairQueue → Progress → FairQueue → Type 0
LeavesQueue req p q result q' =
    let line = line_of req.resource q.queues in
    LeavesLine req p line (live p.now line) (line_of req.resource q'.queues) result
    × Elsewhere req.resource q q'

-- The queue of the service after a pass.
abbrev Leaves : {S : Type 0} → Request → Pass → FairQueue → Service S × Progress → Type 0
Leaves req p q (s, result) =
    (q' : FairQueue) × (s.fair_queue ≡ some q') × LeavesQueue req p q result q'

if-Leaves :
    {S : Type 0} (req : Request) (p : Pass) (q : FairQueue) (c : Bool) (x y : Service S × Progress)
    → (c ≡ true → Leaves req p q x)
    → (c ≡ false → Leaves req p q y)
    → Leaves req p q (if c then x else y)
if-Leaves req p q true x y h k = h refl
if-Leaves req p q false x y h k = k refl

module _ {S : Type 0} (b : LockBackend S) (p : Pass) (req : Request) (before q : FairQueue) where
  -- The queue that the turn was asked for has lost what had expired, and nothing else.
  abbrev Cleaned : Type 0
  Cleaned =
      (line_of req.resource q.queues ≡ live p.now (line_of req.resource before.queues))
      × Elsewhere req.resource before q

  since_cleaned :
      (q' : FairQueue)
      → Cleaned
      → IsOut req.val (line_of req.resource q.queues) (line_of req.resource q'.queues)
        × Elsewhere req.resource q q'
      → IsOut req.val
          (live p.now (line_of req.resource before.queues))
          (line_of req.resource q'.queues)
        × Elsewhere req.resource before q'
  since_cleaned q' w h = (
    subst (λ k. IsOut req.val k (line_of req.resource q'.queues)) w.0 h.0,
    λ s n. h.1 s n ∙ w.1 s n,
  )

  after_lock-Leaves :
      (s : Service S) (o : Option Lock)
      → Cleaned
      → s.fair_queue ≡ some q
      → Leaves req p before (after_lock b p req s o)
  unfolding after_lock give_up
  after_lock-Leaves s (some l) w e = (
    _,
    ap (Option.map (λ q. (dequeue_client p.now req.resource req.val q).0)) e,
    since_cleaned (dequeue_client p.now req.resource req.val q).0 w
        (dequeue_client-IsOut p.now req.resource req.val q),
  )
  after_lock-Leaves s none w e =
      if-Leaves req p before p.is_last _ _
        (λ h.
          let (out, away) =
            since_cleaned (remove_client req.resource req.val q).0 w
              (remove_client-IsOut req.resource req.val q) in
          (_, ap (Option.map (λ q. (remove_client req.resource req.val q).0)) e, ((h, out), away)))
        (λ h. (q, e, ((h, w.0), w.1)))

  lock_now-Leaves :
      (s : Service S) → Cleaned → s.fair_queue ≡ some q → Leaves req p before (lock_now b p req s)
  unfolding lock_now
  lock_now-Leaves s w e = after_lock-Leaves _ _ w e

  abort_victim-queue :
      (v : Option Bytes) (d : DeadlockDetector) (s : Service S)
      → (abort_victim b v d s).fair_queue ≡ s.fair_queue
  unfolding abort_victim
  abort_victim-queue none d s = refl
  abort_victim-queue (some v) d s = refl

  -- The client has got its turn.
  abbrev Granted : Type 0
  Granted = IsFirst req.val (live p.now (line_of req.resource before.queues))

  with_status-Leaves :
      (d : DeadlockDetector) (s : Service S) (status : DeadlockStatus)
      → Cleaned
      → Granted
      → s.fair_queue ≡ some q
      → Leaves req p before (with_status b p req d s status)
  unfolding with_status
  with_status-Leaves d s no_deadlock w f e = lock_now-Leaves _ w e
  with_status-Leaves d s (deadlock cycle resources) w f e =
      if-Leaves req p before d.auto_resolve _ _
        (λ h. lock_now-Leaves _ w (abort_victim-queue (resolve_deadlock cycle d) d s ∙ e))
        (λ h. (q, e, ((w.0, f), w.1)))

  check_and_lock-Leaves :
      (s : Service S) (o : Option DeadlockDetector)
      → Cleaned
      → Granted
      → s.fair_queue ≡ some q
      → Leaves req p before (check_and_lock b p req s o)
  unfolding check_and_lock
  check_and_lock-Leaves s none w f e = lock_now-Leaves s w e
  check_and_lock-Leaves s (some d) w f e = with_status-Leaves _ s _ w f e

module _ {S : Type 0} (b : LockBackend S) where
  take_turn-Leaves :
      (p : Pass) (req : Request) (q : FairQueue) (s : Service S)
      → Leaves req p q (take_turn b p req s (some q))
  unfolding take_turn give_up
  take_turn-Leaves p req q s =
      let q' = (try_acquire p.now req.resource req.val q).0 in
      let w = try_acquire-line p.now req.resource req.val q in
      if-Leaves req p q (try_acquire p.now req.resource req.val q).1 _ _
        (λ h.
          check_and_lock-Leaves b p req q q' _ s.deadlock_detector w
            (is_front-IsFirst req.val _ (sym (granted_iff p.now req.resource req.val q) ∙ h)) refl)
        (λ h.
          if-Leaves req p q p.is_last _ _
            (λ k.
              let (out, away) =
                since_cleaned b p req q q' (remove_client req.resource req.val q').0 w
                  (remove_client-IsOut req.resource req.val q') in
              (_, refl, ((k, out), away)))
            (λ k. (q', refl, ((k, w.0), w.1))))

  -- With a fair queue, a pass that gets the lock takes one entry of the client out of the line of the
  -- resource, if there is one, and so does a pass that fails by the deadline, for want of a quorum, or
  -- for want of its turn; the last two happen on the last pass only. The entries of other clients keep
  -- their order. A pass that goes on trying was not the last one and takes no entry out. A failure by a
  -- detected deadlock takes none out either, and there the client was the first in line, if anybody
  -- waits. Requests that have expired are gone before that, except where the deadline has passed. The
  -- lines of other resources never change.
  pub attempt-LeavesQueue :
      (p : Pass) (req : Request) (q : FairQueue) (s : Service S)
      → s.fair_queue ≡ some q
      → let r = attempt b p req s in
        (q' : FairQueue) × (r.0.fair_queue ≡ some q') × LeavesQueue req p q r.1 q'
  unfolding attempt give_up
  attempt-LeavesQueue p req q s e =
      if-Leaves req p q (leb p.deadline p.now) _ _
        (λ h. (
          _,
          ap (Option.map (λ q. (remove_client req.resource req.val q).0)) e,
          remove_client-IsOut req.resource req.val q,
        ))
        (λ h.
          subst (λ o. Leaves req p q (take_turn b p req s o)) (sym e) (take_turn-Leaves p req q s))

-- What a pass that gets the lock shows of the instances.
abbrev pub LockedWell :
    {S : Type 0} {b : LockBackend S} → IsBackend b → Pass → Request → Service S × Progress → Type 0
LockedWell i p req (s, locked l) =
    HasQuorum i (lock_key req.resource) req.val s.instances × (0 < l.validity_time)
LockedWell i p req (s, keep_trying) = Unit
LockedWell i p req (s, failed e) = Unit

if-LockedWell :
    {S : Type 0} {b : LockBackend S} (i : IsBackend b) (p : Pass) (req : Request) (c : Bool)
    (x y : Service S × Progress)
    → LockedWell i p req x
    → LockedWell i p req y
    → LockedWell i p req (if c then x else y)
if-LockedWell i p req true x y h k = h
if-LockedWell i p req false x y h k = k

module _ {S : Type 0} {b : LockBackend S} (i : IsBackend b) (p : Pass) (req : Request) where
  after_lock-LockedWell :
      (s : Service S) (o : Option Lock)
      → ((l : Lock)
          → o ≡ some l
          → HasQuorum i (lock_key req.resource) req.val s.instances × (0 < l.validity_time))
      → LockedWell i p req (after_lock b p req s o)
  unfolding after_lock
  after_lock-LockedWell s (some l) h = h l refl
  after_lock-LockedWell s none h = if-LockedWell i p req p.is_last _ _ tt tt

  lock_now-LockedWell : (s : Service S) → LockedWell i p req (lock_now b p req s)
  unfolding lock_now
  lock_now-LockedWell s =
      after_lock-LockedWell _
        (try_lock b p.elapsed_ms p.scaled_ttl req.resource req.val req.ttl_ms s.instances).1
        (λ l e.
          let (h, v, _) =
            try_lock-HasQuorum i p.elapsed_ms p.scaled_ttl req.resource req.val req.ttl_ms
              s.instances l e in
          (h, v))

  with_status-LockedWell :
      (d : DeadlockDetector) (s : Service S) (status : DeadlockStatus)
      → LockedWell i p req (with_status b p req d s status)
  unfolding with_status
  with_status-LockedWell d s no_deadlock = lock_now-LockedWell _
  with_status-LockedWell d s (deadlock cycle resources) =
      if-LockedWell i p req d.auto_resolve _ _ (lock_now-LockedWell _) tt

  check_and_lock-LockedWell :
      (s : Service S) (o : Option DeadlockDetector)
      → LockedWell i p req (check_and_lock b p req s o)
  unfolding check_and_lock
  check_and_lock-LockedWell s none = lock_now-LockedWell s
  check_and_lock-LockedWell s (some d) = with_status-LockedWell _ s _

  take_turn-LockedWell :
      (s : Service S) (o : Option FairQueue) → LockedWell i p req (take_turn b p req s o)
  unfolding take_turn
  take_turn-LockedWell s none = check_and_lock-LockedWell s s.deadlock_detector
  take_turn-LockedWell s (some q) =
      if-LockedWell i p req (try_acquire p.now req.resource req.val q).1 _ _
        (check_and_lock-LockedWell _ s.deadlock_detector)
        (if-LockedWell i p req p.is_last _ _ tt tt)

  -- A pass that gets the lock leaves the client with a quorum of the instances and a lock that is
  -- valid for a time, also when it has aborted the victim of a deadlock before.
  pub attempt-LockedWell : (s : Service S) → LockedWell i p req (attempt b p req s)
  unfolding attempt
  attempt-LockedWell s =
      if-LockedWell i p req (leb p.deadline p.now) _ _ tt (take_turn-LockedWell s s.fair_queue)
