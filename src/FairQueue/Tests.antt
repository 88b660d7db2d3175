-- ===== src/FairQueue/Tests.antt =====
-- Runs of the queue operations of src/fair_queue.rs on small queues.
use kore.Base.{
  ℕ, zero, suc, ◌+◌, ◌-◌, ◌≤◌, ◌<◌, ◌≡◌, refl, Bool, true, false, Option, none, some, List, [], ◌∷◌,
  ◌++◌, arith, if◌then◌else◌, leb, length, Bytes, ◌⊎◌, inl, inr, get_elem?,
}
use kore.FairQueue.{
  QueuedClient, Line, FairQueue, FairQueueStats, by_priority, live, line_of, enqueue, try_acquire,
  dequeue, new, is_expired,
}
use kore.Base.Table.{lookup}
use kore.FairQueue.Lines.{NoneBefore}
use kore.FairQueue.Upkeep.{IsKept, IsLine}
use kore.FairQueue.Turn.{granted_first, enqueue-keeps_place}
use kore.FairQueue.Accounts.{
  Reachable, created, enqueued, tried, popped, Reachable-IsKept, Reachable-Balanced,
}

abbrev printer : Bytes
printer = 112 ∷ []

abbrev ann : Bytes
ann = 97 ∷ []

abbrev bob : Bytes
bob = 98 ∷ []

abbrev ann_waits : QueuedClient
ann_waits = record { client_id = ann; resource = printer; queued_at = 10; ttl = 100; priority = 1 }

abbrev bob_waits : QueuedClient
bob_waits = record { client_id = bob; resource = printer; queued_at = 11; ttl = 100; priority = 1 }

abbrev urgent : QueuedClient
urgent = record { client_id = bob; resource = printer; queued_at = 12; ttl = 100; priority = 0 }

abbrev waiting_line : Line
waiting_line = ann_waits ∷ bob_waits ∷ []

abbrev counters : FairQueueStats
counters = record {
  total_queued = 2;
  active_queues = 1;
  total_enqueued = 2;
  total_dequeued = 0;
  total_expired = 0;
  total_claim_denied = 0;
  total_removed = 0;
  max_wait_time = 0;
  avg_wait_time = 0;
}

abbrev office : FairQueue
office = record { queues = (printer, waiting_line) ∷ []; max_queue_size = 5; stats = counters }

one-IsLine : IsLine 5 printer waiting_line
one-IsLine = record {
  filled = omega arith;
  bounded = omega arith;
  ordered = ((omega arith, tt), (tt, tt));
  waiting = (refl, (refl, tt));
}

office-IsKept : IsKept office
unfolding kore.FairQueue.total
office-IsKept = record {
  has_room = omega arith;
  distinct = (unfold lookup in refl, tt);
  lines = (one-IsLine, tt);
  total_right = refl;
  active_right = refl;
}

two_alive : live 50 (line_of printer office.queues) ≡ ann_waits ∷ bob_waits ∷ []
unfolding live line_of is_expired lookup kore.Base.same
two_alive = refl

ann_granted : (try_acquire 50 printer ann office).1 ≡ true
unfolding try_acquire kore.FairQueue.cleanup_expired live is_expired lookup kore.Base.same
    kore.FairQueue.set_line kore.Base.Table.insert kore.FairQueue.is_front
ann_granted = refl

first_place : get_elem? (line_of bob_waits.resource office.queues) 0 ≡ some ann_waits
unfolding line_of lookup kore.Base.same
first_place = refl

abbrev later_queue : FairQueue
later_queue =
    (dequeue 60 printer
      (try_acquire 50 printer ann (enqueue bob_waits (enqueue ann_waits (new 5)).0).0).0).0

later-Reachable : Reachable 5 0 later_queue
later-Reachable =
    popped 0 _ 60 printer
      (tried 0 _ 50 printer ann (enqueued 0 _ bob_waits (enqueued 0 _ ann_waits created)))

Reachable-IsKept_example : IsKept later_queue
Reachable-IsKept_example = Reachable-IsKept 5 0 later_queue (omega arith) later-Reachable

Reachable-Balanced_example :
    later_queue.stats.total_enqueued
    ≡ later_queue.stats.total_queued
      + (later_queue.stats.total_dequeued + later_queue.stats.total_expired
          + later_queue.stats.total_removed)
      + 0
Reachable-Balanced_example = Reachable-Balanced 5 0 later_queue (omega arith) later-Reachable

granted_first_example :
    (live 50 (line_of printer office.queues) ≡ [])
    ⊎ ((c : QueuedClient) × (rest : Line) × (live 50 (line_of printer office.queues) ≡ c ∷ rest)
        × (c.client_id ≡ ann)
        × NoneBefore c.priority rest)
granted_first_example = granted_first 50 printer ann office office-IsKept ann_granted

enqueue-keeps_place_example :
    get_elem? (line_of bob_waits.resource (enqueue bob_waits office).0.queues) 0 ≡ some ann_waits
enqueue-keeps_place_example =
    enqueue-keeps_place bob_waits ann_waits office 0 office-IsKept first_place (omega arith)
