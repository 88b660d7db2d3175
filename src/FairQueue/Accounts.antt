-- ===== src/FairQueue/Accounts.antt =====
-- The states that the operations reach, and the balance of the counters there.
use kore.Base.{
  ℕ, zero, suc, ◌+◌, ◌<◌, ◌≡◌, refl, Bool, true, Option, none, some, List, [], ◌∷◌, arith, length,
  Bytes, same, position, remove_at, get_elem?, Option-cases, Bool-cases, inl, inr,
}
use kore.Base.Table.{Table, lookup, or_insert, contains_key, keys}
use kore.FairQueue.{
  QueuedClient, Line, FairQueue, FairQueueStats, by_priority, live, total, refresh, line_of,
  enqueue, cleanup_expired, cleanup_all_expired, cleanup_each, is_next, try_acquire, is_front,
  note_dequeued, take_out, pick, dequeue_client, dequeue, pop_front, remove_client, clear, new,
}
use kore.FairQueue.Lines.{LeftOf-length, live-LeftOf, length-by_priority}
use kore.FairQueue.Upkeep.{IsKept, total-set_line, total-insert}
use kore.FairQueue.Kept.{
  new-IsKept, enqueue-IsKept, cleanup_expired-IsKept, cleanup_all_expired-IsKept, is_next-IsKept,
  try_acquire-IsKept, dequeue_client-IsKept, dequeue-IsKept, remove_client-IsKept, clear-IsKept,
}

-- The states that the operations reach from a new queue, with the number of clients that `clear`
-- dropped.
pub data Reachable (bound : ℕ) : ℕ → FairQueue → Type 0 where
  created : Reachable bound 0 (new bound)
  enqueued :
      (n : ℕ) (q : FairQueue) (c : QueuedClient)
      → Reachable bound n q
      → Reachable bound n (enqueue c q).0
  cleaned :
      (n : ℕ) (q : FairQueue) (now : ℕ) (r : Bytes)
      → Reachable bound n q
      → Reachable bound n (cleanup_expired now r q).0
  cleaned_all :
      (n : ℕ) (q : FairQueue) (now : ℕ)
      → Reachable bound n q
      → Reachable bound n (cleanup_all_expired now q).0
  asked :
      (n : ℕ) (q : FairQueue) (now : ℕ) (r client : Bytes)
      → Reachable bound n q
      → Reachable bound n (is_next now r client q).0
  tried :
      (n : ℕ) (q : FairQueue) (now : ℕ) (r client : Bytes)
      → Reachable bound n q
      → Reachable bound n (try_acquire now r client q).0
  claimed :
      (n : ℕ) (q : FairQueue) (now : ℕ) (r client : Bytes)
      → Reachable bound n q
      → Reachable bound n (dequeue_client now r client q).0
  popped :
      (n : ℕ) (q : FairQueue) (now : ℕ) (r : Bytes)
      → Reachable bound n q
      → Reachable bound n (dequeue now r q).0
  gave_up :
      (n : ℕ) (q : FairQueue) (r client : Bytes)
      → Reachable bound n q
      → Reachable bound n (remove_client r client q).0
  cleared :
      (n : ℕ) (q : FairQueue) → Reachable bound n q → Reachable bound (n + total q.queues) (clear q)

-- The queues of the map are well formed at every time, and the gauges are right: the number of
-- clients that wait, and the number of queues. The bound on a queue is not 0.
pub Reachable-IsKept : (bound n : ℕ) (q : FairQueue) → 0 < bound → Reachable bound n q → IsKept q
Reachable-IsKept bound _ _ h created = new-IsKept bound h
Reachable-IsKept bound _ _ h (enqueued n q c s) =
    enqueue-IsKept c q (Reachable-IsKept bound n q h s)
Reachable-IsKept bound _ _ h (cleaned n q now r s) =
    cleanup_expired-IsKept now r q (Reachable-IsKept bound n q h s)
Reachable-IsKept bound _ _ h (cleaned_all n q now s) =
    cleanup_all_expired-IsKept now q (Reachable-IsKept bound n q h s)
Reachable-IsKept bound _ _ h (asked n q now r client s) =
    is_next-IsKept now r client q (Reachable-IsKept bound n q h s)
Reachable-IsKept bound _ _ h (tried n q now r client s) =
    try_acquire-IsKept now r client q (Reachable-IsKept bound n q h s)
Reachable-IsKept bound _ _ h (claimed n q now r client s) =
    dequeue_client-IsKept now r client q (Reachable-IsKept bound n q h s)
Reachable-IsKept bound _ _ h (popped n q now r s) =
    dequeue-IsKept now r q (Reachable-IsKept bound n q h s)
Reachable-IsKept bound _ _ h (gave_up n q r client s) =
    remove_client-IsKept r client q (Reachable-IsKept bound n q h s)
Reachable-IsKept bound _ _ h (cleared n q s) = clear-IsKept q (Reachable-IsKept bound n q h s)

-- The clients that left a queue one way or another, and those that still wait.
gone : FairQueueStats → ℕ
gone st = st.total_dequeued + st.total_expired + st.total_removed

abbrev Balanced : ℕ → FairQueue → Type 0
Balanced n q = q.stats.total_enqueued ≡ total q.queues + gone q.stats + n

total-or_insert : (r : Bytes) (m : Table Line) → total (or_insert r [] m) ≡ total m
unfolding or_insert contains_key line_of
total-or_insert r m = ground (arith, total-insert r [] m)

enqueue-Balanced :
    (n : ℕ) (c : QueuedClient) (q : FairQueue)
    → IsKept q
    → Balanced n q
    → Balanced n (enqueue c q).0
unfolding enqueue refresh gone
enqueue-Balanced n c q k b =
    let r = c.resource in
    let m = or_insert r [] q.queues in
    ground (
      arith,
      total-insert r (by_priority c (line_of r m)) m,
      length-by_priority c (line_of r m),
      total-or_insert r q.queues,
    )

cleanup-Balanced :
    (n now : ℕ) (r : Bytes) (q : FairQueue)
    → IsKept q
    → Balanced n q
    → Balanced n (cleanup_expired now r q).0
unfolding cleanup_expired refresh gone line_of
cleanup-Balanced n now r q k b =
    let queue = line_of r q.queues in
    ground (
      arith,
      total-set_line r (live now queue) q.queues k.distinct,
      LeftOf-length (live now queue) queue (live-LeftOf now queue),
    )

cleanup_each-Balanced :
    (n now : ℕ) (rs : List Bytes) (q : FairQueue)
    → IsKept q
    → Balanced n q
    → Balanced n (cleanup_each now rs q).0
unfolding cleanup_each
cleanup_each-Balanced n now [] q k b = b
cleanup_each-Balanced n now (r ∷ rs) q k b =
    cleanup_each-Balanced n now rs _ (cleanup_expired-IsKept now r q k)
      (cleanup-Balanced n now r q k b)

try_acquire-Balanced :
    (n now : ℕ) (r client : Bytes) (q : FairQueue)
    → IsKept q
    → Balanced n q
    → Balanced n (try_acquire now r client q).0
unfolding try_acquire gone
try_acquire-Balanced n now r client q k b =
    let c = cleanup-Balanced n now r q k b in
    elim (Bool-cases (is_front client (lookup r (cleanup_expired now r q).0.queues))) [
      | inl p ↦ rw p c
      | inr p ↦ rw p c
    ]

-- The number of clients that one removal takes.
taken : Option QueuedClient → ℕ
taken none = 0
taken (some c) = 1

take_out-Balanced :
    (n now : ℕ) (r : Bytes) (queue queue' : Line) (c : Option QueuedClient) (q : FairQueue)
    → IsKept q
    → lookup r q.queues ≡ some queue
    → length queue ≡ length queue' + taken c
    → Balanced n q
    → Balanced n (take_out now r queue' c q).0
unfolding take_out note_dequeued refresh gone taken line_of
take_out-Balanced n now r queue queue' none q k p l b =
    ground (arith, total-set_line r queue' q.queues k.distinct)
take_out-Balanced n now r queue queue' (some c) q k p l b =
    ground (arith, total-set_line r queue' q.queues k.distinct)

length-remove_at : (i : ℕ) (q : Line) → length q ≡ length (remove_at i q) + taken (get_elem? q i)
unfolding remove_at taken
length-remove_at i [] = refl
length-remove_at zero (c ∷ q) = omega arith
length-remove_at (suc i) (c ∷ q) = omega (arith, length-remove_at i q)

dequeue_client-Balanced :
    (n now : ℕ) (r client : Bytes) (q : FairQueue)
    → IsKept q
    → Balanced n q
    → Balanced n (dequeue_client now r client q).0
unfolding dequeue_client taken
dequeue_client-Balanced n now r client q k b = elim (Option-cases (lookup r q.queues)) [
  | inl p ↦ rw (p, dequeue_client) b
  | inr (queue, p) ↦
      rw (p, dequeue_client)
        (elim (Option-cases (pick client queue)) [
          | inl e ↦ rw e (take_out-Balanced n now r queue queue none q k p (omega arith) b)
          | inr (i, e) ↦ rw e (
              take_out-Balanced n now r queue (remove_at i queue) (get_elem? queue i) q k p
                (length-remove_at i queue) b)
        ])
]

length-pop_front : (q : Line) → length q ≡ length (pop_front q).0 + taken (pop_front q).1
unfolding pop_front taken
length-pop_front [] = refl
length-pop_front (c ∷ q) = omega arith

dequeue-Balanced :
    (n now : ℕ) (r : Bytes) (q : FairQueue)
    → IsKept q
    → Balanced n q
    → Balanced n (dequeue now r q).0
unfolding dequeue
dequeue-Balanced n now r q k b = elim (Option-cases (lookup r q.queues)) [
  | inl p ↦ rw (p, dequeue) b
  | inr (queue, p) ↦
      rw (p, dequeue)
        (take_out-Balanced n now r queue (pop_front queue).0 (pop_front queue).1 q k p
          (length-pop_front queue) b)
]

position-get_elem? :
    (f : QueuedClient → Bool) (q : Line) (i : ℕ)
    → position f q ≡ some i
    → (c : QueuedClient) × (get_elem? q i ≡ some c) × (f c ≡ true)
unfolding position
position-get_elem? f [] i h = ground arith
position-get_elem? f (c ∷ q) zero h = (c, refl, ground arith)
position-get_elem? f (c ∷ q) (suc i) h = position-get_elem? f q i (ground arith)

remove_client-Balanced :
    (n : ℕ) (r client : Bytes) (q : FairQueue)
    → IsKept q
    → Balanced n q
    → Balanced n (remove_client r client q).0
unfolding remove_client refresh gone line_of taken
remove_client-Balanced n r client q k b = elim (Option-cases (lookup r q.queues)) [
  | inl p ↦ rw (p, remove_client) b
  | inr (queue, p) ↦
      rw (p, remove_client)
        (elim (Option-cases (position (λ c. same c.client_id client) queue)) [
          | inl e ↦ rw e b
          | inr (i, e) ↦
              let (c, f, _) = position-get_elem? _ queue i e in
              let l = length-remove_at i queue in
              let t = total-set_line r (remove_at i queue) q.queues k.distinct in
              rw e (ground arith)
        ])
]

clear-Balanced : (n : ℕ) (q : FairQueue) → Balanced n q → Balanced (n + total q.queues) (clear q)
unfolding clear total gone
clear-Balanced n q b = omega (arith, b)

cleanup_all-Balanced :
    (n now : ℕ) (q : FairQueue) → IsKept q → Balanced n q → Balanced n (cleanup_all_expired now q).0
unfolding cleanup_all_expired
cleanup_all-Balanced n now q k b = cleanup_each-Balanced n now (keys q.queues) q k b

is_next-Balanced :
    (n now : ℕ) (r client : Bytes) (q : FairQueue)
    → IsKept q
    → Balanced n q
    → Balanced n (is_next now r client q).0
unfolding is_next
is_next-Balanced n now r client q k b = cleanup-Balanced n now r q k b

new-Balanced : (bound : ℕ) → Balanced 0 (new bound)
unfolding new total gone
new-Balanced bound = refl

balance : (bound n : ℕ) (q : FairQueue) → 0 < bound → Reachable bound n q → Balanced n q
balance bound _ _ h created = new-Balanced bound
balance bound _ _ h (enqueued n q c s) =
    enqueue-Balanced n c q (Reachable-IsKept bound n q h s) (balance bound n q h s)
balance bound _ _ h (cleaned n q now r s) =
    cleanup-Balanced n now r q (Reachable-IsKept bound n q h s) (balance bound n q h s)
balance bound _ _ h (cleaned_all n q now s) =
    cleanup_all-Balanced n now q (Reachable-IsKept bound n q h s) (balance bound n q h s)
balance bound _ _ h (asked n q now r client s) =
    is_next-Balanced n now r client q (Reachable-IsKept bound n q h s) (balance bound n q h s)
balance bound _ _ h (tried n q now r client s) =
    try_acquire-Balanced n now r client q (Reachable-IsKept bound n q h s) (balance bound n q h s)
balance bound _ _ h (claimed n q now r client s) =
    dequeue_client-Balanced n now r client q (Reachable-IsKept bound n q h s)
      (balance bound n q h s)
balance bound _ _ h (popped n q now r s) =
    dequeue-Balanced n now r q (Reachable-IsKept bound n q h s) (balance bound n q h s)
balance bound _ _ h (gave_up n q r client s) =
    remove_client-Balanced n r client q (Reachable-IsKept bound n q h s) (balance bound n q h s)
balance bound _ _ h (cleared n q s) = clear-Balanced n q (balance bound n q h s)

-- Every client that was ever enqueued is accounted for once: it still waits, was dequeued, has
-- expired, was removed, or was dropped by `clear`. The bound on a queue is not 0.
pub Reachable-Balanced :
    (bound n : ℕ) (q : FairQueue)
    → 0 < bound
    → Reachable bound n q
    → q.stats.total_enqueued
      ≡ q.stats.total_queued
        + (q.stats.total_dequeued + q.stats.total_expired + q.stats.total_removed)
        + n
unfolding gone
Reachable-Balanced bound n q h s =
    rw (Reachable-IsKept bound n q h s).total_right (balance bound n q h s)
