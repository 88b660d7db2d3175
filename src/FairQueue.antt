-- ===== src/FairQueue.antt =====
-- The waiting queues of the lock service: src/fair_queue.rs. The clock is an argument, and the two
-- locks of the source are held for the whole of an operation, so an operation is one step.
pub mod Lines
pub mod Upkeep
pub mod Kept
pub mod Turn
pub mod Leave
pub mod Accounts
mod Tests
use kore.Base.{
  ℕ, zero, suc, ◌+◌, ◌-◌, ◌*◌, ◌/◌, ◌%◌, Bool, true, false, not, Option, none, some, List, [], ◌∷◌,
  ltb, leb, if◌then◌else◌, length, Bytes, same, max, position, insert_at, remove_at, get_elem?,
}
use kore.Base.Table.{Table, lookup, insert, remove, or_insert, keys}
use mathlib.Core.Option

pub record QueuedClient : Type 0 where
  pub client_id : Bytes
  pub resource : Bytes
  pub queued_at : ℕ
  pub ttl : ℕ
  pub priority : ℕ

pub record FairQueueStats : Type 0 where
  pub total_queued : ℕ
  pub active_queues : ℕ
  pub total_enqueued : ℕ
  pub total_dequeued : ℕ
  pub total_expired : ℕ
  pub total_claim_denied : ℕ
  pub total_removed : ℕ
  pub max_wait_time : ℕ
  pub avg_wait_time : ℕ

abbrev pub Line : Type 0
Line = List QueuedClient

pub record FairQueue : Type 0 where
  pub queues : Table Line
  pub max_queue_size : ℕ
  pub stats : FairQueueStats

abbrev pub u64_modulus : ℕ
u64_modulus = 18446744073709551616

-- The sum of two `u64` wraps around.
unfoldable pub is_expired : ℕ → QueuedClient → Bool
is_expired now c = ltb ((c.queued_at + c.ttl) % u64_modulus) now

unfoldable pub wait_time : ℕ → QueuedClient → ℕ
wait_time now c = now - c.queued_at

unfoldable pub new : ℕ → FairQueue
new max_queue_size = record {
  queues = [];
  max_queue_size = max_queue_size;
  stats = record {
    total_queued = 0;
    active_queues = 0;
    total_enqueued = 0;
    total_dequeued = 0;
    total_expired = 0;
    total_claim_denied = 0;
    total_removed = 0;
    max_wait_time = 0;
    avg_wait_time = 0;
  };
}

-- `queues.values().map(|q| q.len()).sum()`.
unfoldable pub total : Table Line → ℕ
total [] = 0
total ((r, q) ∷ m) = length q + total m

-- The two gauges are computed again from the queues.
unfoldable pub refresh : Table Line → FairQueueStats → FairQueueStats
refresh queues st = record st { total_queued = total queues; active_queues = length queues }

unfoldable pub line_of : Bytes → Table Line → Line
line_of r m = Option.get_or (lookup r m) []

-- `position(|c| c.priority > client.priority).unwrap_or(queue.len())`, then `insert`.
unfoldable pub by_priority : QueuedClient → Line → Line
by_priority c queue =
    insert_at (Option.get_or (position (λ d. ltb c.priority d.priority) queue) (length queue)) c
      queue

unfoldable pub enqueue : QueuedClient → FairQueue → FairQueue × Bool
enqueue c q =
    let queues = or_insert c.resource [] q.queues in
    let queue = line_of c.resource queues in
    if leb q.max_queue_size (length queue)
    then (record q { queues = queues }, false)
    else (let queues' = insert c.resource (by_priority c queue) queues in
        let st = refresh queues' q.stats in
        (
          record q {
            queues = queues';
            stats = record st { total_enqueued = st.total_enqueued + 1 };
          },
          true,
        ))

-- A queue that became empty is dropped from the map.
unfoldable pub set_line : Bytes → Line → Table Line → Table Line
set_line r [] m = remove r m
set_line r (c ∷ queue) m = insert r (c ∷ queue) m

-- `retain(|c| !c.is_expired())`.
unfoldable pub live : ℕ → Line → Line
live now [] = []
live now (c ∷ queue) = let rest = live now queue in if is_expired now c then rest else c ∷ rest

unfoldable pub cleanup_expired : ℕ → Bytes → FairQueue → FairQueue × ℕ
cleanup_expired now r q = elim (lookup r q.queues) [
  | none ↦ (q, 0)
  | some queue ↦
      let kept = live now queue in
      let queues = set_line r kept q.queues in
      let removed = length queue - length kept in
      if ltb 0 removed
      then (let st = refresh queues q.stats in
          (
            record q {
              queues = queues;
              stats = record st { total_expired = st.total_expired + removed };
            },
            removed,
          ))
      else (record q { queues = queues }, removed)
]

unfoldable pub cleanup_each : ℕ → List Bytes → FairQueue → FairQueue × ℕ
cleanup_each now [] q = (q, 0)
cleanup_each now (r ∷ rs) q =
    let (q', n) = cleanup_expired now r q in let (q'', k) = cleanup_each now rs q' in (q'', n + k)

unfoldable pub cleanup_all_expired : ℕ → FairQueue → FairQueue × ℕ
unfolding cleanup_each
cleanup_all_expired now q = cleanup_each now (keys q.queues) q

-- The answer of `is_next` and of `try_acquire`, by the queue that is left.
unfoldable pub is_front : Bytes → Option Line → Bool
is_front client_id none = true
is_front client_id (some []) = true
is_front client_id (some (c ∷ queue)) = same c.client_id client_id

unfoldable pub is_next : ℕ → Bytes → Bytes → FairQueue → FairQueue × Bool
is_next now r client_id q =
    let (q', n) = cleanup_expired now r q in (q', is_front client_id (lookup r q'.queues))

-- `try_acquire` cleans the queue the way `cleanup_expired` does, under one lock.
unfoldable pub try_acquire : ℕ → Bytes → Bytes → FairQueue → FairQueue × Bool
try_acquire now r client_id q =
    let (q', n) = cleanup_expired now r q in
    if is_front client_id (lookup r q'.queues) then (q', true) else (
      record q' {
        stats = record q'.stats { total_claim_denied = q'.stats.total_claim_denied + 1 };
      },
      false,
    )

-- The counters after a client left its queue.
unfoldable pub note_dequeued : ℕ → QueuedClient → Table Line → FairQueueStats → FairQueueStats
note_dequeued now c queues st =
    let wait = wait_time now c in
    let n = st.total_dequeued + 1 in
    record (refresh queues st) {
      total_dequeued = n;
      max_wait_time = if ltb st.max_wait_time wait then wait else st.max_wait_time;
      avg_wait_time = (st.avg_wait_time * (n - 1) + wait) / n;
    }

unfoldable pub take_out :
    ℕ → Bytes → Line → Option QueuedClient → FairQueue → FairQueue × Option QueuedClient
take_out now r queue none q = (record q { queues = set_line r queue q.queues }, none)
take_out now r queue (some c) q =
    let queues = set_line r queue q.queues in
    (record q { queues = queues; stats = note_dequeued now c queues q.stats }, some c)

-- The front if it is the client, else its first entry.
unfoldable pub pick : Bytes → Line → Option ℕ
pick client_id [] = none
pick client_id (c ∷ queue) =
    if same c.client_id client_id
    then some 0
    else position (λ d. same d.client_id client_id) (c ∷ queue)

unfoldable pub dequeue_client : ℕ → Bytes → Bytes → FairQueue → FairQueue × Option QueuedClient
unfolding take_out
dequeue_client now r client_id q = elim (lookup r q.queues) [
  | none ↦ (q, none)
  | some queue ↦ elim (pick client_id queue) [
    | none ↦ take_out now r queue none q
    | some i ↦ take_out now r (remove_at i queue) (get_elem? queue i) q
  ]
]

unfoldable pub pop_front : Line → Line × Option QueuedClient
pop_front [] = ([], none)
pop_front (c ∷ queue) = (queue, some c)

unfoldable pub dequeue : ℕ → Bytes → FairQueue → FairQueue × Option QueuedClient
unfolding take_out pop_front
dequeue now r q = elim (lookup r q.queues) [
  | none ↦ (q, none)
  | some queue ↦ take_out now r (pop_front queue).0 (pop_front queue).1 q
]

unfoldable pub remove_client : Bytes → Bytes → FairQueue → FairQueue × Bool
remove_client r client_id q = elim (lookup r q.queues) [
  | none ↦ (q, false)
  | some queue ↦ elim (position (λ c. same c.client_id client_id) queue) [
    | none ↦ (q, false)
    | some i ↦
        let queues = set_line r (remove_at i queue) q.queues in
        let st = refresh queues q.stats in
        (
          record q { queues = queues; stats = record st { total_removed = st.total_removed + 1 } },
          true,
        )
  ]
]

unfoldable pub queue_length : Bytes → FairQueue → ℕ
queue_length r q = length (line_of r q.queues)

unfoldable pub position_of : Bytes → Bytes → FairQueue → Option ℕ
position_of r client_id q = position (λ c. same c.client_id client_id) (line_of r q.queues)

unfoldable pub clear : FairQueue → FairQueue
clear q = record q { queues = []; stats = record q.stats { total_queued = 0; active_queues = 0 } }
