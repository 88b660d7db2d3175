-- ===== src/FairQueue/Kept.antt =====
-- Every operation on the queues keeps their state well formed.
use kore.Base.{
  ℕ, zero, suc, ◌-◌, ◌≤◌, ◌<◌, ◌≡◌, refl, ap, true, Option, none, some, List, [], ◌∷◌, arith, ltb,
  leb, length, Bytes, same, same_refl, position, remove_at, get_elem?, Option-cases, Bool-cases,
  inl, inr,
}
use kore.Base.Table.{
  Table, lookup, insert, or_insert, keys, contains_key, Distinct, Every, lookup-insert,
  insert-insert, lookup-or_insert, insert-Distinct, lookup-Every, insert-Every,
}
use kore.FairQueue.{
  QueuedClient, Line, FairQueue, by_priority, live, total, refresh, line_of, set_line, enqueue,
  cleanup_expired, cleanup_all_expired, cleanup_each, is_next, try_acquire, is_front, note_dequeued,
  take_out, pick, dequeue_client, dequeue, pop_front, remove_client, clear, new,
}
use kore.FairQueue.Lines.{
  Ordered, WaitFor, LeftOf, LeftOf-length, LeftOf-refl, live-LeftOf, remove_at-LeftOf,
  by_priority-Ordered, by_priority-WaitFor, length-by_priority, leaves, none_left, keeps,
}
use kore.FairQueue.Upkeep.{IsLine, IsKept, thinned, line-IsLine}

LeftOf-all : (q' q : Line) → LeftOf q' q → length q ≤ length q' → q' ≡ q
LeftOf-all _ _ none_left h = refl
LeftOf-all _ _ (keeps c q q' l) h = ap (λ x. c ∷ x) (LeftOf-all q' q l (omega arith))
LeftOf-all _ _ (leaves c q q' l) h = absurd (omega (arith, LeftOf-length q' q l))

insert_same : (r : Bytes) (q : Line) (m : Table Line) → lookup r m ≡ some q → insert r q m ≡ m
unfolding lookup insert
insert_same r q [] h = ground arith
insert_same r q ((s, p) ∷ m) h = ground (arith, insert_same r q m)

pub set_line_same :
    (r : Bytes) (q : Line) (m : Table Line)
    → lookup r m ≡ some q
    → 0 < length q
    → set_line r q m ≡ m
unfolding set_line
set_line_same r [] m h p = absurd (omega arith)
set_line_same r (c ∷ q) m h p = insert_same r (c ∷ q) m h

pub new-IsKept : (bound : ℕ) → 0 < bound → IsKept (new bound)
unfolding new total
new-IsKept bound h = record {
  has_room = h;
  distinct = tt;
  lines = tt;
  total_right = refl;
  active_right = refl;
}

-- A queue that is full has not been made by this call.
enqueue_full :
    (r : Bytes) (m : Table Line) (bound : ℕ)
    → 0 < bound
    → leb bound (length (line_of r (or_insert r [] m))) ≡ true
    → or_insert r [] m ≡ m
unfolding or_insert contains_key line_of
enqueue_full r m bound h p = ground (arith, lookup-insert r r [] m, same_refl r)

or_insert-Distinct : (r : Bytes) (m : Table Line) → Distinct m → Distinct (or_insert r [] m)
unfolding or_insert
or_insert-Distinct r m d = ground (arith, insert-Distinct r [] m d)

-- The queue of a resource is ordered and its clients wait for the resource, also when it is new.
line_of-or_insert :
    (bound : ℕ) (r : Bytes) (m : Table Line)
    → Every (IsLine bound) m
    → Ordered (line_of r (or_insert r [] m)) × WaitFor r (line_of r (or_insert r [] m))
unfolding line_of
line_of-or_insert bound r m e = elim (Option-cases (lookup r m)) [
  | inl p ↦ rw (lookup-or_insert r r [] m, same_refl r, p) (tt, tt)
  | inr (q, p) ↦
      let i = lookup-Every (IsLine bound) r q m e p in
      rw (lookup-or_insert r r [] m, same_refl r, p) (i.ordered, i.waiting)
]

insert_over :
    (bound : ℕ) (r : Bytes) (q : Line) (m : Table Line)
    → IsLine bound r q
    → Every (IsLine bound) m
    → Every (IsLine bound) (insert r q (or_insert r [] m))
unfolding or_insert
insert_over bound r q m i e = elim (Bool-cases (contains_key r m)) [
  | inl p ↦ rw p (insert-Every (IsLine bound) r q m i e)
  | inr p ↦ rw (p, insert-insert r q [] m) (insert-Every (IsLine bound) r q m i e)
]

pub enqueue-IsKept : (c : QueuedClient) (q : FairQueue) → IsKept q → IsKept (enqueue c q).0
unfolding enqueue refresh
enqueue-IsKept c q k =
    let r = c.resource in
    let queue = line_of r (or_insert r [] q.queues) in
    elim (Bool-cases (leb q.max_queue_size (length queue))) [
      | inl p ↦ rw (p, enqueue_full r q.queues q.max_queue_size k.has_room p) k
      | inr p ↦
          let (o, w) = line_of-or_insert q.max_queue_size r q.queues k.lines in
          let i : IsLine q.max_queue_size r (by_priority c queue) = record {
            filled = omega (arith, length-by_priority c queue);
            bounded = ground (arith, length-by_priority c queue);
            ordered = by_priority-Ordered c queue o;
            waiting = by_priority-WaitFor r c queue refl w;
          } in
          rw p (record {
            has_room = k.has_room;
            distinct = insert-Distinct r _ _ (or_insert-Distinct r q.queues k.distinct);
            lines = insert_over q.max_queue_size r _ q.queues i k.lines;
            total_right = refl;
            active_right = refl;
          })
    ]

pub cleanup_expired-IsKept :
    (now : ℕ) (r : Bytes) (q : FairQueue) → IsKept q → IsKept (cleanup_expired now r q).0
unfolding cleanup_expired refresh
cleanup_expired-IsKept now r q k = elim (Option-cases (lookup r q.queues)) [
  | inl p ↦ rw (p, cleanup_expired) k
  | inr (queue, p) ↦
      let kept = live now queue in
      rw (p, cleanup_expired)
        (elim (Bool-cases (ltb 0 (length queue - length kept))) [
          | inl b ↦ rw b (thinned q r queue kept _ k p (live-LeftOf now queue) refl refl)
          | inr b ↦
              let all : kept ≡ queue =
                LeftOf-all kept queue (live-LeftOf now queue) (ground arith) in
              rw (b, all, set_line_same r queue q.queues p (line-IsLine q r queue k p).filled) k
        ])
]

cleanup_each-IsKept :
    (now : ℕ) (rs : List Bytes) (q : FairQueue) → IsKept q → IsKept (cleanup_each now rs q).0
unfolding cleanup_each
cleanup_each-IsKept now [] q k = k
cleanup_each-IsKept now (r ∷ rs) q k =
    cleanup_each-IsKept now rs _ (cleanup_expired-IsKept now r q k)

pub cleanup_all_expired-IsKept :
    (now : ℕ) (q : FairQueue) → IsKept q → IsKept (cleanup_all_expired now q).0
unfolding cleanup_all_expired
cleanup_all_expired-IsKept now q k = cleanup_each-IsKept now (keys q.queues) q k

pub is_next-IsKept :
    (now : ℕ) (r client : Bytes) (q : FairQueue) → IsKept q → IsKept (is_next now r client q).0
unfolding is_next
is_next-IsKept now r client q k = cleanup_expired-IsKept now r q k

pub try_acquire-IsKept :
    (now : ℕ) (r client : Bytes) (q : FairQueue) → IsKept q → IsKept (try_acquire now r client q).0
unfolding try_acquire
try_acquire-IsKept now r client q k =
    let c = cleanup_expired-IsKept now r q k in
    elim (Bool-cases (is_front client (lookup r (cleanup_expired now r q).0.queues))) [
      | inl p ↦ rw p c
      | inr p ↦ rw p (record {
        has_room = c.has_room;
        distinct = c.distinct;
        lines = c.lines;
        total_right = c.total_right;
        active_right = c.active_right;
      })
    ]

-- A client leaves a queue, or none does.
take_out-IsKept :
    (now : ℕ) (r : Bytes) (queue queue' : Line) (c : Option QueuedClient) (q : FairQueue)
    → IsKept q
    → lookup r q.queues ≡ some queue
    → LeftOf queue' queue
    → (c ≡ none → queue' ≡ queue)
    → IsKept (take_out now r queue' c q).0
unfolding take_out note_dequeued refresh
take_out-IsKept now r queue queue' none q k p l h =
    rw (h refl, set_line_same r queue q.queues p (line-IsLine q r queue k p).filled) k
take_out-IsKept now r queue queue' (some c) q k p l h = thinned q r queue queue' _ k p l refl refl

remove_at-none : (i : ℕ) (q : Line) → get_elem? q i ≡ none → remove_at i q ≡ q
unfolding remove_at
remove_at-none i [] h = refl
remove_at-none zero (c ∷ q) h = ground arith
remove_at-none (suc i) (c ∷ q) h = ap (λ x. c ∷ x) (remove_at-none i q h)

pub dequeue_client-IsKept :
    (now : ℕ) (r client : Bytes) (q : FairQueue)
    → IsKept q
    → IsKept (dequeue_client now r client q).0
unfolding dequeue_client
dequeue_client-IsKept now r client q k = elim (Option-cases (lookup r q.queues)) [
  | inl p ↦ rw (p, dequeue_client) k
  | inr (queue, p) ↦
      rw (p, dequeue_client)
        (elim (Option-cases (pick client queue)) [
          | inl e ↦
              rw e (take_out-IsKept now r queue queue none q k p (LeftOf-refl queue) (λ _. refl))
          | inr (i, e) ↦ rw e (
              take_out-IsKept now r queue (remove_at i queue) (get_elem? queue i) q k p
                (remove_at-LeftOf i queue) (remove_at-none i queue))
        ])
]

pop_front_parts :
    (q : Line) → LeftOf (pop_front q).0 q × ((pop_front q).1 ≡ none → (pop_front q).0 ≡ q)
unfolding pop_front
pop_front_parts [] = (none_left, λ _. refl)
pop_front_parts (c ∷ q) = (leaves c q q (LeftOf-refl q), λ h. ground arith)

pub dequeue-IsKept : (now : ℕ) (r : Bytes) (q : FairQueue) → IsKept q → IsKept (dequeue now r q).0
unfolding dequeue
dequeue-IsKept now r q k = elim (Option-cases (lookup r q.queues)) [
  | inl p ↦ rw (p, dequeue) k
  | inr (queue, p) ↦
      let (l, h) = pop_front_parts queue in
      rw (p, dequeue)
        (take_out-IsKept now r queue (pop_front queue).0 (pop_front queue).1 q k p l h)
]

pub remove_client-IsKept :
    (r client : Bytes) (q : FairQueue) → IsKept q → IsKept (remove_client r client q).0
unfolding remove_client refresh
remove_client-IsKept r client q k = elim (Option-cases (lookup r q.queues)) [
  | inl p ↦ rw (p, remove_client) k
  | inr (queue, p) ↦
      rw (p, remove_client)
        (elim (Option-cases (position (λ c. same c.client_id client) queue)) [
          | inl e ↦ rw e k
          | inr (i, e) ↦
              rw e
                (thinned q r queue (remove_at i queue) _ k p (remove_at-LeftOf i queue) refl refl)
        ])
]

pub clear-IsKept : (q : FairQueue) → IsKept q → IsKept (clear q)
unfolding clear total
clear-IsKept q k = record {
  has_room = k.has_room;
  distinct = tt;
  lines = tt;
  total_right = refl;
  active_right = refl;
}
