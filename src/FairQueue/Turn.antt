-- ===== src/FairQueue/Turn.antt =====
-- Whose turn it is: what `try_acquire` grants, and how a place in the queue moves.
use kore.Base.{
  ℕ, zero, suc, ◌-◌, ◌≤◌, ◌≡◌, refl, ap, sym, ◌∙◌, true, some, [], ◌∷◌, ◌++◌, arith, ltb, leb,
  if◌then◌else◌, length, Bytes, same_iff, same_refl, get_elem?, Option-cases, Bool-cases, ◌⊎◌, inl,
  inr,
}
use kore.Base.Table.{Table, lookup, insert, or_insert, lookup-insert, lookup-or_insert}
use kore.FairQueue.{
  QueuedClient, Line, FairQueue, by_priority, live, line_of, enqueue, cleanup_expired, try_acquire,
  is_front, dequeue, pop_front, take_out,
}
use kore.FairQueue.Lines.{Ordered, NoneBefore, LeftOf-Ordered, live-LeftOf, by_priority_lem}
use kore.FairQueue.Upkeep.{IsKept, line-IsLine, lookup-set_line}

-- After the cleanup the queue of the resource is its live part.
pub cleanup_expired-line :
    (now : ℕ) (r : Bytes) (q : FairQueue)
    → line_of r (cleanup_expired now r q).0.queues ≡ live now (line_of r q.queues)
unfolding cleanup_expired line_of
cleanup_expired-line now r q = elim (Option-cases (lookup r q.queues)) [
  | inl p ↦ rw (p, cleanup_expired, p) (unfold live in refl)
  | inr (queue, p) ↦
      rw (p, cleanup_expired)
        (elim (Bool-cases (ltb 0 (length queue - length (live now queue)))) [
          | inl b ↦ rw b (lookup-set_line r (live now queue) q.queues)
          | inr b ↦ rw b (lookup-set_line r (live now queue) q.queues)
        ])
]

front_of_line :
    (client r : Bytes) (m : Table Line)
    → is_front client (lookup r m) ≡ is_front client (some (line_of r m))
unfolding line_of is_front
front_of_line client r m = ground arith

pub granted_iff :
    (now : ℕ) (r client : Bytes) (q : FairQueue)
    → (try_acquire now r client q).1 ≡ is_front client (some (live now (line_of r q.queues)))
unfolding try_acquire
granted_iff now r client q =
    ground (
      arith,
      front_of_line client r (cleanup_expired now r q).0.queues,
      cleanup_expired-line now r q,
    )

line-Ordered : (r : Bytes) (q : FairQueue) → IsKept q → Ordered (line_of r q.queues)
unfolding line_of
line-Ordered r q k = elim (Option-cases (lookup r q.queues)) [
  | inl p ↦ rw p tt
  | inr (queue, p) ↦ rw p (line-IsLine q r queue k p).ordered
]

front_first :
    (client : Bytes) (q : Line)
    → Ordered q
    → is_front client (some q) ≡ true
    → (q ≡ [])
      ⊎ ((c : QueuedClient) × (rest : Line) × (q ≡ c ∷ rest)
          × (c.client_id ≡ client)
          × NoneBefore c.priority rest)
unfolding is_front
front_first client [] o h = inl refl
front_first client (c ∷ q) o h = inr (c, q, refl, ground (arith, same_iff c.client_id client), o.0)

-- When `try_acquire` grants a client its turn, either nobody whose request has not expired waits for
-- the resource, or the client is the first of those who wait, and none of them has a better priority.
pub granted_first :
    (now : ℕ) (r client : Bytes) (q : FairQueue)
    → IsKept q
    → (try_acquire now r client q).1 ≡ true
    → (live now (line_of r q.queues) ≡ [])
      ⊎ ((c : QueuedClient) × (rest : Line) × (live now (line_of r q.queues) ≡ c ∷ rest)
          × (c.client_id ≡ client)
          × NoneBefore c.priority rest)
granted_first now r client q k h =
    front_first client (live now (line_of r q.queues))
      (LeftOf-Ordered _ _ (live-LeftOf now (line_of r q.queues)) (line-Ordered r q k))
      (sym (granted_iff now r client q) ∙ h)

-- The turn is granted to one client at a time: when one waiter's request has not expired, two clients
-- that are both granted the turn are the same.
pub granted_once :
    (now : ℕ) (r a b : Bytes) (q : FairQueue) (c : QueuedClient) (rest : Line)
    → live now (line_of r q.queues) ≡ c ∷ rest
    → (try_acquire now r a q).1 ≡ true
    → (try_acquire now r b q).1 ≡ true
    → a ≡ b
unfolding is_front
granted_once now r a b q c rest w h k = ground (
  arith,
  granted_iff now r a q,
  granted_iff now r b q,
  same_iff c.client_id a,
  same_iff c.client_id b,
)

NoneBefore-get_elem? :
    (p : ℕ) (q : Line) (i : ℕ) (d : QueuedClient)
    → NoneBefore p q
    → get_elem? q i ≡ some d
    → p ≤ d.priority
NoneBefore-get_elem? p [] i d n h = ground arith
NoneBefore-get_elem? p (c ∷ q) zero d n h = ground arith
NoneBefore-get_elem? p (c ∷ q) (suc i) d n h = NoneBefore-get_elem? p q i d n.1 h

get_elem?-front :
    (front back : Line) (c d : QueuedClient) (i : ℕ)
    → get_elem? (front ++ back) i ≡ some d
    → d.priority ≤ c.priority
    → NoneBefore (suc c.priority) back
    → get_elem? (front ++ c ∷ back) i ≡ some d
get_elem?-front [] back c d i h le n =
    absurd (omega (arith, NoneBefore-get_elem? (suc c.priority) back i d n h))
get_elem?-front (e ∷ front) back c d zero h le n = h
get_elem?-front (e ∷ front) back c d (suc i) h le n = get_elem?-front front back c d i h le n

by_priority-get_elem? :
    (c d : QueuedClient) (q : Line) (i : ℕ)
    → Ordered q
    → get_elem? q i ≡ some d
    → d.priority ≤ c.priority
    → get_elem? (by_priority c q) i ≡ some d
by_priority-get_elem? c d q i o h le =
    let (front, back, e, e', n, m) = by_priority_lem c q o in
    rw e' (get_elem?-front front back c d i (ap (λ x. get_elem? x i) (sym e) ∙ h) le m)

pub line_of-or_insert : (r : Bytes) (m : Table Line) → line_of r (or_insert r [] m) ≡ line_of r m
unfolding line_of
line_of-or_insert r m = rw (lookup-or_insert r r [] m, same_refl r) refl

line_of-insert : (r : Bytes) (queue : Line) (m : Table Line) → line_of r (insert r queue m) ≡ queue
unfolding line_of
line_of-insert r queue m = rw (lookup-insert r r queue m, same_refl r) refl

-- What `enqueue` makes of the queue of the resource.
pub enqueue-line :
    (c : QueuedClient) (q : FairQueue)
    → let queue = line_of c.resource q.queues in
      line_of c.resource (enqueue c q).0.queues
      ≡ (if leb q.max_queue_size (length queue) then queue else by_priority c queue)
unfolding enqueue
enqueue-line c q =
    let r = c.resource in
    let e = line_of-or_insert r q.queues in
    rw e (elim (Bool-cases (leb q.max_queue_size (length (line_of r q.queues)))) [
      | inl p ↦ rw p e
      | inr p ↦
          rw p (line_of-insert r (by_priority c (line_of r q.queues)) (or_insert r [] q.queues))
    ])

-- A waiter keeps its place when a client of its priority or a worse one is enqueued.
pub enqueue-keeps_place :
    (c d : QueuedClient) (q : FairQueue) (i : ℕ)
    → IsKept q
    → get_elem? (line_of c.resource q.queues) i ≡ some d
    → d.priority ≤ c.priority
    → get_elem? (line_of c.resource (enqueue c q).0.queues) i ≡ some d
enqueue-keeps_place c d q i k h le = ground (
  arith,
  enqueue-line c q,
  by_priority-get_elem? c d (line_of c.resource q.queues) i (line-Ordered c.resource q k) h le,
)

-- Every dequeue of the front moves the others up by one place.
pub dequeue-moves_up :
    (now : ℕ) (r : Bytes) (q : FairQueue) (i : ℕ)
    → get_elem? (line_of r (dequeue now r q).0.queues) i ≡ get_elem? (line_of r q.queues) (suc i)
unfolding dequeue line_of take_out
dequeue-moves_up now r q i = elim (Option-cases (lookup r q.queues)) [
  | inl p ↦ rw (p, dequeue, p) refl
  | inr ([], p) ↦
      rw (p, dequeue, pop_front, take_out) (ap (λ x. get_elem? x i) (lookup-set_line r [] q.queues))
  | inr (c ∷ queue, p) ↦
      rw (p, dequeue, pop_front, take_out)
        (ap (λ x. get_elem? x i) (lookup-set_line r queue q.queues))
]
