-- ===== src/FairQueue/Upkeep.antt =====
-- The state of the queues as a whole: every operation keeps it well formed, and the gauges of the
-- statistics true.
use kore.Base.{
  ℕ, ◌+◌, ◌≤◌, ◌<◌, ◌≡◌, refl, false, none, some, [], ◌∷◌, arith, length, Bytes, same, same_iff,
  same_refl,
}
use kore.Base.Table.{
  Table, lookup, insert, remove, Distinct, Every, lookup-insert, lookup-remove, insert-Distinct,
  remove-Distinct, lookup-Every, insert-Every, remove-Every,
}
use kore.FairQueue.{Line, FairQueue, FairQueueStats, total, line_of, set_line}
use kore.FairQueue.Lines.{Ordered, WaitFor, LeftOf, LeftOf-Ordered, LeftOf-WaitFor, LeftOf-length}

-- A queue of the map: not empty, within the bound, in the order of the priorities, its clients wait
-- for its resource.
pub record IsLine (bound : ℕ) (r : Bytes) (q : Line) : Type 0 where
  pub filled : 0 < length q
  pub bounded : length q ≤ bound
  pub ordered : Ordered q
  pub waiting : WaitFor r q

pub record IsKept (q : FairQueue) : Type 0 where
  pub has_room : 0 < q.max_queue_size
  pub distinct : Distinct q.queues
  pub lines : Every (IsLine q.max_queue_size) q.queues
  pub total_right : q.stats.total_queued ≡ total q.queues
  pub active_right : q.stats.active_queues ≡ length q.queues

pub total-insert :
    (r : Bytes) (q : Line) (m : Table Line)
    → total (insert r q m) + length (line_of r m) ≡ total m + length q
unfolding total insert line_of lookup
total-insert r q [] = omega arith
total-insert r q ((s, p) ∷ m) = ground (arith, total-insert r q m)

remove_missing : (r : Bytes) (m : Table Line) → lookup r m ≡ none → remove r m ≡ m
unfolding lookup remove
remove_missing r [] h = refl
remove_missing r ((s, p) ∷ m) h = ground (arith, remove_missing r m)

total-remove :
    (r : Bytes) (m : Table Line) → Distinct m → total (remove r m) + length (line_of r m) ≡ total m
unfolding total remove line_of lookup
total-remove r [] d = omega arith
total-remove r ((s, p) ∷ m) d =
    ground (arith, total-remove r m d.1, same_iff s r, remove_missing r m)

-- Changing one queue changes the total by as much.
pub total-set_line :
    (r : Bytes) (q : Line) (m : Table Line)
    → Distinct m
    → total (set_line r q m) + length (line_of r m) ≡ total m + length q
unfolding set_line
total-set_line r [] m d = omega (arith, total-remove r m d)
total-set_line r (c ∷ q) m d = total-insert r (c ∷ q) m

pub set_line-Distinct :
    (r : Bytes) (q : Line) (m : Table Line) → Distinct m → Distinct (set_line r q m)
unfolding set_line
set_line-Distinct r [] m d = remove-Distinct r m d
set_line-Distinct r (c ∷ q) m d = insert-Distinct r (c ∷ q) m d

pub lookup-set_line : (r : Bytes) (q : Line) (m : Table Line) → line_of r (set_line r q m) ≡ q
unfolding set_line line_of
lookup-set_line r [] m = rw (lookup-remove r r m, same_refl r) refl
lookup-set_line r (c ∷ q) m = rw (lookup-insert r r (c ∷ q) m, same_refl r) refl

pub line_of-set_line_ne :
    (r s : Bytes) (q : Line) (m : Table Line)
    → same r s ≡ false
    → line_of s (set_line r q m) ≡ line_of s m
unfolding set_line line_of
line_of-set_line_ne r s [] m h = rw (lookup-remove r s m, h) refl
line_of-set_line_ne r s (c ∷ q) m h = rw (lookup-insert r s (c ∷ q) m, h) refl

-- Leaving a queue keeps the queues well formed.
pub set_line-Every :
    (bound : ℕ) (r : Bytes) (q' q : Line) (m : Table Line)
    → LeftOf q' q
    → IsLine bound r q
    → Every (IsLine bound) m
    → Every (IsLine bound) (set_line r q' m)
unfolding set_line
set_line-Every bound r [] q m l i e = remove-Every (IsLine bound) r m e
set_line-Every bound r (c ∷ q') q m l i e =
    insert-Every (IsLine bound) r (c ∷ q') m
      (record {
        filled = omega arith;
        bounded = omega (arith, LeftOf-length (c ∷ q') q l, i.bounded);
        ordered = LeftOf-Ordered (c ∷ q') q l i.ordered;
        waiting = LeftOf-WaitFor r (c ∷ q') q l i.waiting;
      })
      e

pub line-IsLine :
    (q : FairQueue) (r : Bytes) (queue : Line)
    → IsKept q
    → lookup r q.queues ≡ some queue
    → IsLine q.max_queue_size r queue
line-IsLine q r queue k e = lookup-Every (IsLine q.max_queue_size) r queue q.queues k.lines e

-- `set_line` with the gauges computed again.
pub thinned :
    (q : FairQueue) (r : Bytes) (queue queue' : Line) (st : FairQueueStats)
    → IsKept q
    → lookup r q.queues ≡ some queue
    → LeftOf queue' queue
    → st.total_queued ≡ total (set_line r queue' q.queues)
    → st.active_queues ≡ length (set_line r queue' q.queues)
    → IsKept (record q { queues = set_line r queue' q.queues; stats = st })
thinned q r queue queue' st k e l t a = record {
  has_room = k.has_room;
  distinct = set_line-Distinct r queue' q.queues k.distinct;
  lines =
      set_line-Every q.max_queue_size r queue' queue q.queues l (line-IsLine q r queue k e) k.lines;
  total_right = t;
  active_right = a;
}
