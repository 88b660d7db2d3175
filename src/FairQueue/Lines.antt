-- ===== src/FairQueue/Lines.antt =====
-- One waiting queue: its order by priority, and what each change of it does.
use kore.Base.{
  ℕ, zero, suc, ◌≤◌, ◌<◌, ◌≡◌, refl, ap, [], ◌∷◌, ◌++◌, arith, ltb, if◌then◌else◌, length, Bytes,
  position, insert_at, remove_at, Bool-cases, ltb→lt, inl, inr,
}
use kore.FairQueue.{QueuedClient, Line, by_priority, live, is_expired}

-- No client of the queue is before `p`, and none is after it.
abbrev pub NoneBefore : ℕ → Line → Type 0
NoneBefore p [] = Unit
NoneBefore p (c ∷ q) = (p ≤ c.priority) × NoneBefore p q

abbrev pub NoneAfter : ℕ → Line → Type 0
NoneAfter p [] = Unit
NoneAfter p (c ∷ q) = (c.priority ≤ p) × NoneAfter p q

-- The priorities do not decrease.
abbrev pub Ordered : Line → Type 0
Ordered [] = Unit
Ordered (c ∷ q) = NoneBefore c.priority q × Ordered q

-- Every client waits for the resource.
abbrev pub WaitFor : Bytes → Line → Type 0
WaitFor r [] = Unit
WaitFor r (c ∷ q) = (c.resource ≡ r) × WaitFor r q

NoneBefore-mono : (a b : ℕ) (q : Line) → a ≤ b → NoneBefore b q → NoneBefore a q
NoneBefore-mono a b [] h k = tt
NoneBefore-mono a b (c ∷ q) h k = ground (arith, NoneBefore-mono a b q h k.1)

-- Where a client is put: after the clients that are not behind it, before the others.
abbrev put_in : QueuedClient → Line → Line
put_in c [] = c ∷ []
put_in c (d ∷ q) = if ltb c.priority d.priority then c ∷ d ∷ q else d ∷ put_in c q

by_priority-eq-put_in : (c : QueuedClient) (q : Line) → by_priority c q ≡ put_in c q
unfolding by_priority position insert_at
by_priority-eq-put_in c [] = refl
by_priority-eq-put_in c (d ∷ q) = ground (arith, by_priority-eq-put_in c q)

put_in_parts :
    (c : QueuedClient) (q : Line)
    → Ordered q
    → (front : Line) × (back : Line) × (q ≡ front ++ back)
      × (put_in c q ≡ front ++ c ∷ back)
      × NoneAfter c.priority front
      × NoneBefore (suc c.priority) back
put_in_parts c [] o = ([], [], refl, refl, tt, tt)
put_in_parts c (d ∷ q) o = elim (Bool-cases (ltb c.priority d.priority)) [
  | inl p ↦
      let lt : c.priority < d.priority = ltb→lt c.priority d.priority p in
      rw p ([], d ∷ q, refl, refl, tt, (lt, NoneBefore-mono (suc c.priority) d.priority q lt o.0))
  | inr p ↦
      let (front, back, e, e', n, m) = put_in_parts c q o.1 in
      let le : d.priority ≤ c.priority = ground arith in
      rw p (d ∷ front, back, ap (λ x. d ∷ x) e, ap (λ x. d ∷ x) e', (le, n), m)
]

put_in-NoneBefore :
    (p : ℕ) (c : QueuedClient) (q : Line)
    → p ≤ c.priority
    → NoneBefore p q
    → NoneBefore p (put_in c q)
put_in-NoneBefore p c [] h k = (h, tt)
put_in-NoneBefore p c (d ∷ q) h k = ground (arith, put_in-NoneBefore p c q h k.1)

put_in-Ordered : (c : QueuedClient) (q : Line) → Ordered q → Ordered (put_in c q)
put_in-Ordered c [] o = (tt, tt)
put_in-Ordered c (d ∷ q) o = ground (
  arith,
  put_in-Ordered c q o.1,
  put_in-NoneBefore d.priority c q,
  NoneBefore-mono c.priority d.priority q,
)

put_in-WaitFor :
    (r : Bytes) (c : QueuedClient) (q : Line)
    → c.resource ≡ r
    → WaitFor r q
    → WaitFor r (put_in c q)
put_in-WaitFor r c [] h w = (h, tt)
put_in-WaitFor r c (d ∷ q) h w = ground (arith, put_in-WaitFor r c q h w.1)

length-put_in : (c : QueuedClient) (q : Line) → length (put_in c q) ≡ suc (length q)
length-put_in c [] = refl
length-put_in c (d ∷ q) = ground (arith, length-put_in c q)

-- What is left of a queue when some clients leave it: the others, in their order.
pub data LeftOf : Line → Line → Type 0 where
  none_left : LeftOf [] []
  keeps : (c : QueuedClient) (q q' : Line) → LeftOf q' q → LeftOf (c ∷ q') (c ∷ q)
  leaves : (c : QueuedClient) (q q' : Line) → LeftOf q' q → LeftOf q' (c ∷ q)

pub LeftOf-refl : (q : Line) → LeftOf q q
LeftOf-refl [] = none_left
LeftOf-refl (c ∷ q) = keeps c q q (LeftOf-refl q)

LeftOf-NoneBefore : (p : ℕ) (q' q : Line) → LeftOf q' q → NoneBefore p q → NoneBefore p q'
LeftOf-NoneBefore p _ _ none_left k = tt
LeftOf-NoneBefore p _ _ (keeps c q q' l) k = (k.0, LeftOf-NoneBefore p q' q l k.1)
LeftOf-NoneBefore p _ _ (leaves c q q' l) k = LeftOf-NoneBefore p q' q l k.1

pub LeftOf-Ordered : (q' q : Line) → LeftOf q' q → Ordered q → Ordered q'
LeftOf-Ordered _ _ none_left o = tt
LeftOf-Ordered _ _ (keeps c q q' l) o =
    (LeftOf-NoneBefore c.priority q' q l o.0, LeftOf-Ordered q' q l o.1)
LeftOf-Ordered _ _ (leaves c q q' l) o = LeftOf-Ordered q' q l o.1

pub LeftOf-WaitFor : (r : Bytes) (q' q : Line) → LeftOf q' q → WaitFor r q → WaitFor r q'
LeftOf-WaitFor r _ _ none_left o = tt
LeftOf-WaitFor r _ _ (keeps c q q' l) o = (o.0, LeftOf-WaitFor r q' q l o.1)
LeftOf-WaitFor r _ _ (leaves c q q' l) o = LeftOf-WaitFor r q' q l o.1

pub LeftOf-length : (q' q : Line) → LeftOf q' q → length q' ≤ length q
LeftOf-length _ _ none_left = omega arith
LeftOf-length _ _ (keeps c q q' l) = omega (arith, LeftOf-length q' q l)
LeftOf-length _ _ (leaves c q q' l) = omega (arith, LeftOf-length q' q l)

pub live-LeftOf : (now : ℕ) (q : Line) → LeftOf (live now q) q
unfolding live
live-LeftOf now [] = none_left
live-LeftOf now (c ∷ q) = elim (Bool-cases (is_expired now c)) [
  | inl p ↦ rw p (leaves c q _ (live-LeftOf now q))
  | inr p ↦ rw p (keeps c q _ (live-LeftOf now q))
]

pub remove_at-LeftOf : (i : ℕ) (q : Line) → LeftOf (remove_at i q) q
unfolding remove_at
remove_at-LeftOf i [] = none_left
remove_at-LeftOf zero (c ∷ q) = leaves c q q (LeftOf-refl q)
remove_at-LeftOf (suc i) (c ∷ q) = keeps c q _ (remove_at-LeftOf i q)

pub by_priority-Ordered : (c : QueuedClient) (q : Line) → Ordered q → Ordered (by_priority c q)
by_priority-Ordered c q o = rw (by_priority-eq-put_in c q) (put_in-Ordered c q o)

pub by_priority-WaitFor :
    (r : Bytes) (c : QueuedClient) (q : Line)
    → c.resource ≡ r
    → WaitFor r q
    → WaitFor r (by_priority c q)
by_priority-WaitFor r c q h w = rw (by_priority-eq-put_in c q) (put_in-WaitFor r c q h w)

pub length-by_priority : (c : QueuedClient) (q : Line) → length (by_priority c q) ≡ suc (length q)
length-by_priority c q = rw (by_priority-eq-put_in c q) (length-put_in c q)

-- In an ordered queue a new client stands behind every client of its priority or a better one and
-- before every client of a worse one; the others keep their order.
pub by_priority_lem :
    (c : QueuedClient) (q : Line)
    → Ordered q
    → (front : Line) × (back : Line) × (q ≡ front ++ back)
      × (by_priority c q ≡ front ++ c ∷ back)
      × NoneAfter c.priority front
      × NoneBefore (suc c.priority) back
by_priority_lem c q o = rw (by_priority-eq-put_in c q) (put_in_parts c q o)
