-- ===== src/FairQueue/Leave.antt =====
-- What a client that leaves its queue takes along: `remove` and `dequeue_client` of src/fair_queue.rs.
use kore.Base.{
  ℕ, zero, suc, ◌-◌, ◌≡◌, refl, ap, ◌∙◌, true, false, Option, none, some, [], ◌∷◌, arith, ltb,
  length, if◌then◌else◌, Bytes, same, get_elem?, position, remove_at, Option-cases, Bool-cases, inl,
  inr,
}
use kore.Base.Table.{Table, lookup}
use kore.FairQueue.{
  QueuedClient, Line, FairQueue, live, line_of, set_line, cleanup_expired, try_acquire, is_front,
  pick, take_out, dequeue_client, remove_client,
}
use kore.FairQueue.Upkeep.{lookup-set_line, line_of-set_line_ne}
use kore.FairQueue.Turn.{cleanup_expired-line}

abbrev pub entries_of : Bytes → Line → ℕ
entries_of client [] = 0
entries_of client (c ∷ queue) =
    let rest = entries_of client queue in if same c.client_id client then suc rest else rest

abbrev pub others : Bytes → Line → Line
others client [] = []
others client (c ∷ queue) =
    let rest = others client queue in if same c.client_id client then rest else c ∷ rest

-- One entry of the client is gone, if there was any; the others stand as before.
abbrev pub IsOut : Bytes → Line → Line → Type 0
IsOut client before after =
    (others client after ≡ others client before)
    × (entries_of client after ≡ entries_of client before - 1)

abbrev first_of : Bytes → Line → Option ℕ
first_of client queue = position (λ c. same c.client_id client) queue

first_of-none :
    (client : Bytes) (queue : Line) → first_of client queue ≡ none → entries_of client queue ≡ 0
unfolding position
first_of-none client [] h = refl
first_of-none client (c ∷ queue) h = ground (arith, h, first_of-none client queue)

first_of-some :
    (client : Bytes) (queue : Line) (i : ℕ)
    → first_of client queue ≡ some i
    → IsOut client queue (remove_at i queue)
unfolding position remove_at
first_of-some client [] i h = cc
first_of-some client (c ∷ queue) zero h =
    let p : same c.client_id client ≡ true = ground (arith, h) in rw p (refl, omega arith)
first_of-some client (c ∷ queue) (suc i) h =
    let p : same c.client_id client ≡ false = ground (arith, h) in
    let e : first_of client queue ≡ some i = ground (arith, h) in
    let ih = first_of-some client queue i e in rw p (ap (◌∷◌ c) ih.0, ih.1)

pick-first_of : (client : Bytes) (queue : Line) → pick client queue ≡ first_of client queue
unfolding pick position
pick-first_of client [] = refl
pick-first_of client (c ∷ queue) = ground arith

stays-IsOut :
    (client : Bytes) (queue : Line) → first_of client queue ≡ none → IsOut client queue queue
stays-IsOut client queue h = (refl, ground (arith, first_of-none client queue h))

line_of-some :
    (r : Bytes) (m : Table Line) (queue : Line) → lookup r m ≡ some queue → line_of r m ≡ queue
unfolding line_of
line_of-some r m queue e = rw e refl

line_of-none : (r : Bytes) (m : Table Line) → lookup r m ≡ none → line_of r m ≡ []
unfolding line_of
line_of-none r m e = rw e refl

-- What an operation on the queue of `r` does to that queue, and that it leaves the others alone.
abbrev pub Elsewhere : Bytes → FairQueue → FairQueue → Type 0
Elsewhere r q q' = (s : Bytes) → same r s ≡ false → line_of s q'.queues ≡ line_of s q.queues

-- `remove` takes the first entry of the client out of the queue.
pub remove_client-IsOut :
    (r client : Bytes) (q : FairQueue)
    → let q' = (remove_client r client q).0 in
      IsOut client (line_of r q.queues) (line_of r q'.queues) × Elsewhere r q q'
unfolding remove_client
remove_client-IsOut r client q = elim (Option-cases (lookup r q.queues)) [
  | inl e ↦ rw (e, remove_client, line_of-none r q.queues e) ((refl, refl), λ s h. refl)
  | inr (queue, e) ↦ elim (Option-cases (first_of client queue)) [
    | inl f ↦
        rw (e, remove_client, f)
          (rw (line_of-some r q.queues queue e) (stays-IsOut client queue f), λ s h. refl)
    | inr (i, f) ↦
        rw (e, remove_client, f)
          (
            rw (line_of-some r q.queues queue e, lookup-set_line r (remove_at i queue) q.queues)
                (first_of-some client queue i f),
            λ s h. line_of-set_line_ne r s (remove_at i queue) q.queues h,
          )
  ]
]

take_out-queues :
    (now : ℕ) (r : Bytes) (queue : Line) (o : Option QueuedClient) (q : FairQueue)
    → (take_out now r queue o q).0.queues ≡ set_line r queue q.queues
unfolding take_out
take_out-queues now r queue none q = refl
take_out-queues now r queue (some c) q = refl

-- `dequeue_client` does the same.
pub dequeue_client-IsOut :
    (now : ℕ) (r client : Bytes) (q : FairQueue)
    → let q' = (dequeue_client now r client q).0 in
      IsOut client (line_of r q.queues) (line_of r q'.queues) × Elsewhere r q q'
unfolding dequeue_client
dequeue_client-IsOut now r client q = elim (Option-cases (lookup r q.queues)) [
  | inl e ↦ rw (e, dequeue_client, line_of-none r q.queues e) ((refl, refl), λ s h. refl)
  | inr (queue, e) ↦ elim (Option-cases (first_of client queue)) [
    | inl f ↦
        rw (e, dequeue_client, pick-first_of client queue ∙ f, take_out-queues now r queue none q)
          (
            rw (line_of-some r q.queues queue e, lookup-set_line r queue q.queues)
                (stays-IsOut client queue f),
            λ s h. line_of-set_line_ne r s queue q.queues h,
          )
    | inr (i, f) ↦
        rw
          (
            e,
            dequeue_client,
            pick-first_of client queue ∙ f,
            take_out-queues now r (remove_at i queue) (get_elem? queue i) q,
          )
          (
            rw (line_of-some r q.queues queue e, lookup-set_line r (remove_at i queue) q.queues)
                (first_of-some client queue i f),
            λ s h. line_of-set_line_ne r s (remove_at i queue) q.queues h,
          )
  ]
]

cleanup_expired-Elsewhere :
    (now : ℕ) (r : Bytes) (q : FairQueue) → Elsewhere r q (cleanup_expired now r q).0
unfolding cleanup_expired
cleanup_expired-Elsewhere now r q s h = elim (Option-cases (lookup r q.queues)) [
  | inl e ↦ rw (e, cleanup_expired) refl
  | inr (queue, e) ↦
      rw (e, cleanup_expired)
        (elim (Bool-cases (ltb 0 (length queue - length (live now queue)))) [
          | inl b ↦ rw b (line_of-set_line_ne r s (live now queue) q.queues h)
          | inr b ↦ rw b (line_of-set_line_ne r s (live now queue) q.queues h)
        ])
]

try_acquire-queues :
    (now : ℕ) (r client : Bytes) (q : FairQueue)
    → (try_acquire now r client q).0.queues ≡ (cleanup_expired now r q).0.queues
unfolding try_acquire
try_acquire-queues now r client q =
    elim (Bool-cases (is_front client (lookup r (cleanup_expired now r q).0.queues))) [
      | inl p ↦ rw p refl
      | inr p ↦ rw p refl
    ]

-- A request for a turn drops what has expired, and nothing else.
pub try_acquire-line :
    (now : ℕ) (r client : Bytes) (q : FairQueue)
    → let q' = (try_acquire now r client q).0 in
      (line_of r q'.queues ≡ live now (line_of r q.queues)) × Elsewhere r q q'
try_acquire-line now r client q =
    let e = try_acquire-queues now r client q in
    (
      ap (line_of r) e ∙ cleanup_expired-line now r q,
      λ s h. ap (line_of s) e ∙ cleanup_expired-Elsewhere now r q s h,
    )
