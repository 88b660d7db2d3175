-- ===== src/Deadlock/Victims/Release.antt =====
-- What the release of the locks of a victim leaves: `release_client_locks` of src/deadlock.rs.
use kore.Base.{
  ◌≡◌, ◌≢◌, refl, Bool, true, false, not, none, some, List, [], ◌∷◌, arith, if◌then◌else◌, Bytes,
  same, same_iff, same_refl, Bool-cases, subst, inl, inr,
}
use kore.Base.Table.{Table, lookup, remove, Distinct, lookup-retain, lookup-remove}
use kore.Deadlock.{LockInfo, WaitEdge, DeadlockDetector, keep, release_client_locks, prune_waiting}
use kore.Deadlock.Search.Cycles.{Waits, Leads, direct, further}

kept_rest :
    (p : WaitEdge → Bool) (e : WaitEdge) (es : List WaitEdge) (a r b : Bytes)
    → p e ≡ false
    → Waits (keep p (e ∷ es)) a r b
    → Waits (keep p es) a r b
unfolding keep
kept_rest p e es a r b q w = subst (λ c. Waits (if c then e ∷ keep p es else keep p es) a r b) q w

kept_first :
    (p : WaitEdge → Bool) (e : WaitEdge) (es : List WaitEdge) (a r b : Bytes)
    → p e ≡ true
    → (Waits (keep p es) a r b → (f : WaitEdge) × (p f ≡ true) × (f.waiter ≡ a) × (f.holder ≡ b))
    → Waits (keep p (e ∷ es)) a r b
    → (f : WaitEdge) × (p f ≡ true) × (f.waiter ≡ a) × (f.holder ≡ b)
unfolding keep
kept_first p e es a r b q h w =
    first_or_rest (subst (λ c. Waits (if c then e ∷ keep p es else keep p es) a r b) q w)
  where
    first_or_rest :
        Waits (e ∷ keep p es) a r b
        → (f : WaitEdge) × (p f ≡ true) × (f.waiter ≡ a) × (f.holder ≡ b)
    first_or_rest (inl (i, j, k)) = (e, q, i, k)
    first_or_rest (inr w) = h w

keep-Waits :
    (p : WaitEdge → Bool) (es : List WaitEdge) (a r b : Bytes)
    → Waits (keep p es) a r b
    → (e : WaitEdge) × (p e ≡ true) × (e.waiter ≡ a) × (e.holder ≡ b)
unfolding keep
keep-Waits p [] a r b w = elim w [ ]
keep-Waits p (e ∷ es) a r b w = elim (Bool-cases (p e)) [
  | inr q ↦ keep-Waits p es a r b (kept_rest p e es a r b q w)
  | inl q ↦ kept_first p e es a r b q (keep-Waits p es a r b) w
]

prune_waiting_missing :
    (p : LockInfo → Bool) (k : Bytes) (m : Table (List LockInfo))
    → lookup k m ≡ none
    → lookup k (prune_waiting p m) ≡ none
unfolding lookup prune_waiting
prune_waiting_missing p k [] h = refl
prune_waiting_missing p k ((w, infos) ∷ m) h = ground (arith, prune_waiting_missing p k m)

no_edge :
    (client : Bytes) (d : DeadlockDetector) (a r b : Bytes)
    → Waits (release_client_locks client d).0.wait_graph a r b
    → (a ≢ client) × (b ≢ client)
unfolding release_client_locks
no_edge client d a r b w =
    let (e, p, i, j) = keep-Waits _ d.wait_graph a r b w in
    ground (arith, same_iff e.waiter client, same_iff e.holder client)

no_cycle :
    (graph : List WaitEdge) (x : Bytes)
    → ((r b : Bytes) → Waits graph x r b → ⊥)
    → ¬ Leads graph x x
no_cycle graph x h l = no_way x x h l
  where
    no_way : (a b : Bytes) → ((r c : Bytes) → Waits graph a r c → ⊥) → Leads graph a b → ⊥
    no_way _ _ h (direct a b r w) = h r b w
    no_way _ _ h (further a b c r w l) = h r b w

-- After the release of its locks a client is out of the wait-for graph: it holds no resource, no edge
-- leads to it or from it, it waits for nothing and lies on no cycle. The locks of the others stay.
-- Each resource is held once.
pub release_client_locks_lem :
    (client : Bytes) (d : DeadlockDetector)
    → Distinct d.held_locks
    → let d' = (release_client_locks client d).0 in
      ((r : Bytes)
        → lookup r d'.held_locks ≡ elim (lookup r d.held_locks) [
          | none ↦ none
          | some info ↦ if not (same info.client_id client) then some info else none
        ])
      × ((a r b : Bytes) → Waits d'.wait_graph a r b → (a ≢ client) × (b ≢ client))
      × (lookup client d'.waiting_for ≡ none)
      × (¬ Leads d'.wait_graph client client)
unfolding release_client_locks
release_client_locks_lem client d h = (
  λ r. lookup-retain _ r d.held_locks h,
  no_edge client d,
  prune_waiting_missing _ client (remove client d.waiting_for)
      (ground (arith, lookup-remove client client d.waiting_for, same_refl client)),
  no_cycle _ client (λ r b w. (no_edge client d client r b w).0 refl),
)
