-- ===== src/Deadlock/Holders.antt =====
-- The edges of the wait-for graph name the holders of the resources, after every operation.
pub mod Merged
use kore.Base.{
  ℕ, zero, suc, ◌+◌, ◌≡◌, refl, Bool, true, false, not, ◌&&◌, ◌||◌, Option, none, some, List, [],
  ◌∷◌, ◌++◌, arith, if◌then◌else◌, Bytes, same, same_iff, same_refl, Option-cases, Bool-cases, ◌⊎◌,
  inl, inr,
}
use kore.Base.Table.{
  Table, lookup, contains_key, insert, remove, retain, Distinct, lookup-insert, lookup-remove,
  lookup-retain, insert-Distinct, remove-Distinct, retain-Distinct,
}
use kore.Deadlock.{
  LockInfo, WaitEdge, VictimSelectionStrategy, DeadlockDetector, new_with_strategy, member, keep,
  edge_exists, push_new, rewrite_edges, relink_one, relink_all, record_lock_acquired, holds,
  record_lock_released, record_lock_wait, remove_from_waiting, cleanup_expired_into,
  release_client_locks, is_expired, stop_waiting, keys_where,
}
use mathlib.Core.Option

-- If the resource of the edge is held, then by the holder that the edge names.
abbrev pub Agrees : Table LockInfo → WaitEdge → Type 0
Agrees held e = (info : LockInfo) → lookup e.resource held ≡ some info → e.holder ≡ info.client_id

abbrev pub AllAgree : Table LockInfo → List WaitEdge → Type 0
AllAgree held [] = Unit
AllAgree held (e ∷ es) = Agrees held e × AllAgree held es

pub record IsSound (d : DeadlockDetector) : Type 0 where
  pub distinct : Distinct d.held_locks
  pub agree : AllAgree d.held_locks d.wait_graph

pub keep-AllAgree :
    (held : Table LockInfo) (p : WaitEdge → Bool) (es : List WaitEdge)
    → AllAgree held es
    → AllAgree held (keep p es)
unfolding keep
keep-AllAgree held p [] a = tt
keep-AllAgree held p (e ∷ es) a = elim (Bool-cases (p e)) [
  | inl q ↦ rw q (a.0, keep-AllAgree held p es a.1)
  | inr q ↦ rw q (keep-AllAgree held p es a.1)
]

-- Fewer locks leave fewer edges to agree.
pub fewer-AllAgree :
    (held held' : Table LockInfo) (es : List WaitEdge)
    → ((r : Bytes) (info : LockInfo) → lookup r held' ≡ some info → lookup r held ≡ some info)
    → AllAgree held es
    → AllAgree held' es
fewer-AllAgree held held' [] h a = tt
fewer-AllAgree held held' (e ∷ es) h a =
    (λ info l. a.0 info (h e.resource info l), fewer-AllAgree held held' es h a.1)

pub snoc-AllAgree :
    (held : Table LockInfo) (e : WaitEdge) (es : List WaitEdge)
    → Agrees held e
    → AllAgree held es
    → AllAgree held (es ++ e ∷ [])
snoc-AllAgree held e [] h a = (h, tt)
snoc-AllAgree held e (f ∷ es) h a = (a.0, snoc-AllAgree held e es h a.1)

pub push_new-AllAgree :
    (held : Table LockInfo) (e : WaitEdge) (es : List WaitEdge)
    → Agrees held e
    → AllAgree held es
    → AllAgree held (push_new e es)
unfolding push_new
push_new-AllAgree held e es h a = elim (Bool-cases (edge_exists es e.waiter e.holder e.resource)) [
  | inl p ↦ rw p a
  | inr p ↦ rw p (snoc-AllAgree held e es h a)
]

rewrite_edges-AllAgree :
    (r client : Bytes) (info : LockInfo) (held : Table LockInfo) (es graph : List WaitEdge)
    → info.client_id ≡ client
    → AllAgree (insert r info held) graph
    → AllAgree held es
    → AllAgree (insert r info held) (rewrite_edges r client graph es)
unfolding rewrite_edges
rewrite_edges-AllAgree r client info held [] graph c g a = g
rewrite_edges-AllAgree r client info held (e ∷ es) graph c g a =
    let other = same_refl r in
    elim (Bool-cases (same e.resource r)) [
      | inl p ↦ elim (Bool-cases (same e.waiter client)) [
        | inl q ↦ rw (p, q) (rewrite_edges-AllAgree r client info held es graph c g a.1)
        | inr q ↦
            rw (p, q)
              (rewrite_edges-AllAgree r client info held es _ c
                (push_new-AllAgree (insert r info held) _ graph
                  (λ i l. ground (
                    arith,
                    lookup-insert r e.resource info held,
                    same_iff e.resource r,
                    same_refl r,
                  ))
                  g)
                a.1)
      ]
      | inr p ↦ rw p (
          rewrite_edges-AllAgree r client info held es _ c
            (push_new-AllAgree (insert r info held) e graph
              (λ i l. a.0 i (
                ground (
                  arith,
                  lookup-insert r e.resource info held,
                  same_iff r e.resource,
                  same_refl r,
                )))
              g)
            a.1)
    ]

relink_one-AllAgree :
    (r client w : Bytes) (info : LockInfo) (held : Table LockInfo) (infos : List LockInfo)
    (graph : List WaitEdge)
    → info.client_id ≡ client
    → AllAgree (insert r info held) graph
    → AllAgree (insert r info held) (relink_one r client w graph infos)
unfolding relink_one
relink_one-AllAgree r client w info held [] graph c g = g
relink_one-AllAgree r client w info held (i ∷ infos) graph c g =
    elim (Bool-cases (same i.resource r)) [
      | inr p ↦ rw p (relink_one-AllAgree r client w info held infos graph c g)
      | inl p ↦ rw p (
          relink_one-AllAgree r client w info held infos _ c (
            push_new-AllAgree (insert r info held) _ graph
              (λ j l. ground (arith, lookup-insert r r info held, same_refl r)) g))
    ]

relink_all-AllAgree :
    (r client : Bytes) (info : LockInfo) (held : Table LockInfo) (m : Table (List LockInfo))
    (graph : List WaitEdge)
    → info.client_id ≡ client
    → AllAgree (insert r info held) graph
    → AllAgree (insert r info held) (relink_all r client graph m)
unfolding relink_all
relink_all-AllAgree r client info held [] graph c g = g
relink_all-AllAgree r client info held ((w, infos) ∷ m) graph c g =
    elim (Bool-cases (same w client)) [
      | inl p ↦ rw p (relink_all-AllAgree r client info held m graph c g)
      | inr p ↦ rw p (
          relink_all-AllAgree r client info held m _ c
            (relink_one-AllAgree r client w info held infos graph c g))
    ]

retain-fewer :
    (p : Bytes → LockInfo → Bool) (held : Table LockInfo) (es : List WaitEdge)
    → Distinct held
    → AllAgree held es
    → AllAgree (retain p held) es
retain-fewer p held es d a =
    fewer-AllAgree held (retain p held) es (λ r info l. ground (arith, lookup-retain p r held d)) a

pub record_lock_acquired-IsSound :
    (now : ℕ) (r client : Bytes) (ttl : ℕ) (d : DeadlockDetector)
    → IsSound d
    → IsSound (record_lock_acquired now r client ttl d)
unfolding record_lock_acquired
record_lock_acquired-IsSound now r client ttl d s =
    let info : LockInfo = record {
      resource = r;
      client_id = client;
      timestamp = now;
      ttl_ms = ttl;
    } in
    record {
      distinct = insert-Distinct r info d.held_locks s.distinct;
      agree =
          relink_all-AllAgree r client info d.held_locks (stop_waiting client r d.waiting_for) _
            refl
            (rewrite_edges-AllAgree r client info d.held_locks d.wait_graph [] refl tt s.agree);
    }

pub record_lock_released-IsSound :
    (r client : Bytes) (d : DeadlockDetector)
    → IsSound d
    → IsSound (record_lock_released r client d)
unfolding record_lock_released
record_lock_released-IsSound r client d s = elim (Bool-cases (holds r client d.held_locks)) [
  | inr p ↦ rw p s
  | inl p ↦ rw p (record {
    distinct = remove-Distinct r d.held_locks s.distinct;
    agree =
        fewer-AllAgree d.held_locks (remove r d.held_locks) _
          (λ k info l. ground (arith, lookup-remove r k d.held_locks))
          (keep-AllAgree d.held_locks _ d.wait_graph s.agree);
  })
]

pub record_lock_wait-IsSound :
    (now : ℕ) (r client : Bytes) (ttl : ℕ) (d : DeadlockDetector)
    → IsSound d
    → IsSound (record_lock_wait now r client ttl d)
unfolding record_lock_wait
record_lock_wait-IsSound now r client ttl d s = elim (Option-cases (lookup r d.held_locks)) [
  | inl p ↦ rw (p, record_lock_wait) (record { distinct = s.distinct; agree = s.agree })
  | inr (h, p) ↦
      rw (p, record_lock_wait)
        (record {
          distinct = s.distinct;
          agree = snoc-AllAgree d.held_locks _ d.wait_graph (λ info l. ground arith) s.agree;
        })
]

pub remove_from_waiting-IsSound :
    (client : Bytes) (d : DeadlockDetector) → IsSound d → IsSound (remove_from_waiting client d)
unfolding remove_from_waiting
remove_from_waiting-IsSound client d s = record {
  distinct = s.distinct;
  agree = keep-AllAgree d.held_locks _ d.wait_graph s.agree;
}

pub cleanup_expired_into-IsSound :
    (now : ℕ) (d : DeadlockDetector) → IsSound d → IsSound (cleanup_expired_into now d)
unfolding cleanup_expired_into
cleanup_expired_into-IsSound now d s = record {
  distinct = retain-Distinct _ d.held_locks s.distinct;
  agree =
      retain-fewer _ d.held_locks _ s.distinct (keep-AllAgree d.held_locks _ d.wait_graph s.agree);
}

pub release_client_locks-IsSound :
    (client : Bytes) (d : DeadlockDetector) → IsSound d → IsSound (release_client_locks client d).0
unfolding release_client_locks
release_client_locks-IsSound client d s = record {
  distinct = retain-Distinct _ d.held_locks s.distinct;
  agree =
      retain-fewer _ d.held_locks _ s.distinct (keep-AllAgree d.held_locks _ d.wait_graph s.agree);
}
