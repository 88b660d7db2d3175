-- ===== src/Cluster/Histories/Takeover.antt =====
-- Failure detection and failover of src/cluster/state.rs keep the topology sound.
use kore.Base.{
  ℕ, ◌≡◌, ◌∙◌, Bool, true, false, not, ◌&&◌, ◌||◌, List, [], ◌∷◌, ltb, leb, if◌then◌else◌, Bytes,
  same, Bool-cases, Option-cases, inl, inr,
}
use kore.Base.Table.{contains_key, update}
use kore.Cluster.{slot_count, ClusterState, Reply, ok, err, is_empty, count_slots, set_node_flags}
use kore.Cluster.Slots.{owns_any, end_transitions, hand_over}
use kore.Cluster.Failover.{
  with_offset, set_local_repl_offset, with_priority, set_local_repl_priority, confirm_fail,
  mark_fail, recover, touch_pong, ingest_fail_reports, escalate_one, escalate_all, escalate_fails,
  fail_quorum_size, candidates, votes, suspect, note_unreachable, as_replica_of, promoted,
  configure_as_replica_of, master_alive, claim_slots_from, ManualFailoverMode, safe, force,
  takeover, claimed_by, fail_over_from, my_master_id, manual_failover, winner_alive,
  reconfigure_as_replica_of_failover_winner, is_replica_of, node_is_fail, node_test,
  should_claim_on_failover,
}
use kore.Cluster.Histories.{
  IsSound, contains_key-update, owner_known-of_key, grow-Fits, set_node_flags-IsSound,
  end_transitions-IsSound, hand_over-IsSound,
}
use kore.Cluster.Histories.Kept.{OnOk, OnOk-if, unnot}

pub set_local_repl_offset-IsSound :
    (offset : ℕ) (g : ClusterState) → IsSound g → IsSound (set_local_repl_offset offset g)
unfolding set_local_repl_offset
set_local_repl_offset-IsSound offset g v =
    set_node_flags-IsSound g.my_id (with_offset offset) (record g { local_repl_offset = offset }) v

pub set_local_repl_priority-IsSound :
    (priority : ℕ) (g : ClusterState) → IsSound g → IsSound (set_local_repl_priority priority g)
unfolding set_local_repl_priority
set_local_repl_priority-IsSound priority g v =
    set_node_flags-IsSound g.my_id (with_priority priority)
      (record g { local_repl_priority = priority }) v

pub mark_fail-IsSound : (id : Bytes) (g : ClusterState) → IsSound g → IsSound (mark_fail id g)
unfolding mark_fail
mark_fail-IsSound id g v = elim (Bool-cases (same id g.my_id)) [
  | inl p ↦ rw p v
  | inr p ↦ rw p (set_node_flags-IsSound id confirm_fail g v)
]

pub touch_pong-IsSound :
    (now : ℕ) (id : Bytes) (g : ClusterState) → IsSound g → IsSound (touch_pong now id g)
unfolding touch_pong
touch_pong-IsSound now id g v =
    grow-Fits g.nodes (update id recover g.nodes)
      (λ k h. contains_key-update id k recover g.nodes ∙ h) v

pub ingest_fail_reports-IsSound :
    (from : Bytes) (xs : List Bytes) (g : ClusterState)
    → IsSound g
    → IsSound (ingest_fail_reports from xs g)
unfolding ingest_fail_reports
ingest_fail_reports-IsSound from xs g v = elim (Bool-cases (is_empty from)) [
  | inl p ↦ rw p v
  | inr p ↦ rw p v
]

escalate_one-IsSound :
    (quorum : ℕ) (c : Bytes) (g : ClusterState) → IsSound g → IsSound (escalate_one quorum c g).0
unfolding escalate_one
escalate_one-IsSound quorum c g v = elim (Bool-cases (node_is_fail c g)) [
  | inl p ↦ rw p v
  | inr p ↦ elim (Bool-cases (leb quorum (votes g c) && contains_key c g.nodes)) [
    | inl q ↦ rw (p, q) (set_node_flags-IsSound c confirm_fail g v)
    | inr q ↦ rw (p, q) v
  ]
]

escalate_all-IsSound :
    (quorum : ℕ) (cs : List Bytes) (g : ClusterState)
    → IsSound g
    → IsSound (escalate_all quorum cs g).0
unfolding escalate_all
escalate_all-IsSound quorum [] g v = v
escalate_all-IsSound quorum (c ∷ cs) g v =
    escalate_all-IsSound quorum cs (escalate_one quorum c g).0 (escalate_one-IsSound quorum c g v)

pub escalate_fails-IsSound : (g : ClusterState) → IsSound g → IsSound (escalate_fails g).0
unfolding escalate_fails
escalate_fails-IsSound g v = escalate_all-IsSound (fail_quorum_size g) (candidates g) g v

pub note_unreachable-IsSound :
    (id : Bytes) (g : ClusterState) → IsSound g → IsSound (note_unreachable id g).0
unfolding note_unreachable
note_unreachable-IsSound id g v =
    elim (Bool-cases
      (is_empty id || same id g.my_id || not (contains_key id g.nodes) || node_is_fail id g)) [
        | inl p ↦ rw p v
        | inr p ↦ rw p (
            escalate_fails-IsSound (set_node_flags id suspect g)
              (set_node_flags-IsSound id suspect g v))
      ]

-- The slots go to a known node, if any do, and the transitions end.
moved-IsSound :
    (b : Bool) (from to : Bytes) (g : ClusterState)
    → contains_key to g.nodes ≡ true
    → IsSound g
    → IsSound (end_transitions (if b then hand_over from to g else g))
moved-IsSound true from to g k v = hand_over-IsSound from to g (owner_known-of_key g.nodes to k) v
moved-IsSound false from to g k v = end_transitions-IsSound g v

pub configure_as_replica_of-IsSound :
    (id : Bytes) (g : ClusterState) → IsSound g → OnOk IsSound (configure_as_replica_of id g)
unfolding configure_as_replica_of
configure_as_replica_of-IsSound id g v =
    OnOk-if IsSound (same id g.my_id) _ _ (λ _. tt)
      (λ _.
        OnOk-if IsSound (not (contains_key id g.nodes)) _ _ (λ _. tt)
          (λ k.
            let g' = end_transitions (if owns_any g.my_id g then hand_over g.my_id id g else g) in
            let v' : IsSound g' = moved-IsSound (owns_any g.my_id g) g.my_id id g (unnot _ k) v in
            set_node_flags-IsSound id promoted (set_node_flags g.my_id (as_replica_of id) g')
              (set_node_flags-IsSound g.my_id (as_replica_of id) g' v')))

pub claim_slots_from-IsSound :
    (id : Bytes) (g : ClusterState) → IsSound g → OnOk (λ r. IsSound r.0) (claim_slots_from id g)
unfolding claim_slots_from
claim_slots_from-IsSound id g v =
    OnOk-if (λ r. IsSound r.0) (not (contains_key id g.nodes)) _ _ (λ _. tt)
      (λ _.
        let some_claimed = ltb 0 (count_slots slot_count (λ s. same (g.slot_owner s) id)) in
        set_node_flags-IsSound g.my_id master_alive
          (end_transitions (if some_claimed then hand_over id g.my_id g else g))
          (moved-IsSound some_claimed id g.my_id g v.me v))

claimed_by-IsSound :
    (old : ClusterState) (r : Reply (ClusterState × ℕ))
    → IsSound old
    → OnOk (λ r. IsSound r.0) r
    → IsSound (claimed_by old r).0
unfolding claimed_by
claimed_by-IsSound old (ok (g, n)) v h = h
claimed_by-IsSound old (err e) v h = v

-- Whichever result a test chooses.
either-IsSound :
    (b : Bool) (x y : ClusterState × Reply ℕ)
    → IsSound x.0
    → IsSound y.0
    → IsSound (if b then x else y).0
either-IsSound true x y h k = h
either-IsSound false x y h k = k

fail_over_from-IsSound :
    (mode : ManualFailoverMode) (m : Bytes) (g : ClusterState)
    → IsSound g
    → IsSound (fail_over_from mode m g).0
unfolding fail_over_from
fail_over_from-IsSound safe m g v =
    either-IsSound (not (node_is_fail m g) && not (node_test (λ n. n.pfail) m g)) _ _ v (
      either-IsSound (not (should_claim_on_failover m g)) _ _ v
        (claimed_by-IsSound g (claim_slots_from m g) v (claim_slots_from-IsSound m g v)))
fail_over_from-IsSound force m g v =
    let v' = mark_fail-IsSound m g v in
    either-IsSound (not (should_claim_on_failover m g)) _ _ v (
      claimed_by-IsSound (mark_fail m g) (claim_slots_from m (mark_fail m g)) v'
        (claim_slots_from-IsSound m (mark_fail m g) v'))
fail_over_from-IsSound takeover m g v =
    let v' = mark_fail-IsSound m g v in
    claimed_by-IsSound (mark_fail m g) (claim_slots_from m (mark_fail m g)) v'
      (claim_slots_from-IsSound m (mark_fail m g) v')

pub manual_failover-IsSound :
    (mode : ManualFailoverMode) (g : ClusterState) → IsSound g → IsSound (manual_failover mode g).0
unfolding manual_failover
manual_failover-IsSound mode g v = elim (Option-cases (my_master_id g)) [
  | inl e ↦ rw (e, manual_failover) v
  | inr (m, e) ↦ rw (e, manual_failover) (fail_over_from-IsSound mode m g v)
]

pub reconfigure-IsSound :
    (w : Bytes) (g : ClusterState)
    → IsSound g
    → OnOk IsSound (reconfigure_as_replica_of_failover_winner w g)
unfolding reconfigure_as_replica_of_failover_winner
reconfigure-IsSound w g v =
    OnOk-if IsSound (same w g.my_id) _ _ (λ _. tt)
      (λ _.
        OnOk-if IsSound (is_replica_of w g) _ _ (λ _. v)
          (λ _.
            OnOk-if IsSound (not (contains_key w g.nodes)) _ _ (λ _. tt)
              (λ _.
                configure_as_replica_of-IsSound w (set_node_flags w winner_alive g)
                  (set_node_flags-IsSound w winner_alive g v))))
