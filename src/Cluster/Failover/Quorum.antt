-- ===== src/Cluster/Failover/Quorum.antt =====
-- Which votes a node has that fails: escalate_fails of src/cluster/state.rs.
use kore.Base.{
  ℕ, ◌+◌, ◌*◌, ◌/◌, ◌≤◌, ◌<◌, ◌≡◌, refl, sym, ap, subst, ◌∙◌, Bool, true, false, ◌&&◌, none, some,
  List, [], ◌∷◌, arith, leb, if◌then◌else◌, Bytes, same, same_iff, same_refl, Bool-cases,
  Option-cases, ◌⊎◌, inl, inr,
}
use mathlib.Core.Option
use kore.Base.Table.{Table, lookup, contains_key, lookup-update, contains_key-some}
use kore.Cluster.{ClusterNode, ClusterState, set_node_flags}
use kore.Cluster.Failover.{
  node_test, live_master, master_count, fail_quorum_size, listed, suspected_here, candidates,
  peer_votes, votes, node_is_fail, confirm_fail, escalate_one, escalate_all, escalate_fails,
}

module _ (p : ClusterNode → Bool) (id : Bytes) (g : ClusterState) where
  node_test-none : lookup id g.nodes ≡ none → node_test p id g ≡ false
  unfolding node_test
  node_test-none e = rw (e, node_test) refl

  node_test-some : (n : ClusterNode) → lookup id g.nodes ≡ some n → node_test p id g ≡ p n
  unfolding node_test
  node_test-some n e = rw (e, node_test) refl

failed_lookup :
    (c x : Bytes) (g : ClusterState)
    → lookup x (set_node_flags c confirm_fail g).nodes
      ≡ (if same c x then Option.map confirm_fail (lookup x g.nodes) else lookup x g.nodes)
unfolding set_node_flags
failed_lookup c x g = lookup-update c x confirm_fail g.nodes

-- Another node's test is as before.
node_test_other :
    (p : ClusterNode → Bool) (c x : Bytes) (g : ClusterState)
    → same c x ≡ false
    → node_test p x (set_node_flags c confirm_fail g) ≡ node_test p x g
node_test_other p c x g h =
    let g' = set_node_flags c confirm_fail g in
    let e : lookup x g'.nodes ≡ lookup x g.nodes = failed_lookup c x g ∙ rw h refl in
    elim (Option-cases (lookup x g.nodes)) [
      | inl o ↦ node_test-none p x g' (e ∙ o) ∙ sym (node_test-none p x g o)
      | inr (n, o) ↦ node_test-some p x g' n (e ∙ o) ∙ sym (node_test-some p x g n o)
    ]

-- The test of the node that fails.
node_test_self :
    (p : ClusterNode → Bool) (c : Bytes) (g : ClusterState)
    → contains_key c g.nodes ≡ true
    → (n : ClusterNode) × (node_test p c (set_node_flags c confirm_fail g) ≡ p (confirm_fail n))
node_test_self p c g h =
    let (n, o) = contains_key-some c g.nodes h in
    (
      n,
      node_test-some p c (set_node_flags c confirm_fail g) (confirm_fail n)
          (failed_lookup c c g ∙ rw (same_refl c, o) refl),
    )

node_is_fail_self :
    (c : Bytes) (g : ClusterState)
    → contains_key c g.nodes ≡ true
    → node_is_fail c (set_node_flags c confirm_fail g) ≡ true
unfolding node_is_fail confirm_fail
node_is_fail_self c g h = (node_test_self (λ n. n.fail) c g h).1

-- No master comes to life.
live_master_before :
    (c r : Bytes) (g : ClusterState)
    → contains_key c g.nodes ≡ true
    → node_test live_master r (set_node_flags c confirm_fail g) ≡ true
    → node_test live_master r g ≡ true
unfolding live_master confirm_fail
live_master_before c r g h k = elim (Bool-cases (same c r)) [
  | inr p ↦ sym (node_test_other live_master c r g p) ∙ k
  | inl p ↦
      let e = (same_iff c r).0 p in
      let (n, o) = node_test_self live_master c g h in
      let k' : node_test live_master c (set_node_flags c confirm_fail g) ≡ true =
        ap (λ (z : Bytes). node_test live_master z (set_node_flags c confirm_fail g)) e ∙ k in
      absurd (ground (arith, o, k'))
]

peer_votes-le :
    (g g' : ClusterState) (x : Bytes) (m : Table (List Bytes))
    → ((r : Bytes) → node_test live_master r g' ≡ true → node_test live_master r g ≡ true)
    → peer_votes g' x m ≤ peer_votes g x m
unfolding peer_votes
peer_votes-le g g' x [] h = omega arith
peer_votes-le g g' x ((r, set) ∷ m) h = ground (arith, peer_votes-le g g' x m h, h r)

-- Of the nodes that have not failed later, none had failed before, and none has gained votes.
abbrev pub Fewer : ClusterState → ClusterState → Type 0
Fewer g g' =
    (x : Bytes) → node_is_fail x g' ≡ false → (node_is_fail x g ≡ false) × (votes g' x ≤ votes g x)

other_fail :
    (c x : Bytes) (g : ClusterState)
    → same c x ≡ false
    → node_is_fail x (set_node_flags c confirm_fail g) ≡ node_is_fail x g
unfolding node_is_fail
other_fail c x g p = node_test_other (λ n. n.fail) c x g p

same_reports :
    (c : Bytes) (g : ClusterState) → (set_node_flags c confirm_fail g).fail_reports ≡ g.fail_reports
unfolding set_node_flags
same_reports c g = refl

other_votes :
    (c x : Bytes) (g : ClusterState)
    → same c x ≡ false
    → contains_key c g.nodes ≡ true
    → votes (set_node_flags c confirm_fail g) x ≤ votes g x
unfolding votes
other_votes c x g p h =
    let le =
      peer_votes-le g (set_node_flags c confirm_fail g) x g.fail_reports
        (λ r. live_master_before c r g h) in
    rw (node_test_other suspected_here c x g p, same_reports c g) (omega (arith, le))

failed-Fewer :
    (c : Bytes) (g : ClusterState)
    → contains_key c g.nodes ≡ true
    → Fewer g (set_node_flags c confirm_fail g)
failed-Fewer c g h x k = elim (Bool-cases (same c x)) [
  | inl p ↦
      let e = (same_iff c x).0 p in
      let k' : node_is_fail c (set_node_flags c confirm_fail g) ≡ false =
        ap (λ (z : Bytes). node_is_fail z (set_node_flags c confirm_fail g)) e ∙ k in
      absurd (let y = sym (node_is_fail_self c g h) ∙ k' in cc)
  | inr p ↦ (sym (other_fail c x g p) ∙ k, other_votes c x g p h)
]

Fewer-trans : (a b c : ClusterState) → Fewer a b → Fewer b c → Fewer a c
Fewer-trans a b c h k x f = let l = k x f in let m = h x l.0 in (m.0, omega (arith, l.1, m.1))

Fewer-refl : (g : ClusterState) → Fewer g g
Fewer-refl g x f = (f, omega arith)

-- A candidate that fails had not failed before and had the votes.
escalate_one-cases :
    (quorum : ℕ) (c : Bytes) (g : ClusterState)
    → let r = escalate_one quorum c g in
      ((r.1 ≡ false) × (r.0 ≡ g))
      ⊎ ((r.1 ≡ true)
          × (node_is_fail c g ≡ false)
          × (quorum ≤ votes g c)
          × Fewer g r.0
          × (node_is_fail c r.0 ≡ true))
unfolding escalate_one
escalate_one-cases quorum c g = elim (Bool-cases (node_is_fail c g)) [
  | inl p ↦ rw p (inl (refl, refl))
  | inr p ↦ elim (Bool-cases (leb quorum (votes g c) && contains_key c g.nodes)) [
    | inr q ↦ rw (p, q) (inl (refl, refl))
    | inl q ↦
        let known : contains_key c g.nodes ≡ true = ground (arith, q) in
        rw (p, q)
          (inr (refl, refl, ground (arith, q), failed-Fewer c g known, node_is_fail_self c g known))
  ]
]

-- What holds of a node that fails newly.
abbrev pub HasFailed : ℕ → ClusterState → ClusterState → Bytes → Type 0
HasFailed quorum g g' x =
    (node_is_fail x g ≡ false) × (quorum ≤ votes g x) × (node_is_fail x g' ≡ true)

escalate_one-Fewer :
    (quorum : ℕ) (c : Bytes) (g : ClusterState) → Fewer g (escalate_one quorum c g).0
escalate_one-Fewer quorum c g = elim (escalate_one-cases quorum c g) [
  | inl (f, e) ↦ subst (Fewer g) (sym e) (Fewer-refl g)
  | inr r ↦ r.3
]

still_failed :
    (a b : ClusterState) (x : Bytes) → Fewer a b → node_is_fail x a ≡ true → node_is_fail x b ≡ true
still_failed a b x f h = elim (Bool-cases (node_is_fail x b)) [
  | inl p ↦ p
  | inr p ↦ absurd (let y = sym h ∙ (f x p).0 in cc)
]

carry :
    (quorum : ℕ) (a b c : ClusterState) (x : Bytes)
    → Fewer a b
    → HasFailed quorum b c x
    → HasFailed quorum a c x
carry quorum a b c x f h = let k = f x h.0 in (k.0, omega (arith, h.1, k.1), h.2)

-- Which names the failures of a candidate and of the rest are.
listed_if :
    (b : Bool) (x c : Bytes) (xs : List Bytes)
    → listed x (if b then c ∷ xs else xs) ≡ true
    → ((b ≡ true) × (c ≡ x)) ⊎ (listed x xs ≡ true)
unfolding listed
listed_if true x c xs h = elim (Bool-cases (same c x)) [
  | inl p ↦ inl (refl, (same_iff c x).0 p)
  | inr p ↦ inr (ground (arith, h, p))
]
listed_if false x c xs h = inr h

escalate_all-HasFailed :
    (quorum : ℕ) (cs : List Bytes) (g : ClusterState)
    → let r = escalate_all quorum cs g in
      Fewer g r.0 × ((x : Bytes) → listed x r.1 ≡ true → HasFailed quorum g r.0 x)
unfolding escalate_all listed
escalate_all-HasFailed quorum [] g = (Fewer-refl g, λ x h. cc)
escalate_all-HasFailed quorum (c ∷ cs) g =
    let one = escalate_one quorum c g in
    let rest = escalate_all quorum cs one.0 in
    let ih = escalate_all-HasFailed quorum cs one.0 in
    let fewer = escalate_one-Fewer quorum c g in
    (
      Fewer-trans g one.0 rest.0 fewer ih.0,
      λ x h. elim (listed_if one.1 x c rest.1 h) [
        | inr k ↦ carry quorum g one.0 rest.0 x fewer (ih.1 x k)
        | inl (b, e) ↦ elim (escalate_one-cases quorum c g) [
          | inl (f, _) ↦ absurd (let y = sym b ∙ f in cc)
          | inr r ↦
              subst (HasFailed quorum g rest.0) e (r.1, r.2, still_failed one.0 rest.0 c ih.0 r.4)
        ]
      ],
    )

half : (m v : ℕ) → (if leb m 2 then 1 else m / 2 + 1) ≤ v → 2 < m → m < 2 * v
half m v h k = ground (arith, h, k)

-- A node that fails newly had not failed before, and it had the votes of the quorum, counted before any
-- node was marked: this node's own suspicion, and the reports of live masters other than it. With more
-- than two live masters those votes are more than half as many as they are.
pub escalate_fails-HasQuorum :
    (g : ClusterState) (x : Bytes)
    → listed x (escalate_fails g).1 ≡ true
    → HasFailed (fail_quorum_size g) g (escalate_fails g).0 x
      × (2 < master_count g → master_count g < 2 * votes g x)
unfolding escalate_fails fail_quorum_size
escalate_fails-HasQuorum g x h =
    let r = (escalate_all-HasFailed (fail_quorum_size g) (candidates g) g).1 x h in
    (r, half (master_count g) (votes g x) r.1)
