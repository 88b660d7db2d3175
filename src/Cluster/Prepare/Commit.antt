-- ===== src/Cluster/Prepare/Commit.antt =====
-- What a commit of a prepared hand-over needs and does: COMMITPREPARE of src/cluster/state.rs.
use kore.Base.{
  ℕ, ◌≡◌, refl, sym, ap, subst, ◌∙◌, true, false, not, Option, none, some, arith, ltb, ◌==◌,
  if◌then◌else◌, Bytes, same, same_iff, Bool-cases, Option-cases, ◌⊎◌, inl, inr, ==_iff,
}
use kore.Base.Table.{contains_key}
use kore.Cluster.{
  slot_count, PrepareVote, ClusterState, ClusterError, Reply, ok, err, update, next_epoch, put_slot,
}
use kore.Cluster.Slots.{bump_epoch}
use kore.Cluster.Prepare.{
  prepare_vote_expired, prepare_topology_ready, drop_vote, purge_expired_prepare, check_vote,
  commit_prepare_node,
}

-- An unexpired vote for the node, taken at the epoch that the slot has.
pub record IsAuthorized (now slot : ℕ) (id : Bytes) (g : ClusterState) : Type 0 where
  pub vote : PrepareVote
  pub held : g.prepare_node slot ≡ some vote
  pub target : vote.target_id ≡ id
  pub fresh : prepare_vote_expired now vote ≡ false
  pub epoch : vote.slot_epoch ≡ g.slot_config_epoch slot
  pub ready : prepare_topology_ready g slot id ≡ none

-- The two states differ in their votes at most.
abbrev pub SameTopology : ClusterState → ClusterState → Type 0
SameTopology g g' =
    (g'.slot_owner ≡ g.slot_owner)
    × (g'.slot_config_epoch ≡ g.slot_config_epoch)
    × (g'.migrating ≡ g.migrating)
    × (g'.importing ≡ g.importing)
    × (g'.nodes ≡ g.nodes)
    × (g'.current_epoch ≡ g.current_epoch)

-- The slot is the node's, at a new epoch and in no transition; the others are as before.
abbrev pub IsCommitted : ℕ → Bytes → ClusterState → ClusterState → Type 0
IsCommitted slot id g g' =
    (g'.slot_owner slot ≡ id)
    × (g'.slot_config_epoch slot ≡ next_epoch g.current_epoch)
    × (g'.current_epoch ≡ next_epoch g.current_epoch)
    × (g'.migrating slot ≡ none)
    × (g'.importing slot ≡ none)
    × (g'.prepare_node slot ≡ none)
    × ((s : ℕ)
        → (s == slot) ≡ false
        → (g'.slot_owner s ≡ g.slot_owner s)
          × (g'.slot_config_epoch s ≡ g.slot_config_epoch s)
          × (g'.migrating s ≡ g.migrating s)
          × (g'.importing s ≡ g.importing s)
          × (g'.prepare_node s ≡ g.prepare_node s))

slot_self : (n : ℕ) → (n == n) ≡ true
slot_self n = (==_iff n n).1 refl

purge-cases :
    (now slot : ℕ) (g : ClusterState)
    → (purge_expired_prepare now slot g ≡ g) ⊎ (purge_expired_prepare now slot g ≡ drop_vote slot g)
unfolding purge_expired_prepare
purge-cases now slot g = elim (Option-cases (g.prepare_node slot)) [
  | inl e ↦ inl (rw (e, purge_expired_prepare) refl)
  | inr (v, e) ↦ elim (Bool-cases (prepare_vote_expired now v)) [
    | inl p ↦ inr (rw (e, purge_expired_prepare, p) refl)
    | inr p ↦ inl (rw (e, purge_expired_prepare, p) refl)
  ]
]

purge-SameTopology :
    (now slot : ℕ) (g : ClusterState) → SameTopology g (purge_expired_prepare now slot g)
unfolding drop_vote
purge-SameTopology now slot g = elim (purge-cases now slot g) [
  | inl e ↦ rw e (refl, refl, refl, refl, refl, refl)
  | inr e ↦ rw (e, drop_vote) (refl, refl, refl, refl, refl, refl)
]

-- What the test of a vote finds.
check_vote-none :
    (now slot : ℕ) (id : Bytes) (g : ClusterState)
    → ltb slot slot_count ≡ true
    → check_vote now slot id g ≡ none
    → IsAuthorized now slot id g
unfolding check_vote
check_vote-none now slot id g l h = found (g.prepare_node slot) refl h
  where
    found :
        (o : Option PrepareVote)
        → g.prepare_node slot ≡ o
        → (elim o [
          | none ↦ some kore.Cluster.no_vote
          | some v ↦
              if not (same v.target_id id)
              then some kore.Cluster.other_target
              else if prepare_vote_expired now v
              then some kore.Cluster.vote_expired
              else if not
                  (v.slot_epoch == (if ltb slot slot_count then g.slot_config_epoch slot else 0))
              then some kore.Cluster.epoch_stale
              else prepare_topology_ready g slot id
        ])
          ≡ none
        → IsAuthorized now slot id g
    found none e k = cc
    found (some v) e k = elim (Bool-cases (same v.target_id id)) [
      | inr p ↦ absurd (ground (arith, k, p))
      | inl p ↦ record {
        vote = v;
        held = e;
        target = (same_iff v.target_id id).0 p;
        fresh = ground (arith, k);
        epoch = ground (arith, k, l);
        ready = ground (arith, k);
      }
    ]

-- A vote that a purge leaves was there before.
of_purged :
    (now slot : ℕ) (id : Bytes) (g : ClusterState)
    → IsAuthorized now slot id (purge_expired_prepare now slot g)
    → IsAuthorized now slot id g
unfolding drop_vote update
of_purged now slot id g a = elim (purge-cases now slot g) [
  | inl e ↦ subst (IsAuthorized now slot id) e a
  | inr e ↦
      let gone : (drop_vote slot g).prepare_node slot ≡ none = rw (slot_self slot) refl in
      let kept = sym gone ∙ ap (λ (h : ClusterState). h.prepare_node slot) (sym e) ∙ a.held in cc
]

check_vote-authorized :
    (now slot : ℕ) (id : Bytes) (g : ClusterState)
    → ltb slot slot_count ≡ true
    → IsAuthorized now slot id g
    → check_vote now slot id g ≡ none
unfolding check_vote
check_vote-authorized now slot id g l a =
    let hit : same a.vote.target_id id ≡ true = (same_iff a.vote.target_id id).1 a.target in
    let level : (a.vote.slot_epoch == g.slot_config_epoch slot) ≡ true = (==_iff _ _).1 a.epoch in
    rw (a.held, check_vote, hit, a.fresh, l, level) a.ready

-- A vote that holds is not purged.
authorized_whole :
    (now slot : ℕ) (id : Bytes) (g : ClusterState)
    → IsAuthorized now slot id g
    → purge_expired_prepare now slot g ≡ g
unfolding purge_expired_prepare
authorized_whole now slot id g a = rw (a.held, purge_expired_prepare, a.fresh) refl

check_vote-purged :
    (now slot : ℕ) (id : Bytes) (g : ClusterState)
    → ltb slot slot_count ≡ true
    → IsAuthorized now slot id g
    → check_vote now slot id (purge_expired_prepare now slot g) ≡ none
check_vote-purged now slot id g l a =
    ap (check_vote now slot id) (authorized_whole now slot id g a)
    ∙ check_vote-authorized now slot id g l a

put_slot-IsCommitted :
    (slot : ℕ) (id : Bytes) (g h : ClusterState)
    → SameTopology g h
    → ((s : ℕ) → (s == slot) ≡ false → h.prepare_node s ≡ g.prepare_node s)
    → IsCommitted slot id g (put_slot id (bump_epoch h).current_epoch slot (bump_epoch h))
unfolding put_slot bump_epoch update
put_slot-IsCommitted slot id g h t v =
    let here = slot_self slot in
    (
      rw here refl,
      rw (here, t.5) refl,
      ap next_epoch t.5,
      rw here refl,
      rw here refl,
      rw here refl,
      λ s e. (
        rw e (ap (λ (f : ℕ → Bytes). f s) t.0),
        rw e (ap (λ (f : ℕ → ℕ). f s) t.1),
        rw e (ap (λ (f : ℕ → Option Bytes). f s) t.2),
        rw e (ap (λ (f : ℕ → Option Bytes). f s) t.3),
        rw e (v s e),
      ),
    )

purge_votes :
    (now slot : ℕ) (g : ClusterState) (s : ℕ)
    → (s == slot) ≡ false
    → (purge_expired_prepare now slot g).prepare_node s ≡ g.prepare_node s
unfolding drop_vote update
purge_votes now slot g s h = elim (purge-cases now slot g) [
  | inl e ↦ rw e refl
  | inr e ↦ rw (e, drop_vote, h) refl
]

-- A commit of a slot succeeds exactly when the slot is in range, the node is known, and there is an
-- unexpired vote for it that was taken at the present epoch of the slot, and the topology is still ready
-- for it. Then the slot is the node's at a new epoch, in no transition and without a vote, and every
-- other slot is as before. A commit that is refused changes no owner, epoch, transition or node.
pub commit_prepare_node_lem :
    (now slot : ℕ) (id : Bytes) (g : ClusterState)
    → let r = commit_prepare_node now slot id g in
      let allowed =
        (ltb slot slot_count ≡ true)
        × (contains_key id g.nodes ≡ true)
        × IsAuthorized now slot id g in
      (allowed × (r.1 ≡ ok tt) × IsCommitted slot id g r.0)
      ⊎ (¬ allowed × ((e : ClusterError) × (r.1 ≡ err e)) × SameTopology g r.0)
unfolding commit_prepare_node
commit_prepare_node_lem now slot id g = elim (Bool-cases (ltb slot slot_count)) [
  | inr l ↦ rw l (inr (λ a. cc, (_, refl), (refl, refl, refl, refl, refl, refl)))
  | inl l ↦ rw l (
      let g' = purge_expired_prepare now slot g in
      let same_g = purge-SameTopology now slot g in
      let known = ap (contains_key id) same_g.4 in
      elim (Option-cases (check_vote now slot id g')) [
        | inr (e, x) ↦ rw x (
            inr
              (λ a. let y = sym x ∙ check_vote-purged now slot id g l a.2 in cc, (_, refl), same_g))
        | inl x ↦ elim (Bool-cases (contains_key id g'.nodes)) [
          | inr k ↦ rw (x, k) (inr (λ a. let y = sym k ∙ known ∙ a.1 in cc, (_, refl), same_g))
          | inl k ↦
              rw (x, k)
                (inl (
                  (
                    refl,
                    sym known ∙ k,
                    of_purged now slot id g (check_vote-none now slot id g' l x),
                  ),
                  refl,
                  put_slot-IsCommitted slot id g g' same_g (purge_votes now slot g),
                ))
        ]
      ])
]
