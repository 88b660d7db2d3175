-- ===== src/Cluster/Histories.antt =====
-- What holds of the topology of src/cluster/state.rs after any operations: the slots, the nodes, the
-- transitions and the epochs fit together.
pub mod Kept
pub mod Votes
pub mod Spread
pub mod Takeover
pub mod Steps
pub mod Routing
use kore.Base.{
  ℕ, zero, suc, ◌+◌, ◌-◌, ◌≤◌, ◌<◌, ◌≡◌, refl, ap, sym, ◌∙◌, Bool, true, false, not, ◌&&◌, ◌||◌,
  Option, none, some, List, [], ◌∷◌, arith, ltb, leb, ◌==◌, if◌then◌else◌, Bytes, same, same_iff,
  same_refl, Bool-cases, Option-cases, ◌⊎◌, inl, inr, ==_iff,
}
use kore.Base.Table.{
  Table, lookup, contains_key, insert, remove, update, lookup-update, lookup-insert, lookup-remove,
}
use kore.Cluster.{
  slot_count, u64_max, ClusterNode, PrepareVote, ClusterState, is_empty, no_slot, next_epoch,
  any_slot, put_slot, set_node_flags,
}
use kore.Cluster.Slots.{hand_over, end_transitions, bump_epoch}
use kore.Cluster.Prepare.{is_some}

-- A target that is a known node, or none.
abbrev pub target_known : Table ClusterNode → Option Bytes → Bool
target_known nodes none = true
target_known nodes (some id) = contains_key id nodes

abbrev pub vote_known : Table ClusterNode → Option PrepareVote → Bool
vote_known nodes none = true
vote_known nodes (some v) = contains_key v.target_id nodes

abbrev pub has_target {ℓ} : {A : Type ℓ} → Option A → Bool
has_target none = false
has_target (some a) = true

abbrev pub owner_known : Table ClusterNode → Bytes → Bool
owner_known nodes [] = true
owner_known nodes (c ∷ cs) = contains_key (c ∷ cs) nodes

-- This node is known, and so is the owner of every slot that has one, the other end of every transition
-- and the target of every vote; no epoch of a slot is above the current one; a slot that migrates is
-- ours, and is not imported too.
pub record Fits (my_id : Bytes) (owner : ℕ → Bytes) (epoch : ℕ → ℕ)
    (migrating importing : ℕ → Option Bytes) (votes : ℕ → Option PrepareVote)
    (nodes : Table ClusterNode) (current : ℕ) : Type 0 where
  pub me : contains_key my_id nodes ≡ true
  pub epochs : (s : ℕ) → epoch s ≤ current
  pub owners : (s : ℕ) → s < slot_count → owner_known nodes (owner s) ≡ true
  pub migrating_known : (s : ℕ) → target_known nodes (migrating s) ≡ true
  pub importing_known : (s : ℕ) → target_known nodes (importing s) ≡ true
  pub votes_known : (s : ℕ) → vote_known nodes (votes s) ≡ true
  pub mine : (s : ℕ) → (not (has_target (migrating s)) || same (owner s) my_id) ≡ true
  pub exclusive : (s : ℕ) → (has_target (migrating s) && has_target (importing s)) ≡ false

abbrev pub IsSound : ClusterState → Type 0
IsSound g =
    Fits g.my_id g.slot_owner g.slot_config_epoch g.migrating g.importing g.prepare_node g.nodes
      g.current_epoch

pub next_epoch-le : (e : ℕ) → e ≤ next_epoch e
unfolding next_epoch
next_epoch-le e = ground arith

pub contains_key-update :
    (j k : Bytes) (f : ClusterNode → ClusterNode) (m : Table ClusterNode)
    → contains_key k (update j f m) ≡ contains_key k m
unfolding contains_key
contains_key-update j k f m = ground (arith, lookup-update j k f m)

pub contains_key-insert :
    (j k : Bytes) (n : ClusterNode) (m : Table ClusterNode)
    → contains_key k m ≡ true
    → contains_key k (insert j n m) ≡ true
unfolding contains_key
contains_key-insert j k n m h = ground (arith, lookup-insert j k n m)

pub contains_key-insert_self :
    (k : Bytes) (n : ClusterNode) (m : Table ClusterNode) → contains_key k (insert k n m) ≡ true
unfolding contains_key
contains_key-insert_self k n m = ground (arith, lookup-insert k k n m, same_refl k)

pub contains_key-remove :
    (j k : Bytes) (m : Table ClusterNode)
    → contains_key k (remove j m) ≡ (if same j k then false else contains_key k m)
unfolding contains_key
contains_key-remove j k m = ground (arith, lookup-remove j k m)

pub owner_known-of_key :
    (m : Table ClusterNode) (id : Bytes) → contains_key id m ≡ true → owner_known m id ≡ true
owner_known-of_key m [] h = refl
owner_known-of_key m (c ∷ cs) h = h

-- More nodes.
module _ (m m' : Table ClusterNode)
    (grows : (k : Bytes) → contains_key k m ≡ true → contains_key k m' ≡ true) where
  target_known_mono : (t : Option Bytes) → target_known m t ≡ true → target_known m' t ≡ true
  target_known_mono none h = refl
  target_known_mono (some id) h = grows id h

  vote_known_mono : (v : Option PrepareVote) → vote_known m v ≡ true → vote_known m' v ≡ true
  vote_known_mono none h = refl
  vote_known_mono (some v) h = grows v.target_id h

  owner_known_mono : (id : Bytes) → owner_known m id ≡ true → owner_known m' id ≡ true
  owner_known_mono [] h = refl
  owner_known_mono (c ∷ cs) h = grows (c ∷ cs) h

  pub grow-Fits :
      {my_id : Bytes} {owner : ℕ → Bytes} {epoch : ℕ → ℕ} {migrating importing : ℕ → Option Bytes}
      {votes : ℕ → Option PrepareVote} {current : ℕ}
      → Fits my_id owner epoch migrating importing votes m current
      → Fits my_id owner epoch migrating importing votes m' current
  grow-Fits v = record {
    me = grows _ v.me;
    epochs = v.epochs;
    owners = λ s h. owner_known_mono _ (v.owners s h);
    migrating_known = λ s. target_known_mono _ (v.migrating_known s);
    importing_known = λ s. target_known_mono _ (v.importing_known s);
    votes_known = λ s. vote_known_mono _ (v.votes_known s);
    mine = v.mine;
    exclusive = v.exclusive;
  }

pub set_node_flags-IsSound :
    (id : Bytes) (f : ClusterNode → ClusterNode) (g : ClusterState)
    → IsSound g
    → IsSound (set_node_flags id f g)
unfolding set_node_flags
set_node_flags-IsSound id f g v =
    grow-Fits g.nodes (update id f g.nodes) (λ k h. contains_key-update id k f g.nodes ∙ h) v

pub raise-IsSound :
    (e : ℕ) (g : ClusterState)
    → g.current_epoch ≤ e
    → IsSound g
    → IsSound (record g { current_epoch = e })
raise-IsSound e g h v = record {
  me = v.me;
  epochs = λ s. omega (arith, v.epochs s);
  owners = v.owners;
  migrating_known = v.migrating_known;
  importing_known = v.importing_known;
  votes_known = v.votes_known;
  mine = v.mine;
  exclusive = v.exclusive;
}

pub end_transitions-IsSound : (g : ClusterState) → IsSound g → IsSound (end_transitions g)
unfolding end_transitions
end_transitions-IsSound g v = record {
  me = v.me;
  epochs = v.epochs;
  owners = v.owners;
  migrating_known = λ s. refl;
  importing_known = λ s. refl;
  votes_known = λ s. refl;
  mine = λ s. refl;
  exclusive = λ s. refl;
}

-- A hand-over to a known node or to none, when all transitions end.
pub hand_over-IsSound :
    (from to : Bytes) (g : ClusterState)
    → owner_known g.nodes to ≡ true
    → IsSound g
    → IsSound (end_transitions (hand_over from to g))
unfolding end_transitions hand_over
hand_over-IsSound from to g k v = record {
  me = v.me;
  epochs = λ s. ground (arith, v.epochs s, next_epoch-le g.current_epoch);
  owners = λ s h. known s (v.owners s h);
  migrating_known = λ s. refl;
  importing_known = λ s. refl;
  votes_known = λ s. refl;
  mine = λ s. refl;
  exclusive = λ s. refl;
}
  where
    known :
        (s : ℕ)
        → owner_known g.nodes (g.slot_owner s) ≡ true
        → owner_known g.nodes (if same (g.slot_owner s) from then to else g.slot_owner s) ≡ true
    known s h = elim (Bool-cases (same (g.slot_owner s) from)) [ inl p ↦ rw p k | inr p ↦ rw p h ]

pub put_slot-IsSound :
    (owner : Bytes) (epoch slot : ℕ) (g : ClusterState)
    → owner_known g.nodes owner ≡ true
    → epoch ≤ g.current_epoch
    → IsSound g
    → IsSound (put_slot owner epoch slot g)
unfolding put_slot kore.Cluster.update
put_slot-IsSound owner epoch slot g k e v = record {
  me = v.me;
  epochs = λ s. ground (arith, v.epochs s);
  owners = λ s h. known s (v.owners s h);
  migrating_known =
      λ s. elim (Bool-cases (s == slot)) [ inl p ↦ rw p refl | inr p ↦ rw p (v.migrating_known s) ];
  importing_known =
      λ s. elim (Bool-cases (s == slot)) [ inl p ↦ rw p refl | inr p ↦ rw p (v.importing_known s) ];
  votes_known =
      λ s. elim (Bool-cases (s == slot)) [ inl p ↦ rw p refl | inr p ↦ rw p (v.votes_known s) ];
  mine = λ s. elim (Bool-cases (s == slot)) [ inl p ↦ rw p refl | inr p ↦ rw p (v.mine s) ];
  exclusive =
      λ s. elim (Bool-cases (s == slot)) [ inl p ↦ rw p refl | inr p ↦ rw p (v.exclusive s) ];
}
  where
    known :
        (s : ℕ)
        → owner_known g.nodes (g.slot_owner s) ≡ true
        → owner_known g.nodes (if s == slot then owner else g.slot_owner s) ≡ true
    known s h = elim (Bool-cases (s == slot)) [ inl p ↦ rw p k | inr p ↦ rw p h ]
