-- ===== src/Cluster/Histories/Kept.antt =====
-- The commands on slots, transitions and votes of src/cluster/state.rs keep the topology sound.
use kore.Base.{
  ℕ, zero, suc, ◌≤◌, ◌<◌, ◌≡◌, refl, ◌∙◌, Bool, true, false, not, ◌&&◌, ◌||◌, Option, none, some,
  List, [], ◌∷◌, arith, ltb, leb, ◌==◌, if◌then◌else◌, Bytes, same, same_iff, Bool-cases,
  Option-cases, inl, inr, ==_iff,
}
use kore.Base.Table.{Table, lookup, contains_key, remove, retain}
use kore.Cluster.{
  slot_count, ClusterNode, PrepareVote, ClusterState, ClusterError, Reply, ok, err, ◌>>=◌, is_empty,
  no_slot, next_epoch, any_slot, put_slot,
}
use kore.Cluster.Slots.{
  bump_epoch, set_config_epoch, drop_target, drop_votes, forget_node, as_master,
  reset_cluster_config, check_add, check_del, put_slots, assign_slots, add_slots, del_slots,
  expand_slot_ranges, add_slot_ranges, del_slot_ranges, owns_any, flush_slots,
}
use kore.Cluster.Migration.{reassign_slot, set_migrating, set_importing, set_stable}
use kore.Cluster.Histories.{
  target_known, vote_known, has_target, owner_known, IsSound, next_epoch-le, contains_key-update,
  contains_key-remove, owner_known-of_key, raise-IsSound, end_transitions-IsSound,
  hand_over-IsSound, put_slot-IsSound,
}

-- What holds of the result of a command that succeeds.
abbrev pub OnOk {ℓ} : {A : Type ℓ} → (A → Type 0) → Reply A → Type 0
OnOk P (ok a) = P a
OnOk P (err e) = Unit

module _ {ℓ} {A : Type ℓ} (P : A → Type 0) where
  pub OnOk-if :
      (b : Bool) (x y : Reply A)
      → (b ≡ true → OnOk P x)
      → (b ≡ false → OnOk P y)
      → OnOk P (if b then x else y)
  OnOk-if true x y h k = h refl
  OnOk-if false x y h k = k refl

  pub OnOk-bind {κ} :
      {B : Type κ} (m : Reply B) (f : B → Reply A) → ((b : B) → OnOk P (f b)) → OnOk P (m >>= f)
  OnOk-bind (ok b) f h = h b
  OnOk-bind (err e) f h = tt

pub unnot : (b : Bool) → not b ≡ false → b ≡ true
unnot true h = refl
unnot false h = cc

pub bump_epoch-IsSound : (g : ClusterState) → IsSound g → IsSound (bump_epoch g)
unfolding bump_epoch
bump_epoch-IsSound g v =
    raise-IsSound (next_epoch g.current_epoch) g (next_epoch-le g.current_epoch) v

pub set_config_epoch-IsSound :
    (e : ℕ) (g : ClusterState) → IsSound g → OnOk IsSound (set_config_epoch e g)
unfolding set_config_epoch
set_config_epoch-IsSound e g v =
    OnOk-if IsSound (leb e g.current_epoch) _ _ (λ _. tt) (λ h. raise-IsSound e g (ground arith) v)

any_slot-false : (n : ℕ) (p : ℕ → Bool) (s : ℕ) → any_slot n p ≡ false → s < n → p s ≡ false
unfolding any_slot
any_slot-false zero p s h l = absurd (omega arith)
any_slot-false (suc n) p s h l = ground (arith, any_slot-false n p s)

module _ (id : Bytes) (m : Table ClusterNode) where
  kept_target :
      (o : Option Bytes)
      → target_known m o ≡ true
      → target_known (remove id m) (drop_target id (λ _. o) 0) ≡ true
  unfolding drop_target
  kept_target none h = refl
  kept_target (some x) h = ground (arith, contains_key-remove id x m, same_iff x id, same_iff id x)

  kept_vote :
      (o : Option PrepareVote)
      → vote_known m o ≡ true
      → vote_known (remove id m) (drop_votes id (λ _. o) 0) ≡ true
  unfolding drop_votes
  kept_vote none h = refl
  kept_vote (some v) h = ground (
    arith,
    contains_key-remove id v.target_id m,
    same_iff v.target_id id,
    same_iff id v.target_id,
  )

  kept_owner :
      (o : Bytes) → same o id ≡ false → owner_known m o ≡ true → owner_known (remove id m) o ≡ true
  kept_owner [] e h = refl
  kept_owner (c ∷ cs) e h =
      ground (arith, contains_key-remove id (c ∷ cs) m, same_iff (c ∷ cs) id, same_iff id (c ∷ cs))

drop_target_has :
    (id : Bytes) (o : Option Bytes)
    → has_target (drop_target id (λ _. o) 0) ≡ true
    → has_target o ≡ true
unfolding drop_target
drop_target_has id none h = h
drop_target_has id (some x) h = refl

fewer_mine : (a b c : Bool) → (a ≡ true → b ≡ true) → (not b || c) ≡ true → (not a || c) ≡ true
fewer_mine true true c h k = k
fewer_mine true false c h k = let e : false ≡ true = h refl in cc
fewer_mine false b c h k = refl

fewer_both :
    (a b c d : Bool)
    → (a ≡ true → b ≡ true)
    → (c ≡ true → d ≡ true)
    → (b && d) ≡ false
    → (a && c) ≡ false
fewer_both false b c d h k e = refl
fewer_both true b false d h k e = refl
fewer_both true b true d h k e = let x = h refl in let y = k refl in cc

pub forget_node-IsSound :
    (id : Bytes) (g : ClusterState) → IsSound g → OnOk IsSound (forget_node id g)
unfolding forget_node
forget_node-IsSound id g v =
    OnOk-if IsSound (same id g.my_id) _ _ (λ _. tt)
      (λ other.
        OnOk-if IsSound (not (contains_key id g.nodes)) _ _ (λ _. tt)
          (λ known.
            OnOk-if IsSound (any_slot slot_count (λ s. same (g.slot_owner s) id)) _ _ (λ _. tt)
              (λ free. record {
                me = ground (arith, contains_key-remove id g.my_id g.nodes, v.me);
                epochs = v.epochs;
                owners = λ s h.
                    kept_owner id g.nodes (g.slot_owner s)
                      (any_slot-false slot_count (λ i. same (g.slot_owner i) id) s free h)
                      (v.owners s h);
                migrating_known = λ s.
                    unfold drop_target in
                    kept_target id g.nodes (g.migrating s) (v.migrating_known s);
                importing_known = λ s.
                    unfold drop_target in
                    kept_target id g.nodes (g.importing s) (v.importing_known s);
                votes_known = λ s.
                    unfold drop_votes in kept_vote id g.nodes (g.prepare_node s) (v.votes_known s);
                mine = λ s.
                    unfold drop_target in
                    fewer_mine _ _ _ (drop_target_has id (g.migrating s)) (v.mine s);
                exclusive = λ s.
                    unfold drop_target in
                    fewer_both _ _ _ _ (drop_target_has id (g.migrating s))
                      (drop_target_has id (g.importing s)) (v.exclusive s);
              })))

lookup-retain_self :
    (id : Bytes) (m : Table ClusterNode)
    → contains_key id m ≡ true
    → contains_key id (retain (λ k _. same k id) m) ≡ true
unfolding contains_key lookup retain
lookup-retain_self id [] h = h
lookup-retain_self id ((k, n) ∷ m) h = ground (arith, lookup-retain_self id m)

pub reset_cluster_config-IsSound : (g : ClusterState) → IsSound g → IsSound (reset_cluster_config g)
unfolding reset_cluster_config
reset_cluster_config-IsSound g v = record {
  me = contains_key-update g.my_id g.my_id as_master _ ∙ lookup-retain_self g.my_id g.nodes v.me;
  epochs = λ s. omega arith;
  owners = λ s h. refl;
  migrating_known = λ s. refl;
  importing_known = λ s. refl;
  votes_known = λ s. refl;
  mine = λ s. refl;
  exclusive = λ s. refl;
}

put_slots-IsSound :
    (owner : Bytes) (epoch : ℕ) (ss : List ℕ) (g : ClusterState)
    → owner_known g.nodes owner ≡ true
    → epoch ≤ g.current_epoch
    → IsSound g
    → IsSound (put_slots owner epoch ss g)
unfolding put_slots put_slot
put_slots-IsSound owner epoch [] g k e v = v
put_slots-IsSound owner epoch (s ∷ ss) g k e v =
    put_slots-IsSound owner epoch ss (put_slot owner epoch s g) k e
      (put_slot-IsSound owner epoch s g k e v)

assign_slots-IsSound :
    (owner : Bytes) (ss : List ℕ) (g : ClusterState)
    → owner_known g.nodes owner ≡ true
    → IsSound g
    → IsSound (assign_slots owner ss g)
unfolding assign_slots bump_epoch
assign_slots-IsSound owner ss g k v =
    put_slots-IsSound owner (next_epoch g.current_epoch) ss (bump_epoch g) k (omega arith)
      (bump_epoch-IsSound g v)

pub add_slots-IsSound : (ss : List ℕ) (g : ClusterState) → IsSound g → OnOk IsSound (add_slots ss g)
unfolding add_slots
add_slots-IsSound [] g v = tt
add_slots-IsSound (s ∷ ss) g v = elim (Option-cases (check_add g (s ∷ ss))) [
  | inl e ↦
      rw (e, OnOk)
        (assign_slots-IsSound g.my_id (s ∷ ss) g (owner_known-of_key g.nodes g.my_id v.me) v)
  | inr (x, e) ↦ rw (e, OnOk) tt
]

pub del_slots-IsSound : (ss : List ℕ) (g : ClusterState) → IsSound g → OnOk IsSound (del_slots ss g)
unfolding del_slots
del_slots-IsSound [] g v = tt
del_slots-IsSound (s ∷ ss) g v = elim (Option-cases (check_del g (s ∷ ss))) [
  | inl e ↦ rw (e, OnOk) (assign_slots-IsSound [] (s ∷ ss) g refl v)
  | inr (x, e) ↦ rw (e, OnOk) tt
]

pub add_slot_ranges-IsSound :
    (rs : List (ℕ × ℕ)) (g : ClusterState) → IsSound g → OnOk IsSound (add_slot_ranges rs g)
unfolding add_slot_ranges
add_slot_ranges-IsSound rs g v =
    OnOk-bind IsSound (expand_slot_ranges rs) _ (λ ss. add_slots-IsSound ss g v)

pub del_slot_ranges-IsSound :
    (rs : List (ℕ × ℕ)) (g : ClusterState) → IsSound g → OnOk IsSound (del_slot_ranges rs g)
unfolding del_slot_ranges
del_slot_ranges-IsSound rs g v =
    OnOk-bind IsSound (expand_slot_ranges rs) _ (λ ss. del_slots-IsSound ss g v)

pub flush_slots-IsSound : (g : ClusterState) → IsSound g → IsSound (flush_slots g)
unfolding flush_slots
flush_slots-IsSound g v = elim (Bool-cases (owns_any g.my_id g)) [
  | inl p ↦ rw p (hand_over-IsSound g.my_id [] g refl v)
  | inr p ↦ rw p (end_transitions-IsSound g v)
]

pub reassign_slot-IsSound :
    (slot : ℕ) (id : Bytes) (g : ClusterState) → IsSound g → OnOk IsSound (reassign_slot slot id g)
unfolding reassign_slot bump_epoch
reassign_slot-IsSound slot id g v =
    OnOk-if IsSound (not (ltb slot slot_count)) _ _ (λ _. tt)
      (λ _.
        OnOk-if IsSound (not (contains_key id g.nodes)) _ _ (λ _. tt)
          (λ k.
            put_slot-IsSound id (next_epoch g.current_epoch) slot (bump_epoch g)
              (owner_known-of_key g.nodes id (unnot _ k)) (omega arith) (bump_epoch-IsSound g v)))

pub set_migrating-IsSound :
    (slot : ℕ) (dest : Bytes) (g : ClusterState)
    → IsSound g
    → OnOk IsSound (set_migrating slot dest g)
unfolding set_migrating kore.Cluster.update
set_migrating-IsSound slot dest g v =
    OnOk-if IsSound (not (ltb slot slot_count)) _ _ (λ _. tt)
      (λ _.
        OnOk-if IsSound (not (contains_key dest g.nodes)) _ _ (λ _. tt)
          (λ k.
            OnOk-if IsSound (not (same (g.slot_owner slot) g.my_id)) _ _ (λ _. tt)
              (λ own. record {
                me = v.me;
                epochs = v.epochs;
                owners = v.owners;
                migrating_known = λ s. elim (Bool-cases (s == slot)) [
                  | inl p ↦ rw p (unnot _ k)
                  | inr p ↦ rw p (v.migrating_known s)
                ];
                importing_known = λ s. elim (Bool-cases (s == slot)) [
                  | inl p ↦ rw p refl
                  | inr p ↦ rw p (v.importing_known s)
                ];
                votes_known = v.votes_known;
                mine = λ s. elim (Bool-cases (s == slot)) [
                  | inl p ↦ rw (p, (==_iff s slot).0 p) (unnot _ own)
                  | inr p ↦ rw p (v.mine s)
                ];
                exclusive = λ s. elim (Bool-cases (s == slot)) [
                  | inl p ↦ rw p refl
                  | inr p ↦ rw p (v.exclusive s)
                ];
              })))

pub set_importing-IsSound :
    (slot : ℕ) (source : Bytes) (g : ClusterState)
    → IsSound g
    → OnOk IsSound (set_importing slot source g)
unfolding set_importing kore.Cluster.update
set_importing-IsSound slot source g v =
    OnOk-if IsSound (not (ltb slot slot_count)) _ _ (λ _. tt)
      (λ _.
        OnOk-if IsSound (not (contains_key source g.nodes)) _ _ (λ _. tt)
          (λ k. record {
            me = v.me;
            epochs = v.epochs;
            owners = v.owners;
            migrating_known = λ s. elim (Bool-cases (s == slot)) [
              | inl p ↦ rw p refl
              | inr p ↦ rw p (v.migrating_known s)
            ];
            importing_known = λ s. elim (Bool-cases (s == slot)) [
              | inl p ↦ rw p (unnot _ k)
              | inr p ↦ rw p (v.importing_known s)
            ];
            votes_known = v.votes_known;
            mine =
                λ s. elim (Bool-cases (s == slot)) [ inl p ↦ rw p refl | inr p ↦ rw p (v.mine s) ];
            exclusive = λ s. elim (Bool-cases (s == slot)) [
              | inl p ↦ rw p refl
              | inr p ↦ rw p (v.exclusive s)
            ];
          }))

pub set_stable-IsSound :
    (slot : ℕ) (g : ClusterState) → IsSound g → OnOk IsSound (set_stable slot g)
unfolding set_stable kore.Cluster.update
set_stable-IsSound slot g v =
    OnOk-if IsSound (not (ltb slot slot_count)) _ _ (λ _. tt)
      (λ _. record {
        me = v.me;
        epochs = v.epochs;
        owners = v.owners;
        migrating_known = λ s. elim (Bool-cases (s == slot)) [
          | inl p ↦ rw p refl
          | inr p ↦ rw p (v.migrating_known s)
        ];
        importing_known = λ s. elim (Bool-cases (s == slot)) [
          | inl p ↦ rw p refl
          | inr p ↦ rw p (v.importing_known s)
        ];
        votes_known = λ s. elim (Bool-cases (s == slot)) [
          | inl p ↦ rw p refl
          | inr p ↦ rw p (v.votes_known s)
        ];
        mine = λ s. elim (Bool-cases (s == slot)) [ inl p ↦ rw p refl | inr p ↦ rw p (v.mine s) ];
        exclusive =
            λ s. elim (Bool-cases (s == slot)) [ inl p ↦ rw p refl | inr p ↦ rw p (v.exclusive s) ];
      })
