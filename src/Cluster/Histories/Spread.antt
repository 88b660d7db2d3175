-- ===== src/Cluster/Histories/Spread.antt =====
-- The gossip and the failover of src/cluster/state.rs keep the topology sound.
use kore.Base.{
  max, ℕ, zero, suc, ◌+◌, ◌-◌, ◌≤◌, ◌≡◌, refl, ◌∙◌, Bool, true, false, not, ◌&&◌, ◌||◌, Option,
  none, some, List, [], ◌∷◌, arith, ltb, ◌==◌, if◌then◌else◌, Bytes, same, Bool-cases, inl, inr,
  ==_iff,
}
use kore.Base.Table.{contains_key, update}
use kore.Cluster.{
  slot_count, ClusterNode, PrepareVote, ClusterState, ClusterError, Reply, ok, err, ◌>>=◌, is_empty,
  no_slot, next_epoch, single_node, put_slot, set_node_flags,
}
use kore.Cluster.Prepare.{is_some}
use kore.Cluster.Gossip.{
  OwnershipRange, RoleMapEntry, add_node_with_role, set_rank, merge_role, merge_role_map,
  set_address, learn_owner, Tally, no_tally, apply_slot, apply_slots, raise_epoch, install,
  apply_ownership_range, count_result, merge_ranges, merge_ownership_snapshot,
}
use kore.Cluster.Histories.{
  has_target, Fits, IsSound, contains_key-update, contains_key-insert, contains_key-insert_self,
  owner_known-of_key, grow-Fits,
}

-- Whichever state a test chooses.
either-IsSound :
    (b : Bool) (x y : ClusterState) → IsSound x → IsSound y → IsSound (if b then x else y)
either-IsSound true x y h k = h
either-IsSound false x y h k = k

pub add_node_with_role-IsSound :
    (now : ℕ) (id ip : Bytes) (port : ℕ) (role : Option Bool) (master : Option (Option Bytes))
    (g : ClusterState)
    → IsSound g
    → IsSound (add_node_with_role now id ip port role master g)
unfolding add_node_with_role
add_node_with_role-IsSound now id ip port role master g v =
    either-IsSound (same id g.my_id) _ _ v
      (grow-Fits g.nodes _ (λ k h. contains_key-insert id k _ g.nodes h) v)

merge_role-IsSound :
    (now : ℕ) (e : RoleMapEntry) (g : ClusterState) → IsSound g → IsSound (merge_role now e g)
unfolding merge_role
merge_role-IsSound now e g v =
    let master_id = if e.master || is_empty e.master_id then none else some e.master_id in
    let g' = add_node_with_role now e.id e.ip e.port (some e.master) (some master_id) g in
    either-IsSound (same e.id g.my_id) _ _ v (
      grow-Fits g'.nodes (update e.id (set_rank e) g'.nodes)
        (λ k h. contains_key-update e.id k (set_rank e) g'.nodes ∙ h)
        (add_node_with_role-IsSound now e.id e.ip e.port (some e.master) (some master_id) g v))

pub merge_role_map-IsSound :
    (now : ℕ) (es : List RoleMapEntry) (g : ClusterState)
    → IsSound g
    → IsSound (merge_role_map now es g)
unfolding merge_role_map
merge_role_map-IsSound now [] g v = v
merge_role_map-IsSound now (e ∷ es) g v =
    merge_role_map-IsSound now es (merge_role now e g) (merge_role-IsSound now e g v)

abbrev OnSome : (ClusterState → Type 0) → Option ClusterState → Type 0
OnSome P none = Unit
OnSome P (some g) = P g

OnSome-if :
    (P : ClusterState → Type 0) (b : Bool) (x y : Option ClusterState)
    → (b ≡ true → OnSome P x)
    → (b ≡ false → OnSome P y)
    → OnSome P (if b then x else y)
OnSome-if P true x y h k = h refl
OnSome-if P false x y h k = k refl

-- The owner of the range is known then.
abbrev Learned : OwnershipRange → ClusterState → Type 0
Learned r g = IsSound g × (contains_key r.owner_id g.nodes ≡ true)

learn_owner_lem :
    (now : ℕ) (r : OwnershipRange) (g : ClusterState)
    → IsSound g
    → OnSome (Learned r) (learn_owner now r g)
unfolding learn_owner
learn_owner_lem now r g v =
    let unreachable = is_empty r.ip || (r.port == 0) in
    OnSome-if (Learned r) (contains_key r.owner_id g.nodes) _ _
      (λ p.
        OnSome-if (Learned r) unreachable _ _ (λ _. (v, p))
          (λ _. (
            grow-Fits g.nodes _
                (λ k h. contains_key-update r.owner_id k (set_address r) g.nodes ∙ h) v,
            contains_key-update r.owner_id r.owner_id (set_address r) g.nodes ∙ p,
          )))
      (λ p.
        OnSome-if (Learned r) unreachable _ _ (λ _. tt)
          (λ _. (
            grow-Fits g.nodes _ (λ k h. contains_key-insert r.owner_id k _ g.nodes h) v,
            contains_key-insert_self r.owner_id _ g.nodes,
          )))

-- What holds while the slots of a range are applied: the epochs are below that of the range or of before.
abbrev Applying : OwnershipRange → ℕ → ClusterState → Type 0
Applying r top g =
    Fits g.my_id g.slot_owner g.slot_config_epoch g.migrating g.importing g.prepare_node g.nodes top

write_slot :
    (r : OwnershipRange) (top slot : ℕ) (g : ClusterState)
    → r.epoch ≤ top
    → contains_key r.owner_id g.nodes ≡ true
    → has_target (g.migrating slot) ≡ false
    → Applying r top g
    → Applying r top (record g {
      slot_owner = kore.Cluster.update slot r.owner_id g.slot_owner;
      slot_config_epoch = kore.Cluster.update slot r.epoch g.slot_config_epoch;
    })
unfolding kore.Cluster.update
write_slot r top slot g t k m v = record {
  me = v.me;
  epochs = λ s. ground (arith, v.epochs s);
  owners = λ s h. elim (Bool-cases (s == slot)) [
    | inl p ↦ rw p (owner_known-of_key g.nodes r.owner_id k)
    | inr p ↦ rw p (v.owners s h)
  ];
  migrating_known = v.migrating_known;
  importing_known = v.importing_known;
  votes_known = v.votes_known;
  mine = λ s. elim (Bool-cases (s == slot)) [
    | inl p ↦ rw ((==_iff s slot).0 p, m) refl
    | inr p ↦ rw p (v.mine s)
  ];
  exclusive = v.exclusive;
}

abbrev top_of : OwnershipRange → ClusterState → Tally → ℕ
top_of r g t = if ltb 0 t.applied_count then max g.current_epoch r.epoch else g.current_epoch

abbrev Kept : OwnershipRange → ClusterState → Tally → Type 0
Kept r g t = Applying r (top_of r g t) g × (contains_key r.owner_id g.nodes ≡ true)

Applying-le :
    (r : OwnershipRange) (a b : ℕ) (g : ClusterState) → a ≤ b → Applying r a g → Applying r b g
Applying-le r a b g h v = record {
  me = v.me;
  epochs = λ s. omega (arith, v.epochs s);
  owners = v.owners;
  migrating_known = v.migrating_known;
  importing_known = v.importing_known;
  votes_known = v.votes_known;
  mine = v.mine;
  exclusive = v.exclusive;
}

not_busy : (m : Option Bytes) (b : Bool) → (is_some m || b) ≡ false → has_target m ≡ false
unfolding is_some
not_busy none b h = refl
not_busy (some x) b h = cc

apply_slot-Kept :
    (r : OwnershipRange) (slot : ℕ) (g : ClusterState) (t : Tally)
    → Kept r g t
    → Kept r (apply_slot r slot g t).0 (apply_slot r slot g t).1
unfolding apply_slot
apply_slot-Kept r slot g t (v, k) =
    elim (Bool-cases (is_some (g.migrating slot) || is_some (g.importing slot))) [
      | inl p ↦ rw p (v, k)
      | inr p ↦ elim (Bool-cases (ltb (g.slot_config_epoch slot) r.epoch)) [
        | inr q ↦ rw (p, q) (v, k)
        | inl q ↦
            let top = max g.current_epoch r.epoch in
            let below : top_of r g t ≤ top = ground arith in
            let applied : ltb 0 (t.applied_count + 1) ≡ true = ground arith in
            rw (p, q, applied)
              (
                write_slot r top slot g (omega arith) k (not_busy (g.migrating slot) _ p)
                    (Applying-le r (top_of r g t) top g below v),
                k,
              )
      ]
    ]

apply_slots-Kept :
    (n : ℕ) (r : OwnershipRange) (slot : ℕ) (g : ClusterState) (t : Tally)
    → Kept r g t
    → Kept r (apply_slots n r slot g t).0 (apply_slots n r slot g t).1
unfolding apply_slots
apply_slots-Kept zero r slot g t h = h
apply_slots-Kept (suc n) r slot g t h =
    apply_slots-Kept n r (suc slot) (apply_slot r slot g t).0 (apply_slot r slot g t).1
      (apply_slot-Kept r slot g t h)

raise_epoch-IsSound :
    (r : OwnershipRange) (g : ClusterState) (t : Tally)
    → Kept r g t
    → IsSound (raise_epoch r (g, t))
unfolding raise_epoch
raise_epoch-IsSound r g t (v, k) =
    elim (Bool-cases (ltb 0 t.applied_count && ltb g.current_epoch r.epoch)) [
      | inl p ↦ rw p (Applying-le r (top_of r g t) r.epoch g (ground arith) v)
      | inr p ↦ rw p (Applying-le r (top_of r g t) g.current_epoch g (ground arith) v)
    ]

install-IsSound :
    (r : OwnershipRange) (g : ClusterState) (o : Option ClusterState)
    → IsSound g
    → OnSome (Learned r) o
    → IsSound (install r g o).0
unfolding install
install-IsSound r g none v h = v
install-IsSound r g (some g') v (v', k) =
    let done = apply_slots (suc r.end - r.start) r r.start g' no_tally in
    raise_epoch-IsSound r done.0 done.1
      (apply_slots-Kept (suc r.end - r.start) r r.start g' no_tally (v', k))

pub apply_ownership_range-IsSound :
    (now : ℕ) (r : OwnershipRange) (g : ClusterState)
    → IsSound g
    → IsSound (apply_ownership_range now r g).0
unfolding apply_ownership_range
apply_ownership_range-IsSound now r g v =
    elim (Bool-cases (ltb r.end r.start || not (ltb r.end slot_count))) [
      | inl p ↦ rw p v
      | inr p ↦ elim (Bool-cases (is_empty r.owner_id)) [
        | inl q ↦ rw (p, q) v
        | inr q ↦
            rw (p, q) (install-IsSound r g (learn_owner now r g) v (learn_owner_lem now r g v))
      ]
    ]

merge_ranges-IsSound :
    (now : ℕ) (rs : List OwnershipRange) (g : ClusterState) (t : Tally)
    → IsSound g
    → IsSound (merge_ranges now rs g t).0
unfolding merge_ranges
merge_ranges-IsSound now [] g t v = v
merge_ranges-IsSound now (r ∷ rs) g t v =
    merge_ranges-IsSound now rs (apply_ownership_range now r g).0
      (count_result (apply_ownership_range now r g).1 t) (apply_ownership_range-IsSound now r g v)

pub merge_ownership_snapshot-IsSound :
    (now : ℕ) (rs : List OwnershipRange) (g : ClusterState)
    → IsSound g
    → IsSound (merge_ownership_snapshot now rs g).0
unfolding merge_ownership_snapshot
merge_ownership_snapshot-IsSound now rs g v = merge_ranges-IsSound now rs g no_tally v
