-- ===== src/Cluster/Slots/Assigned.antt =====
-- What ADDSLOTS does to every slot, and when it is refused: add_slots of src/cluster/state.rs.
use kore.Base.{
  ℕ, ◌≡◌, refl, sym, ap, ◌∙◌, Bool, true, false, not, ◌&&◌, ◌||◌, Option, none, some, List, [], ◌∷◌,
  arith, ltb, ◌==◌, if◌then◌else◌, Bytes, same, Bool-cases, Option-cases, ◌⊎◌, inl, inr, ==_iff,
  ◌≢◌,
}
use kore.Cluster.{
  slot_count, ClusterState, ClusterError, slot_out_of_range, slot_busy, ok, err, is_empty, update,
  next_epoch, put_slot,
}
use kore.Cluster.Slots.{bump_epoch, check_add, put_slots, assign_slots, add_slots, among}

-- The slot is the owner's at the epoch and in no transition, if it is one of the slots, and as before
-- otherwise.
pub record IsAssigned (owner : Bytes) (epoch : ℕ) (slots : List ℕ) (g g' : ClusterState) (s : ℕ)
    : Type 0 where
  pub owners : g'.slot_owner s ≡ (if among s slots then owner else g.slot_owner s)
  pub epochs : g'.slot_config_epoch s ≡ (if among s slots then epoch else g.slot_config_epoch s)
  pub migrations : g'.migrating s ≡ (if among s slots then none else g.migrating s)
  pub imports : g'.importing s ≡ (if among s slots then none else g.importing s)
  pub votes : g'.prepare_node s ≡ (if among s slots then none else g.prepare_node s)

-- A write at a slot before the others.
before {ℓ} :
    {A : Type ℓ} (x s : ℕ) (ss : List ℕ) (a : A) (f : ℕ → A)
    → (if among s ss then a else update x a f s) ≡ (if among s (x ∷ ss) then a else f s)
unfolding among update
before x s ss a f = elim (Bool-cases (x == s)) [
  | inl p ↦ let q : (s == x) ≡ true = ground (arith, p) in rw (p, q) (either (among s ss))
  | inr p ↦ let q : (s == x) ≡ false = ground (arith, p) in rw (p, q) refl
]
  where
    either : (b : Bool) → (if b then a else a) ≡ a
    either true = refl
    either false = refl

put_slots-IsAssigned :
    (owner : Bytes) (epoch : ℕ) (slots : List ℕ) (g : ClusterState) (s : ℕ)
    → IsAssigned owner epoch slots g (put_slots owner epoch slots g) s
unfolding put_slots put_slot
put_slots-IsAssigned owner epoch [] g s =
    unfold among in
    record { owners = refl; epochs = refl; migrations = refl; imports = refl; votes = refl }
put_slots-IsAssigned owner epoch (x ∷ ss) g s =
    let ih = put_slots-IsAssigned owner epoch ss (put_slot owner epoch x g) s in
    record {
      owners = ih.owners ∙ before x s ss owner g.slot_owner;
      epochs = ih.epochs ∙ before x s ss epoch g.slot_config_epoch;
      migrations = ih.migrations ∙ before x s ss none g.migrating;
      imports = ih.imports ∙ before x s ss none g.importing;
      votes = ih.votes ∙ before x s ss none g.prepare_node;
    }

-- The slot is in range, and free or this node's.
abbrev pub may_take : ClusterState → ℕ → Bool
may_take g s = ltb s slot_count && (is_empty (g.slot_owner s) || same (g.slot_owner s) g.my_id)

guards :
    (a b c : Bool) (d e : ClusterError) (rest : Option ClusterError)
    → (((a && (b || c)) ≡ true)
        × ((if not a then some d else if not b && not c then some e else rest) ≡ rest))
      ⊎ (((a && (b || c)) ≡ false)
          × ((x : ClusterError) × ((if not a
                  then some d
                  else if not b && not c
                  then some e
                  else rest)
                ≡ some x)))
guards false b c d e rest = inr (refl, (d, refl))
guards true true c d e rest = inl (refl, refl)
guards true false true d e rest = inl (refl, refl)
guards true false false d e rest = inr (refl, (e, refl))

check_add-cases :
    (g : ClusterState) (x : ℕ) (ss : List ℕ)
    → ((may_take g x ≡ true) × (check_add g (x ∷ ss) ≡ check_add g ss))
      ⊎ ((may_take g x ≡ false) × ((e : ClusterError) × (check_add g (x ∷ ss) ≡ some e)))
unfolding check_add
check_add-cases g x ss =
    guards (ltb x slot_count) (is_empty (g.slot_owner x)) (same (g.slot_owner x) g.my_id)
      slot_out_of_range slot_busy (check_add g ss)

among_cases : (s x : ℕ) (ss : List ℕ) → among s (x ∷ ss) ≡ true → (x ≡ s) ⊎ (among s ss ≡ true)
unfolding among
among_cases s x ss h = elim (Bool-cases (x == s)) [
  | inl p ↦ inl ((==_iff x s).0 p)
  | inr p ↦ inr (ground (arith, h, p))
]

among_nil : (s : ℕ) → among s [] ≡ true → ⊥
unfolding among
among_nil s h = cc

check_add-none :
    (slots : List ℕ) (g : ClusterState) (s : ℕ)
    → check_add g slots ≡ none
    → among s slots ≡ true
    → may_take g s ≡ true
check_add-none [] g s h k = absurd (among_nil s k)
check_add-none (x ∷ ss) g s h k = elim (check_add-cases g x ss) [
  | inr (p, (e, q)) ↦ absurd (let y = sym h ∙ q in cc)
  | inl (p, q) ↦ elim (among_cases s x ss k) [
    | inl e ↦ ap (may_take g) (sym e) ∙ p
    | inr l ↦ check_add-none ss g s (sym q ∙ h) l
  ]
]

among_first : (x : ℕ) (ss : List ℕ) → among x (x ∷ ss) ≡ true
unfolding among
among_first x ss = ground arith

among_later : (s x : ℕ) (ss : List ℕ) → among s ss ≡ true → among s (x ∷ ss) ≡ true
unfolding among
among_later s x ss h = ground (arith, h)

check_add-nil : (g : ClusterState) → check_add g [] ≡ none
unfolding check_add
check_add-nil g = refl

check_add-some :
    (slots : List ℕ) (g : ClusterState) (e : ClusterError)
    → check_add g slots ≡ some e
    → (s : ℕ) × (among s slots ≡ true) × (may_take g s ≡ false)
check_add-some [] g e h = absurd (let y = sym (check_add-nil g) ∙ h in cc)
check_add-some (x ∷ ss) g e h = elim (check_add-cases g x ss) [
  | inr (p, _) ↦ (x, among_first x ss, p)
  | inl (p, q) ↦ let (s, k, r) = check_add-some ss g e (sym q ∙ h) in (s, among_later s x ss k, r)
]

put_slots_epoch :
    (owner : Bytes) (epoch : ℕ) (slots : List ℕ) (g : ClusterState)
    → (put_slots owner epoch slots g).current_epoch ≡ g.current_epoch
unfolding put_slots put_slot
put_slots_epoch owner epoch [] g = refl
put_slots_epoch owner epoch (x ∷ ss) g = put_slots_epoch owner epoch ss (put_slot owner epoch x g)

assigned_epoch :
    (owner : Bytes) (slots : List ℕ) (g : ClusterState)
    → (assign_slots owner slots g).current_epoch ≡ next_epoch g.current_epoch
unfolding assign_slots bump_epoch
assigned_epoch owner slots g =
    put_slots_epoch owner (next_epoch g.current_epoch) slots (bump_epoch g)

assigned :
    (owner : Bytes) (slots : List ℕ) (g : ClusterState) (s : ℕ)
    → IsAssigned owner (next_epoch g.current_epoch) slots g (assign_slots owner slots g) s
unfolding assign_slots bump_epoch
assigned owner slots g s =
    let it = put_slots-IsAssigned owner (next_epoch g.current_epoch) slots (bump_epoch g) s in
    record {
      owners = it.owners;
      epochs = it.epochs;
      migrations = it.migrations;
      imports = it.imports;
      votes = it.votes;
    }

-- ADDSLOTS of at least one slot succeeds exactly when each slot is in range and free or already this
-- node's. Then the current epoch goes up by one, those slots are this node's at that epoch, without a
-- migration, an import or a vote, and every other slot is as before. Otherwise it is an error.
pub add_slots_lem :
    (slots : List ℕ) (g : ClusterState)
    → slots ≢ []
    → ((g' : ClusterState) × (add_slots slots g ≡ ok g')
        × ((s : ℕ) → among s slots ≡ true → may_take g s ≡ true)
        × (g'.current_epoch ≡ next_epoch g.current_epoch)
        × ((s : ℕ) → IsAssigned g.my_id (next_epoch g.current_epoch) slots g g' s))
      ⊎ (((e : ClusterError) × (add_slots slots g ≡ err e))
          × ((s : ℕ) × (among s slots ≡ true) × (may_take g s ≡ false)))
unfolding add_slots
add_slots_lem [] g n = absurd (n refl)
add_slots_lem (x ∷ ss) g n = elim (Option-cases (check_add g (x ∷ ss))) [
  | inr (e, q) ↦ inr ((e, rw (q, add_slots) refl), check_add-some (x ∷ ss) g e q)
  | inl q ↦ inl (
    assign_slots g.my_id (x ∷ ss) g,
    rw (q, add_slots) refl,
    λ s k. check_add-none (x ∷ ss) g s q k,
    assigned_epoch g.my_id (x ∷ ss) g,
    λ s. assigned g.my_id (x ∷ ss) g s,
  )
]
