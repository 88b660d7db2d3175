-- ===== src/Cluster/Gossip/Merge.antt =====
-- What a merge of slot ownership does to each slot: OWNERS of
-- src/cluster/state.rs.
use kore.Base.{
  ℕ, zero, suc, ◌+◌, ◌-◌, ◌≤◌, ◌<◌, ◌≡◌, refl, ◌∙◌, Bool, true, false, not, ◌&&◌, ◌||◌, some, arith,
  ltb, leb, ◌==◌, if◌then◌else◌, Bool-cases, ◌⊎◌, inl, inr, ==_iff,
}
use kore.Base.Table.{contains_key}
use kore.Cluster.{slot_count, ClusterState, is_empty, update}
use kore.Cluster.Prepare.{is_some}
use kore.Cluster.Gossip.{
  OwnershipRange, readdress, add_owner, learn_owner, Tally, no_tally, apply_slot, apply_slots,
  raise_epoch, install, apply_ownership_range,
}

-- The range takes over the slot: it is in no transition, and its epoch is lower.
abbrev pub takes : OwnershipRange → ClusterState → ℕ → Bool
takes r g s =
    not (is_some (g.migrating s) || is_some (g.importing s)) && ltb (g.slot_config_epoch s) r.epoch

-- The slot is as before.
abbrev pub Unchanged : ClusterState → ClusterState → ℕ → Type 0
Unchanged g g' s =
    (g'.slot_owner s ≡ g.slot_owner s)
    × (g'.slot_config_epoch s ≡ g.slot_config_epoch s)
    × (g'.migrating s ≡ g.migrating s)
    × (g'.importing s ≡ g.importing s)

-- The slot is that of the range, if the range takes it over, and as before otherwise.
abbrev pub Merged : OwnershipRange → ClusterState → ClusterState → ℕ → Type 0
Merged r g g' s =
    (g'.slot_owner s ≡ (if takes r g s then r.owner_id else g.slot_owner s))
    × (g'.slot_config_epoch s ≡ (if takes r g s then r.epoch else g.slot_config_epoch s))
    × (g'.migrating s ≡ g.migrating s)
    × (g'.importing s ≡ g.importing s)

Unchanged-trans :
    (a b c : ClusterState) (s : ℕ) → Unchanged a b s → Unchanged b c s → Unchanged a c s
Unchanged-trans a b c s h k = (k.0 ∙ h.0, k.1 ∙ h.1, k.2 ∙ h.2, k.3 ∙ h.3)

-- Before or after a merge of a slot it may stay as it is.
Merged-Unchanged :
    (r : OwnershipRange) (a b c : ClusterState) (s : ℕ)
    → Merged r a b s
    → Unchanged b c s
    → Merged r a c s
Merged-Unchanged r a b c s h k = (k.0 ∙ h.0, k.1 ∙ h.1, k.2 ∙ h.2, k.3 ∙ h.3)

Unchanged-Merged :
    (r : OwnershipRange) (a b c : ClusterState) (s : ℕ)
    → Unchanged a b s
    → Merged r b c s
    → Merged r a c s
Unchanged-Merged r a b c s h k =
    (k.0 ∙ rw (h.0, h.1, h.2, h.3) refl, k.1 ∙ rw (h.1, h.2, h.3) refl, k.2 ∙ h.2, k.3 ∙ h.3)

update_self {ℓ} : {A : Type ℓ} (k : ℕ) (a : A) (f : ℕ → A) → update k a f k ≡ a
unfolding update
update_self k a f = ground arith

update_ne {ℓ} : {A : Type ℓ} (k j : ℕ) (a : A) (f : ℕ → A) → (j == k) ≡ false → update k a f j ≡ f j
unfolding update
update_ne k j a f h = rw h refl

apply_slot-Merged :
    (r : OwnershipRange) (slot : ℕ) (g : ClusterState) (t : Tally)
    → Merged r g (apply_slot r slot g t).0 slot
unfolding apply_slot
apply_slot-Merged r slot g t =
    elim (Bool-cases (is_some (g.migrating slot) || is_some (g.importing slot))) [
      | inl p ↦ rw p (refl, refl, refl, refl)
      | inr p ↦ elim (Bool-cases (ltb (g.slot_config_epoch slot) r.epoch)) [
        | inl q ↦
            rw (p, q)
              (
                update_self slot r.owner_id g.slot_owner,
                update_self slot r.epoch g.slot_config_epoch,
                refl,
                refl,
              )
        | inr q ↦ rw (p, q) (refl, refl, refl, refl)
      ]
    ]

apply_slot-Unchanged :
    (r : OwnershipRange) (slot : ℕ) (g : ClusterState) (t : Tally) (s : ℕ)
    → (s == slot) ≡ false
    → Unchanged g (apply_slot r slot g t).0 s
unfolding apply_slot
apply_slot-Unchanged r slot g t s h =
    elim (Bool-cases (is_some (g.migrating slot) || is_some (g.importing slot))) [
      | inl p ↦ rw p (refl, refl, refl, refl)
      | inr p ↦ elim (Bool-cases (ltb (g.slot_config_epoch slot) r.epoch)) [
        | inl q ↦
            rw (p, q)
              (
                update_ne slot s r.owner_id g.slot_owner h,
                update_ne slot s r.epoch g.slot_config_epoch h,
                refl,
                refl,
              )
        | inr q ↦ rw (p, q) (refl, refl, refl, refl)
      ]
    ]

apply_slots-Unchanged :
    (n : ℕ) (r : OwnershipRange) (slot : ℕ) (g : ClusterState) (t : Tally) (s : ℕ)
    → (s < slot) ⊎ (slot + n ≤ s)
    → Unchanged g (apply_slots n r slot g t).0 s
unfolding apply_slots
apply_slots-Unchanged zero r slot g t s h = (refl, refl, refl, refl)
apply_slots-Unchanged (suc n) r slot g t s h =
    let one = apply_slot r slot g t in
    Unchanged-trans g one.0 (apply_slots n r (suc slot) one.0 one.1).0 s
      (apply_slot-Unchanged r slot g t s (ground arith))
      (apply_slots-Unchanged n r (suc slot) one.0 one.1 s (omega arith))

apply_slots-Merged :
    (n : ℕ) (r : OwnershipRange) (slot : ℕ) (g : ClusterState) (t : Tally) (s : ℕ)
    → slot ≤ s
    → s < slot + n
    → Merged r g (apply_slots n r slot g t).0 s
unfolding apply_slots
apply_slots-Merged zero r slot g t s h k = absurd (omega arith)
apply_slots-Merged (suc n) r slot g t s h k = elim (Bool-cases (s == slot)) [
  | inl p ↦ rw ((==_iff s slot).0 p) (
      let one = apply_slot r slot g t in
      Merged-Unchanged r g one.0 (apply_slots n r (suc slot) one.0 one.1).0 slot
        (apply_slot-Merged r slot g t)
        (apply_slots-Unchanged n r (suc slot) one.0 one.1 slot (inl (omega arith))))
  | inr p ↦
      let one = apply_slot r slot g t in
      Unchanged-Merged r g one.0 (apply_slots n r (suc slot) one.0 one.1).0 s
        (apply_slot-Unchanged r slot g t s p)
        (apply_slots-Merged n r (suc slot) one.0 one.1 s (ground arith) (omega arith))
]

raise_epoch-Unchanged :
    (r : OwnershipRange) (p : ClusterState × Tally) (s : ℕ) → Unchanged p.0 (raise_epoch r p) s
unfolding raise_epoch
raise_epoch-Unchanged r (g, t) s =
    elim (Bool-cases (ltb 0 t.applied_count && ltb g.current_epoch r.epoch)) [
      | inl p ↦ rw p (refl, refl, refl, refl)
      | inr p ↦ rw p (refl, refl, refl, refl)
    ]

-- The owner of the range can be reached: it is known, or comes with an address.
abbrev pub CanReach : OwnershipRange → ClusterState → Type 0
CanReach r g = (contains_key r.owner_id g.nodes || not (is_empty r.ip || (r.port == 0))) ≡ true

learn_owner-some :
    (now : ℕ) (r : OwnershipRange) (g : ClusterState)
    → CanReach r g
    → (g' : ClusterState) × (learn_owner now r g ≡ some g') × ((s : ℕ) → Unchanged g g' s)
unfolding learn_owner readdress add_owner
learn_owner-some now r g h = elim (Bool-cases (contains_key r.owner_id g.nodes)) [
  | inl p ↦ elim (Bool-cases (is_empty r.ip || (r.port == 0))) [
    | inl q ↦ (g, rw (p, q) refl, λ s. (refl, refl, refl, refl))
    | inr q ↦ (readdress r g, rw (p, q) refl, λ s. (refl, refl, refl, refl))
  ]
  | inr p ↦ elim (Bool-cases (is_empty r.ip || (r.port == 0))) [
    | inl q ↦ absurd (ground arith)
    | inr q ↦ (add_owner now r g, rw (p, q) refl, λ s. (refl, refl, refl, refl))
  ]
]

abbrev pub IsValidRange : OwnershipRange → Type 0
IsValidRange r = (r.start ≤ r.end) × (r.end < slot_count) × (is_empty r.owner_id ≡ false)

installed :
    (r : OwnershipRange) (g g' : ClusterState) (s : ℕ)
    → IsValidRange r
    → Unchanged g g' s
    → let after = (install r g (some g')).0 in
      ((r.start ≤ s) × (s ≤ r.end) × Merged r g after s)
      ⊎ (((s < r.start) ⊎ (r.end < s)) × Unchanged g after s)
unfolding install
installed r g g' s h u =
    let n = suc r.end - r.start in
    let done = apply_slots n r r.start g' no_tally in
    let raised = raise_epoch-Unchanged r done s in
    elim (Bool-cases (leb r.start s && leb s r.end)) [
      | inl p ↦ inl (
        ground arith,
        ground arith,
        Unchanged-Merged r g g' (raise_epoch r done) s u (
            Merged-Unchanged r g' done.0 (raise_epoch r done) s
              (apply_slots-Merged n r r.start g' no_tally s (ground arith) (ground arith)) raised),
      )
      | inr p ↦ inr (
        ground arith,
        Unchanged-trans g g' (raise_epoch r done) s u (
            Unchanged-trans g' done.0 (raise_epoch r done) s
              (apply_slots-Unchanged n r r.start g' no_tally s (ground arith)) raised),
      )
    ]

-- A merge of a range of slots changes exactly the slots of the range that are in no transition here and
-- have a lower epoch: they get the owner and the epoch of the range. Every other slot keeps both, and
-- no transition changes. The range is valid and its owner can be reached.
pub apply_ownership_range_lem :
    (now : ℕ) (r : OwnershipRange) (g : ClusterState) (s : ℕ)
    → IsValidRange r
    → CanReach r g
    → let g' = (apply_ownership_range now r g).0 in
      ((r.start ≤ s) × (s ≤ r.end) × Merged r g g' s)
      ⊎ (((s < r.start) ⊎ (r.end < s)) × Unchanged g g' s)
unfolding apply_ownership_range
apply_ownership_range_lem now r g s v h =
    let (g', e, u) = learn_owner-some now r g h in
    let valid : (ltb r.end r.start || not (ltb r.end slot_count)) ≡ false = ground arith in
    rw (valid, v.2, e) (installed r g g' s v (u s))

-- The slot is in no transition.
abbrev pub Settled : ClusterState → ℕ → Type 0
Settled g s = (is_some (g.migrating s) || is_some (g.importing s)) ≡ false
