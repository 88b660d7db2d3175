-- ===== src/Cluster/Gossip/Converge.antt =====
-- The order in which claims on slots arrive does not matter: merge_ownership_snapshot of
-- src/cluster/state.rs against a register in which the claim of the highest epoch wins.
use kore.Base.{
  ℕ, ◌<◌, ◌≡◌, refl, sym, ap, ◌∙◌, Bool, true, false, ◌&&◌, ◌||◌, List, [], ◌∷◌, arith, ltb, leb,
  ◌==◌, if◌then◌else◌, Bytes, Bool-cases, ◌⊎◌, inl, inr, max,
}
use mathlib.Core.List.{Perm, Permᴰ}
use mathlib.Core.Logic.{∥∥₁_elim}
use native.Mathlib.Nat.{ℕ_set}
use kore.Cluster.{ClusterState, is_empty}
use kore.Cluster.Gossip.{
  OwnershipRange, apply_ownership_range, count_result, merge_ranges, no_tally,
  merge_ownership_snapshot, Tally,
}
use kore.Cluster.Gossip.Merge.{CanReach, IsValidRange, Settled, apply_ownership_range_lem}

abbrev pub covers : OwnershipRange → ℕ → Bool
covers r s = leb r.start s && leb s r.end

-- The register: the highest epoch that is claimed for the slot.
abbrev pub said : ℕ → OwnershipRange → ℕ → ℕ
said s r e = if covers r s then max e r.epoch else e

abbrev pub highest : ℕ → List OwnershipRange → ℕ → ℕ
highest s [] e = e
highest s (r ∷ rs) e = highest s rs (said s r e)

said_comm : (s : ℕ) (q r : OwnershipRange) (e : ℕ) → said s q (said s r e) ≡ said s r (said s q e)
said_comm s q r e = ground arith

highest-Permᴰ :
    (s : ℕ) {l m : List OwnershipRange} → Permᴰ l m → (e : ℕ) → highest s l e ≡ highest s m e
highest-Permᴰ s Permᴰ.nil e = refl
highest-Permᴰ s (Permᴰ.cons {a = a} {l₁ = l} p d) e = highest-Permᴰ s d (said s a e) ∙ rw p refl
highest-Permᴰ s (Permᴰ.swap {a = a} {b = b} {l = l} p q) e =
    ap (highest s l) (said_comm s b a e) ∙ rw (p, q) refl
highest-Permᴰ s (Permᴰ.trans c d) e = highest-Permᴰ s c e ∙ highest-Permᴰ s d e

-- A range with an address, whose claim agrees with the owners of the epochs.
abbrev pub IsClaim : (ℕ → Bytes) → ℕ → OwnershipRange → Type 0
IsClaim owner_at s r =
    IsValidRange r
    × ((is_empty r.ip || (r.port == 0)) ≡ false)
    × (covers r s ≡ true → r.owner_id ≡ owner_at r.epoch)

abbrev pub AllClaims : (ℕ → Bytes) → ℕ → List OwnershipRange → Type 0
AllClaims owner_at s [] = Unit
AllClaims owner_at s (r ∷ rs) = IsClaim owner_at s r × AllClaims owner_at s rs

-- The slot of the node is that of the register.
abbrev pub Holds : (ℕ → Bytes) → ℕ → ClusterState → ℕ → Type 0
Holds owner_at s g e = (g.slot_config_epoch s ≡ e) × (g.slot_owner s ≡ owner_at e) × Settled g s

module _ (s : ℕ) (r : OwnershipRange) (e : ℕ) where
  said_new : covers r s ≡ true → ltb e r.epoch ≡ true → said s r e ≡ r.epoch
  said_new h k = ground (arith, h, k)

  said_old : covers r s ≡ true → ltb e r.epoch ≡ false → said s r e ≡ e
  said_old h k = ground (arith, h, k)

  said_not : (s < r.start) ⊎ (r.end < s) → said s r e ≡ e
  said_not h = ground (arith, h)

-- A merge of a range refines the register.
apply-Holds :
    (owner_at : ℕ → Bytes) (s now e : ℕ) (r : OwnershipRange) (g : ClusterState)
    → IsClaim owner_at s r
    → Holds owner_at s g e
    → Holds owner_at s (apply_ownership_range now r g).0 (said s r e)
apply-Holds owner_at s now e r g c h =
    let reach : CanReach r g = ground (arith, c.1) in
    elim (apply_ownership_range_lem now r g s c.0 reach) [
      | inl (a, b, m) ↦
          let cov : covers r s ≡ true = ground (arith, a, b) in
          elim (Bool-cases (ltb e r.epoch)) [
            | inl p ↦
                let x = said_new s r e cov p in
                (
                  m.1 ∙ rw (h.2, h.0, p) (sym x),
                  m.0 ∙ rw (h.2, h.0, p) (c.2 cov) ∙ ap owner_at (sym x),
                  rw (m.2, m.3) h.2,
                )
            | inr p ↦
                let x = said_old s r e cov p in
                (
                  m.1 ∙ rw (h.2, h.0, p) (sym x),
                  m.0 ∙ rw (h.2, h.0, p) h.1 ∙ ap owner_at (sym x),
                  rw (m.2, m.3) h.2,
                )
          ]
      | inr (o, u) ↦ (
        u.1 ∙ h.0 ∙ sym (said_not s r e o),
        u.0 ∙ h.1 ∙ ap owner_at (sym (said_not s r e o)),
        rw (u.2, u.3) h.2,
      )
    ]

merge_ranges-Holds :
    (owner_at : ℕ → Bytes) (s now e : ℕ) (rs : List OwnershipRange) (g : ClusterState) (t : Tally)
    → AllClaims owner_at s rs
    → Holds owner_at s g e
    → Holds owner_at s (merge_ranges now rs g t).0 (highest s rs e)
unfolding merge_ranges
merge_ranges-Holds owner_at s now e [] g t c h = h
merge_ranges-Holds owner_at s now e (r ∷ rs) g t c h =
    let next = apply_ownership_range now r g in
    merge_ranges-Holds owner_at s now (said s r e) rs next.0 (count_result next.1 t) c.1
      (apply-Holds owner_at s now e r g c.0 h)

-- A merge of a snapshot refines a register in which the highest epoch wins: afterwards the slot has the
-- highest epoch among its own and those of the ranges that cover it, and the owner of that epoch. The
-- slot is in no transition, each range is valid and has an address, and for the slot an epoch belongs to
-- one owner.
pub merge_ownership_snapshot-Holds :
    (owner_at : ℕ → Bytes) (s now e : ℕ) (rs : List OwnershipRange) (g : ClusterState)
    → AllClaims owner_at s rs
    → Holds owner_at s g e
    → Holds owner_at s (merge_ownership_snapshot now rs g).0 (highest s rs e)
unfolding merge_ownership_snapshot
merge_ownership_snapshot-Holds owner_at s now e rs g c h =
    merge_ranges-Holds owner_at s now e rs g no_tally c h

-- Two nodes that have merged the same ranges, each in its own order, have the same owner and the same
-- epoch for a slot, if they had before. The slot is in no transition on either node, each range is valid
-- and has an address, and for the slot an epoch belongs to one owner.
pub merge_ownership_snapshot_converges :
    (owner_at : ℕ → Bytes) (s now later e : ℕ) (rs qs : List OwnershipRange) (a b : ClusterState)
    → Perm rs qs
    → AllClaims owner_at s rs
    → AllClaims owner_at s qs
    → Holds owner_at s a e
    → Holds owner_at s b e
    → let a' = (merge_ownership_snapshot now rs a).0 in
      let b' = (merge_ownership_snapshot later qs b).0 in
      (a'.slot_owner s ≡ b'.slot_owner s) × (a'.slot_config_epoch s ≡ b'.slot_config_epoch s)
merge_ownership_snapshot_converges owner_at s now later e rs qs a b p c d h k =
    let u = merge_ownership_snapshot-Holds owner_at s now e rs a c h in
    let v = merge_ownership_snapshot-Holds owner_at s later e qs b d k in
    let same_top =
      ∥∥₁_elim p (ℕ_set (highest s rs e) (highest s qs e)) (λ q. highest-Permᴰ s q e) in
    (u.1 ∙ ap owner_at same_top ∙ sym v.1, u.0 ∙ same_top ∙ sym v.0)
