-- ===== src/Deadlock/Victims/Choice.antt =====
-- The best victim by the strategy: the selection in `resolve_deadlock` of src/deadlock.rs.
use kore.Base.{
  ◌≤◌, ◌<◌, ◌≡◌, refl, List, [], ◌∷◌, arith, if◌then◌else◌, ltb, leb, Bool-cases, ◌⊎◌, inl, inr,
}
use kore.Deadlock.{VictimSelectionStrategy, youngest, oldest, fewest_locks}
use kore.Deadlock.Victims.{Candidate, replaces, select_victim}

-- By the strategy `d` is no better victim than `v`.
abbrev pub NotBetter : VictimSelectionStrategy → Candidate → Candidate → Type 0
NotBetter youngest v d = d.latest ≤ v.latest
NotBetter oldest v d = v.earliest ≤ d.earliest
NotBetter fewest_locks v d = (v.count < d.count) ⊎ ((v.count ≡ d.count) × (d.latest ≤ v.latest))

abbrev pub NoneBetter : VictimSelectionStrategy → Candidate → List Candidate → Type 0
NoneBetter strategy v [] = Unit
NoneBetter strategy v (d ∷ ds) = NotBetter strategy v d × NoneBetter strategy v ds

NotBetter-refl : (strategy : VictimSelectionStrategy) (c : Candidate) → NotBetter strategy c c
NotBetter-refl youngest c = omega arith
NotBetter-refl oldest c = omega arith
NotBetter-refl fewest_locks c = inr (refl, omega arith)

NotBetter-trans :
    (strategy : VictimSelectionStrategy) (u v w : Candidate)
    → NotBetter strategy u v
    → NotBetter strategy v w
    → NotBetter strategy u w
NotBetter-trans youngest u v w h k = omega (arith, h, k)
NotBetter-trans oldest u v w h k = omega (arith, h, k)
NotBetter-trans fewest_locks u v w h k = ground (arith, h, k)

replaces_lem :
    (strategy : VictimSelectionStrategy) (c d : Candidate)
    → let w = if replaces strategy c d then d else c in
      NotBetter strategy w c × NotBetter strategy w d
unfolding replaces
replaces_lem youngest c d = elim (Bool-cases (leb c.latest d.latest)) [
  | inl p ↦ rw p (ground arith, omega arith)
  | inr p ↦ rw p (omega arith, ground arith)
]
replaces_lem oldest c d = elim (Bool-cases (ltb d.earliest c.earliest)) [
  | inl p ↦ rw p (ground arith, omega arith)
  | inr p ↦ rw p (omega arith, ground arith)
]
replaces_lem fewest_locks c d = elim (Bool-cases (replaces fewest_locks c d)) [
  | inl p ↦ rw p (ground arith, inr (refl, omega arith))
  | inr p ↦ rw p (inr (refl, omega arith), ground arith)
]

select_best :
    (strategy : VictimSelectionStrategy) (cs : List Candidate) (c : Candidate)
    → NoneBetter strategy (select_victim strategy c cs) (c ∷ cs)
unfolding select_victim
select_best strategy [] c = (NotBetter-refl strategy c, tt)
select_best strategy (d ∷ ds) c =
    let w = if replaces strategy c d then d else c in
    let (first, rest) = select_best strategy ds w in
    let (over_c, over_d) = replaces_lem strategy c d in
    let v = select_victim strategy w ds in
    (
      NotBetter-trans strategy v w c first over_c,
      (NotBetter-trans strategy v w d first over_d, rest),
    )

-- The victim that is selected is the best one by the strategy: no candidate has taken its latest lock
-- later, or its earliest lock earlier, or holds fewer locks, or as many and has taken its latest one
-- later.
pub select_victim_lem :
    (strategy : VictimSelectionStrategy) (c : Candidate) (cs : List Candidate)
    → NoneBetter strategy (select_victim strategy c cs) (c ∷ cs)
select_victim_lem strategy c cs = select_best strategy cs c
