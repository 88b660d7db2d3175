-- ===== src/Deadlock/Victims.antt =====
-- The choice of a victim: `resolve_deadlock` of src/deadlock.rs.
pub mod Choice
pub mod Release
use kore.Base.{
  ℕ, ◌+◌, ◌≤◌, ◌<◌, ◌≡◌, ◌≢◌, refl, Bool, true, false, not, ◌&&◌, ◌||◌, Option, none, some, List,
  [], ◌∷◌, arith, if◌then◌else◌, ltb, leb, ◌==◌, Bytes, same, same_iff, same_refl, Bool-cases,
  subst, ◌⊎◌, inl, inr,
}
use kore.Base.Table.{Table, lookup, remove, Distinct, lookup-retain, lookup-remove}
use kore.Deadlock.{
  LockInfo, WaitEdge, VictimSelectionStrategy, youngest, oldest, fewest_locks, DeadlockDetector,
  member, keep, release_client_locks, prune_waiting,
}
use kore.Deadlock.Search.Cycles.{Waits, Leads, direct, further}

pub record Candidate : Type 0 where
  pub client : Bytes
  pub count : ℕ
  pub earliest : ℕ
  pub latest : ℕ

-- One lock of the client is counted.
unfoldable pub note_lock : Bytes → LockInfo → Option Candidate → Option Candidate
note_lock client i none =
    some (record { client = client; count = 1; earliest = i.timestamp; latest = i.timestamp })
note_lock client i (some c) = some (record {
  client = client;
  count = c.count + 1;
  earliest = if leb c.earliest i.timestamp then c.earliest else i.timestamp;
  latest = if leb i.timestamp c.latest then c.latest else i.timestamp;
})

unfoldable pub tally : Bytes → Table LockInfo → Option Candidate → Option Candidate
tally client [] c = c
tally client ((r, i) ∷ m) c =
    tally client m (if same i.client_id client then note_lock client i c else c)

unfoldable pub candidates : Table LockInfo → List Bytes → List Candidate
candidates held [] = []
candidates held (c ∷ cycle) =
    let rest = candidates held cycle in
    elim (tally c held none) [ none ↦ rest | some candidate ↦ candidate ∷ rest ]

-- `max_by_key` keeps the last of the greatest, `min_by_key` and `min_by` the first of the least.
unfoldable pub replaces : VictimSelectionStrategy → Candidate → Candidate → Bool
replaces youngest c d = leb c.latest d.latest
replaces oldest c d = ltb d.earliest c.earliest
replaces fewest_locks c d = ltb d.count c.count || ((d.count == c.count) && ltb c.latest d.latest)

unfoldable pub select_victim : VictimSelectionStrategy → Candidate → List Candidate → Candidate
select_victim strategy c [] = c
select_victim strategy c (d ∷ ds) =
    select_victim strategy (if replaces strategy c d then d else c) ds

unfoldable pub choose : VictimSelectionStrategy → List Candidate → Option Bytes
choose strategy [] = none
choose strategy (c ∷ cs) = some (select_victim strategy c cs).client

unfoldable pub resolve_deadlock : List Bytes → DeadlockDetector → Option Bytes
resolve_deadlock [] d = none
resolve_deadlock (c ∷ cycle) d =
    if not d.auto_resolve
    then none
    else choose d.victim_strategy (candidates d.held_locks (c ∷ cycle))

-- A lock of the client is held.
unfoldable pub holds_some : Bytes → Table LockInfo → Bool
holds_some client [] = false
holds_some client ((r, i) ∷ m) = same i.client_id client || holds_some client m

tally-some :
    (client : Bytes) (m : Table LockInfo) (c : Candidate)
    → c.client ≡ client
    → (d : Candidate) × (tally client m (some c) ≡ some d) × (d.client ≡ client)
unfolding tally note_lock
tally-some client [] c e = (c, refl, e)
tally-some client ((r, i) ∷ m) c e = elim (Bool-cases (same i.client_id client)) [
  | inl p ↦ rw p (tally-some client m _ refl)
  | inr p ↦ rw p (tally-some client m c e)
]

tally_lem :
    (client : Bytes) (m : Table LockInfo)
    → ((holds_some client m ≡ false) × (tally client m none ≡ none))
      ⊎ ((holds_some client m ≡ true)
          × ((d : Candidate) × (tally client m none ≡ some d) × (d.client ≡ client)))
unfolding tally note_lock holds_some
tally_lem client [] = inl (refl, refl)
tally_lem client ((r, i) ∷ m) = elim (Bool-cases (same i.client_id client)) [
  | inl p ↦ rw p (inr (refl, tally-some client m _ refl))
  | inr p ↦ rw p (tally_lem client m)
]

-- Every candidate is a client of the cycle that holds a lock.
abbrev AllStand : Table LockInfo → List Bytes → List Candidate → Type 0
AllStand held cycle [] = Unit
AllStand held cycle (c ∷ cs) =
    (member c.client cycle ≡ true) × (holds_some c.client held ≡ true) × AllStand held cycle cs

AllStand-later :
    (held : Table LockInfo) (x : Bytes) (cycle : List Bytes) (cs : List Candidate)
    → AllStand held cycle cs
    → AllStand held (x ∷ cycle) cs
unfolding member
AllStand-later held x cycle [] a = tt
AllStand-later held x cycle (c ∷ cs) a = (ground arith, a.1, AllStand-later held x cycle cs a.2)

candidates-AllStand :
    (held : Table LockInfo) (cycle : List Bytes) → AllStand held cycle (candidates held cycle)
unfolding candidates member
candidates-AllStand held [] = tt
candidates-AllStand held (c ∷ cycle) =
    let rest =
      AllStand-later held c cycle (candidates held cycle) (candidates-AllStand held cycle) in
    elim (tally_lem c held) [
      | inl (p, q) ↦ rw (q, candidates) rest
      | inr (p, (d, q, e)) ↦ rw (q, candidates, e) (ground (arith, same_refl c), p, rest)
    ]

select_victim-AllStand :
    (held : Table LockInfo) (cycle : List Bytes) (strategy : VictimSelectionStrategy)
    (cs : List Candidate) (c : Candidate)
    → AllStand held cycle (c ∷ cs)
    → let v = (select_victim strategy c cs).client in
      (member v cycle ≡ true) × (holds_some v held ≡ true)
unfolding select_victim
select_victim-AllStand held cycle strategy [] c a = (a.0, a.1)
select_victim-AllStand held cycle strategy (d ∷ ds) c a =
    elim (Bool-cases (replaces strategy c d)) [
      | inl p ↦ rw (p, select_victim) (select_victim-AllStand held cycle strategy ds d a.2)
      | inr p ↦
          rw (p, select_victim) (select_victim-AllStand held cycle strategy ds c (a.0, a.1, a.2.2))
    ]

-- No candidate is there only if no client of the cycle holds a lock.
candidates_none :
    (held : Table LockInfo) (cycle : List Bytes) (x : Bytes)
    → candidates held cycle ≡ []
    → member x cycle ≡ true
    → holds_some x held ≡ false
unfolding candidates member
candidates_none held [] x e m = ground arith
candidates_none held (c ∷ cycle) x e m = elim (tally_lem c held) [
  | inl (p, q) ↦ elim (Bool-cases (same c x)) [
    | inl s ↦ subst (λ z. holds_some z held ≡ false) ((same_iff c x).0 s) p
    | inr s ↦ candidates_none held cycle x (later q e) (ground arith)
  ]
  | inr (p, (d, q, f)) ↦ absurd (first q e)
]
  where
    later : tally c held none ≡ none → candidates held (c ∷ cycle) ≡ [] → candidates held cycle ≡ []
    later q e = ground arith

    first : {d : Candidate} → tally c held none ≡ some d → candidates held (c ∷ cycle) ≡ [] → ⊥
    first q e = ground arith

chosen :
    (held : Table LockInfo) (cycle : List Bytes) (strategy : VictimSelectionStrategy)
    (cs : List Candidate)
    → AllStand held cycle cs
    → ((x : Bytes) → cs ≡ [] → member x cycle ≡ true → holds_some x held ≡ false)
    → ((v : Bytes) × (choose strategy cs ≡ some v)
        × (member v cycle ≡ true)
        × (holds_some v held ≡ true))
      ⊎ ((choose strategy cs ≡ none)
          × ((x : Bytes) → member x cycle ≡ true → holds_some x held ≡ false))
unfolding choose
chosen held cycle strategy [] a h = inr (refl, λ x. h x refl)
chosen held cycle strategy (c ∷ cs) a h =
    let (m, l) = select_victim-AllStand held cycle strategy cs c a in inl (_, refl, m, l)

-- With automatic resolution the victim is a client of the cycle that holds a lock, whatever the
-- strategy, and there is a victim unless no client of the cycle holds a lock.
pub resolve_deadlock_lem :
    (cycle : List Bytes) (d : DeadlockDetector)
    → d.auto_resolve ≡ true
    → ((v : Bytes) × (resolve_deadlock cycle d ≡ some v)
        × (member v cycle ≡ true)
        × (holds_some v d.held_locks ≡ true))
      ⊎ ((resolve_deadlock cycle d ≡ none)
          × ((x : Bytes) → member x cycle ≡ true → holds_some x d.held_locks ≡ false))
unfolding resolve_deadlock member
resolve_deadlock_lem [] d h = inr (refl, λ x m. ground arith)
resolve_deadlock_lem (c ∷ cycle) d h = rw h (
    chosen d.held_locks (c ∷ cycle) d.victim_strategy (candidates d.held_locks (c ∷ cycle))
      (candidates-AllStand d.held_locks (c ∷ cycle)) (candidates_none d.held_locks (c ∷ cycle)))
