-- ===== src/Cluster/Failover/Election.antt =====
-- Who wins the election of a replica, and that two replicas do not both win: failover_election_winner of
-- src/cluster/state.rs.
use kore.Base.{
  ℕ, ◌≡◌, refl, sym, ap, ◌∙◌, Bool, true, false, ◌&&◌, Option, none, some, List, [], ◌∷◌, arith,
  ltb, Bytes, same, same_iff, same_refl, Bool-cases, ◌⊎◌, inl, inr, leb_bytes_total,
  leb_bytes_trans, leb_bytes_antisymm, ◌≢◌,
}
use kore.Cluster.{ClusterState}
use kore.Cluster.Failover.{
  listed, names, pri_off, leb_rank, eligible, max_rank, best_of, elect, replicas_of,
  failover_election_winner, should_claim_on_failover,
}

listed_cases :
    (y x : Bytes) (xs : List Bytes) → listed y (x ∷ xs) ≡ true → (x ≡ y) ⊎ (listed y xs ≡ true)
unfolding listed
listed_cases y x xs h = elim (Bool-cases (same x y)) [
  | inl p ↦ inl ((same_iff x y).0 p)
  | inr p ↦ inr (ground (arith, h, p))
]

listed_nil : (y : Bytes) → listed y [] ≡ true → ⊥
unfolding listed
listed_nil y h = cc

listed_first : (x : Bytes) (xs : List Bytes) → listed x (x ∷ xs) ≡ true
unfolding listed
listed_first x xs = rw (same_refl x) refl

listed_later : (y x : Bytes) (xs : List Bytes) → listed y xs ≡ true → listed y (x ∷ xs) ≡ true
unfolding listed
listed_later y x xs h = ground (arith, h)

module _ (g : ClusterState) where
  leb_rank_total : (a b : Bytes) → leb_rank g a b ≡ false → leb_rank g b a ≡ true
  unfolding leb_rank
  leb_rank_total a b h = ground (arith, leb_bytes_total a b)

  leb_rank_trans :
      (a b c : Bytes) → leb_rank g a b ≡ true → leb_rank g b c ≡ true → leb_rank g a c ≡ true
  unfolding leb_rank
  leb_rank_trans a b c h k = ground (arith, leb_bytes_trans a b c)

  leb_rank_antisymm : (a b : Bytes) → leb_rank g a b ≡ true → leb_rank g b a ≡ true → a ≡ b
  unfolding leb_rank
  leb_rank_antisymm a b h k = leb_bytes_antisymm a b (ground arith) (ground arith)

  leb_rank_refl : (a : Bytes) → leb_rank g a a ≡ true
  leb_rank_refl a = elim (Bool-cases (leb_rank g a a)) [ inl p ↦ p | inr p ↦ leb_rank_total a a p ]

  max_rank-new :
      (best x : Bytes) (xs : List Bytes)
      → leb_rank g best x ≡ true
      → max_rank g best (x ∷ xs) ≡ max_rank g x xs
  unfolding max_rank
  max_rank-new best x xs p = rw p refl

  max_rank-old :
      (best x : Bytes) (xs : List Bytes)
      → leb_rank g best x ≡ false
      → max_rank g best (x ∷ xs) ≡ max_rank g best xs
  unfolding max_rank
  max_rank-old best x xs p = rw p refl

  max_rank-nil : (best : Bytes) → max_rank g best [] ≡ best
  unfolding max_rank
  max_rank-nil best = refl

  max_rank-above : (best : Bytes) (xs : List Bytes) → leb_rank g best (max_rank g best xs) ≡ true
  max_rank-above best [] = rw (max_rank-nil best) (leb_rank_refl best)
  max_rank-above best (x ∷ xs) = elim (Bool-cases (leb_rank g best x)) [
    | inl p ↦
        rw (max_rank-new best x xs p)
          (leb_rank_trans best x (max_rank g x xs) p (max_rank-above x xs))
    | inr p ↦ rw (max_rank-old best x xs p) (max_rank-above best xs)
  ]

  max_rank-greatest :
      (best : Bytes) (xs : List Bytes) (y : Bytes)
      → listed y xs ≡ true
      → leb_rank g y (max_rank g best xs) ≡ true
  max_rank-greatest best [] y h = absurd (listed_nil y h)
  max_rank-greatest best (x ∷ xs) y h = elim (Bool-cases (leb_rank g best x)) [
    | inl p ↦ rw (max_rank-new best x xs p) (elim (listed_cases y x xs h) [
      | inl e ↦ rw (← e) (max_rank-above x xs)
      | inr k ↦ max_rank-greatest x xs y k
    ])
    | inr p ↦ rw (max_rank-old best x xs p) (elim (listed_cases y x xs h) [
      | inl e ↦ rw (← e) (
          leb_rank_trans x best (max_rank g best xs) (leb_rank_total best x p)
            (max_rank-above best xs))
      | inr k ↦ max_rank-greatest best xs y k
    ])
  ]

  max_rank-listed :
      (best : Bytes) (xs : List Bytes) → listed (max_rank g best xs) (best ∷ xs) ≡ true
  max_rank-listed best [] = rw (max_rank-nil best) (listed_first best [])
  max_rank-listed best (x ∷ xs) = elim (Bool-cases (leb_rank g best x)) [
    | inl p ↦ rw (max_rank-new best x xs p) (listed_later _ best (x ∷ xs) (max_rank-listed x xs))
    | inr p ↦
        rw (max_rank-old best x xs p) (elim (listed_cases _ best xs (max_rank-listed best xs)) [
          | inl e ↦ rw (← e) (listed_first best (x ∷ xs))
          | inr k ↦ listed_later _ best (x ∷ xs) (listed_later _ x xs k)
        ])
  ]

  eligible-keep :
      (x : Bytes) (xs : List Bytes)
      → ltb 0 (pri_off g x).0 ≡ true
      → eligible g (x ∷ xs) ≡ x ∷ eligible g xs
  unfolding eligible
  eligible-keep x xs p = rw p refl

  eligible-drop :
      (x : Bytes) (xs : List Bytes)
      → ltb 0 (pri_off g x).0 ≡ false
      → eligible g (x ∷ xs) ≡ eligible g xs
  unfolding eligible
  eligible-drop x xs p = rw p refl

  eligible-nil : eligible g [] ≡ []
  unfolding eligible
  eligible-nil = refl

  listed-eligible :
      (y : Bytes) (xs : List Bytes)
      → listed y (eligible g xs) ≡ true
      → (listed y xs ≡ true) × (ltb 0 (pri_off g y).0 ≡ true)
  listed-eligible y [] h = absurd (listed_nil y (ap (listed y) (sym eligible-nil) ∙ h))
  listed-eligible y (x ∷ xs) h = elim (Bool-cases (ltb 0 (pri_off g x).0)) [
    | inl p ↦
        elim (listed_cases y x (eligible g xs) (ap (listed y) (sym (eligible-keep x xs p)) ∙ h)) [
          | inl e ↦ (rw (← e) (listed_first x xs), rw (← e) p)
          | inr k ↦ let ih = listed-eligible y xs k in (listed_later y x xs ih.0, ih.1)
        ]
    | inr p ↦
        let ih = listed-eligible y xs (ap (listed y) (sym (eligible-drop x xs p)) ∙ h) in
        (listed_later y x xs ih.0, ih.1)
  ]

  eligible-listed :
      (y : Bytes) (xs : List Bytes)
      → listed y xs ≡ true
      → ltb 0 (pri_off g y).0 ≡ true
      → listed y (eligible g xs) ≡ true
  eligible-listed y [] h k = absurd (listed_nil y h)
  eligible-listed y (x ∷ xs) h k = elim (listed_cases y x xs h) [
    | inl e ↦ rw (eligible-keep x xs (rw e k)) (rw (← e) (listed_first x (eligible g xs)))
    | inr l ↦ elim (Bool-cases (ltb 0 (pri_off g x).0)) [
      | inl p ↦
          rw (eligible-keep x xs p) (listed_later y x (eligible g xs) (eligible-listed y xs l k))
      | inr p ↦ rw (eligible-drop x xs p) (eligible-listed y xs l k)
    ]
  ]

  -- The best of some candidates is one of them, and above them all.
  best_of-greatest :
      (xs : List Bytes) (w : Bytes)
      → best_of g xs ≡ some w
      → (listed w xs ≡ true) × ((y : Bytes) → listed y xs ≡ true → leb_rank g y w ≡ true)
  unfolding best_of
  best_of-greatest [] w h = cc
  best_of-greatest (x ∷ xs) w h =
      let e : max_rank g x xs ≡ w = cc in
      rw (← e) (
        max_rank-listed x xs,
        λ y k. elim (listed_cases y x xs k) [
          | inl i ↦ rw (← i) (max_rank-above x xs)
          | inr l ↦ max_rank-greatest x xs y l
        ],
      )

-- The winner among the replicas: one of them, of a priority above 0, and no other such one is ranked
-- above it.
pub record Wins (g : ClusterState) (replicas : List Bytes) (w : Bytes) : Type 0 where
  pub candidate : listed w replicas ≡ true
  pub willing : ltb 0 (pri_off g w).0 ≡ true
  pub best :
      (y : Bytes) → listed y replicas ≡ true → ltb 0 (pri_off g y).0 ≡ true → leb_rank g y w ≡ true

elect-Wins :
    (g : ClusterState) (xs : List Bytes) (w : Bytes) → xs ≢ [] → elect g xs ≡ some w → Wins g xs w
unfolding elect
elect-Wins g [] w n h = absurd (n refl)
elect-Wins g (x ∷ xs) w n h =
    let top = best_of-greatest g (eligible g (x ∷ xs)) w h in
    let it = listed-eligible g w (x ∷ xs) top.0 in
    record {
      candidate = it.0;
      willing = it.1;
      best = λ y k p. top.1 y (eligible-listed g y (x ∷ xs) k p);
    }

-- The winner of the election for a failed master is a replica of it that has a priority above 0, and it
-- is ranked at least as high as every other such replica, by priority, then by offset, then by name.
-- This holds when the node knows of a live replica of that master.
pub failover_election_winner-Wins :
    (failed : Bytes) (g : ClusterState) (w : Bytes)
    → replicas_of failed g ≢ []
    → failover_election_winner failed g ≡ some w
    → Wins g (replicas_of failed g) w
unfolding failover_election_winner
failover_election_winner-Wins failed g w n h =
    elect-Wins g (replicas_of failed g) w n (ground (arith, h))

names-some : (o : Option Bytes) (id : Bytes) → names o id ≡ true → o ≡ some id
unfolding names
names-some none id h = cc
names-some (some x) id h = ap some ((same_iff x id).0 h)

claims :
    (failed : Bytes) (g : ClusterState)
    → should_claim_on_failover failed g ≡ true
    → failover_election_winner failed g ≡ some g.my_id
unfolding should_claim_on_failover
claims failed g h = names-some (failover_election_winner failed g) g.my_id h

leb_rank-same :
    (a b : ClusterState) (x y : Bytes)
    → pri_off a x ≡ pri_off b x
    → pri_off a y ≡ pri_off b y
    → leb_rank a x y ≡ leb_rank b x y
unfolding leb_rank
leb_rank-same a b x y h k = rw (h, k) refl

both : (p q : Bool) → (p && q) ≡ true → (p ≡ true) × (q ≡ true)
both true q h = (refl, h)
both false q h = cc

-- Two different nodes do not both claim the slots of a failed master, when they see the same replicas of
-- it, at least one, with the same priorities and offsets.
pub should_claim_once :
    (failed : Bytes) (a b : ClusterState)
    → a.my_id ≢ b.my_id
    → replicas_of failed a ≡ replicas_of failed b
    → replicas_of failed a ≢ []
    → ((y : Bytes) → listed y (replicas_of failed a) ≡ true → pri_off a y ≡ pri_off b y)
    → (should_claim_on_failover failed a && should_claim_on_failover failed b) ≡ false
should_claim_once failed a b d r n p =
    elim (Bool-cases (should_claim_on_failover failed a && should_claim_on_failover failed b)) [
      | inr q ↦ q
      | inl q ↦ absurd (
          d (
            let (ca, cb) = both _ _ q in
            let wa = failover_election_winner-Wins failed a a.my_id n (claims failed a ca) in
            let wb =
              failover_election_winner-Wins failed b b.my_id (λ e. n (r ∙ e))
                (claims failed b cb) in
            let la : listed b.my_id (replicas_of failed a) ≡ true =
              ap (listed b.my_id) r ∙ wb.candidate in
            let lb : listed a.my_id (replicas_of failed b) ≡ true =
              ap (listed a.my_id) (sym r) ∙ wa.candidate in
            let pa = p a.my_id wa.candidate in
            let pb = p b.my_id la in
            let below = wb.best a.my_id lb (ap (λ (x : ℕ × ℕ). ltb 0 x.0) (sym pa) ∙ wa.willing) in
            leb_rank_antisymm a a.my_id b.my_id (leb_rank-same a b a.my_id b.my_id pa pb ∙ below)
              (wa.best b.my_id la (ap (λ (x : ℕ × ℕ). ltb 0 x.0) pb ∙ wb.willing))))
    ]
