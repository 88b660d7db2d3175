-- ===== src/Deadlock/Search/Trails.antt =====
-- What the depth-first search keeps true: the path is a trail through the graph, and the clients it
-- has left lead to no cycle.
use kore.Base.{
  ℕ, suc, ◌≤◌, ◌<◌, ◌≡◌, refl, ap, true, false, ◌||◌, List, [], ◌∷◌, ◌++◌, arith, if◌then◌else◌,
  Bytes, same, same_iff, ◌⊎◌,
}
use kore.Deadlock.{member}
use kore.Deadlock.Search.{Adjacency, neighbors, pop, without}

-- The holder `n` with the resource `r` stands in a list of neighbors.
abbrev pub In : Bytes → Bytes → List (Bytes × Bytes) → Type 0
In n r [] = ⊥
In n r ((m, s) ∷ ns) = ((m ≡ n) × (s ≡ r)) ⊎ In n r ns

-- The client `a` waits for the resource `r`, which `b` holds.
abbrev pub Edge : Adjacency → Bytes → Bytes → Bytes → Type 0
Edge adjacency a r b = In b r (neighbors a adjacency)

abbrev pub head_or : List Bytes → Bytes → Bytes
head_or [] x = x
head_or (a ∷ rest) x = a

-- Each client of the path waits for the next one, the last for `x`, over the resources of the other
-- list.
abbrev pub Trail : Adjacency → List Bytes → List Bytes → Bytes → Type 0
Trail adjacency [] [] x = Unit
Trail adjacency (a ∷ path) (r ∷ rs) x =
    Edge adjacency a r (head_or path x) × Trail adjacency path rs x
Trail adjacency _ _ x = ⊥

-- Each client of the list waits only for clients that stand after it.
abbrev pub Closed : Adjacency → List Bytes → Type 0
Closed adjacency [] = Unit
Closed adjacency (a ∷ rest) =
    ((n r : Bytes) → Edge adjacency a r n → member n rest ≡ true) × Closed adjacency rest

-- The clients of a list that were not visited.
abbrev pub unseen : List Bytes → List Bytes → ℕ
unseen [] visited = 0
unseen (u ∷ us) visited = if member u visited then unseen us visited else suc (unseen us visited)

pub Trail-snoc :
    (adjacency : Adjacency) (path rs : List Bytes) (b r x : Bytes)
    → Trail adjacency path rs b
    → Edge adjacency b r x
    → Trail adjacency (path ++ b ∷ []) (rs ++ r ∷ []) x
Trail-snoc adjacency [] [] b r x t e = (e, tt)
Trail-snoc adjacency (a ∷ []) (s ∷ rs) b r x t e = (t.0, Trail-snoc adjacency [] rs b r x t.1 e)
Trail-snoc adjacency (a ∷ c ∷ path) (s ∷ rs) b r x t e =
    (t.0, Trail-snoc adjacency (c ∷ path) rs b r x t.1 e)
Trail-snoc adjacency [] (s ∷ rs) b r x t e = elim t [ ]
Trail-snoc adjacency (a ∷ path) [] b r x t e = elim t [ ]

pub pop-snoc {ℓ} : {A : Type ℓ} (xs : List A) (x : A) → pop (xs ++ x ∷ []) ≡ xs
unfolding pop
pop-snoc [] x = refl
pop-snoc (y ∷ []) x = refl
pop-snoc (y ∷ z ∷ ys) x = ap (λ zs. y ∷ zs) (pop-snoc (z ∷ ys) x)

pub member-snoc :
    (x y : Bytes) (xs : List Bytes) → member x (xs ++ y ∷ []) ≡ (member x xs || same y x)
unfolding member
member-snoc x y [] = ground arith
member-snoc x y (z ∷ xs) = ground (arith, member-snoc x y xs)

pub without_missing : (x : Bytes) (xs : List Bytes) → member x xs ≡ false → without x xs ≡ xs
unfolding member without
without_missing x [] h = refl
without_missing x (y ∷ xs) h = ground (arith, without_missing x xs)

pub unseen_le :
    (us v w : List Bytes)
    → ((x : Bytes) → member x v ≡ true → member x w ≡ true)
    → unseen us w ≤ unseen us v
unseen_le [] v w h = omega arith
unseen_le (u ∷ us) v w h = ground (arith, unseen_le us v w h, h u)

-- A visit of a new client leaves fewer of them.
pub unseen_lt :
    (us v : List Bytes) (x : Bytes)
    → member x us ≡ true
    → member x v ≡ false
    → unseen us (x ∷ v) < unseen us v
unfolding member
unseen_lt [] v x h k = ground arith
unseen_lt (u ∷ us) v x h k = ground (
  arith,
  same_iff u x,
  same_iff x u,
  unseen_lt us v x,
  unseen_le us v (x ∷ v) (λ y m. ground arith),
)
