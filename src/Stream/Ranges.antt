-- ===== src/Stream/Ranges.antt =====
-- XRANGE and XREVRANGE: `xrange` and `xrevrange` of src/stream_type.rs.
use kore.Base.{
  ℕ, ◌≡◌, refl, ap, true, false, not, ◌&&◌, Option, none, some, List, [], ◌∷◌, ◌++◌, arith, ◌⊎◌,
  inl, inr, if◌then◌else◌, Bool-cases,
}
use kore.Stream.Id.{StreamId, lt_id}
use kore.Stream.Id.Order.{lt_id_trans}
use kore.Stream.Index.{Index, select, values, Sorted, Above, Below, Above-of_lt}
use kore.Stream.State.{StreamEntry, RedisStream, take_opt}

-- The entries from `start` to `end`, both included.
unfoldable pub between {ℓ} : {V : Type ℓ} → StreamId → StreamId → Index V → Index V
between start end = select (λ id _. not (lt_id id start) && not (lt_id end id))

unfoldable pub reverse {ℓ} : {A : Type ℓ} → List A → List A
reverse [] = []
reverse (x ∷ xs) = reverse xs ++ x ∷ []

-- `range(start..=end)` of a BTreeMap panics when the start is after the end: there is no result.
unfoldable pub xrange : StreamId → StreamId → Option ℕ → RedisStream → Option (List StreamEntry)
xrange start end count s =
    if lt_id end start then none else some (take_opt count (values (between start end s.entries)))

unfoldable pub xrevrange : StreamId → StreamId → Option ℕ → RedisStream → Option (List StreamEntry)
xrevrange end start count s =
    if lt_id end start
    then none
    else some (take_opt count (reverse (values (between start end s.entries))))

module _ {ℓ} {V : Type ℓ} where
  -- Every ID of the index is from `start` to `end`.
  abbrev pub Within : StreamId → StreamId → Index V → Type 0
  Within start end [] = Unit
  Within start end ((j, v) ∷ m) =
      (lt_id j start ≡ false) × (lt_id end j ≡ false) × Within start end m

  abbrev From : StreamId → Index V → Type 0
  From start [] = Unit
  From start ((j, v) ∷ m) = (lt_id j start ≡ false) × From start m

  Above-From : (start j : StreamId) (m : Index V) → lt_id j start ≡ false → Above j m → From start m
  Above-From start j [] h a = tt
  Above-From start j ((k, v) ∷ m) h a =
      (ground (arith, lt_id_trans j k start a.0, h), Above-From start j m h a.1)

  between-Above : (start end : StreamId) (m : Index V) → Above end m → between start end m ≡ []
  unfolding between select
  between-Above start end [] a = refl
  between-Above start end ((j, v) ∷ m) a = ground (arith, between-Above start end m a.1)

  -- An index from `start` on is what lies between, and what is above `end`.
  upper_part :
      (start end : StreamId) (m : Index V)
      → Sorted m
      → From start m
      → (high : Index V) × (m ≡ between start end m ++ high)
        × Within start end (between start end m)
        × Above end high
  unfolding between select
  upper_part start end [] s f = ([], refl, tt, tt)
  upper_part start end ((j, v) ∷ m) s f = elim (Bool-cases (lt_id end j)) [
    | inl p ↦
        let a = Above-of_lt end j m p s.0 in
        rw (p, f.0, between-Above start end m a) ((j, v) ∷ m, refl, tt, (p, a))
    | inr p ↦
        let (high, e, w, a) = upper_part start end m s.1 f.1 in
        rw (p, f.0) (high, ap (λ n. (j, v) ∷ n) e, (f.0, p, w), a)
  ]

  -- An index is what is below `start`, what lies between, and what is above `end`.
  between_parts :
      (start end : StreamId) (m : Index V)
      → Sorted m
      → (low : Index V) × (high : Index V) × (m ≡ low ++ between start end m ++ high)
        × Below start low
        × Within start end (between start end m)
        × Above end high
  unfolding between select
  between_parts start end [] s = ([], [], refl, tt, tt, tt)
  between_parts start end ((j, v) ∷ m) s = elim (Bool-cases (lt_id j start)) [
    | inl p ↦
        let (low, high, e, b, w, a) = between_parts start end m s.1 in
        rw p ((j, v) ∷ low, high, ap (λ n. (j, v) ∷ n) e, (p, b), w, a)
    | inr p ↦
        let (high, e, w, a) = upper_part start end ((j, v) ∷ m) s (p, Above-From start j m p s.0) in
        ([], high, e, tt, w, a)
  ]

-- XRANGE without a count returns, in order, the entries from the start to the end: the log is what is
-- below the start, these entries, and what is above the end. XREVRANGE returns the same in reverse.
-- If the start is after the end, both have no result. The log is in order.
pub xrange_lem :
    (start end : StreamId) (s : RedisStream)
    → Sorted s.entries
    → ((lt_id end start ≡ true)
        × (xrange start end none s ≡ none)
        × (xrevrange end start none s ≡ none))
      ⊎ ((low : Index StreamEntry) × (mid : Index StreamEntry) × (high : Index StreamEntry)
          × (s.entries ≡ low ++ mid ++ high)
          × Below start low
          × Within start end mid
          × Above end high
          × (xrange start end none s ≡ some (values mid))
          × (xrevrange end start none s ≡ some (reverse (values mid))))
unfolding xrange xrevrange take_opt
xrange_lem start end s o = elim (Bool-cases (lt_id end start)) [
  | inl p ↦ rw p (inl (refl, refl, refl))
  | inr p ↦
      let (low, high, e, b, w, a) = between_parts start end s.entries o in
      rw p (inr (low, between start end s.entries, high, e, b, w, a, refl, refl))
]
