-- ===== src/RedisList/Ends.antt =====
-- The operations at the two ends of a list: pushes and pops (src/list_type.rs).
use kore.Base.{
  ℕ, zero, suc, ◌≤◌, ◌≡◌, refl, ap, ◌∙◌, ◌⊎◌, inl, inr, none, some, List, [], ◌∷◌, ◌++◌, min, Bytes,
  length, arith, length-append, sym,
}
use mathlib.Core.List.{reverse, append-nil, append_assoc, reverse-cons}
use kore.RedisList.{
  RedisList, llen, push_front_all, push_back_all, lpush, rpush, pop_front, pop_back, lpop, rpop,
  pop_loop, lpop_count, rpop_count,
}

push_front_all-eq-append : (vs items : List Bytes) → push_front_all vs items ≡ reverse vs ++ items
unfolding push_front_all
push_front_all-eq-append [] items = refl
push_front_all-eq-append (v ∷ vs) items =
    rw (push_front_all-eq-append vs (v ∷ items), reverse-cons v vs, append_assoc)

push_back_all-eq-append : (vs items : List Bytes) → push_back_all vs items ≡ items ++ vs
unfolding push_back_all
push_back_all-eq-append [] items = rw append-nil
push_back_all-eq-append (v ∷ vs) items =
    rw (push_back_all-eq-append vs (items ++ v ∷ []), append_assoc)

-- LPUSH puts the values before the old items, the last value first, and RPUSH puts them behind, in
-- their order; both return the new length.
pub lpush-rpush :
    (vs : List Bytes) (l : RedisList)
    → ((lpush vs l).0.items ≡ reverse vs ++ l.items)
      × ((rpush vs l).0.items ≡ l.items ++ vs)
      × ((lpush vs l).1 ≡ llen (lpush vs l).0)
      × ((rpush vs l).1 ≡ llen (rpush vs l).0)
unfolding lpush rpush llen
lpush-rpush vs l =
    (push_front_all-eq-append vs l.items, push_back_all-eq-append vs l.items, refl, refl)

pop_back-append : (x : Bytes) (xs : List Bytes) → pop_back (xs ++ x ∷ []) ≡ some (x, xs)
unfolding pop_back
pop_back-append x [] = refl
pop_back-append x (y ∷ xs) = rw (pop_back-append x xs)

pub pop_back_parts :
    (xs : List Bytes)
    → ((xs ≡ []) × (pop_back xs ≡ none))
      ⊎ ((x : Bytes) × (ys : List Bytes) × (xs ≡ ys ++ x ∷ []) × (pop_back xs ≡ some (x, ys)))
unfolding pop_back
pop_back_parts [] = inl (refl, refl)
pop_back_parts (x ∷ xs) = elim (pop_back_parts xs) [
  | inl (e, p) ↦ inr (x, [], ap (◌∷◌ x) e, rw p)
  | inr (y, ys, e, p) ↦ inr (y, x ∷ ys, ap (◌∷◌ x) e, rw p)
]

-- A pushed value comes back from the same end, and the list is as before.
pub pop-push :
    (v : Bytes) (l : RedisList)
    → (lpop (lpush (v ∷ []) l).0 ≡ (l, some v)) × (rpop (rpush (v ∷ []) l).0 ≡ (l, some v))
unfolding lpop lpush rpop rpush
pop-push v l = (refl, rw pop_back-append)

lpop_loop_lem :
    (n : ℕ) (items out : List Bytes)
    → n ≤ length items
    → let r = pop_loop pop_front n items out in
      (rest : List Bytes) × (r.1 ≡ out ++ rest) × (rest ++ r.0 ≡ items) × (length rest ≡ n)
unfolding pop_loop pop_front
lpop_loop_lem zero items out h = ([], rw append-nil, refl, refl)
lpop_loop_lem (suc n) [] out h = absurd (omega arith)
lpop_loop_lem (suc n) (x ∷ items) out h =
    let (rest, p, q, k) = lpop_loop_lem n items (out ++ x ∷ []) (omega arith) in
    (x ∷ rest, p ∙ append_assoc out (x ∷ []) rest, ap (◌∷◌ x) q, ap suc k)

rpop_loop_lem :
    (n : ℕ) (items out : List Bytes)
    → n ≤ length items
    → let r = pop_loop pop_back n items out in
      (rest : List Bytes) × (r.1 ≡ out ++ rest) × (r.0 ++ reverse rest ≡ items) × (length rest ≡ n)
unfolding pop_loop
rpop_loop_lem zero items out h = ([], rw append-nil, append-nil items, refl)
rpop_loop_lem (suc n) items out h = elim (pop_back_parts items) [
  | inl (e, p) ↦ absurd (omega (arith, ap length e))
  | inr (x, ys, e, p) ↦
      let (rest, q, k, m) =
        rpop_loop_lem n ys (out ++ x ∷ [])
          (omega (arith, ap length e, length-append ys (x ∷ []))) in
      rw (p, pop_loop)
        (
          x ∷ rest,
          q ∙ append_assoc out (x ∷ []) rest,
          ap (λ t. (pop_loop pop_back n ys (out ++ x ∷ [])).0 ++ t) (reverse-cons x rest)
              ∙ sym (append_assoc _ (reverse rest) (x ∷ []))
              ∙ ap (λ t. t ++ x ∷ []) k
              ∙ sym e,
          ap suc m,
        )
]

-- LPOP with a count takes the first `min count len` elements in their order, and leaves the others.
pub lpop_count_lem :
    (count : ℕ) (l : RedisList)
    → let (l', out) = lpop_count count l in
      (out ++ l'.items ≡ l.items) × (length out ≡ min count (llen l))
unfolding lpop_count llen
lpop_count_lem count l =
    let (rest, p, q, k) = lpop_loop_lem (min count (length l.items)) l.items [] (omega arith) in
    (rw p q, rw p k)

-- RPOP with a count takes the last `min count len` elements, the last one first.
pub rpop_count_lem :
    (count : ℕ) (l : RedisList)
    → let (l', out) = rpop_count count l in
      (l'.items ++ reverse out ≡ l.items) × (length out ≡ min count (llen l))
unfolding rpop_count llen
rpop_count_lem count l =
    let (rest, p, q, k) = rpop_loop_lem (min count (length l.items)) l.items [] (omega arith) in
    (rw p q, rw p k)
