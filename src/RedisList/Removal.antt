-- ===== src/RedisList/Removal.antt =====
-- `lrem` and `linsert` of src/list_type.rs: what they take out or put in, and where.
use kore.Base.{
  ℕ, zero, suc, ◌+◌, ◌≡◌, refl, ap, ◌∙◌, ◌⊎◌, inl, inr, Bool, true, false, none, some, List, [],
  ◌∷◌, ◌++◌, min, subst, Bytes, length, arith, length-append, Bool-cases, sym, get_elem?,
  if◌then◌else◌, same, same_iff,
}
use mathlib.Core.List.{append-nil, append_assoc}
use native.Mathlib.Numerals.{add-one}
use kore.Base.Int.{ℤ, pos, negsuc}
use kore.RedisList.{
  RedisList, retain_ne, remove_at, remove_forward, remove_backward, with_removed, lrem_items, lrem,
  position, insert_at, insert_beside, with_length, linsert,
}
use kore.RedisList.Ends.{pop_back_parts}

-- How often an element stands in a list.
unfoldable pub count : Bytes → List Bytes → ℕ
count e [] = 0
count e (x ∷ xs) = if same x e then suc (count e xs) else count e xs

module _ (e : Bytes) where
  count-append : (xs ys : List Bytes) → count e (xs ++ ys) ≡ count e xs + count e ys
  unfolding count
  count-append [] ys = omega arith
  count-append (x ∷ xs) ys = ground (arith, count-append xs ys)

  retain_ne-append :
      (xs ys : List Bytes) → retain_ne e (xs ++ ys) ≡ retain_ne e xs ++ retain_ne e ys
  unfolding retain_ne
  retain_ne-append [] ys = refl
  retain_ne-append (x ∷ xs) ys = ground (arith, retain_ne-append xs ys)

  length-retain_ne : (xs : List Bytes) → length (retain_ne e xs) + count e xs ≡ length xs
  unfolding retain_ne count
  length-retain_ne [] = refl
  length-retain_ne (x ∷ xs) = ground (arith, length-retain_ne xs)

-- The result of LREM by its count: all matches, the first matches, or the last matches. `a` and `b`
-- are the two parts of the list; the matches of one part are gone, and the other is untouched.
abbrev pub Removes : ℤ → Bytes → List Bytes → List Bytes × ℕ → Type 0
Removes (pos zero) e items (kept, n) = (kept ≡ retain_ne e items) × (n ≡ count e items)
Removes (pos (suc c)) e items (kept, n) =
    (a : List Bytes) × (b : List Bytes) × (items ≡ a ++ b)
    × (kept ≡ retain_ne e a ++ b)
    × (n ≡ count e a)
    × (n ≡ min (suc c) (count e items))
Removes (negsuc c) e items (kept, n) =
    (a : List Bytes) × (b : List Bytes) × (items ≡ a ++ b)
    × (kept ≡ a ++ retain_ne e b)
    × (n ≡ count e b)
    × (n ≡ min (suc c) (count e items))

get_elem?-middle :
    (ys : List Bytes) (x : Bytes) (suf : List Bytes)
    → get_elem? (ys ++ x ∷ suf) (length ys) ≡ some x
get_elem?-middle [] x suf = refl
get_elem?-middle (y ∷ ys) x suf = get_elem?-middle ys x suf

remove_at_middle :
    (ys : List Bytes) (x : Bytes) (suf : List Bytes)
    → remove_at (length ys) (ys ++ x ∷ suf) ≡ ys ++ suf
unfolding remove_at
remove_at_middle [] x suf = refl
remove_at_middle (y ∷ ys) x suf = ap (◌∷◌ y) (remove_at_middle ys x suf)

module _ (e : Bytes) where
  remove_forward_lem :
      (c : ℕ) (xs : List Bytes)
      → let r = remove_forward e c xs in
        (a : List Bytes) × (b : List Bytes) × (xs ≡ a ++ b)
        × (r.0 ≡ retain_ne e a ++ b)
        × (r.1 ≡ count e a)
        × (r.1 ≡ min c (count e xs))
  unfolding remove_forward count retain_ne
  remove_forward_lem zero xs = ([], xs, refl, refl, refl, omega arith)
  remove_forward_lem (suc c) [] = ([], [], refl, refl, refl, omega arith)
  remove_forward_lem (suc c) (x ∷ xs) = elim (Bool-cases (same x e)) [
    | inl hit ↦
        let (a, b, p, q, k, m) = remove_forward_lem c xs in
        (x ∷ a, b, ap (◌∷◌ x) p, ground arith, ground arith, ground arith)
    | inr miss ↦
        let (a, b, p, q, k, m) = remove_forward_lem (suc c) xs in
        (x ∷ a, b, ap (◌∷◌ x) p, ground arith, ground arith, ground arith)
  ]

  module _ (ys : List Bytes) (x : Bytes) (suf : List Bytes) (c removed : ℕ) where
    backward_hit :
        same x e ≡ true
        → remove_backward e (suc (length ys)) (suc c) removed (ys ++ x ∷ suf)
          ≡ remove_backward e (length ys) c (suc removed) (ys ++ suf)
    unfolding remove_backward
    backward_hit hit = ground (arith, get_elem?-middle ys x suf, remove_at_middle ys x suf)

    backward_miss :
        same x e ≡ false
        → remove_backward e (suc (length ys)) (suc c) removed (ys ++ x ∷ suf)
          ≡ remove_backward e (length ys) (suc c) removed (ys ++ x ∷ suf)
    unfolding remove_backward
    backward_miss miss = ground (arith, get_elem?-middle ys x suf)

  abbrev Backward : ℕ → ℕ → List Bytes → List Bytes → List Bytes × ℕ → Type 0
  Backward c removed pre suf r =
      (a : List Bytes) × (b : List Bytes) × (pre ≡ a ++ b)
      × (r.0 ≡ a ++ (retain_ne e b ++ suf))
      × (r.1 ≡ removed + count e b)
      × (r.1 ≡ removed + min c (count e pre))

  retain_ne-one : (x : Bytes) → same x e ≡ true → retain_ne e (x ∷ []) ≡ []
  unfolding retain_ne
  retain_ne-one x h = rw h

  extend_hit :
      (c removed : ℕ) (ys : List Bytes) (x : Bytes) (suf : List Bytes) (r : List Bytes × ℕ)
      → same x e ≡ true
      → Backward c (suc removed) ys suf r
      → Backward (suc c) removed (ys ++ x ∷ []) suf r
  unfolding count retain_ne
  extend_hit c removed ys x suf r hit (a, b, p, q, k, m) = (
    a,
    b ++ x ∷ [],
    ap (λ t. t ++ x ∷ []) p ∙ append_assoc a b (x ∷ []),
    ground (arith, retain_ne-append e b (x ∷ []), append-nil (retain_ne e b)),
    ground (arith, count-append e b (x ∷ [])),
    ground (arith, count-append e ys (x ∷ [])),
  )

  extend_miss :
      (c removed : ℕ) (ys : List Bytes) (x : Bytes) (suf : List Bytes) (r : List Bytes × ℕ)
      → same x e ≡ false
      → Backward c removed ys (x ∷ suf) r
      → Backward c removed (ys ++ x ∷ []) suf r
  unfolding count retain_ne
  extend_miss c removed ys x suf r miss (a, b, p, q, k, m) = (
    a,
    b ++ x ∷ [],
    ap (λ t. t ++ x ∷ []) p ∙ append_assoc a b (x ∷ []),
    ground (arith, retain_ne-append e b (x ∷ []), append_assoc (retain_ne e b) (x ∷ []) suf),
    ground (arith, count-append e b (x ∷ [])),
    ground (arith, count-append e ys (x ∷ [])),
  )

  remove_backward_lem :
      (i c removed : ℕ) (pre suf : List Bytes)
      → length pre ≡ i
      → Backward c removed pre suf (remove_backward e i c removed (pre ++ suf))
  unfolding remove_backward count retain_ne
  remove_backward_lem zero c removed [] suf h = ([], [], refl, refl, omega arith, omega arith)
  remove_backward_lem zero c removed (x ∷ pre) suf h = absurd (omega arith)
  remove_backward_lem (suc i) zero removed pre suf h =
      (pre, [], rw append-nil, refl, omega arith, omega arith)
  remove_backward_lem (suc i) (suc c) removed pre suf h = elim (pop_back_parts pre) [
    | inl (p, _) ↦ absurd (omega (arith, ap length p))
    | inr (x, ys, p, _) ↦
        let n : length ys ≡ i = omega (arith, ap length p, length-append ys (x ∷ [])) in
        rw (p, append_assoc ys (x ∷ []) suf, ← n)
          (elim (Bool-cases (same x e)) [
            | inl hit ↦ rw (backward_hit ys x suf c removed hit) (
                extend_hit c removed ys x suf _ hit
                  (rw n (remove_backward_lem i c (suc removed) ys suf n)))
            | inr miss ↦ rw (backward_miss ys x suf c removed miss) (
                extend_miss (suc c) removed ys x suf _ miss
                  (rw n (remove_backward_lem i (suc c) removed ys (x ∷ suf) n)))
          ])
  ]

lrem_items-Removes :
    (count : ℤ) (e : Bytes) (items : List Bytes) → Removes count e items (lrem_items count e items)
unfolding lrem_items
lrem_items-Removes (pos zero) e items = (refl, omega (arith, length-retain_ne e items))
lrem_items-Removes (pos (suc n)) e items = remove_forward_lem e (suc n) items
lrem_items-Removes (negsuc n) e items =
    let (a, b, p, q, k, m) =
      subst (Backward e (suc n) 0 items [])
        (ap (remove_backward e (length items) (suc n) 0) (append-nil items))
        (remove_backward_lem e (length items) (suc n) 0 items [] refl) in
    (a, b, p, q ∙ ap (λ t. a ++ t) (append-nil (retain_ne e b)), omega arith, omega arith)

lrem-eq :
    (count : ℤ) (e : Bytes) (items : List Bytes)
    → lrem count e (record { items = items }) ≡ with_removed (lrem_items count e items)
unfolding lrem
lrem-eq (pos zero) e [] = refl
lrem-eq (pos (suc n)) e [] = refl
lrem-eq (negsuc n) e [] = refl
lrem-eq c e (x ∷ xs) = ground arith

-- LREM removes all matches for count 0, the first `count` matches for a positive count and the last
-- `-count` matches for a negative one, keeps every other element in its place, and returns the number
-- of matches that it removed.
pub lrem-Removes :
    (count : ℤ) (e : Bytes) (l : RedisList)
    → Removes count e l.items ((lrem count e l).0.items, (lrem count e l).1)
unfolding with_removed
lrem-Removes count e l = rw (lrem-eq count e l.items) (lrem_items-Removes count e l.items)

-- Where the pivot stands first.
position_lem :
    (pivot : Bytes) (items : List Bytes)
    → ((position pivot items ≡ none) × (count pivot items ≡ 0))
      ⊎ ((a : List Bytes) × (b : List Bytes) × (position pivot items ≡ some (length a))
          × (items ≡ a ++ pivot ∷ b)
          × (count pivot a ≡ 0))
unfolding position count
position_lem pivot [] = inl (refl, refl)
position_lem pivot (x ∷ xs) = elim (Bool-cases (same x pivot)) [
  | inl hit ↦ inr ([], xs, ground arith, ground (arith, same_iff x pivot), refl)
  | inr miss ↦ elim (position_lem pivot xs) [
    | inl (e, k) ↦ inl (ground arith, ground arith)
    | inr (a, b, e, p, k) ↦ inr (x ∷ a, b, ground arith, ap (◌∷◌ x) p, ground arith)
  ]
]

insert_at-before :
    (a : List Bytes) (v : Bytes) (b : List Bytes) → insert_at (length a) v (a ++ b) ≡ a ++ v ∷ b
unfolding insert_at
insert_at-before [] v b = refl
insert_at-before (x ∷ a) v b = ap (◌∷◌ x) (insert_at-before a v b)

insert_at-after :
    (a : List Bytes) (v p : Bytes) (b : List Bytes)
    → insert_at (suc (length a)) v (a ++ p ∷ b) ≡ a ++ p ∷ v ∷ b
unfolding insert_at
insert_at-after [] v p b = refl
insert_at-after (x ∷ a) v p b = ap (◌∷◌ x) (insert_at-after a v p b)

beside : Bool → Bytes → Bytes → List Bytes → List Bytes → List Bytes
beside before pivot element a b =
    if before then a ++ element ∷ pivot ∷ b else a ++ pivot ∷ element ∷ b

insert_beside_lem :
    (before : Bool) (pivot element : Bytes) (a b : List Bytes)
    → insert_beside before element (a ++ pivot ∷ b) (some (length a))
      ≡ some (beside before pivot element a b)
unfolding insert_beside beside
insert_beside_lem true pivot element a b = ap some (insert_at-before a element (pivot ∷ b))
insert_beside_lem false pivot element a b = rw add-one (ap some (insert_at-after a element pivot b))

length-beside :
    (before : Bool) (pivot element : Bytes) (a b : List Bytes)
    → length (beside before pivot element a b) ≡ suc (length (a ++ pivot ∷ b))
unfolding beside
length-beside true pivot element a b =
    omega (arith, length-append a (pivot ∷ b), length-append a (element ∷ pivot ∷ b))
length-beside false pivot element a b =
    omega (arith, length-append a (pivot ∷ b), length-append a (pivot ∷ element ∷ b))

-- LINSERT leaves the list alone and reports nothing if the pivot is absent. Otherwise the element
-- stands directly before, or after, the first occurrence of the pivot, and the new length is returned.
pub linsert_lem :
    (before : Bool) (pivot element : Bytes) (l : RedisList)
    → ((linsert before pivot element l ≡ (l, none)) × (count pivot l.items ≡ 0))
      ⊎ ((a : List Bytes) × (b : List Bytes) × (l.items ≡ a ++ pivot ∷ b)
          × (count pivot a ≡ 0)
          × ((linsert before pivot element l).0.items
              ≡ (if before then a ++ element ∷ pivot ∷ b else a ++ pivot ∷ element ∷ b))
          × ((linsert before pivot element l).1 ≡ some (suc (length l.items))))
unfolding linsert beside
linsert_lem before pivot element l = elim (position_lem pivot l.items) [
  | inl (e, k) ↦ inl (rw (e, insert_beside), k)
  | inr (a, b, e, p, k) ↦
      let inserted : insert_beside before element l.items (position pivot l.items)
          ≡ some (beside before pivot element a b) =
        ap (insert_beside before element l.items) e
        ∙ ap (λ t. insert_beside before element t (some (length a))) p
        ∙ insert_beside_lem before pivot element a b in
      inr (
        a,
        b,
        p,
        k,
        rw (inserted, with_length, beside),
        rw (inserted, with_length)
            (ap some (length-beside before pivot element a b ∙ ap (λ t. suc (length t)) (sym p))),
      )
]
