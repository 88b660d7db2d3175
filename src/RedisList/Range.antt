-- ===== src/RedisList/Range.antt =====
-- Ranges and indices of a list: `lrange`, `ltrim`, `lindex` and `lset` of src/list_type.rs.
use kore.Base.{
  ℕ, zero, suc, ◌+◌, ◌-◌, ◌≤◌, ◌<◌, ◌≡◌, ◌≢◌, refl, ap, ◌⊎◌, inl, inr, none, some, List, [], ◌∷◌,
  min, Bytes, length, arith, Option-cases, take, drop, ltb, leb, get_elem?, set, if◌then◌else◌,
  get_elem?-set_self, get_elem?-set_ne, length-set,
}
use kore.Base.Int.{ℤ, pos, negsuc}
use kore.RedisList.{
  RedisList, done, index_out_of_range, range_bound, lrange, ltrim, lindex, lset, resolve_index,
}

take-nil : (n : ℕ) → take {A = Bytes} n [] ≡ []
take-nil zero = refl
take-nil (suc n) = refl

drop-take :
    (s n : ℕ) (xs : List Bytes) → s ≤ n → drop s (take (suc n) xs) ≡ take (suc n - s) (drop s xs)
drop-take zero n xs h = ground arith
drop-take (suc s) zero xs h = absurd (omega arith)
drop-take (suc s) (suc n) [] h = ground (arith, take-nil (suc (suc n) - suc s))
drop-take (suc s) (suc n) (x ∷ xs) h = ground (arith, drop-take s n xs)

take_of_length-le : (n : ℕ) (xs : List Bytes) → length xs ≤ n → take n xs ≡ xs
take_of_length-le n [] h = take-nil n
take_of_length-le (suc n) (x ∷ xs) h = ground (arith, take_of_length-le n xs)
take_of_length-le zero (x ∷ xs) h = ground arith

get_elem?-take :
    (n : ℕ) (xs : List Bytes) (k : ℕ)
    → get_elem? (take n xs) k ≡ (if ltb k n then get_elem? xs k else none)
get_elem?-take zero xs k = ground arith
get_elem?-take (suc n) [] k = ground arith
get_elem?-take (suc n) (x ∷ xs) zero = ground arith
get_elem?-take (suc n) (x ∷ xs) (suc k) = ground (arith, get_elem?-take n xs k)

get_elem?-drop : (n : ℕ) (xs : List Bytes) (k : ℕ) → get_elem? (drop n xs) k ≡ get_elem? xs (n + k)
get_elem?-drop zero xs k = ap (get_elem? xs) (omega arith)
get_elem?-drop (suc n) [] k = refl
get_elem?-drop (suc n) (x ∷ xs) k = ground (arith, get_elem?-drop n xs k)

get_elem?-none : (xs : List Bytes) (k : ℕ) → length xs ≤ k → get_elem? xs k ≡ none
get_elem?-none [] k h = refl
get_elem?-none (x ∷ xs) zero h = absurd (omega arith)
get_elem?-none (x ∷ xs) (suc k) h = get_elem?-none xs k (omega arith)

-- LTRIM keeps exactly the elements that LRANGE with the same bounds returns.
pub ltrim-eq-lrange :
    (start stop : ℤ) (l : RedisList) → (ltrim start stop l).items ≡ lrange start stop l
unfolding ltrim lrange
ltrim-eq-lrange start stop l = ground (
  arith,
  drop-take (range_bound (length l.items) start)
      (min (range_bound (length l.items) stop) (length l.items - 1)) l.items,
  take_of_length-le (suc (min (range_bound (length l.items) stop) (length l.items - 1))) l.items,
)

-- The elements of LRANGE: its element `k` is the element `first + k` of the list as long as that
-- position is at most the last one, where both bounds count from the end if negative and stop at 0.
pub get_elem?-lrange :
    (start stop : ℤ) (l : RedisList) (k : ℕ)
    → let first = range_bound (length l.items) start in
      get_elem? (lrange start stop l) k ≡ (
        if leb (first + k) (range_bound (length l.items) stop)
        then get_elem? l.items (first + k)
        else none)
unfolding lrange
get_elem?-lrange start stop l k =
    let f = range_bound (length l.items) start in
    let last = min (range_bound (length l.items) stop) (length l.items - 1) in
    ground (
      arith,
      get_elem?-take (last - f + 1) (drop f l.items) k,
      get_elem?-drop f l.items k,
      get_elem?-none l.items (f + k),
    )

-- LRANGE 0 -1 is the whole list.
pub lrange_all : (l : RedisList) → lrange (pos 0) (negsuc 0) l ≡ l.items
unfolding lrange range_bound
lrange_all l = ground (arith, take_of_length-le (length l.items - 1 + 1) l.items)

resolve_index-lt : (len : ℕ) (index : ℤ) (i : ℕ) → resolve_index len index ≡ some i → i < len
unfolding resolve_index
resolve_index-lt len (pos n) i h = ground arith
resolve_index-lt len (negsuc n) i h = ground arith

get_elem?-some : (xs : List Bytes) (i : ℕ) → i < length xs → (x : Bytes) × (get_elem? xs i ≡ some x)
get_elem?-some [] i h = elim h [ ]
get_elem?-some (x ∷ xs) zero h = (x, refl)
get_elem?-some (x ∷ xs) (suc i) h = get_elem?-some xs i (omega arith)

-- LSET and LINDEX agree on the position of an index. LSET fails exactly where LINDEX finds nothing;
-- otherwise LINDEX then reads the value that was set, and every other position is as before.
pub lindex-lset :
    (index : ℤ) (v : Bytes) (l : RedisList)
    → ((lset index v l ≡ index_out_of_range) × (lindex index l ≡ none))
      ⊎ ((m : RedisList) × (i : ℕ) × (lset index v l ≡ done m)
          × (lindex index m ≡ some v)
          × (lindex index l ≡ get_elem? l.items i)
          × (i < length l.items)
          × ((j : ℕ) → i ≢ j → get_elem? m.items j ≡ get_elem? l.items j))
unfolding lset lindex
lindex-lset index v l = elim (Option-cases (resolve_index (length l.items) index)) [
  | inl e ↦ inl (ground arith, ground arith)
  | inr (i, e) ↦
      let lt = resolve_index-lt (length l.items) index i e in
      inr (
        record { items = set l.items i v },
        i,
        ground arith,
        ground (arith, length-set l.items i v, get_elem?-set_self l.items i v),
        ground arith,
        lt,
        λ j ne. get_elem?-set_ne l.items v ne,
      )
]
