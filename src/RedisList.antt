-- ===== src/RedisList.antt =====
-- src/list_type.rs: the List type, a double-ended queue of byte strings. A `VecDeque` is a list
-- with its head at the left. A method returns the new state and its result.
pub mod Ends
pub mod Range
pub mod Removal
pub mod Position
mod Tests
use kore.Base.{
  ℕ, zero, suc, ◌+◌, ◌-◌, ◌≤◌, Bool, true, false, not, Option, none, some, List, [], ◌∷◌, ◌++◌, ltb,
  leb, ◌==◌, if◌then◌else◌, Bytes, same, length, get_elem?, set, take, drop, min, ◌&&◌,
}
use kore.Base.Int.{ℤ, pos, negsuc}

pub record RedisList : Type 0 where
  pub items : List Bytes

-- `Err("index out of range")`, the only error of the type.
pub data Outcome : Type 0 where
  done : RedisList → Outcome
  index_out_of_range : Outcome

unfoldable pub new : RedisList
new = record { items = [] }

unfoldable pub llen : RedisList → ℕ
llen l = length l.items

unfoldable pub is_empty : RedisList → Bool
is_empty l = llen l == 0

push_front_all : List Bytes → List Bytes → List Bytes
push_front_all [] items = items
push_front_all (v ∷ vs) items = push_front_all vs (v ∷ items)

unfoldable pub lpush : List Bytes → RedisList → RedisList × ℕ
unfolding push_front_all
lpush values l =
    let items = push_front_all values l.items in (record { items = items }, length items)

push_back_all : List Bytes → List Bytes → List Bytes
push_back_all [] items = items
push_back_all (v ∷ vs) items = push_back_all vs (items ++ v ∷ [])

unfoldable pub rpush : List Bytes → RedisList → RedisList × ℕ
unfolding push_back_all
rpush values l =
    let items = push_back_all values l.items in (record { items = items }, length items)

-- `VecDeque::pop_front` and `VecDeque::pop_back`.
unfoldable pub pop_front : List Bytes → Option (Bytes × List Bytes)
pop_front [] = none
pop_front (x ∷ xs) = some (x, xs)

keep_front : Bytes → Option (Bytes × List Bytes) → Option (Bytes × List Bytes)
keep_front x none = some (x, [])
keep_front x (some (y, ys)) = some (y, x ∷ ys)

unfoldable pub pop_back : List Bytes → Option (Bytes × List Bytes)
unfolding keep_front
pop_back [] = none
pop_back (x ∷ xs) = keep_front x (pop_back xs)

after_pop : RedisList → Option (Bytes × List Bytes) → RedisList × Option Bytes
after_pop l none = (l, none)
after_pop l (some (x, rest)) = (record { items = rest }, some x)

unfoldable pub lpop : RedisList → RedisList × Option Bytes
unfolding after_pop pop_front
lpop l = after_pop l (pop_front l.items)

unfoldable pub rpop : RedisList → RedisList × Option Bytes
unfolding after_pop pop_back
rpop l = after_pop l (pop_back l.items)

-- `for _ in 0..n { if let Some(v) = pop() { out.push(v) } }`.
pop_loop :
    (List Bytes → Option (Bytes × List Bytes))
    → ℕ
    → List Bytes
    → List Bytes
    → List Bytes × List Bytes
pop_loop pop zero items out = (items, out)
pop_loop pop (suc n) items out = elim (pop items) [
  | none ↦ pop_loop pop n items out
  | some (v, rest) ↦ pop_loop pop n rest (out ++ v ∷ [])
]

pop_count : (List Bytes → Option (Bytes × List Bytes)) → ℕ → RedisList → RedisList × List Bytes
unfolding pop_loop
pop_count pop count l =
    let (items, out) = pop_loop pop (min count (llen l)) l.items [] in
    (record { items = items }, out)

unfoldable pub lpop_count : ℕ → RedisList → RedisList × List Bytes
unfolding pop_count pop_front llen
lpop_count = pop_count pop_front

unfoldable pub rpop_count : ℕ → RedisList → RedisList × List Bytes
unfolding pop_count pop_back llen
rpop_count = pop_count pop_back

-- The bound of a range: `if i < 0 { (len + i).max(0) } else { i }`.
unfoldable pub range_bound : ℕ → ℤ → ℕ
range_bound len (pos i) = i
range_bound len (negsuc i) = len - suc i

unfoldable pub lrange : ℤ → ℤ → RedisList → List Bytes
unfolding range_bound
lrange start stop l =
    let len = length l.items in
    if len == 0
    then []
    else (let start_idx = range_bound len start in
        let stop_idx = range_bound len stop in
        if ltb stop_idx start_idx
        then []
        else if leb len start_idx
        then []
        else (let last = min stop_idx (len - 1) in
            take (last - start_idx + 1) (drop start_idx l.items)))

-- The position that `lindex` and `lset` read: `none` is out of range.
unfoldable pub resolve_index : ℕ → ℤ → Option ℕ
resolve_index len (pos i) = if ltb i len then some i else none
resolve_index len (negsuc i) = if leb (suc i) len then some (len - suc i) else none

item_at : List Bytes → Option ℕ → Option Bytes
item_at items none = none
item_at items (some i) = get_elem? items i

unfoldable pub lindex : ℤ → RedisList → Option Bytes
unfolding resolve_index item_at
lindex index l =
    if length l.items == 0 then none else item_at l.items (resolve_index (length l.items) index)

set_at : List Bytes → Bytes → Option ℕ → Outcome
set_at items value none = index_out_of_range
set_at items value (some i) = done (record { items = set items i value })

unfoldable pub lset : ℤ → Bytes → RedisList → Outcome
unfolding resolve_index set_at
lset index value l =
    if length l.items == 0
    then index_out_of_range
    else set_at l.items value (resolve_index (length l.items) index)

-- `VecDeque::retain`.
unfoldable pub retain_ne : Bytes → List Bytes → List Bytes
retain_ne element [] = []
retain_ne element (x ∷ xs) =
    let rest = retain_ne element xs in if same x element then rest else x ∷ rest

unfoldable pub remove_at : ℕ → List Bytes → List Bytes
remove_at i [] = []
remove_at zero (x ∷ xs) = xs
remove_at (suc i) (x ∷ xs) = x ∷ remove_at i xs

-- The loop from the head, over the part of the list from index `i` on. What it keeps is the list.
remove_forward : Bytes → ℕ → List Bytes → List Bytes × ℕ
remove_forward element zero suffix = (suffix, 0)
remove_forward element (suc to_remove) [] = ([], 0)
remove_forward element (suc to_remove) (x ∷ xs) = elim (same x element) [
  | true ↦ let (kept, removed) = remove_forward element to_remove xs in (kept, suc removed)
  | false ↦ let (kept, removed) = remove_forward element (suc to_remove) xs in (x ∷ kept, removed)
]

holds_at : Bytes → ℕ → List Bytes → Bool
holds_at element i items = elim (get_elem? items i) [ none ↦ false | some x ↦ same x element ]

-- The loop from the tail: `i` falls, and a match is removed in place.
remove_backward : Bytes → ℕ → ℕ → ℕ → List Bytes → List Bytes × ℕ
unfolding holds_at
remove_backward element zero to_remove removed items = (items, removed)
remove_backward element (suc i) zero removed items = (items, removed)
remove_backward element (suc i) (suc to_remove) removed items = elim (holds_at element i items) [
  | true ↦ remove_backward element i to_remove (suc removed) (remove_at i items)
  | false ↦ remove_backward element i (suc to_remove) removed items
]

with_removed : List Bytes × ℕ → RedisList × ℕ
with_removed (items, removed) = (record { items = items }, removed)

lrem_items : ℤ → Bytes → List Bytes → List Bytes × ℕ
unfolding retain_ne remove_at remove_forward remove_backward
lrem_items (pos zero) element items =
    let kept = retain_ne element items in (kept, length items - length kept)
lrem_items (pos (suc n)) element items = remove_forward element (suc n) items
lrem_items (negsuc n) element items = remove_backward element (length items) (suc n) 0 items

unfoldable pub lrem : ℤ → Bytes → RedisList → RedisList × ℕ
unfolding lrem_items with_removed
lrem count element l =
    if length l.items == 0 then (l, 0) else with_removed (lrem_items count element l.items)

-- `VecDeque::truncate`, if it shortens the list.
truncate : ℕ → List Bytes → List Bytes
truncate n items = if ltb n (length items) then take n items else items

unfoldable pub ltrim : ℤ → ℤ → RedisList → RedisList
unfolding range_bound truncate
ltrim start stop l =
    let len = length l.items in
    if len == 0
    then l
    else (let start_idx = range_bound len start in
        let stop_idx = range_bound len stop in
        if ltb stop_idx start_idx
        then record { items = [] }
        else if leb len start_idx
        then record { items = [] }
        else (let last = min stop_idx (len - 1) in
            record { items = drop start_idx (truncate (last + 1) l.items) }))

-- `iter().position(|v| v == pivot)`.
unfoldable pub position : Bytes → List Bytes → Option ℕ
position pivot [] = none
position pivot (x ∷ xs) =
    let rest = position pivot xs in
    if same x pivot then some 0 else elim rest [ none ↦ none | some i ↦ some (suc i) ]

-- `VecDeque::insert`.
insert_at : ℕ → Bytes → List Bytes → List Bytes
insert_at zero v items = v ∷ items
insert_at (suc i) v [] = v ∷ []
insert_at (suc i) v (x ∷ xs) = x ∷ insert_at i v xs

insert_beside : Bool → Bytes → List Bytes → Option ℕ → Option (List Bytes)
unfolding insert_at
insert_beside before element items none = none
insert_beside before element items (some idx) =
    some (insert_at (if before then idx else idx + 1) element items)

with_length : RedisList → Option (List Bytes) → RedisList × Option ℕ
with_length l none = (l, none)
with_length l (some items) = (record { items = items }, some (length items))

unfoldable pub linsert : Bool → Bytes → Bytes → RedisList → RedisList × Option ℕ
unfolding position insert_beside with_length
linsert before pivot element l =
    with_length l (insert_beside before element l.items (position pivot l.items))
