-- ===== src/RedisList/Position.antt =====
-- `lpos` of src/list_type.rs, and what the positions that it returns are.
use kore.Base.{
  ℕ, zero, suc, ◌-◌, ◌≤◌, ◌<◌, ◌≡◌, refl, ap, Bool, true, false, not, ◌&&◌, List, [], ◌∷◌, ◌++◌,
  ltb, leb, ◌==◌, if◌then◌else◌, Bytes, length, take, drop, arith,
}
use mathlib.Core.List.{append-nil, append_assoc}
use kore.Base.Int.{ℤ, pos, negsuc}
use kore.RedisList.{RedisList, holds_at}

-- The loop of `lpos`: `left` elements are not compared yet, so that the index is `left - 1` from
-- the tail or `len - left` from the head. `remaining` counts the results that are still wanted.
lpos_loop : Bytes → Bool → Bool → ℕ → List Bytes → ℕ → ℕ → ℕ → ℕ → List ℕ → List ℕ
unfolding holds_at
lpos_loop element reverse unlimited maxlen items zero rank_left remaining compared out = out
lpos_loop element reverse unlimited maxlen items (suc left) rank_left remaining compared out =
    let i = if reverse then left else length items - suc left in
    elim (ltb 0 maxlen && leb maxlen compared) [
      | true ↦ out
      | false ↦ elim (holds_at element i items) [
        | false ↦
            lpos_loop element reverse unlimited maxlen items left rank_left remaining (suc compared)
              out
        | true ↦ elim (ltb 1 rank_left) [
          | true ↦
              lpos_loop element reverse unlimited maxlen items left (rank_left - 1) remaining
                (suc compared) out
          | false ↦ elim (not unlimited && (remaining - 1 == 0)) [
            | true ↦ out ++ i ∷ []
            | false ↦
                lpos_loop element reverse unlimited maxlen items left 1
                  (if unlimited then remaining else remaining - 1) (suc compared) (out ++ i ∷ [])
          ]
        ]
      ]
    ]

unfoldable pub lpos : Bytes → ℤ → ℕ → ℕ → RedisList → List ℕ
unfolding lpos_loop
lpos element (pos zero) count maxlen l = []
lpos element (pos (suc n)) count maxlen l =
    lpos_loop element false (count == 0) maxlen l.items (length l.items) (suc n) count 0 []
lpos element (negsuc n) count maxlen l =
    lpos_loop element true (count == 0) maxlen l.items (length l.items) (suc n) count 0 []

-- The reference: which indices are visited, in which order, how many of them are compared, which of
-- those match, and which of the matches are returned.
visits : Bool → ℕ → ℕ → List ℕ
visits reverse len zero = []
visits reverse len (suc left) = (if reverse then left else len - suc left) ∷ visits reverse len left

budget : ℕ → ℕ → List ℕ → List ℕ
budget maxlen compared is = if ltb 0 maxlen then take (maxlen - compared) is else is

hits : Bytes → List Bytes → List ℕ → List ℕ
hits e items [] = []
hits e items (i ∷ is) = if holds_at e i items then i ∷ hits e items is else hits e items is

wanted : Bool → ℕ → List ℕ → List ℕ
wanted unlimited remaining is = if unlimited then is else take remaining is

pub lpos_reference : Bytes → ℤ → ℕ → ℕ → List Bytes → List ℕ
unfolding visits budget hits wanted
lpos_reference e (pos zero) count maxlen items = []
lpos_reference e (pos (suc n)) count maxlen items =
    wanted (count == 0) count
      (drop n (hits e items (budget maxlen 0 (visits false (length items) (length items)))))
lpos_reference e (negsuc n) count maxlen items =
    wanted (count == 0) count
      (drop n (hits e items (budget maxlen 0 (visits true (length items) (length items)))))

take-suc_of_lt : (a b i : ℕ) (is : List ℕ) → b < a → take (a - b) (i ∷ is) ≡ i ∷ take (a - suc b) is
take-suc_of_lt a b i is h = let e : a - b ≡ suc (a - suc b) = omega arith in rw e

take-none : (a b : ℕ) (is : List ℕ) → a ≤ b → take (a - b) is ≡ []
take-none a b is h = let e : a - b ≡ 0 = omega arith in rw e

take-pos : (n i : ℕ) (is : List ℕ) → 0 < n → take n (i ∷ is) ≡ i ∷ take (n - 1) is
take-pos zero i is h = elim h [ ]
take-pos (suc n) i is h = ap (λ k. i ∷ take k is) (omega arith)

drop-nil : (n : ℕ) → drop {A = ℕ} n [] ≡ []
drop-nil zero = refl
drop-nil (suc n) = refl

take-nil : (n : ℕ) → take {A = ℕ} n [] ≡ []
take-nil zero = refl
take-nil (suc n) = refl

module _ (e : Bytes) (reverse unlimited : Bool) (maxlen : ℕ) (items : List Bytes) where
  abbrev rest : ℕ → ℕ → List ℕ
  rest left compared = hits e items (budget maxlen compared (visits reverse (length items) left))

  rest_over :
      (left compared : ℕ) → (ltb 0 maxlen && leb maxlen compared) ≡ true → rest left compared ≡ []
  unfolding budget hits
  rest_over left compared h =
      ground (arith, take-none maxlen compared (visits reverse (length items) left))

  rest-suc :
      (left compared : ℕ)
      → (ltb 0 maxlen && leb maxlen compared) ≡ false
      → let i = if reverse then left else length items - suc left in
        rest (suc left) compared
        ≡ (if holds_at e i items then i ∷ rest left (suc compared) else rest left (suc compared))
  unfolding budget hits visits
  rest-suc left compared h = ground (
    arith,
    take-suc_of_lt maxlen compared (if reverse then left else length items - suc left)
        (visits reverse (length items) left),
  )

  rest-zero : (compared : ℕ) → rest zero compared ≡ []
  unfolding visits budget hits
  rest-zero compared = ground (arith, take-nil (maxlen - compared))

  lpos_loop_lem :
      (left rank remaining compared : ℕ) (out : List ℕ)
      → (unlimited ≡ false → 0 < remaining)
      → lpos_loop e reverse unlimited maxlen items left (suc rank) remaining compared out
        ≡ out ++ wanted unlimited remaining (drop rank (rest left compared))
  unfolding lpos_loop wanted
  lpos_loop_lem zero rank remaining compared out h =
      ground (arith, rest-zero compared, drop-nil rank, take-nil remaining, append-nil out)
  lpos_loop_lem (suc left) zero remaining compared out h =
      let i = if reverse then left else length items - suc left in
      let left_over = if unlimited then remaining else remaining - 1 in
      ground (
        arith,
        h,
        rest_over (suc left) compared,
        rest-suc left compared,
        lpos_loop_lem left zero left_over (suc compared) (out ++ i ∷ []),
        lpos_loop_lem left zero remaining (suc compared) out h,
        take-pos remaining i (rest left (suc compared)),
        take-nil remaining,
        append-nil out,
        append_assoc out (i ∷ []) (wanted unlimited left_over (rest left (suc compared))),
      )
  lpos_loop_lem (suc left) (suc rank) remaining compared out h = ground (
    arith,
    rest_over (suc left) compared,
    rest-suc left compared,
    lpos_loop_lem left rank remaining (suc compared) out h,
    lpos_loop_lem left (suc rank) remaining (suc compared) out h,
    drop-nil (suc rank),
    take-nil remaining,
    append-nil out,
  )

-- LPOS with rank `rank` from the head or the tail returns, of the first `maxlen` elements in the
-- direction of the scan (all of them if it is 0), the indices of the matches from the `rank`-th on,
-- at most `count` of them (all if it is 0), in the order of the scan. Rank 0 finds nothing.
pub lpos_lem :
    (e : Bytes) (rank : ℤ) (count maxlen : ℕ) (l : RedisList)
    → lpos e rank count maxlen l ≡ lpos_reference e rank count maxlen l.items
unfolding lpos lpos_reference wanted
lpos_lem e (pos zero) count maxlen l = refl
lpos_lem e (pos (suc n)) count maxlen l =
    lpos_loop_lem e false (count == 0) maxlen l.items (length l.items) n count 0 []
      (λ h. ground arith)
lpos_lem e (negsuc n) count maxlen l =
    lpos_loop_lem e true (count == 0) maxlen l.items (length l.items) n count 0 []
      (λ h. ground arith)
