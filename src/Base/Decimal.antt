-- ===== src/Base/Decimal.antt =====
-- Decimal numbers: `to_string` of an unsigned integer, and `parse::<u64>` with its overflow check.
use native.Mathlib.Decide.{dec_lt}
use kore.Base.{
  ℕ, zero, suc, ◌+◌, ◌-◌, ◌*◌, ◌/◌, ◌%◌, ◌≤◌, ◌<◌, ◌≡◌, refl, ◌∙◌, Bool, true, false, ◌&&◌, Option,
  none, some, List, [], ◌∷◌, ◌++◌, arith, ltb, leb, ◌==◌, if◌then◌else◌,
}

show_loop : ℕ → ℕ → List ℕ
show_loop zero n = []
show_loop (suc fuel) n = elim (ltb n 10) [
  | true ↦ (48 + n) ∷ []
  | false ↦ show_loop fuel (n / 10) ++ (48 + n % 10) ∷ []
]

-- `n.to_string()`: its digits, the first one first. `n + 1` rounds are more than enough.
unfoldable pub show : ℕ → List ℕ
unfolding show_loop
show n = show_loop (suc n) n

unfoldable pub is_digit : ℕ → Bool
is_digit c = leb 48 c && leb c 57

-- The digits, on top of what is read, if the number stays within `bound`.
unfoldable pub read_digits : ℕ → ℕ → List ℕ → Option ℕ
unfolding is_digit
read_digits bound acc [] = some acc
read_digits bound acc (c ∷ cs) =
    let rest = read_digits bound (acc * 10 + (c - 48)) cs in
    if is_digit c && leb (acc * 10 + (c - 48)) bound then rest else none

-- At least one digit.
unfoldable pub read_number : ℕ → List ℕ → Option ℕ
unfolding read_digits
read_number bound [] = none
read_number bound (c ∷ cs) = read_digits bound 0 (c ∷ cs)

-- `parse` of an unsigned type with the maximum `bound`: an optional plus sign and digits.
unfoldable pub parse_unsigned : ℕ → List ℕ → Option ℕ
unfolding read_number
parse_unsigned bound [] = none
parse_unsigned bound (c ∷ cs) =
    if c == b'+' then read_number bound cs else read_number bound (c ∷ cs)

read_digits-snoc :
    (bound acc n c : ℕ) (xs : List ℕ)
    → read_digits bound acc xs ≡ some n
    → read_digits bound acc (xs ++ c ∷ []) ≡ read_digits bound n (c ∷ [])
unfolding read_digits
read_digits-snoc bound acc n c [] h = ground arith
read_digits-snoc bound acc n c (x ∷ xs) h =
    ground (arith, read_digits-snoc bound (acc * 10 + (x - 48)) n c xs)

show_loop_small : (fuel n : ℕ) → n < 10 → show_loop (suc fuel) n ≡ (48 + n) ∷ []
unfolding show_loop
show_loop_small fuel n h = ground arith

show_loop_big :
    (fuel n : ℕ) → 10 ≤ n → show_loop (suc fuel) n ≡ show_loop fuel (n / 10) ++ (48 + n % 10) ∷ []
unfolding show_loop
show_loop_big fuel n h = ground arith

read_digits-show_loop :
    (bound fuel n : ℕ) → n < fuel → n ≤ bound → read_digits bound 0 (show_loop fuel n) ≡ some n
read_digits-show_loop bound zero n h k = elim h [ ]
read_digits-show_loop bound (suc fuel) n h k = elim (dec_lt n 10) [
  | yes small ↦ rw (show_loop_small fuel n small) (unfold read_digits in ground arith)
  | no big ↦ rw (show_loop_big fuel n (omega arith)) (
      read_digits-snoc bound 0 (n / 10) (48 + n % 10) (show_loop fuel (n / 10))
        (read_digits-show_loop bound fuel (n / 10) (omega arith) (omega arith))
      ∙ unfold read_digits in ground arith)
]

-- What `show` prints begins with a digit.
abbrev pub BeginsWithDigit : List ℕ → Type 0
BeginsWithDigit [] = ⊥
BeginsWithDigit (c ∷ cs) = is_digit c ≡ true

pub BeginsWithDigit-append : (xs ys : List ℕ) → BeginsWithDigit xs → BeginsWithDigit (xs ++ ys)
BeginsWithDigit-append (x ∷ xs) ys h = h
BeginsWithDigit-append [] ys h = absurd h

show_loop-BeginsWithDigit : (fuel n : ℕ) → n < fuel → BeginsWithDigit (show_loop fuel n)
show_loop-BeginsWithDigit zero n h = elim h [ ]
show_loop-BeginsWithDigit (suc fuel) n h = elim (dec_lt n 10) [
  | yes small ↦ rw (show_loop_small fuel n small) (unfold is_digit in ground arith)
  | no big ↦ rw (show_loop_big fuel n (omega arith)) (
      BeginsWithDigit-append (show_loop fuel (n / 10)) _
        (show_loop-BeginsWithDigit fuel (n / 10) (omega arith)))
]

pub show-BeginsWithDigit : (n : ℕ) → BeginsWithDigit (show n)
unfolding show
show-BeginsWithDigit n = show_loop-BeginsWithDigit (suc n) n (omega arith)

parse_unsigned_digits :
    (bound : ℕ) (xs : List ℕ)
    → BeginsWithDigit xs
    → parse_unsigned bound xs ≡ read_digits bound 0 xs
unfolding parse_unsigned is_digit
parse_unsigned_digits bound [] h = absurd h
parse_unsigned_digits bound (x ∷ xs) h = ground arith

-- A printed number within the bound is read back.
pub parse_unsigned-show : (bound n : ℕ) → n ≤ bound → parse_unsigned bound (show n) ≡ some n
unfolding show
parse_unsigned-show bound n h =
    parse_unsigned_digits bound _ (show_loop-BeginsWithDigit (suc n) n (omega arith))
    ∙ read_digits-show_loop bound (suc n) n (omega arith) h

-- So it is without a sign.
pub read_number-show : (bound n : ℕ) → n ≤ bound → read_number bound (show n) ≡ some n
unfolding show
read_number-show bound n h =
    read_number_digits bound (show_loop (suc n) n)
      (show_loop-BeginsWithDigit (suc n) n (omega arith))
    ∙ read_digits-show_loop bound (suc n) n (omega arith) h
  where
    read_number_digits :
        (bound : ℕ) (xs : List ℕ)
        → BeginsWithDigit xs
        → read_number bound xs ≡ read_digits bound 0 xs
    read_number_digits bound [] b = absurd b
    read_number_digits bound (x ∷ xs) b = unfold read_number in refl

-- What is read is within the bound.
pub read_digits-le :
    (bound acc n : ℕ) (xs : List ℕ) → acc ≤ bound → read_digits bound acc xs ≡ some n → n ≤ bound
unfolding read_digits
read_digits-le bound acc n [] h e = ground arith
read_digits-le bound acc n (x ∷ xs) h e =
    ground (arith, read_digits-le bound (acc * 10 + (x - 48)) n xs)

read_number-le : (bound n : ℕ) (xs : List ℕ) → read_number bound xs ≡ some n → n ≤ bound
unfolding read_number
read_number-le bound n [] e = cc
read_number-le bound n (x ∷ xs) e = read_digits-le bound 0 n (x ∷ xs) (omega arith) e

pub parse_unsigned-le : (bound n : ℕ) (xs : List ℕ) → parse_unsigned bound xs ≡ some n → n ≤ bound
unfolding parse_unsigned
parse_unsigned-le bound n [] e = cc
parse_unsigned-le bound n (x ∷ xs) e =
    ground (arith, read_number-le bound n xs, read_number-le bound n (x ∷ xs))

-- Every character of a printed number is a digit.
abbrev pub AllDigits : List ℕ → Type 0
AllDigits [] = Unit
AllDigits (c ∷ cs) = (48 ≤ c) × (c ≤ 57) × AllDigits cs

AllDigits-append : (xs ys : List ℕ) → AllDigits xs → AllDigits ys → AllDigits (xs ++ ys)
AllDigits-append [] ys h k = k
AllDigits-append (x ∷ xs) ys h k = (h.0, h.1, AllDigits-append xs ys h.2 k)

show_loop-AllDigits : (fuel n : ℕ) → AllDigits (show_loop fuel n)
unfolding show_loop
show_loop-AllDigits zero n = tt
show_loop-AllDigits (suc fuel) n = elim (dec_lt n 10) [
  | yes small ↦ rw (show_loop_small fuel n small) (omega arith)
  | no big ↦ rw (show_loop_big fuel n (omega arith)) (
      AllDigits-append (show_loop fuel (n / 10)) _ (show_loop-AllDigits fuel (n / 10))
        (omega arith))
]

pub show-AllDigits : (n : ℕ) → AllDigits (show n)
unfolding show
show-AllDigits n = show_loop-AllDigits (suc n) n
