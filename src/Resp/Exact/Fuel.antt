-- ===== src/Resp/Exact/Fuel.antt =====
-- The fuel of the RESP parser is enough: the depth of a value is at most the number of its bytes. For
-- `parse_value` of src/protocol/resp.rs.
use kore.Base.{
  ℕ, zero, suc, ◌+◌, ◌≤◌, ◌<◌, ◌≡◌, ◌≢◌, refl, ap, Option, none, some, [], ◌∷◌, arith, ltb, length,
  length-append, Bytes, Bool-cases, inl, inr,
}
use kore.Base.Int.{ℤ, pos, negsuc}
use kore.Resp.{
  RespValue, simple_string, error, integer, bulk_string, array, null_array, map, null, push,
  no_values, value, no_pairs, pair,
}
use kore.Resp.Parser.{
  Parsed, parsed, parse_error, no_memory, out_of_fuel, Parser, bind, ◌>>=◌, ◌>>◌, pure, fail,
  get_u8, at_crlf, longer, read_line, expect_crlf, parse_i64, lift, read_int, natural, at_most,
  take_bytes, bulk_body, bulk_of, bool_of, reserve, parse_many, parse_pairs, array_of, TypeByte,
  plus, minus, colon, dollar, star, percent, hash, underscore, greater, other, type_byte,
  parse_bool, parse_map, parse_push, parse_body, parse_value, max_bulk, max_array,
}
use kore.Resp.Exact.{Exact, get_u8-Exact, expect_crlf-Exact, read_line-Exact}
use kore.Resp.Exact.Nested.{
  read_int-Exact, natural-Exact, at_most-Exact, reserve-Exact, parse_many-Exact, parse_pairs-Exact,
  parse_value-Exact, take_bytes-Exact,
}

-- The parser does not run out of fuel on a cursor of at most `n` bytes.
abbrev Ends {ℓ} : {A : Type ℓ} → ℕ → Parser A → Type ℓ
Ends n p = (xs : Bytes) → length xs ≤ n → p xs ≢ out_of_fuel

Exact-le {ℓ} :
    {A : Type ℓ} (p : Parser A) (xs : Bytes) (v : A) (rest : Bytes)
    → Exact p
    → p xs ≡ parsed v rest
    → length rest ≤ length xs
Exact-le p xs v rest e h =
    let (used, x, y) = e xs v rest h in omega (arith, ap length x, length-append used rest)

module _ {ℓ} {A : Type ℓ} (n : ℕ) where
  Ends-pure : (a : A) → Ends n (pure a)
  Ends-pure a xs h q = cc

  Ends-fail : Ends n (fail {A = A})
  Ends-fail xs h q = cc

  Ends-lift : (o : Option A) → Ends n (lift o)
  Ends-lift none = Ends-fail
  Ends-lift (some a) = Ends-pure a

bind-ne-out_of_fuel {ℓ κ} :
    {A : Type ℓ} {B : Type κ} (m : Parsed A) (f : A → Parser B)
    → m ≢ out_of_fuel
    → ((a : A) (mid : Bytes) → m ≡ parsed a mid → f a mid ≢ out_of_fuel)
    → bind m f ≢ out_of_fuel
bind-ne-out_of_fuel (parsed a mid) f h k q = k a mid refl q
bind-ne-out_of_fuel parse_error f h k q = cc
bind-ne-out_of_fuel no_memory f h k q = cc
bind-ne-out_of_fuel out_of_fuel f h k q = h refl

Ends-bind {ℓ κ} :
    {A : Type ℓ} {B : Type κ} (n : ℕ) (p : Parser A) (f : A → Parser B)
    → Exact p
    → Ends n p
    → ((a : A) → Ends n (f a))
    → Ends n (p >>= f)
Ends-bind n p f e h k xs l =
    bind-ne-out_of_fuel (p xs) f (h xs l)
      (λ a mid i. k a mid (omega (arith, Exact-le p xs a mid e i)))

longer-ne : (c : ℕ) (m : Parsed Bytes) → m ≢ out_of_fuel → longer c m ≢ out_of_fuel
unfolding longer
longer-ne c (parsed l r) h q = cc
longer-ne c parse_error h q = cc
longer-ne c no_memory h q = cc
longer-ne c out_of_fuel h q = h refl

read_line_ends : (xs : Bytes) → read_line xs ≢ out_of_fuel
unfolding read_line
read_line_ends [] = λ q. cc
read_line_ends (c ∷ cs) = elim (Bool-cases (at_crlf (c ∷ cs))) [
  | inl p ↦ rw p (λ q. cc)
  | inr p ↦ rw p (longer-ne c (read_line cs) (read_line_ends cs))
]

module _ (n : ℕ) where
  Ends-get_u8 : Ends n get_u8
  unfolding get_u8
  Ends-get_u8 [] h q = cc
  Ends-get_u8 (c ∷ cs) h q = cc

  Ends-crlf : Ends n expect_crlf
  unfolding expect_crlf
  Ends-crlf xs h q = ground arith

  Ends-line : Ends n read_line
  Ends-line xs h = read_line_ends xs

  Ends-int : Ends n read_int
  unfolding read_int
  Ends-int = Ends-bind n _ _ read_line-Exact Ends-line (λ l. Ends-lift n (parse_i64 l))

  Ends-at_most : (bound len : ℕ) → Ends n (at_most bound len)
  Ends-at_most bound len xs h q = ground arith

  Ends-reserve : (memory len : ℕ) → Ends n (reserve memory len)
  Ends-reserve memory len xs h q = ground arith

  Ends-natural : (i : ℤ) → Ends n (natural i)
  Ends-natural (pos k) = Ends-pure n k
  Ends-natural (negsuc k) = Ends-fail n

  Ends-take : (len : ℕ) → Ends n (take_bytes len)
  unfolding take_bytes
  Ends-take len xs h q = ground arith

  Ends-bulk_body : (len : ℕ) → Ends n (bulk_body len)
  unfolding bulk_body
  Ends-bulk_body len xs h = elim (Bool-cases (ltb (length xs) (len + 2))) [
    | inl p ↦ rw p (λ q. cc)
    | inr p ↦ rw p (
        Ends-bind n _ _ (take_bytes-Exact len) (Ends-take len)
          (λ s.
            Ends-bind n _ _ expect_crlf-Exact Ends-crlf (λ _. Ends-pure n (bulk_string (some s))))
          xs h)
  ]

  Ends-bulk : (i : ℤ) → Ends n (bulk_of i)
  unfolding bulk_of
  Ends-bulk (negsuc zero) = Ends-pure n (bulk_string none)
  Ends-bulk (negsuc (suc k)) = Ends-fail n
  Ends-bulk (pos len) =
      Ends-bind n _ _ (at_most-Exact max_bulk len) (Ends-at_most max_bulk len)
        (λ _. Ends-bulk_body len)

  Ends-bool_of : (b : ℕ) → Ends n (bool_of b)
  unfolding bool_of
  Ends-bool_of b xs h q = ground arith

module _ (n : ℕ) (read : Parser RespValue) (exact : Exact read) (ends : Ends n read) where
  Ends-many : (k : ℕ) → Ends n (parse_many read k)
  unfolding parse_many
  Ends-many zero = Ends-pure n no_values
  Ends-many (suc k) = Ends-bind n _ _ exact ends (λ v.
      Ends-bind n _ _ (parse_many-Exact read exact k) (Ends-many k)
        (λ vs. Ends-pure n (value v vs)))

  Ends-pairs : (k : ℕ) → Ends n (parse_pairs read k)
  unfolding parse_pairs
  Ends-pairs zero = Ends-pure n no_pairs
  Ends-pairs (suc k) = Ends-bind n _ _ exact ends (λ i. Ends-bind n _ _ exact ends (λ v.
      Ends-bind n _ _ (parse_pairs-Exact read exact k) (Ends-pairs k)
        (λ ps. Ends-pure n (pair i v ps))))

  Ends-array : (i : ℤ) → Ends n (array_of read i)
  unfolding array_of
  Ends-array (negsuc zero) = Ends-pure n null_array
  Ends-array (negsuc (suc k)) = Ends-fail n
  Ends-array (pos len) =
      Ends-bind n _ _ (at_most-Exact max_array len) (Ends-at_most n max_array len) (λ _.
        Ends-bind n _ _ (parse_many-Exact read exact len) (Ends-many len)
          (λ vs. Ends-pure n (array vs)))

  -- A length that is not negative and can be allocated, and so many things.
  Ends-sized {ℓ} :
      {A : Type ℓ} (memory : ℕ) (need : ℕ → ℕ) (rest : ℕ → Parser A)
      → ((len : ℕ) → Ends n (rest len))
      → Ends n (read_int >>= λ i. natural i >>= λ len. reserve memory (need len) >> rest len)
  Ends-sized memory need rest h = Ends-bind n _ _ read_int-Exact (Ends-int n) (λ i.
      Ends-bind n _ _ (natural-Exact i) (Ends-natural n i) (λ len.
        Ends-bind n _ _ (reserve-Exact memory (need len)) (Ends-reserve n memory (need len))
          (λ _. h len)))

  Ends-body : (memory : ℕ) (t : TypeByte) → Ends n (parse_body memory read t)
  unfolding parse_body parse_map parse_push parse_bool
  Ends-body memory plus =
      Ends-bind n _ _ read_line-Exact (Ends-line n) (λ l. Ends-pure n (simple_string l))
  Ends-body memory minus =
      Ends-bind n _ _ read_line-Exact (Ends-line n) (λ l. Ends-pure n (error l))
  Ends-body memory colon =
      Ends-bind n _ _ read_int-Exact (Ends-int n) (λ i. Ends-pure n (integer i))
  Ends-body memory dollar = Ends-bind n _ _ read_int-Exact (Ends-int n) (Ends-bulk n)
  Ends-body memory star = Ends-bind n _ _ read_int-Exact (Ends-int n) Ends-array
  Ends-body memory percent =
      Ends-sized memory (λ len. len + len) _
        (λ len.
          Ends-bind n _ _ (parse_pairs-Exact read exact len) (Ends-pairs len)
            (λ ps. Ends-pure n (map ps)))
  Ends-body memory hash =
      Ends-bind n _ _ get_u8-Exact (Ends-get_u8 n)
        (λ b. Ends-bind n _ _ expect_crlf-Exact (Ends-crlf n) (λ _. Ends-bool_of n b))
  Ends-body memory underscore =
      Ends-bind n _ _ expect_crlf-Exact (Ends-crlf n) (λ _. Ends-pure n null)
  Ends-body memory greater =
      Ends-sized memory (λ len. len) _
        (λ len.
          Ends-bind n _ _ (parse_many-Exact read exact len) (Ends-many len)
            (λ vs. Ends-pure n (push vs)))
  Ends-body memory other = Ends-fail n

-- Fuel above the number of bytes is enough: the parser comes to a value or to an error.
pub parse_value_ends :
    (memory fuel : ℕ) (xs : Bytes) → length xs < fuel → parse_value memory fuel xs ≢ out_of_fuel
unfolding parse_value get_u8
parse_value_ends memory zero xs h = absurd (omega arith)
parse_value_ends memory (suc fuel) [] h = λ q. cc
parse_value_ends memory (suc fuel) (c ∷ cs) h =
    Ends-body (length cs) (parse_value memory fuel) (parse_value-Exact memory fuel)
      (λ ys l. parse_value_ends memory fuel ys (omega arith)) memory (type_byte c) cs (omega arith)
